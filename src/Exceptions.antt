-- ===== src/Exceptions.antt =====
-- The exceptions that python/traversal raises or passes on, and the results of calls that may raise. A message is
-- the source's text; where it is formatted from values, the values are kept.
use traversal.Base.{String, List, ◌⊎◌, inl, inr, ◌≡◌, refl, Bool, true, false}
use traversal.Engine.Errors.{GraphError}

pub data Exception : Type 0 where
  value_error : String → Exception
  type_error : String → Exception
  runtime_error : String → Exception
  key_error : String → Exception
  recursion_error : Exception
  index_error : Exception
  integrity_error : String → Exception
  operational_error : (name : String) → Exception
  run_active : String → Exception
  resume_decision : List String → Exception
  run_error : (graph : String) (failures : List String) → Exception
  engine_error : GraphError → Exception
  os_error : (type_name path : String) → Exception
  usage_error : String → Exception
  cancelled_error : Exception

-- `str(exc)` of the exceptions that `encode` raises.
unfoldable pub message : Exception → String
message (value_error text) = text
message (type_error text) = text
message recursion_error = "maximum recursion depth exceeded"
message _ = ""

-- Whether `except (ValueError, TypeError, RecursionError)` catches it.
abbrev pub is_caught : Exception → Bool
is_caught (value_error text) = true
is_caught (type_error text) = true
is_caught recursion_error = true
is_caught _ = false

pub data Result {ℓ} (X : Type ℓ) : Type ℓ where
  raise : Exception → Result X
  return : X → Result X

infixl 5 ◌>>=◌
abbrev pub ◌>>=◌ {a b} : {X : Type a} {Y : Type b} → Result X → (X → Result Y) → Result Y
raise exc >>= then_do = raise exc
return x >>= then_do = then_do x

infixl 5 ◌>>◌
abbrev pub ◌>>◌ {a} : {Y : Type a} → Result (Unit {0}) → Result Y → Result Y
statement >> rest = statement >>= λ _. rest

-- `if not ok: raise e`
abbrev pub require : Bool → Exception → Result (Unit {0})
require false exc = raise exc
require true exc = return tt

pub >>=-eq-return {a b} :
    {X : Type a} {Y : Type b} (first : Result X) (rest : X → Result Y) {y : Y}
    → (first >>= rest) ≡ return y
    → (x : X) × (first ≡ return x) × (rest x ≡ return y)
>>=-eq-return (raise exc) rest e = cc
>>=-eq-return (return x) rest e = (x, refl, e)

pub Result-cases {ℓ} :
    {A : Type ℓ} (r : Result A) → ((x : Exception) × (r ≡ raise x)) ⊎ ((a : A) × (r ≡ return a))
Result-cases (raise x) = inl (x, refl)
Result-cases (return a) = inr (a, refl)
