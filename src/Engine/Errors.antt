-- ===== src/Engine/Errors.antt =====
-- `GraphError` of crates/traversal-core/src/graph.rs. Each message is a constructor with the values
-- that the message is formatted from.
use traversal.Base.{ℕ, String, List, ◌≡◌, refl}

pub data GraphError : Type 0 where
  bad_name : String → GraphError
  foreign_node : GraphError
  self_dependency : String → GraphError
  cycle : List String → GraphError
  no_target : GraphError
  unknown_target : String → GraphError
  no_concurrency : GraphError
  not_running : ℕ → GraphError
  invalid_outcome : GraphError
  length_mismatch : GraphError
  unknown_index : GraphError

pub data Result {ℓ} (X : Type ℓ) : Type ℓ where
  err : GraphError → Result X
  ok : X → Result X

-- The `?` of Rust.
infixl 5 ◌>>=◌
abbrev pub ◌>>=◌ {a b} : {X : Type a} {Y : Type b} → Result X → (X → Result Y) → Result Y
err error >>= then_do = err error
ok x >>= then_do = then_do x

-- A chain that returns: its first part does, and the rest from there.
pub >>=-eq-ok {a b} :
    {X : Type a} {Y : Type b} (first : Result X) (rest : X → Result Y) {y : Y}
    → (first >>= rest) ≡ ok y
    → (x : X) × (first ≡ ok x) × (rest x ≡ ok y)
>>=-eq-ok (err error) rest e = cc
>>=-eq-ok (ok x) rest e = (x, refl, e)
