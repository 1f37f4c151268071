-- ===== src/Cache.antt =====
-- python/traversal/cache.py: explicit cache keys, and the strict encoding of results.
pub mod Raises
use traversal.Base.{
  ℕ, ◌-◌, String, Bool, true, false, not, Option, none, some, List, [], ◌∷◌, ◌≡◌, ltb, ◌==◌,
  if◌then◌else◌, mem, str_eq,
}
use traversal.Exceptions.{
  Exception, is_caught, value_error, recursion_error, Result, return, raise, ◌>>=◌, ◌>>◌, require,
}

-- A Python object as `encode` sees it. A list or dictionary has its identity `id(v)`; one that
-- contains itself is unfolded down to the repeated identity, where `encode` stops reading. `other` is
-- an object of any other type, also of a subclass of these.
mutual
  pub data Object : Type 0 where
    null : Object
    bool : Bool → Object
    int : (negative : Bool) (magnitude : ℕ) → Object
    float : (finite : Bool) (bits : ℕ) → Object
    str : String → Object
    list : (ident : ℕ) → Objects → Object
    dict : (ident : ℕ) → Entries → Object
    other : (ident : ℕ) → Object

  pub data Objects : Type 0 where
    nil : Objects
    cons : Object → Objects → Objects

  -- The entries of a dictionary; the key is `none` if it is no `str`.
  pub data Entries : Type 0 where
    end : Entries
    entry : Option String → Object → Entries → Entries

-- `any(type(k) is not str for k in v)`
abbrev pub has_other_key : Entries → Bool
has_other_key end = false
has_other_key (entry none v rest) = true
has_other_key (entry (some k) v rest) = has_other_key rest

-- The local function `check` of `encode`. `frames` is the room that is left on the interpreter's
-- stack: a call without room raises RecursionError.
unfoldable mutual
  pub check : Object → (frames : ℕ) (seen : List ℕ) → Result (Unit {0})
  check null frames seen = require (not (frames == 0)) recursion_error
  check (bool b) frames seen = require (not (frames == 0)) recursion_error
  check (int s m) frames seen = require (not (frames == 0)) recursion_error
  check (float finite b) frames seen =
      require (not (frames == 0)) recursion_error
      >> require finite (value_error "result must contain only finite JSON-native values")
  check (str s) frames seen = require (not (frames == 0)) recursion_error
  check (list ident vs) frames seen =
      require (not (frames == 0)) recursion_error
      >> require (not (mem ident seen)) (value_error "circular result")
      >> check_all vs (frames - 1) (ident ∷ seen)
  check (dict ident es) frames seen =
      require (not (frames == 0)) recursion_error
      >> require (not (mem ident seen)) (value_error "circular result")
      >> require (not (has_other_key es)) (value_error "JSON result keys must be strings")
      >> check_entries es (frames - 1) (ident ∷ seen)
  check (other ident) frames seen =
      require (not (frames == 0)) recursion_error
      >> raise (value_error "result must contain only finite JSON-native values")

  pub check_all : Objects → (frames : ℕ) (seen : List ℕ) → Result (Unit {0})
  check_all nil frames seen = return tt
  check_all (cons v vs) frames seen = check v frames seen >> check_all vs frames seen

  pub check_entries : Entries → (frames : ℕ) (seen : List ℕ) → Result (Unit {0})
  check_entries end frames seen = return tt
  check_entries (entry k v rest) frames seen = check v frames seen >> check_entries rest frames seen

-- What `encode` and `fingerprint` use of the standard library: `json.dumps` with sorted keys,
-- `json.loads`, the UTF-8 length of a text and SHA-256 in hexadecimal. `dumps` may raise, as for an
-- integer with too many digits, but only ValueError, TypeError and RecursionError; `loads` gives `none`
-- then. A text that `dumps` made of a value that
-- passes `check` is read back to one that passes it again and prints the same text.
pub record Codec : Type 0 where
  pub dumps : Object → Result String
  pub loads : String → Option Object
  pub byte_length : String → ℕ
  pub sha256 : String → String
  pub dumps_raises : (v : Object) (x : Exception) → dumps v ≡ raise x → is_caught x ≡ true
  pub reads_back :
      (frames : ℕ) (v : Object) (text : String)
      → check v frames [] ≡ return tt
      → dumps v ≡ return text
      → (v' : Object) × (loads text ≡ some v')
        × (check v' frames [] ≡ return tt)
        × (dumps v' ≡ return text)

module _ (c : Codec) where
  unfoldable pub encode : Object → (max_bytes frames : ℕ) → Result (String × String)
  unfolding check
  encode v max_bytes frames = do
    check v frames []
    payload ← c.dumps v
    require (not (ltb max_bytes (c.byte_length payload)))
        (value_error "result exceeds cache byte limit")
    return (payload, c.sha256 payload)

  -- A list of texts and of pairs of texts, as `Plan._fingerprints` makes it.
  abbrev pub texts : List String → Objects
  texts [] = nil
  texts (s ∷ ss) = cons (str s) (texts ss)

  -- The values that the plan makes hold texts and lists only, which `dumps` prints.
  unfoldable pub fingerprint : Object → String
  fingerprint v = elim (c.dumps v) [ raise e ↦ "" | return text ↦ c.sha256 text ]

-- `Cache(key)`; `none` is a key that is no `str`.
pub record Cache : Type 0 where
  pub key : String

unfoldable pub cache : Option String → Result Cache
cache none = raise (value_error "cache key must be a nonempty string")
cache (some key) =
    if str_eq key ""
    then raise (value_error "cache key must be a nonempty string")
    else return (record { key = key })
