-- ===== src/Base/Text.antt =====
-- Texts: their equality, white space, and dictionaries keyed by them.
use Prim.Native.Char.{code}
use mathlib.Core.Option.{Option, none, some}
use text.Mathlib.TextEquality.{eq_iff}
use Prim.Native.String.{String}
use native.Mathlib.Omega.{arith}
use mathlib.Core.Path.{◌≡◌, refl}
use text.Mathlib.Text.{◌==◌ as same_text}
use Prim.Native.Nat.{ℕ}
use traversal.Base.Tests.{leb, ◌==◌, if◌then◌else◌}
use mathlib.Core.Bool.{Bool, true, false, not, ◌&&◌, ◌||◌}
use mathlib.Core.List.{List, [], ◌∷◌}

abbrev pub str_eq : String → String → Bool
str_eq s t = same_text s t

-- Unicode's White_Space property, by which Rust's `str::trim` goes.
abbrev pub is_white_space : ℕ → Bool
is_white_space c =
    (leb 0x9 c && leb c 0xd)
    || c == 0x20
    || c == 0x85
    || c == 0xa0
    || c == 0x1680
    || (leb 0x2000 c && leb c 0x200a)
    || c == 0x2028
    || c == 0x2029
    || c == 0x202f
    || c == 0x205f
    || c == 0x3000

-- Python's `str.isspace`, by which `str.strip` goes: the four separators 0x1c to 0x1f as well.
abbrev pub is_space : ℕ → Bool
is_space c = is_white_space c || (leb 0x1c c && leb c 0x1f)

unfoldable pub all_chars : (ℕ → Bool) → String → Bool
all_chars p String.[] = true
all_chars p (String.◌∷◌ c s) = p (code c) && all_chars p s

-- `name.trim().is_empty()`: nothing is left exactly when every character is trimmed.
abbrev pub trims_to_empty : String → Bool
trims_to_empty s = all_chars is_white_space s

-- `not name.strip()`
abbrev pub strips_to_empty : String → Bool
strips_to_empty s = all_chars is_space s

-- `x in names`
unfoldable pub mem_text : String → List String → Bool
mem_text x [] = false
mem_text x (y ∷ ys) = str_eq y x || mem_text x ys

-- No text stands twice.
unfoldable pub all_different : List String → Bool
unfolding mem_text
all_different [] = true
all_different (name ∷ names) = not (mem_text name names) && all_different names

module _ {ℓ} {V : Type ℓ} where
  unfoldable pub lookup : String → List (String × V) → Option V
  lookup name [] = none
  lookup name ((first, value) ∷ rest) = if str_eq first name then some value else lookup name rest

  -- A new key goes to the end, an old one keeps its place (a Python `dict`).
  unfoldable pub insert : String → V → List (String × V) → List (String × V)
  insert name new [] = (name, new) ∷ []
  insert name new ((first, value) ∷ rest) =
      if str_eq first name then (first, new) ∷ rest else (first, value) ∷ insert name new rest

  pub lookup-insert :
      (name other : String) (new : V) (dict : List (String × V))
      → lookup other (insert name new dict)
        ≡ (if str_eq name other then some new else lookup other dict)
  unfolding insert lookup
  lookup-insert name other new [] = refl
  lookup-insert name other new ((first, value) ∷ rest) = ground (
    arith,
    lookup-insert name other new rest,
    eq_iff first name,
    eq_iff first other,
    eq_iff name other,
  )
