-- ===== src/History/Text.antt =====
-- What history.py does with texts: the test of a run ID, slices and concatenation.
use Prim.Native.String.{String}
use traversal.Base.{ℕ, zero, suc, Bool, ◌&&◌, ◌||◌, leb, ◌==◌, all_chars}

-- `len(text)`
unfoldable pub char_count : String → ℕ
char_count String.[] = 0
char_count (String.◌∷◌ c s) = suc (char_count s)

-- `c in "0123456789abcdef"`
abbrev pub is_hex : ℕ → Bool
is_hex c = (leb b'0' c && leb c b'9') || (leb b'a' c && leb c b'f')

-- The test of `_lease`.
unfoldable pub is_run_id : String → Bool
unfolding char_count all_chars
is_run_id s = char_count s == 32 && all_chars is_hex s

-- `text[:n]`
unfoldable pub take_chars : ℕ → String → String
take_chars zero s = String.[]
take_chars (suc n) String.[] = String.[]
take_chars (suc n) (String.◌∷◌ c s) = String.◌∷◌ c (take_chars n s)

unfoldable pub concat : String → String → String
concat String.[] t = t
concat (String.◌∷◌ c s) t = String.◌∷◌ c (concat s t)
