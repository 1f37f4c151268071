-- ===== src/Cache/Raises.antt =====
-- `encode` raises only what its callers in history.py catch.
use traversal.Base.{
  ℕ, ◌-◌, ◌≡◌, refl, sym, [], Bool, true, false, not, List, ◌∷◌, ltb, ◌==◌, mem, arith,
}
use traversal.Exceptions.{
  Exception, is_caught, value_error, recursion_error, Result, raise, return, ◌>>=◌, ◌>>◌, require,
}
use traversal.Cache.{
  Object, Objects, Entries, null, bool, int, float, str, list, dict, other, nil, cons, end, entry,
  has_other_key, check, check_all, check_entries, Codec, encode,
}

require-raise :
    (ok : Bool) (y x : Exception) → is_caught y ≡ true → require ok y ≡ raise x → is_caught x ≡ true
require-raise true y x c h = cc
require-raise false y x c h = ground (arith, c, h)

-- A test and what comes behind it.
require->> :
    (ok : Bool) (y : Exception) (rest : Result (Unit {0})) (x : Exception)
    → is_caught y ≡ true
    → (rest ≡ raise x → is_caught x ≡ true)
    → (require ok y >> rest) ≡ raise x
    → is_caught x ≡ true
require->> true y rest x c k h = k h
require->> false y rest x c k h = ground (arith, c, h)

>>=-raise :
    {A B : Type 0} (first : Result A) (rest : A → Result B) (x : Exception)
    → ((y : Exception) → first ≡ raise y → is_caught y ≡ true)
    → ((a : A) → rest a ≡ raise x → is_caught x ≡ true)
    → (first >>= rest) ≡ raise x
    → is_caught x ≡ true
>>=-raise (raise y) rest x c k h = let e : y ≡ x = cc in rw (sym e) (c y refl)
>>=-raise (return a) rest x c k h = k a h

-- The tests before the items of a container.
abbrev entered : (frames ident : ℕ) (seen : List ℕ) → Result (Unit {0})
entered frames ident seen =
    require (not (frames == 0)) recursion_error
    >> require (not (mem ident seen)) (value_error "circular result")

entered-raise :
    (frames ident : ℕ) (seen : List ℕ) (x : Exception)
    → entered frames ident seen ≡ raise x
    → is_caught x ≡ true
entered-raise frames ident seen x h =
    require->> (not (frames == 0)) recursion_error _ x refl
      (require-raise (not (mem ident seen)) (value_error "circular result") x refl) h

mutual
  unfolding check check_all check_entries

  check-raise :
      (v : Object) (frames : ℕ) (seen : List ℕ) (x : Exception)
      → check v frames seen ≡ raise x
      → is_caught x ≡ true
  check-raise null frames seen x h = require-raise (not (frames == 0)) recursion_error x refl h
  check-raise (bool b) frames seen x h = require-raise (not (frames == 0)) recursion_error x refl h
  check-raise (int s m) frames seen x h = require-raise (not (frames == 0)) recursion_error x refl h
  check-raise (str s) frames seen x h = require-raise (not (frames == 0)) recursion_error x refl h
  check-raise (float finite b) frames seen x h =
      require->> (not (frames == 0)) recursion_error _ x refl
        (require-raise finite (value_error "result must contain only finite JSON-native values") x
          refl)
        h
  check-raise (list ident vs) frames seen x h =
      >>=-raise (entered frames ident seen) (λ _. check_all vs (frames - 1) (ident ∷ seen)) x
        (entered-raise frames ident seen) (λ _. check_all-raise vs (frames - 1) (ident ∷ seen) x) h
  check-raise (dict ident es) frames seen x h =
      >>=-raise
        (entered frames ident seen
          >> require (not (has_other_key es)) (value_error "JSON result keys must be strings"))
        (λ _. check_entries es (frames - 1) (ident ∷ seen)) x
        (λ y. >>=-raise (entered frames ident seen) _ y (entered-raise frames ident seen) (λ _.
          require-raise (not (has_other_key es)) (value_error "JSON result keys must be strings") y
            refl))
        (λ _. check_entries-raise es (frames - 1) (ident ∷ seen) x) h
  check-raise (other ident) frames seen x h =
      require->> (not (frames == 0)) recursion_error
        (raise (value_error "result must contain only finite JSON-native values")) x refl
        (λ k. ground (arith, k)) h

  check_all-raise :
      (vs : Objects) (frames : ℕ) (seen : List ℕ) (x : Exception)
      → check_all vs frames seen ≡ raise x
      → is_caught x ≡ true
  check_all-raise nil frames seen x h = cc
  check_all-raise (cons v vs) frames seen x h =
      >>=-raise (check v frames seen) (λ _. check_all vs frames seen) x (check-raise v frames seen)
        (λ _. check_all-raise vs frames seen x) h

  check_entries-raise :
      (es : Entries) (frames : ℕ) (seen : List ℕ) (x : Exception)
      → check_entries es frames seen ≡ raise x
      → is_caught x ≡ true
  check_entries-raise end frames seen x h = cc
  check_entries-raise (entry k v rest) frames seen x h =
      >>=-raise (check v frames seen) (λ _. check_entries rest frames seen) x
        (check-raise v frames seen) (λ _. check_entries-raise rest frames seen x) h

-- `_save_result` and `_cached` catch whatever `encode` raises.
encode-raise :
    (c : Codec) (v : Object) (max_bytes frames : ℕ) (x : Exception)
    → encode c v max_bytes frames ≡ raise x
    → is_caught x ≡ true
unfolding encode
encode-raise c v max_bytes frames x h =
    >>=-raise (check v frames []) _ x (check-raise v frames [])
      (λ _. >>=-raise (c.dumps v) _ x (c.dumps_raises v) (λ payload.
        >>=-raise
          (require (not (ltb max_bytes (c.byte_length payload)))
            (value_error "result exceeds cache byte limit"))
          _ x
          (λ y.
            require-raise (not (ltb max_bytes (c.byte_length payload)))
              (value_error "result exceeds cache byte limit") y refl)
          (λ _ k. cc)))
      h
