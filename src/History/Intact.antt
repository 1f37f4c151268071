-- ===== src/History/Intact.antt =====
-- The table of results: what its rows satisfy.
use traversal.Base.{
  ℕ, ◌≡◌, refl, String, Bool, true, false, not, ◌&&◌, List, [], ◌∷◌, ◌++◌, map, every, keep, ltb,
  str_eq, mem_text, all_different, eq_iff, arith,
}
use traversal.Exceptions.{Result, return, raise}
use traversal.Cache.{Object, Codec, encode}
use traversal.History.{Settings, ResultRow, Database}
use traversal.History.Results.{encode_cases, saved, dropped}
use traversal.History.Stored.{save_result}

abbrev names_of : List ResultRow → List String
names_of rows = map (λ r. r.fingerprint) rows

keep-mem_text :
    (key name : String) (rows : List ResultRow)
    → mem_text name (names_of rows) ≡ false
    → mem_text name (names_of (keep (λ r. not (str_eq r.fingerprint key)) rows)) ≡ false
unfolding mem_text
keep-mem_text key name [] h = refl
keep-mem_text key name (r ∷ rows) h = ground (arith, keep-mem_text key name rows)

keep-key :
    (key : String) (rows : List ResultRow)
    → mem_text key (names_of (keep (λ r. not (str_eq r.fingerprint key)) rows)) ≡ false
unfolding mem_text
keep-key key [] = refl
keep-key key (r ∷ rows) = ground (arith, keep-key key rows)

keep-all_different :
    (key : String) (rows : List ResultRow)
    → all_different (names_of rows) ≡ true
    → all_different (names_of (keep (λ r. not (str_eq r.fingerprint key)) rows)) ≡ true
unfolding all_different
keep-all_different key [] h = refl
keep-all_different key (r ∷ rows) h =
    ground (arith, keep-all_different key rows, keep-mem_text key r.fingerprint rows)

snoc-mem_text :
    (name : String) (rows : List ResultRow) (row : ResultRow)
    → mem_text name (names_of rows) ≡ false
    → str_eq row.fingerprint name ≡ false
    → mem_text name (names_of (rows ++ row ∷ [])) ≡ false
unfolding mem_text
snoc-mem_text name [] row h differ = ground arith
snoc-mem_text name (r ∷ rows) row h differ = ground (arith, snoc-mem_text name rows row)

snoc-all_different :
    (rows : List ResultRow) (row : ResultRow)
    → all_different (names_of rows) ≡ true
    → mem_text row.fingerprint (names_of rows) ≡ false
    → all_different (names_of (rows ++ row ∷ [])) ≡ true
unfolding all_different mem_text
snoc-all_different [] row h fresh = refl
snoc-all_different (r ∷ rows) row h fresh = ground (
  arith,
  snoc-all_different rows row,
  snoc-mem_text r.fingerprint rows row,
  eq_iff r.fingerprint row.fingerprint,
  eq_iff row.fingerprint r.fingerprint,
)

every-keep :
    (test good : ResultRow → Bool) (rows : List ResultRow)
    → every good rows ≡ true
    → every good (keep test rows) ≡ true
every-keep test good [] h = refl
every-keep test good (r ∷ rows) h = ground (arith, every-keep test good rows)

every_snoc :
    (good : ResultRow → Bool) (rows : List ResultRow) (row : ResultRow)
    → every good rows ≡ true
    → good row ≡ true
    → every good (rows ++ row ∷ []) ≡ true
every_snoc good [] row h fits = ground arith
every_snoc good (r ∷ rows) row h fits = ground (arith, every_snoc good rows row)

module _ (c : Codec) (s : Settings) where
  -- The payload is within the limit of the store, and the digest is its own.
  abbrev pub is_intact : ResultRow → Bool
  is_intact r =
      not (ltb s.max_cache_bytes (c.byte_length r.payload)) && str_eq (c.sha256 r.payload) r.digest

  -- That of all rows, and no fingerprint has two.
  pub record AreIntact (rows : List ResultRow) : Type 0 where
    pub intact : every is_intact rows ≡ true
    pub different : all_different (names_of rows) ≡ true

  keep-AreIntact :
      (key : String) (rows : List ResultRow)
      → AreIntact rows
      → AreIntact (keep (λ r. not (str_eq r.fingerprint key)) rows)
  keep-AreIntact key rows a = record {
    intact = every-keep (λ r. not (str_eq r.fingerprint key)) is_intact rows a.intact;
    different = keep-all_different key rows a.different;
  }

  -- `_save_result` keeps that, whether `encode` returns or raises.
  pub save_result-AreIntact :
      (frames : ℕ) (db : Database) (key : String) (v : Object)
      → AreIntact db.results
      → AreIntact (save_result c s frames db key v).0.results
  save_result-AreIntact frames db key v a = by_result (encode c v s.max_cache_bytes frames) refl
    where
      others : AreIntact (keep (λ r. not (str_eq r.fingerprint key)) db.results)
      others = keep-AreIntact key db.results a

      by_result :
          (m : Result (String × String))
          → encode c v s.max_cache_bytes frames ≡ m
          → AreIntact (save_result c s frames db key v).0.results
      by_result (raise e) h = rw (dropped c s frames db key v e h) others
      by_result (return (payload, digest)) h =
          let (_, _, fits, sealed) = encode_cases c s frames v payload digest h in
          let row : ResultRow = record { fingerprint = key; payload = payload; digest = digest } in
          let whole : is_intact row ≡ true =
            ground (arith, fits, sealed, eq_iff (c.sha256 payload) digest) in
          rw (saved c s frames db key v payload digest h) (record {
            intact = every_snoc is_intact _ row others.intact whole;
            different = snoc-all_different _ row others.different (keep-key key db.results);
          })
