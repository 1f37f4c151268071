-- ===== src/History/Results.antt =====
-- The table of results: what `_save_result` writes and `_cached` reads.
use traversal.Base.{
  ℕ, ◌≡◌, ◌≢◌, ◌∙◌, refl, ap, String, false, not, Option, none, some, List, [], ◌∷◌, ◌++◌, str_eq,
  ltb, keep, eq_iff, eq_refl, arith,
}
use traversal.Exceptions.{Exception, Result, return, raise, >>=-eq-return}
use traversal.Cache.{Object, Codec, check, encode}
use traversal.History.{Settings, ResultRow, Database}
use traversal.History.Stored.{Cached, find_result, read_result, cached, save_result}

find_result-keep_same :
    (key : String) (rows : List ResultRow) (row : ResultRow)
    → row.fingerprint ≡ key
    → find_result key (keep (λ r. not (str_eq r.fingerprint key)) rows ++ row ∷ []) ≡ some row
unfolding find_result
find_result-keep_same key [] row e = rw (e, eq_refl key) refl
find_result-keep_same key (r ∷ rows) row e = ground (arith, find_result-keep_same key rows row e)

find_result-keep-none :
    (key : String) (rows : List ResultRow)
    → find_result key (keep (λ r. not (str_eq r.fingerprint key)) rows) ≡ none
unfolding find_result
find_result-keep-none key [] = refl
find_result-keep-none key (r ∷ rows) = ground (arith, find_result-keep-none key rows)

find_result-keep_other :
    (key other : String) (rows : List ResultRow)
    → other ≢ key
    → find_result other (keep (λ r. not (str_eq r.fingerprint key)) rows) ≡ find_result other rows
unfolding find_result
find_result-keep_other key other [] differ = refl
find_result-keep_other key other (r ∷ rows) differ = ground (
  arith,
  find_result-keep_other key other rows differ,
  eq_iff r.fingerprint key,
  eq_iff r.fingerprint other,
)

find_result-snoc_other :
    (other : String) (rows : List ResultRow) (row : ResultRow)
    → str_eq row.fingerprint other ≡ false
    → find_result other (rows ++ row ∷ []) ≡ find_result other rows
unfolding find_result
find_result-snoc_other other [] row differ = ground arith
find_result-snoc_other other (r ∷ rows) row differ =
    ground (arith, find_result-snoc_other other rows row differ)

module _ (c : Codec) (settings : Settings) (frames : ℕ) where
  pub encode_cases :
      (v : Object) (payload digest : String)
      → encode c v settings.max_cache_bytes frames ≡ return (payload, digest)
      → (check v frames [] ≡ return tt)
        × (c.dumps v ≡ return payload)
        × (ltb settings.max_cache_bytes (c.byte_length payload) ≡ false)
        × (digest ≡ c.sha256 payload)
  unfolding encode
  encode_cases v payload digest h =
      let (unit, passes, rest) = >>=-eq-return (check v frames []) _ h in
      let (text, printed, last) = >>=-eq-return (c.dumps v) _ rest in
      let fits : (ltb settings.max_cache_bytes (c.byte_length text) ≡ false)
          × (text ≡ payload)
          × (digest ≡ c.sha256 text) =
        ground arith in
      let e : text ≡ payload = fits.1 in
      (passes, printed ∙ ap return e, rw (← e) fits.0, rw (← e) fits.2)

  encode_fits :
      (v : Object) (payload : String)
      → check v frames [] ≡ return tt
      → c.dumps v ≡ return payload
      → ltb settings.max_cache_bytes (c.byte_length payload) ≡ false
      → encode c v settings.max_cache_bytes frames ≡ return (payload, c.sha256 payload)
  unfolding encode
  encode_fits v payload passes printed fits = rw (encode, passes, printed, fits) refl

  abbrev pub persisted : Option Object → Cached
  persisted value = record { value = value; reason = "compatible persisted result" }

  -- Reading a row that `encode` made.
  read_encoded :
      (db : Database) (key payload : String) (v : Object)
      → find_result key db.results
        ≡ some (record { fingerprint = key; payload = payload; digest = c.sha256 payload })
      → check v frames [] ≡ return tt
      → c.dumps v ≡ return payload
      → ltb settings.max_cache_bytes (c.byte_length payload) ≡ false
      → (v' : Object) × (read_result c settings frames db key ≡ persisted (some v'))
        × (c.dumps v' ≡ return payload)
  unfolding read_result
  read_encoded db key payload v found passes printed fits =
      let (v', loaded, passes', printed') = c.reads_back frames v payload passes printed in
      (
        v',
        rw
            (
              read_result,
              found,
              fits,
              eq_refl (c.sha256 payload),
              loaded,
              encode_fits v' payload passes' printed' fits,
            )
            refl,
        printed',
      )

  abbrev pub without : String → List ResultRow → List ResultRow
  without key rows = keep (λ r. not (str_eq r.fingerprint key)) rows

  abbrev pub with_row : Database → ResultRow → Database
  with_row db row = record db { results = without row.fingerprint db.results ++ row ∷ [] }

  pub saved :
      (db : Database) (key : String) (v : Object) (payload digest : String)
      → encode c v settings.max_cache_bytes frames ≡ return (payload, digest)
      → (save_result c settings frames db key v).0
        ≡ with_row db (record { fingerprint = key; payload = payload; digest = digest })
  unfolding save_result
  saved db key v payload digest h = rw (save_result, h) refl

  pub dropped :
      (db : Database) (key : String) (v : Object) (e : Exception)
      → encode c v settings.max_cache_bytes frames ≡ raise e
      → (save_result c settings frames db key v).0 ≡ record db { results = without key db.results }
  unfolding save_result
  dropped db key v e h = rw (save_result, h) refl

  -- `_cached` looks at the nodes and at the row of the key.
  cached_same :
      (db db' : Database) (key node : String) (previous : Option String)
      → db'.nodes ≡ db.nodes
      → find_result key db'.results ≡ find_result key db.results
      → cached c settings frames db' key previous node
        ≡ cached c settings frames db key previous node
  unfolding cached read_result
  cached_same db db' key node none nodes found = rw (cached, read_result, found) refl
  cached_same db db' key node (some previous) nodes found =
      rw (cached, read_result, found, nodes) refl

  -- If `encode` returns the payload of a value, then after `_save_result` under a key, `_cached`
  -- finds under that key, for a run that is no resumption, a value with the same payload.
  pub save_result-cached :
      (db : Database) (key node : String) (v : Object) (payload digest : String)
      → encode c v settings.max_cache_bytes frames ≡ return (payload, digest)
      → (v' : Object) × (cached c settings frames
            (save_result c settings frames db key v).0
            key
            none
            node
          ≡ persisted (some v'))
        × (c.dumps v' ≡ return payload)
  unfolding cached
  save_result-cached db key node v payload digest h =
      let (passes, printed, fits, e) = encode_cases v payload digest h in
      let row : ResultRow = record {
        fingerprint = key;
        payload = payload;
        digest = c.sha256 payload;
      } in
      rw (saved db key v payload digest h, e)
        (read_encoded (with_row db row) key payload v
          (find_result-keep_same key db.results row refl) passes printed fits)

  -- After `_save_result` under a key, whether `encode` returns or raises, `_cached` finds under
  -- every other key what it found before.
  pub save_result-others :
      (db : Database) (key other node : String) (previous : Option String) (v : Object)
      → other ≢ key
      → cached c settings frames (save_result c settings frames db key v).0 other previous node
        ≡ cached c settings frames db other previous node
  save_result-others db key other node previous v differ =
      outcome (encode c v settings.max_cache_bytes frames) refl
    where
      outcome :
          (m : Result (String × String))
          → encode c v settings.max_cache_bytes frames ≡ m
          → cached c settings frames (save_result c settings frames db key v).0 other previous node
            ≡ cached c settings frames db other previous node
      outcome (raise e) h = rw (dropped db key v e h) (
          cached_same db (record db { results = without key db.results }) other node previous refl
            (find_result-keep_other key other db.results differ))
      outcome (return (payload, digest)) h =
          let row : ResultRow = record { fingerprint = key; payload = payload; digest = digest } in
          rw (saved db key v payload digest h) (
            cached_same db (with_row db row) other node previous refl (
              find_result-snoc_other other (without key db.results) row
                (ground (arith, eq_iff key other))
              ∙ find_result-keep_other key other db.results differ))

  -- If `encode` raises, then after `_save_result` under a key, `_cached` finds no value under that
  -- key.
  pub save_result_fails :
      (db : Database) (key node : String) (previous : Option String) (v : Object) (e : Exception)
      → encode c v settings.max_cache_bytes frames ≡ raise e
      → (cached c settings frames
          (save_result c settings frames db key v).0
          key
          previous
          node).value
        ≡ none
  unfolding save_result cached read_result
  save_result_fails db key node none v e h =
      rw (dropped db key v e h, cached, read_result, find_result-keep-none key db.results) refl
  save_result_fails db key node (some previous) v e h =
      rw (dropped db key v e h, cached, read_result, find_result-keep-none key db.results)
        (ground arith)
