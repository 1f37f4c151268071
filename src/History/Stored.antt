-- ===== src/History/Stored.antt =====
-- The table of results in python/traversal/history.py: `_cached` and `_save_result`.
use traversal.Base.{
  ℕ, String, Bool, false, not, ◌&&◌, Option, none, some, List, [], ◌∷◌, ◌++◌, ltb, if◌then◌else◌,
  str_eq, mem_text, keep, some_of,
}
use traversal.Exceptions.{return, raise, message}
use traversal.Cache.{Object, Codec, encode}
use traversal.History.Text.{concat}
use traversal.History.{Settings, NodeRow, ResultRow, Database, is_row}

-- `SELECT payload,digest FROM results WHERE fingerprint=? AND …`
unfoldable pub find_result : String → List ResultRow → Option ResultRow
find_result key [] = none
find_result key (r ∷ rows) = if str_eq r.fingerprint key then some r else find_result key rows

-- `cache_key=?` in SQL: NULL equals nothing.
abbrev pub has_key : String → Option String → Bool
has_key key none = false
has_key key (some k) = str_eq k key

-- The row that allows reuse from a previous run.
abbrev pub allows : (previous node key : String) → NodeRow → Bool
allows previous node key n =
    is_row previous node n
    && has_key key n.cache_key
    && mem_text n.state ("succeeded" ∷ "reused" ∷ [])

-- `(found, value, reason)`
pub record Cached : Type 0 where
  pub value : Option Object
  pub reason : String

module _ (c : Codec) (settings : Settings) (frames : ℕ) where
  -- `_cached` after the check of the previous run.
  unfoldable pub read_result : Database → String → Cached
  unfolding find_result encode
  read_result db key = elim (find_result key db.results) [
    | none ↦ record { value = none; reason = "result missing or exceeds byte limit" }
    | some row ↦
        if ltb settings.max_cache_bytes (c.byte_length row.payload)
        then record { value = none; reason = "result missing or exceeds byte limit" }
        else if not (str_eq (c.sha256 row.payload) row.digest)
        then record { value = none; reason = "result integrity check failed" }
        else elim (c.loads row.payload) [
          | none ↦ record { value = none; reason = "invalid JSON result" }
          | some v ↦ elim (encode c v settings.max_cache_bytes frames) [
            | raise e ↦ record { value = none; reason = "invalid JSON result" }
            | return p ↦ record { value = some v; reason = "compatible persisted result" }
          ]
        ]
  ]

  unfoldable pub cached :
      Database → (key : String) → (previous : Option String) → (node : String) → Cached
  unfolding read_result
  cached db key none node = read_result db key
  cached db key (some previous) node =
      if some_of (allows previous node key) db.nodes
      then read_result db key
      else record { value = none; reason = "no compatible result in previous run" }

  -- `_save_result`: the new rows and the note.
  unfoldable pub save_result : Database → (key : String) → Object → Database × String
  unfolding encode
  save_result db key value =
      let others = keep (λ r. not (str_eq r.fingerprint key)) db.results in
      elim (encode c value settings.max_cache_bytes frames) [
        | raise e ↦ (record db { results = others }, concat "not persisted: " (message e))
        | return (payload, digest) ↦ (
          record db {
            results =
                others ++ record { fingerprint = key; payload = payload; digest = digest } ∷ [];
          },
          "result persisted",
        )
      ]
