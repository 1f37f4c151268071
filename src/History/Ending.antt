-- ===== src/History/Ending.antt =====
-- What `_end` leaves of the rows of a run: the given states.
use traversal.Base.{
  ℕ, ◌≡◌, refl, ◌∙◌, sym, ap, String, true, false, some, List, [], ◌∷◌, map, keep, str_eq, mem_text,
  all_different, eq_iff, if◌then◌else◌, arith,
}
use traversal.Exceptions.{return}
use traversal.History.Records.{RunRecord, find_run, get}
use traversal.History.Rows.{find_run-update, find_run-id}
use traversal.History.{
  NodeRow, RunRow, Database, is_row, update_rows, write_states, end_run, release_lease,
}

-- The names and states of the rows of a run.
abbrev pub view : String → List NodeRow → List (String × String)
view run_id nodes = map (λ n. (n.name, n.state)) (keep (λ n. str_eq n.run_id run_id) nodes)

-- The state of a row after all the updates.
after : List (String × String) → String → String → String
after [] name state = state
after ((n, t) ∷ states) name state = after states name (if str_eq name n then t else state)

abbrev written : List (String × String) → String × String → String × String
written states v = (v.0, after states v.0 v.1)

abbrev updated : String → String → String × String → String × String
updated name state v = (v.0, if str_eq v.0 name then state else v.1)

view-update :
    (run_id name state : String) (nodes : List NodeRow)
    → view run_id (update_rows (is_row run_id name) (λ n. record n { state = state }) nodes)
      ≡ map (updated name state) (view run_id nodes)
unfolding update_rows
view-update run_id name state [] = refl
view-update run_id name state (n ∷ nodes) = ground (arith, view-update run_id name state nodes)

map_after :
    (n t : String) (states vs : List (String × String))
    → map (written states) (map (updated n t) vs) ≡ map (written ((n, t) ∷ states)) vs
unfolding after
map_after n t states [] = refl
map_after n t states (v ∷ vs) =
    ap (λ ws. written ((n, t) ∷ states) v ∷ ws) (map_after n t states vs)

map_same : (vs : List (String × String)) → map (written []) vs ≡ vs
unfolding after
map_same [] = refl
map_same (v ∷ vs) = ap (λ ws. v ∷ ws) (map_same vs)

view-write_states :
    (run_id : String) (states : List (String × String)) (nodes : List NodeRow)
    → view run_id (write_states run_id states nodes) ≡ map (written states) (view run_id nodes)
unfolding write_states
view-write_states run_id [] nodes = sym (map_same (view run_id nodes))
view-write_states run_id ((n, t) ∷ states) nodes =
    view-write_states run_id states
      (update_rows (is_row run_id n) (λ r. record r { state = t }) nodes)
    ∙ ap (map (written states)) (view-update run_id n t nodes)
    ∙ map_after n t states (view run_id nodes)

after_absent :
    (states : List (String × String)) (name state : String)
    → mem_text name (map (λ s. s.0) states) ≡ false
    → after states name state ≡ state
unfolding after mem_text
after_absent [] name state h = refl
after_absent ((n, t) ∷ states) name state h =
    ground (arith, after_absent states name state, eq_iff n name, eq_iff name n)

after_others :
    (n t : String) (states vs : List (String × String))
    → mem_text n (map (λ v. v.0) vs) ≡ false
    → map (written ((n, t) ∷ states)) vs ≡ map (written states) vs
unfolding after mem_text
after_others n t states [] h = refl
after_others n t states (v ∷ vs) h = ground (arith, after_others n t states vs, eq_iff v.0 n)

after_head :
    (n t : String) (states : List (String × String)) (old : String)
    → mem_text n (map (λ s. s.0) states) ≡ false
    → after ((n, t) ∷ states) n old ≡ t
unfolding after
after_head n t states old absent =
    ap (λ b. after states n (if b then t else old)) ((eq_iff n n).1 refl)
    ∙ after_absent states n t absent

-- All rows get their states.
all_written :
    (states vs : List (String × String))
    → all_different (map (λ s. s.0) states) ≡ true
    → map (λ v. v.0) vs ≡ map (λ s. s.0) states
    → map (written states) vs ≡ states
unfolding all_different
all_written [] [] d h = refl
all_written [] (v ∷ vs) d h = cc
all_written (s ∷ states) [] d h = cc
all_written ((n, t) ∷ states) (v ∷ vs) d h =
    let first : v.0 ≡ n = cc in
    let others : map (λ v. v.0) vs ≡ map (λ s. s.0) states = cc in
    let absent : mem_text n (map (λ s. s.0) states) ≡ false = ground arith in
    let here : written ((n, t) ∷ states) v ≡ (n, t) =
      rw first (ap (λ (x : String). (n, x)) (after_head n t states v.1 absent)) in
    ap (λ ws. written ((n, t) ∷ states) v ∷ ws)
      (after_others n t states vs (rw others absent) ∙ all_written states vs (ground arith) others)
    ∙ ap (λ w. w ∷ states) here

abbrev pub row_names : String → List NodeRow → List String
row_names run_id nodes = map (λ n. n.name) (keep (λ n. str_eq n.run_id run_id) nodes)

view_names :
    (run_id : String) (nodes : List NodeRow)
    → map (λ v. v.0) (view run_id nodes) ≡ row_names run_id nodes
view_names run_id [] = refl
view_names run_id (n ∷ nodes) = ground (arith, view_names run_id nodes)

-- After `_end` and the release of the lease, `get` returns the run with the given status, and its
-- rows, in their order, have the given states, if these are states of the same names.
pub end_run-get :
    (db : Database) (run_id status : String) (states : List (String × String)) (now : ℕ)
    (run : RunRow)
    → find_run run_id db.runs ≡ some run
    → all_different (map (λ s. s.0) states) ≡ true
    → row_names run_id db.nodes ≡ map (λ s. s.0) states
    → (found : RunRecord) × (get (release_lease (end_run db run_id states status now) run_id) run_id
        ≡ return found)
      × (found.run.status ≡ status)
      × (map (λ n. (n.name, n.state)) found.nodes ≡ states)
unfolding get end_run release_lease
end_run-get db run_id status states now run found different names = (
  record {
    run = record run { status = status; finished_at = some now };
    nodes = keep (λ n. str_eq n.run_id run_id) (write_states run_id states db.nodes);
  },
  ground (
    arith,
    find_run-update run_id (λ r. str_eq r.id run_id)
        (λ r. record r { status = status; finished_at = some now }) db.runs (λ r. refl),
    found,
    find_run-id run_id db.runs run found,
    eq_iff run.id run_id,
  ),
  refl,
  view-write_states run_id states db.nodes
      ∙ all_written states (view run_id db.nodes) different (view_names run_id db.nodes ∙ names),
)
