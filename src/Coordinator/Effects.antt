-- ===== src/Coordinator/Effects.antt =====
-- What `arun` does to the database and what it leaves alone, however it ends.
use traversal.Base.{
  ℕ, ◌≡◌, ◌≢◌, ◌∙◌, refl, sym, ap, String, true, not, Option, none, some, List, map, keep, str_eq,
  eq_refl, if◌then◌else◌, Bool-cases, Option-cases, inl, inr, arith,
}
use traversal.Exceptions.{return}
use traversal.History.{
  Settings, Database, mark_running, mark_finished, reuse_note, end_run, release_lease,
}
use traversal.History.Records.{get}
use traversal.History.Rows.{keep_absent}
use traversal.History.Stored.{save_result}
use traversal.History.Life.{start_cases, start_others}
use traversal.History.Others.{
  mark_running_others, mark_finished_others, reuse_note_others, end_run_others, save_result-get,
  save_result-locks, release_lease-get,
}
use traversal.History.Intact.{AreIntact, save_result-AreIntact}
use traversal.Plan.{Plan}
use traversal.Plan.Explain.{needs_store}
use traversal.Coordinator.{Setting}
use traversal.Coordinator.Prepare.{open_run}
use traversal.Coordinator.Arun.{Environment, arun}
use traversal.Coordinator.Always.{IsEstablished, arun_cases}

module _ (env : Environment) (p : Plan) (db : Database) (capacity : Option ℕ)
    (previous : Option String) (force : List String) where
  -- A property of the database that holds at the beginning, at the opening, and then on.
  always :
      (P Q : Database → Type 0)
      → IsEstablished env p db capacity previous force P
      → Q db
      → ((d : Database) → P d → Q (if needs_store p.store then d else release_lease d env.run_id))
      → Q (arun env p db capacity previous force).1
  always P Q established old closed =
      elim (arun_cases env p db capacity previous force P established) [
        | inl (x, h) ↦ rw h old
        | inr (d, held, same) ↦ rw same (closed d held)
      ]

  open_others :
      (other : String) (db' : Database)
      → open_run p db previous env.run_id (env.clock 0) ≡ return db'
      → other ≢ env.run_id
      → get db' other ≡ get db other
  unfolding open_run
  open_others other db' h differ = elim (Option-cases p.store) [
    | inl unset ↦ ground (arith, unset)
    | inr (s, set) ↦
        start_others db db' p.name p.version (map (λ n. n.0) p.index) p.selected previous env.run_id
          other (env.clock 0) (rw (open_run, set) at h) differ
  ]

  -- However `arun` ends, `get` returns for every other run what it returned before.
  pub arun_others :
      (other : String)
      → other ≢ env.run_id
      → get (arun env p db capacity previous force).1 other ≡ get db other
  arun_others other differ =
      always (λ d. get d other ≡ get db other) (λ d. get d other ≡ get db other)
        (record {
          opens = λ db' h. open_others other db' h differ;
          stable = λ e run_id_is plan_is codec_is.
              let apart : other ≢ e.run_id = rw run_id_is differ in
              record {
                running =
                    λ s name now d set k. mark_running_others e.run_id other apart name now d ∙ k;
                finished = λ s name state failure now d set k.
                    mark_finished_others e.run_id other apart s name state failure now d ∙ k;
                noted = λ s name key reason d set k.
                    reuse_note_others e.run_id other apart name key reason d ∙ k;
                saved = λ s key v d set k. save_result-get e.codec s e.frames d key v other ∙ k;
                ending = λ s states status now d set k.
                    end_run_others e.run_id other apart states status now d ∙ k;
              };
        })
        refl
        (λ d k. elim (Bool-cases (needs_store p.store)) [
          | inl none_set ↦ rw none_set k
          | inr set ↦ rw set (release_lease-get d env.run_id other ∙ k)
        ])

  open_results :
      (db' : Database)
      → open_run p db previous env.run_id (env.clock 0) ≡ return db'
      → db'.results ≡ db.results
  unfolding open_run
  open_results db' h = elim (Option-cases p.store) [
    | inl unset ↦ ground (arith, unset)
    | inr (s, set) ↦
        let (_, _, _, _, _, same) =
          start_cases db db' p.name p.version (map (λ n. n.0) p.index) p.selected previous
            env.run_id (env.clock 0) (rw (open_run, set) at h) in
        ap (λ (d : Database). d.results) same
  ]

  -- If the plan has a store, and in the table of results each payload is within the store's byte
  -- limit and has its own digest, and no fingerprint stands twice, then that is so after `arun`,
  -- however it ends.
  pub arun-AreIntact :
      (s : Settings)
      → p.store ≡ some s
      → AreIntact env.codec s db.results
      → AreIntact env.codec s (arun env p db capacity previous force).1.results
  unfolding mark_running mark_finished reuse_note end_run release_lease
  arun-AreIntact s set intact =
      always (λ d. AreIntact env.codec s d.results) (λ d. AreIntact env.codec s d.results)
        (record {
          opens = λ db' h. rw (open_results db' h) intact;
          stable = λ e run_id_is plan_is codec_is. record {
            running = λ s' name now d given k. k;
            finished = λ s' name state failure now d given k. k;
            noted = λ s' name key reason d given k. k;
            saved = λ s' key v d given k.
                let same : s' ≡ s =
                  some_same s' s (sym given ∙ ap (λ (q : Plan). q.store) plan_is ∙ set) in
                rw (codec_is, same) (save_result-AreIntact env.codec s e.frames d key v k);
            ending = λ s' states status now d given k. k;
          };
        })
        intact (λ d k. rw set k)
    where
      some_same : (a b : Settings) → some a ≡ some b → a ≡ b
      some_same a b h = cc

  released : List String → List String
  released locks = keep (λ l. not (str_eq l env.run_id)) locks

  open_leases :
      (s : Settings) (db' : Database)
      → p.store ≡ some s
      → open_run p db previous env.run_id (env.clock 0) ≡ return db'
      → released db'.locks ≡ db.locks
  unfolding open_run released
  open_leases s db' set h =
      let (_, _, _, free, _, same) =
        start_cases db db' p.name p.version (map (λ n. n.0) p.index) p.selected previous env.run_id
          (env.clock 0) (rw (open_run, set) at h) in
      let self : str_eq env.run_id env.run_id ≡ true = eq_refl env.run_id in
      ap (λ (d : Database). released d.locks) same
      ∙ rw (released, self) (keep_absent env.run_id db.locks free)

  stored_leases :
      (s : Settings) → p.store ≡ some s → (arun env p db capacity previous force).1.locks ≡ db.locks
  unfolding mark_running mark_finished reuse_note end_run release_lease released save_result
  stored_leases s set =
      always (λ d. released d.locks ≡ db.locks) (λ d. d.locks ≡ db.locks)
        (record {
          opens = λ db' h. open_leases s db' set h;
          stable = λ e run_id_is plan_is codec_is. record {
            running = λ s' name now d given k. k;
            finished = λ s' name state failure now d given k. k;
            noted = λ s' name key reason d given k. k;
            saved = λ s' key v d given k.
                ap released (save_result-locks e.codec s' e.frames d key v) ∙ k;
            ending = λ s' states status now d given k. k;
          };
        })
        refl (λ d k. rw set k)

  bare_leases : p.store ≡ none → (arun env p db capacity previous force).1.locks ≡ db.locks
  unfolding open_run
  bare_leases unset =
      always (λ d. d.locks ≡ db.locks) (λ d. d.locks ≡ db.locks)
        (record {
          opens = λ db' h. ground (arith, unset);
          stable = λ e run_id_is plan_is codec_is. record {
            running = λ s name now d given k. no e s plan_is given;
            finished = λ s name state failure now d given k. no e s plan_is given;
            noted = λ s name key reason d given k. no e s plan_is given;
            saved = λ s key v d given k. no e s plan_is given;
            ending = λ s states status now d given k. no e s plan_is given;
          };
        })
        refl (λ d k. rw unset k)
    where
      no : {A : Type 0} (e : Setting) (s : Settings) → e.plan ≡ p → e.plan.store ≡ some s → A
      no e s plan_is given = absurd (ground (arith, unset, ap (λ (q : Plan). q.store) plan_is))

  -- However `arun` ends, the leases that are held are those that were held before it.
  pub arun_leases : (arun env p db capacity previous force).1.locks ≡ db.locks
  arun_leases = elim (Option-cases p.store) [
    | inl unset ↦ bare_leases unset
    | inr (s, set) ↦ stored_leases s set
  ]
