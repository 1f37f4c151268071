-- ===== src/Coordinator/Begin.antt =====
-- What `arun` prepares before its loop fits the invariant.
use traversal.Base.{
  ℕ, zero, suc, ◌+◌, ◌<◌, ◌≡◌, refl, ◌∙◌, sym, String, Bool, true, false, not, Option, none, some,
  List, [], ◌∷◌, length, get_or, every, is_some, lookup, eq_iff, ◌==◌, if◌then◌else◌, arith,
}
use traversal.Engine.Errors.{ok}
use traversal.Engine.Run
use traversal.Engine.Run.{RunState, is_running, is_success, state_at}
use traversal.Engine.Run.Reach.{here}
use traversal.Engine.Run.Initial.{start_cases, first_cases}
use traversal.Exceptions.{Result, return, require, value_error, resume_decision, >>=-eq-return}
use traversal.Cache.{Codec, Cache}
use traversal.History.{NodeRow, Database}
use traversal.Graph.{Task}
use traversal.Plan.{Plan, native, name_at, fingerprints, compile}
use traversal.Plan.Frozen.{compile-IsFrozen, native-eq-return}
use traversal.Plan.Explain.{Advice, advise, advise_from, first_advice, explain_run, prior_rows}
use traversal.Graph.{Graph, Target}
use traversal.Coordinator.{Progress, Setting}
use traversal.Coordinator.Prepare.{prepare, reasons, decisions, is_nil, open_run}
use traversal.Coordinator.Kept.{Kept-refl}
use traversal.Coordinator.Good.{Fits, Good, has, represents}

module _ (e : Setting) (origin : Progress) (fits : Fits e origin) where
  -- No node of a new run is running or has succeeded.
  start_idle :
      (j : ℕ)
      → (is_running (state_at origin.state.states j) ≡ false)
        × (is_success (state_at origin.state.states j) ≡ false)
  start_idle j =
      let (selected, positive, marks, same) =
        start_cases e.plan.topology e.plan.targets fits.capacity fits.new in
      let rep = represents e origin fits in
      rw same (
        ground (
          arith,
          first_cases rep.builder e.plan.topology e.plan.targets selected rep.compiled rep.indexed
              marks j,
        ))

  start_count : (j : ℕ) → 0 + 0 ≡ (if is_running (state_at origin.state.states j) then 1 else 0)
  start_count j = ground (arith, start_idle j)

  begin-Good :
      origin.pending ≡ []
      → ((j : ℕ) → j < length e.plan.tasks → has (name_at e.plan.tasks j) origin.reuse ≡ true)
      → Good e origin [] origin
  begin-Good unused noted = record {
    reach = here;
    held = λ j. rw unused (start_count j);
    kept = λ j s. cc (sym (start_idle j).1 ∙ s);
    recorded = Kept-refl e.run_id origin.db;
    noted = noted;
  }

module _ (c : Codec) (frames : ℕ) (p : Plan) (db : Database) (previous : Option String)
    (force : List String) where
  first_advice-name :
      (selected : Bool) (name : String) (key : Option String)
      → (first_advice c frames p db previous force selected name key).name ≡ name
  unfolding first_advice
  first_advice-name selected name key = ground arith

  advise-name :
      (selected : Bool) (name : String) (cache : Option Cache) (key : Option String)
      (old : Option NodeRow)
      → (advise c frames p db previous force selected name cache key old).name ≡ name
  unfolding advise
  advise-name selected name cache key old = ground (arith, first_advice-name selected name key)

  advised :
      (prior : List (String × NodeRow)) (keys : List (Option String)) (k : ℕ) (ts : List Task)
      (j : ℕ)
      → j < length ts
      → has (name_at ts j) (reasons (advise_from c frames p db previous force prior keys k ts))
        ≡ true
  unfolding advise_from reasons lookup
  advised prior keys k [] j h = absurd (omega arith)
  advised prior keys k (t ∷ ts) zero h = ground (
    arith,
    advise-name (get_or p.selected k false) t.reference.name t.cache (get_or keys k none)
        (lookup t.reference.name prior),
    eq_iff t.reference.name t.reference.name,
  )
  advised prior keys k (t ∷ ts) (suc j) h =
      ground (arith, advised prior keys (suc k) ts j (omega arith))

-- What `prepare` returns.
pub record Prepared (codec : Codec) (p : Plan) (db : Database) (previous : Option String)
    (run_id : String) (clock : ℕ → ℕ) (e : Setting) (g : Progress) : Type 0 where
  pub run_id_is : e.run_id ≡ run_id
  pub opened : open_run p db previous run_id (clock 0) ≡ return g.db
  pub plan_is : e.plan ≡ p
  pub codec_is : e.codec ≡ codec
  pub capacity : ℕ
  pub begun : Run.start p.topology p.targets capacity ≡ ok g.state
  pub unused : g.pending ≡ []
  pub noted : (j : ℕ) → j < length p.tasks → has (name_at p.tasks j) g.reuse ≡ true

explain_run-noted :
    (codec : Codec) (frames : ℕ) (p : Plan) (db : Database) (previous : Option String)
    (force : List String) (advice : List Advice) (j : ℕ)
    → explain_run codec frames p db previous force ≡ return advice
    → j < length p.tasks
    → has (name_at p.tasks j) (reasons advice) ≡ true
unfolding explain_run
explain_run-noted codec frames p db previous force advice j h inside =
    let (_, known, rest) =
      >>=-eq-return
        (require (every (λ name. is_some (lookup name p.index)) force)
          (value_error "rerun contains unknown node names"))
        _ h in
    let (prior, found, last) = >>=-eq-return (prior_rows p db previous) _ rest in
    let same : advice
        ≡ advise_from codec frames p db previous force prior (fingerprints codec p) 0 p.tasks =
      cc in
    rw same
      (advised codec frames p db previous force prior (fingerprints codec p) 0 p.tasks j inside)

-- The variables that `prepare` makes.
settings : Codec → ℕ → Plan → Option String → List String → String → (ℕ → ℕ) → Setting
settings codec frames plan previous force run_id clock = record {
  codec = codec;
  frames = frames;
  plan = plan;
  previous = previous;
  force = force;
  keys = fingerprints codec plan;
  run_id = run_id;
  clock = clock;
}

variables : Plan → RunState → Database → List Advice → Progress
variables plan state db advice = record {
  state = state;
  db = db;
  outputs = [];
  failures = [];
  reuse = reasons advice;
  pending = [];
  readings = elim plan.store [ none ↦ 0 | some s ↦ 1 ];
}

pub prepare_cases :
    (codec : Codec) (frames : ℕ) (p : Plan) (db : Database) (capacity : Option ℕ)
    (previous : Option String) (force : List String) (run_id : String) (clock : ℕ → ℕ) (e : Setting)
    (g : Progress)
    → prepare codec frames p db capacity previous force run_id clock ≡ return (e, g)
    → Prepared codec p db previous run_id clock e g
unfolding prepare settings variables
prepare_cases codec frames p db none previous force run_id clock e g h = cc
prepare_cases codec frames p db (some n) previous force run_id clock e g h =
    let (_, positive, rest) =
      >>=-eq-return
        (require (not (n == 0)) (value_error "max_concurrency must be a positive integer")) _ h in
    let (advice, explained, rest₁) =
      >>=-eq-return (explain_run codec frames p db previous force) _ rest in
    let (_, decided, rest₂) =
      >>=-eq-return (require (is_nil (decisions advice)) (resume_decision (decisions advice))) _
        rest₁ in
    let (state, begun, rest₃) = >>=-eq-return (native (Run.start p.topology p.targets n)) _ rest₂ in
    let (db', entered, last) = >>=-eq-return (open_run p db previous run_id (clock 0)) _ rest₃ in
    prepared advice state db' explained (native-eq-return (Run.start p.topology p.targets n) begun)
      entered last
  where
    prepared :
        (advice : List Advice) (state : RunState) (db' : Database)
        → explain_run codec frames p db previous force ≡ return advice
        → Run.start p.topology p.targets n ≡ ok state
        → open_run p db previous run_id (clock 0) ≡ return db'
        → ◌≡◌ {A = Result (Setting × Progress)}
            (return
              (settings codec frames p previous force run_id clock, variables p state db' advice))
            (return (e, g))
        → Prepared codec p db previous run_id clock e g
    prepared advice state db' explained begun entered last =
        let setting_is : e ≡ settings codec frames p previous force run_id clock = cc in
        let progress_is : g ≡ variables p state db' advice = cc in
        rw (setting_is, progress_is)
          (record {
            run_id_is = refl;
            opened = entered;
            plan_is = refl;
            codec_is = refl;
            capacity = n;
            begun = begun;
            unused = refl;
            noted = λ j inside.
                explain_run-noted codec frames p db previous force advice j explained inside;
          })

-- For a plan that `Graph.compile` returned, what `prepare` returns satisfies the invariant.
pub prepare-Good :
    (graph : Graph) (targets : List Target) (owner : ℕ) (codec : Codec) (frames : ℕ) (p : Plan)
    (db : Database) (capacity : Option ℕ) (previous : Option String) (force : List String)
    (run_id : String) (clock : ℕ → ℕ) (e : Setting) (g : Progress)
    → compile graph targets owner ≡ return p
    → prepare codec frames p db capacity previous force run_id clock ≡ return (e, g)
    → Fits e g × Good e g [] g
prepare-Good graph targets owner codec frames p db capacity previous force run_id clock e g made h =
    let ready = prepare_cases codec frames p db capacity previous force run_id clock e g h in
    let fits : Fits e g = record {
      owner = owner;
      frozen = rw ready.plan_is (compile-IsFrozen graph targets owner p made);
      capacity = ready.capacity;
      new = rw ready.plan_is ready.begun;
    } in
    (
      fits,
      begin-Good e g fits ready.unused
          (λ j inside. rw ready.plan_is (ready.noted j (rw ready.plan_is at inside))),
    )
