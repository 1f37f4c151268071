-- ===== src/History/Schema/Migration.antt =====
-- Where the migration of `History.__init__` ends.
use traversal.Base.{
  sym, Bool-cases, ℕ, zero, suc, ◌≡◌, refl, ap, every, ◌∙◌, ◌<◌, ◌⊎◌, inl, inr, String, Bool, true,
  false, not, ◌||◌, ◌&&◌, List, [], ◌∷◌, ◌++◌, ◌==◌, mem_text, arith,
}
use traversal.Exceptions.{Exception, return, raise, ◌>>=◌, >>=-eq-return, Result-cases}
use traversal.History.Schema.{Schema, create_first, add_results, migrate}
use traversal.History.Schema.Steps.{
  mem_text-append, is_old, upgraded, add_results_cases, return_same, create_first-empty,
  add_results_accepts, created, create_first_accepts, created-old, create_first_cases,
  created-results,
}

-- Nothing is lost: each table and each column of `nodes` is there still.
pub record Keeps (s s' : Schema) : Type 0 where
  pub tables : (t : String) → mem_text t s.tables ≡ true → mem_text t s'.tables ≡ true
  pub columns :
      (c : String)
      → mem_text "nodes" s.tables ≡ true
      → mem_text c s.node_columns ≡ true
      → mem_text c s'.node_columns ≡ true

-- What the methods of the history read and write is there.
abbrev pub is_current : Schema → Bool
is_current s =
    s.version == 2
    && mem_text "nodes" s.tables
    && mem_text "results" s.tables
    && mem_text "cache_key" s.node_columns
    && mem_text "reuse_reason" s.node_columns

-- From a schema that the last step can begin with.
upgraded-current : (s : Schema) → mem_text "nodes" s.tables ≡ true → is_current (upgraded s) ≡ true
unfolding mem_text
upgraded-current s nodes = ground (
  arith,
  nodes,
  mem_text-append "nodes" s.tables ("results" ∷ []),
  mem_text-append "results" s.tables ("results" ∷ []),
  mem_text-append "cache_key" s.node_columns ("cache_key" ∷ []),
  mem_text-append "cache_key" (s.node_columns ++ "cache_key" ∷ []) ("reuse_reason" ∷ []),
  mem_text-append "reuse_reason" (s.node_columns ++ "cache_key" ∷ []) ("reuse_reason" ∷ []),
)

upgraded-Keeps : (s : Schema) → Keeps s (upgraded s)
upgraded-Keeps s = record {
  tables = λ t h. ground (arith, h, mem_text-append t s.tables ("results" ∷ []));
  columns = λ c nodes h. ground (
    arith,
    h,
    mem_text-append c s.node_columns ("cache_key" ∷ []),
    mem_text-append c (s.node_columns ++ "cache_key" ∷ []) ("reuse_reason" ∷ []),
  );
}

-- What the migration makes of a schema that is not current.
pub record IsMigrated (s s' : Schema) : Type 0 where
  pub current : is_current s' ≡ true
  pub keeps : Keeps s s'

-- What returns ends with version 2.
ends :
    (version : ℕ) (tables others columns : List String) (s' : Schema)
    → migrate
        (record { version = version; tables = tables; others = others; node_columns = columns })
      ≡ return s'
    → ((version ≡ 2)
        × (s' ≡ record {
          version = version;
          tables = tables;
          others = others;
          node_columns = columns;
        }))
      ⊎ ((version < 2)
          × IsMigrated
              (record {
                version = version;
                tables = tables;
                others = others;
                node_columns = columns;
              })
              s')
unfolding migrate mem_text
ends zero tables others columns s' h =
    let (first, made, rest) =
      >>=-eq-return
        (create_first
          (record { version = 0; tables = tables; others = others; node_columns = columns }))
        _ h in
    let none_there = create_first-empty 0 tables others columns first made in
    let (old, e) = add_results_cases first s' rest in
    inr (
      omega arith,
      record {
        current = rw e (upgraded-current first (ground (arith, old)));
        keeps = record {
          tables = λ t m. ground (arith, none_there, m);
          columns = λ c nodes m. ground (arith, none_there, nodes);
        };
      },
    )
ends (suc zero) tables others columns s' h =
    let s : Schema = record {
      version = 1;
      tables = tables;
      others = others;
      node_columns = columns;
    } in
    let (old, e) = add_results_cases s s' h in
    inr (
      omega arith,
      record {
        current = rw e (upgraded-current s (ground (arith, old)));
        keeps = rw e (upgraded-Keeps s);
      },
    )
ends (suc (suc zero)) tables others columns s' h = inl (refl, cc)
ends (suc (suc (suc n))) tables others columns s' h = absurd (ground arith)

migrate_again : (s : Schema) → s.version ≡ 2 → migrate s ≡ return s
unfolding migrate
migrate_again s two = ground (arith, two)

-- A database that can be opened: one without tables, in which no view has a name that the migration
-- needs, one of version 1 with the table `nodes` and nothing that version 2 adds, or one of version 2.
abbrev pub is_accepted : Schema → Bool
is_accepted s =
    (s.version == 0
      && is_empty s.tables
      && every (λ name. not (mem_text name s.others))
          ("runs" ∷ "runs_lookup" ∷ "nodes" ∷ "results" ∷ []))
    || (s.version == 1 && is_old s)
    || s.version == 2
  where
    is_empty : List String → Bool
    is_empty [] = true
    is_empty (t ∷ ts) = false

returns :
    (version : ℕ) (tables others columns : List String)
    → is_accepted
        (record { version = version; tables = tables; others = others; node_columns = columns })
      ≡ true
    → (s' : Schema) × (migrate
          (record { version = version; tables = tables; others = others; node_columns = columns })
        ≡ return s')
unfolding migrate
returns zero (t ∷ tables) others columns h = absurd (ground arith)
returns zero [] others columns h = (
  upgraded (created others),
  ap (λ m. m >>= add_results)
        (create_first_accepts 0 others columns (ground (arith, h)) (ground (arith, h))
          (ground (arith, h)))
      ∙ add_results_accepts (created others) (created-old others (ground (arith, h))),
)
returns (suc zero) tables others columns h = (
  _,
  add_results_accepts
      (record { version = 1; tables = tables; others = others; node_columns = columns })
      (ground (arith, h)),
)
returns (suc (suc zero)) tables others columns h = (_, refl)
returns (suc (suc (suc n))) tables others columns h = absurd (ground (arith, h))

-- Nothing else is accepted.
refuses :
    (version : ℕ) (tables others columns : List String) (s' : Schema)
    → migrate
        (record { version = version; tables = tables; others = others; node_columns = columns })
      ≡ return s'
    → is_accepted
        (record { version = version; tables = tables; others = others; node_columns = columns })
      ≡ true
unfolding migrate
refuses zero (t ∷ tables) others columns s' h = cc
refuses zero [] others columns s' h =
    let (first, made, rest) =
      >>=-eq-return
        (create_first
          (record { version = 0; tables = []; others = others; node_columns = columns }))
        _ h in
    let (runs, lookup, nodes) = create_first_cases 0 others columns first made in
    let (old, _) = add_results_cases first s' rest in
    let made_is = create_first_accepts 0 others columns runs lookup nodes in
    let first_is : first ≡ created others = return_same (sym made ∙ made_is) in
    let results = created-results others (rw first_is at old) in
    ground (arith, runs, lookup, nodes, results)
refuses (suc zero) tables others columns s' h =
    let (old, _) =
      add_results_cases
        (record { version = 1; tables = tables; others = others; node_columns = columns }) s' h in
    ground (arith, old)
refuses (suc (suc zero)) tables others columns s' h = ground arith
refuses (suc (suc (suc n))) tables others columns s' h = absurd (ground arith)

-- For a database that is empty but for views of other names, or of version 1 with the table `nodes`
-- and with no column or name that the last step adds, or of version 2: the migration returns a
-- schema. One of version 2 is returned unchanged; any other becomes one of version 2 with the
-- tables `nodes` and `results` and the columns `cache_key` and `reuse_reason`, that has all tables,
-- and all columns of `nodes`, that were there. To migrate the result again returns it unchanged.
-- For every other database the migration raises.
pub migrate-IsMigrated :
    (s : Schema)
    → ((is_accepted s ≡ true)
        × ((s' : Schema) × (migrate s ≡ return s')
            × (((s.version ≡ 2) × (s' ≡ s)) ⊎ ((s.version < 2) × IsMigrated s s'))
            × (migrate s' ≡ return s')))
      ⊎ ((is_accepted s ≡ false) × ((x : Exception) × (migrate s ≡ raise x)))
migrate-IsMigrated s = elim (Result-cases (migrate s)) [
  | inl (x, failed) ↦ elim (Bool-cases (is_accepted s)) [
    | inr refused ↦ inr (refused, (x, failed))
    | inl accepted ↦
        let (s', h) = returns s.version s.tables s.others s.node_columns accepted in
        absurd (ground (arith, failed, h))
  ]
  | inr (s', h) ↦
      let cases = ends s.version s.tables s.others s.node_columns s' h in
      inl (
        refuses s.version s.tables s.others s.node_columns s' h,
        (
          s',
          h,
          cases,
          migrate_again s' (elim cases [
            | inl (two, same) ↦ ap (λ (x : Schema). x.version) same ∙ two
            | inr (_, m) ↦ ground (arith, m.current)
          ]),
        ),
      )
]
