-- ===== src/History/Schema/Steps.antt =====
-- The statements of the migration: what they check, and what they make when they return.
use traversal.Base.{
  ℕ, ◌≡◌, refl, String, Bool, true, false, not, ◌||◌, ◌&&◌, List, [], ◌∷◌, ◌++◌, mem_text, arith,
}
use traversal.Exceptions.{Result, return, >>=-eq-return}
use traversal.History.Schema.{
  Schema, is_taken, create_table, create_index, add_column, first_columns, create_first,
  add_results,
}

pub mem_text-append :
    (name : String) (xs ys : List String)
    → mem_text name (xs ++ ys) ≡ (mem_text name xs || mem_text name ys)
unfolding mem_text
mem_text-append name [] ys = refl
mem_text-append name (x ∷ xs) ys = ground (arith, mem_text-append name xs ys)

-- Nothing that the last step makes is there already.
abbrev pub is_old : Schema → Bool
is_old s =
    mem_text "nodes" s.tables
    && not (mem_text "cache_key" s.node_columns)
    && not (mem_text "reuse_reason" s.node_columns)
    && not (is_taken s "results")

pub add_column_cases :
    (name : String) (s s' : Schema)
    → add_column name s ≡ return s'
    → (mem_text "nodes" s.tables ≡ true)
      × (mem_text name s.node_columns ≡ false)
      × (s' ≡ record s { node_columns = s.node_columns ++ name ∷ [] })
unfolding add_column
add_column_cases name s s' h = ground arith

pub create_table_cases :
    (name : String) (indexes : List String) (s s' : Schema)
    → create_table name indexes s ≡ return s'
    → (is_taken s name ≡ false)
      × (s' ≡ record s { tables = s.tables ++ name ∷ []; others = s.others ++ indexes })
unfolding create_table
create_table_cases name indexes s s' h = ground arith

-- The schema that `add_results` makes.
abbrev pub upgraded : Schema → Schema
upgraded s = record {
  version = 2;
  tables = s.tables ++ "results" ∷ [];
  others = s.others ++ "sqlite_autoindex_results_1" ∷ [];
  node_columns = (s.node_columns ++ "cache_key" ∷ []) ++ "reuse_reason" ∷ [];
}

pub add_results_cases :
    (s s' : Schema) → add_results s ≡ return s' → (is_old s ≡ true) × (s' ≡ upgraded s)
unfolding add_results mem_text
add_results_cases s s' h =
    let (keyed, one, rest) = >>=-eq-return (add_column "cache_key" s) _ h in
    let (noted, two, rest₁) = >>=-eq-return (add_column "reuse_reason" keyed) _ rest in
    let (made, three, last) =
      >>=-eq-return (create_table "results" ("sqlite_autoindex_results_1" ∷ []) noted) _ rest₁ in
    let (nodes, fresh, e) = add_column_cases "cache_key" s keyed one in
    let (_, fresh₁, e₁) = add_column_cases "reuse_reason" keyed noted two in
    let (free, e₂) =
      create_table_cases "results" ("sqlite_autoindex_results_1" ∷ []) noted made three in
    (
      ground (
        arith,
        nodes,
        fresh,
        e,
        fresh₁,
        e₁,
        free,
        mem_text-append "reuse_reason" s.node_columns ("cache_key" ∷ []),
      ),
      ground (arith, e, e₁, e₂, last),
    )

pub return_same : {A : Type 0} {a b : A} → ◌≡◌ {A = Result A} (return a) (return b) → a ≡ b
return_same h = cc

-- The schema that `create_first` makes.
unfoldable pub first_others : List String → List String
first_others others =
    ((others ++ "sqlite_autoindex_runs_1" ∷ []) ++ "runs_lookup" ∷ [])
    ++ "sqlite_autoindex_nodes_1" ∷ []

pub create_first-empty :
    (version : ℕ) (tables others columns : List String) (s' : Schema)
    → create_first
        (record { version = version; tables = tables; others = others; node_columns = columns })
      ≡ return s'
    → tables ≡ []
unfolding create_first
create_first-empty version (t ∷ tables) others columns s' h = cc
create_first-empty version [] others columns s' h = refl

pub add_results_accepts : (s : Schema) → is_old s ≡ true → add_results s ≡ return (upgraded s)
unfolding add_results add_column create_table mem_text
add_results_accepts s old =
    ground (arith, old, mem_text-append "reuse_reason" s.node_columns ("cache_key" ∷ []))

-- The schema after `create_first`, in an empty database.
abbrev pub created : List String → Schema
created others = record {
  version = 1;
  tables = "runs" ∷ "sqlite_sequence" ∷ "nodes" ∷ [];
  others = first_others others;
  node_columns = first_columns;
}

pub create_first_accepts :
    (version : ℕ) (others columns : List String)
    → mem_text "runs" others ≡ false
    → mem_text "runs_lookup" others ≡ false
    → mem_text "nodes" others ≡ false
    → create_first
        (record { version = version; tables = []; others = others; node_columns = columns })
      ≡ return (created others)
unfolding create_first create_table create_index first_others mem_text
create_first_accepts version others columns runs lookup nodes = ground (
  arith,
  runs,
  lookup,
  nodes,
  mem_text-append "runs_lookup" others ("sqlite_autoindex_runs_1" ∷ []),
  mem_text-append "nodes" others ("sqlite_autoindex_runs_1" ∷ []),
  mem_text-append "nodes" (others ++ "sqlite_autoindex_runs_1" ∷ []) ("runs_lookup" ∷ []),
)

pub created-old :
    (others : List String) → mem_text "results" others ≡ false → is_old (created others) ≡ true
unfolding first_others mem_text
created-old others free = ground (
  arith,
  free,
  mem_text-append "results" others ("sqlite_autoindex_runs_1" ∷ []),
  mem_text-append "results" (others ++ "sqlite_autoindex_runs_1" ∷ []) ("runs_lookup" ∷ []),
  mem_text-append "results" ((others ++ "sqlite_autoindex_runs_1" ∷ []) ++ "runs_lookup" ∷ [])
      ("sqlite_autoindex_nodes_1" ∷ []),
)

pub create_index_cases :
    (name : String) (s s' : Schema)
    → create_index name s ≡ return s'
    → (is_taken s name ≡ false) × (s' ≡ record s { others = s.others ++ name ∷ [] })
unfolding create_index
create_index_cases name s s' h = ground arith

-- What `create_first` has checked when it returns.
pub create_first_cases :
    (version : ℕ) (others columns : List String) (s' : Schema)
    → create_first
        (record { version = version; tables = []; others = others; node_columns = columns })
      ≡ return s'
    → (mem_text "runs" others ≡ false)
      × (mem_text "runs_lookup" others ≡ false)
      × (mem_text "nodes" others ≡ false)
unfolding create_first
create_first_cases version others columns s' h =
    let s : Schema = record {
      version = version;
      tables = [];
      others = others;
      node_columns = columns;
    } in
    let (runs, one, rest) =
      >>=-eq-return (create_table "runs" ("sqlite_autoindex_runs_1" ∷ []) s) _ h in
    let counted : Schema = record runs { tables = runs.tables ++ "sqlite_sequence" ∷ [] } in
    let (indexed, two, rest₁) = >>=-eq-return (create_index "runs_lookup" counted) _ rest in
    let (nodes, three, last) =
      >>=-eq-return (create_table "nodes" ("sqlite_autoindex_nodes_1" ∷ []) indexed) _ rest₁ in
    let (free, e) = create_table_cases "runs" ("sqlite_autoindex_runs_1" ∷ []) s runs one in
    let (free₁, e₁) = create_index_cases "runs_lookup" counted indexed two in
    let (free₂, e₂) =
      create_table_cases "nodes" ("sqlite_autoindex_nodes_1" ∷ []) indexed nodes three in
    (
      ground (arith, free),
      ground
          (arith, free₁, e, mem_text-append "runs_lookup" others ("sqlite_autoindex_runs_1" ∷ [])),
      ground (
        arith,
        free₂,
        e,
        e₁,
        mem_text-append "nodes" (others ++ "sqlite_autoindex_runs_1" ∷ []) ("runs_lookup" ∷ []),
        mem_text-append "nodes" others ("sqlite_autoindex_runs_1" ∷ []),
      ),
    )

pub created-results :
    (others : List String) → is_old (created others) ≡ true → mem_text "results" others ≡ false
unfolding first_others
created-results others h = ground (
  arith,
  h,
  mem_text-append "results" others ("sqlite_autoindex_runs_1" ∷ []),
  mem_text-append "results" (others ++ "sqlite_autoindex_runs_1" ∷ []) ("runs_lookup" ∷ []),
  mem_text-append "results" ((others ++ "sqlite_autoindex_runs_1" ∷ []) ++ "runs_lookup" ∷ [])
      ("sqlite_autoindex_nodes_1" ∷ []),
)
