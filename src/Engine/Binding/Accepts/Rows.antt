-- ===== src/Engine/Binding/Accepts/Rows.antt =====
-- The dependency rows that `compile_topology` accepts, once the names are added.
use traversal.Base.{
  ℕ, suc, ◌+◌, ◌<◌, ◌≡◌, ◌≢◌, refl, ap, sym, ◌∙◌, true, some, List, [], ◌∷◌, length, get_or,
  get_elem?, get_elem?_of_lt, ==_iff, mem, arith,
}
use traversal.Engine.Errors.{ok}
use traversal.Engine.Builder.{NodeId, Builder, check, insert_edge, depends_on}
use traversal.Engine.Binding.{add_edges, add_rows}
use traversal.Engine.Binding.Valid.{Numbers, Owned}

-- An edge between two nodes of the builder is accepted.
depends_on_returns :
    (b : Builder) (node dependency : NodeId)
    → node.owner ≡ b.owner
    → dependency.owner ≡ b.owner
    → node.index < length b.names
    → dependency.index < length b.names
    → node.index ≢ dependency.index
    → depends_on b node dependency ≡ ok (insert_edge b node.index dependency.index)
unfolding depends_on check
depends_on_returns b node dependency own own' inside inside' other = ground arith

insert_edge-keeps :
    (b : Builder) (n d : ℕ)
    → ((insert_edge b n d).names ≡ b.names) × ((insert_edge b n d).owner ≡ b.owner)
unfolding insert_edge
insert_edge-keeps b n d = ground arith

-- The builder's identifiers, which `add_all` returned.
pub record Identifies (b : Builder) (ids : List NodeId) : Type 0 where
  pub as_many : length ids ≡ length b.names
  pub numbers : Numbers 0 ids
  pub owners : Owned b.owner ids

insert_edge-Identifies :
    (b : Builder) (ids : List NodeId) (n d : ℕ)
    → Identifies b ids
    → Identifies (insert_edge b n d) ids
insert_edge-Identifies b ids n d w =
    let (names, owner) = insert_edge-keeps b n d in
    record {
      as_many = w.as_many ∙ sym (ap length names);
      numbers = w.numbers;
      owners = λ j id e. w.owners j id e ∙ sym owner;
    }

add_edges_step :
    (ids : List NodeId) (id target : NodeId) (b b₁ : Builder) (dep : ℕ) (deps : List ℕ)
    → get_elem? ids dep ≡ some target
    → depends_on b id target ≡ ok b₁
    → add_edges ids id b (dep ∷ deps) ≡ add_edges ids id b₁ deps
unfolding add_edges
add_edges_step ids id target b b₁ dep deps found accepted = ground (arith, found, accepted)

add_rows_step :
    (ids todo : List NodeId) (id : NodeId) (b b₁ : Builder) (deps : List ℕ) (rows : List (List ℕ))
    → add_edges ids id b deps ≡ ok b₁
    → add_rows ids (id ∷ todo) b (deps ∷ rows) ≡ add_rows ids todo b₁ rows
unfolding add_rows
add_rows_step ids todo id b b₁ deps rows edges = rw edges refl

-- The inner loop returns for dependencies that are other nodes.
add_edges_accepts :
    (ids : List NodeId) (id : NodeId) (b : Builder) (deps : List ℕ)
    → Identifies b ids
    → id.owner ≡ b.owner
    → id.index < length b.names
    → ((d : ℕ) → mem d deps ≡ true → (d < length b.names) × (d ≢ id.index))
    → (b' : Builder) × (add_edges ids id b deps ≡ ok b')
      × Identifies b' ids
      × (b'.names ≡ b.names)
      × (b'.owner ≡ b.owner)
unfolding add_edges
add_edges_accepts ids id b [] w own inside valid = (b, refl, w, refl, refl)
add_edges_accepts ids id b (dep ∷ deps) w own inside valid =
    let (below, other) = valid dep (ground (arith, ==_iff dep dep)) in
    let (target, found) = get_elem?_of_lt ids dep (omega (arith, w.as_many)) in
    let place : target.index ≡ dep = omega (arith, w.numbers dep target found) in
    let b₁ = insert_edge b id.index target.index in
    let (names, owner) = insert_edge-keeps b id.index target.index in
    let accepted =
      depends_on_returns b id target own (w.owners dep target found) inside (rw place below)
        (λ e. other (sym (e ∙ place))) in
    let (b', rest, w', names', owner') =
      add_edges_accepts ids id b₁ deps (insert_edge-Identifies b ids id.index target.index w)
        (own ∙ sym owner) (rw names inside) (λ d m. rw names (valid d (ground arith))) in
    (
      b',
      add_edges_step ids id target b b₁ dep deps found accepted ∙ rest,
      w',
      names' ∙ names,
      owner' ∙ owner,
    )

-- The outer loop, from position `k` on.
pub add_rows_accepts :
    (ids todo : List NodeId) (k : ℕ) (b : Builder) (rows : List (List ℕ))
    → Identifies b ids
    → Numbers k todo
    → Owned b.owner todo
    → k + length todo ≡ length b.names
    → ((i d : ℕ) → mem d (get_or rows i []) ≡ true → (d < length b.names) × (d ≢ k + i))
    → (b' : Builder) × (add_rows ids todo b rows ≡ ok b')
unfolding add_rows
add_rows_accepts ids [] k b rows w m own end valid = (b, refl)
add_rows_accepts ids (id ∷ todo) k b [] w m own end valid = (b, refl)
add_rows_accepts ids (id ∷ todo) k b (deps ∷ rows) w m own end valid =
    let here : id.index ≡ k = omega (arith, m 0 id refl) in
    let (b₁, edges, w₁, names, owner) =
      add_edges_accepts ids id b deps w (own 0 id refl) (omega arith)
        (λ d n. let (below, other) = valid 0 d n in (below, λ e. other (omega arith))) in
    let (b', rest) =
      add_rows_accepts ids todo (suc k) b₁ rows w₁ (λ j x e. omega (arith, m (suc j) x e))
        (λ j x e. own (suc j) x e ∙ sym owner) (omega (arith, ap length names))
        (λ i d n.
          let (below, other) = valid (suc i) d n in (rw names below, λ e. other (omega arith))) in
    (b', add_rows_step ids todo id b b₁ deps rows edges ∙ rest)
