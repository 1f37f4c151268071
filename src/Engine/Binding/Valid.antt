-- ===== src/Engine/Binding/Valid.antt =====
-- What the topology that Python gets has to do with the names and rows that Python handed over.
use traversal.Base.{
  snoc_cases, ℕ, suc, ◌+◌, ◌-◌, ◌≡◌, ◌∙◌, refl, ap, sym, String, Bool, ◌&&◌, ◌||◌, some, List, [],
  ◌∷◌, ◌++◌, append_assoc, append-nil, length, length-append, get_or, get_elem?,
  lt-length_of_get_elem?, get_or-update, get_or-snoc_nil, leb, ◌==◌, ==_iff, mem, mem-append,
  Bool-cases, Option-cases, inl, inr, arith,
}
use traversal.Engine.Errors.{ok, >>=-eq-ok}
use traversal.Engine.Builder.{NodeId, Builder, new, insert_edge, add, depends_on}
use traversal.Engine.Builder.Valid.{
  IsBuilder, new-IsBuilder, add_cases, add-IsBuilder, depends_on_cases, depends_on-IsBuilder,
}
use traversal.Engine.Topology.{Topology, compile}
use traversal.Engine.Topology.Shape.{deps_of}
use traversal.Engine.Topology.Order.{IsCompiled, compile-IsCompiled}
use traversal.Engine.Topology.Closing.{IsIndexed}
use traversal.Engine.Binding.{add_all, add_edges, add_rows, compile_topology}

abbrev row : Builder → ℕ → List ℕ
row b i = get_or b.dependencies i []

-- The identifiers are those of the positions from `k` on.
abbrev pub Numbers : ℕ → List NodeId → Type 0
Numbers k ids = (j : ℕ) (id : NodeId) → get_elem? ids j ≡ some id → id.index ≡ k + j

-- All identifiers are of one builder.
abbrev pub Owned : ℕ → List NodeId → Type 0
Owned owner ids = (j : ℕ) (id : NodeId) → get_elem? ids j ≡ some id → id.owner ≡ owner

-- What adding all names establishes.
pub record Named (names : List String) (b : Builder) (ids : List NodeId) : Type 0 where
  pub valid : IsBuilder b
  pub names_are : b.names ≡ names
  pub as_many : length ids ≡ length names
  pub numbers : Numbers 0 ids
  pub owners : Owned b.owner ids
  pub no_rows : (i : ℕ) → row b i ≡ []

add_one-Named :
    (names : List String) (b : Builder) (ids : List NodeId) (name : String) {b' : Builder}
    {id : NodeId}
    → Named names b ids
    → add b name ≡ ok (b', id)
    → Named (names ++ name ∷ []) b' (ids ++ id ∷ [])
add_one-Named names b ids name {b'} {id} n h =
    let (_, _, kept, named, _, rows, _, fresh) = add_cases b name h in
    record {
      valid = add-IsBuilder b name n.valid h;
      names_are = named ∙ ap (λ l. l ++ name ∷ []) n.names_are;
      as_many =
          omega (arith, n.as_many, length-append ids (id ∷ []), length-append names (name ∷ []));
      numbers = λ j x e. elim (snoc_cases ids id j e) [
        | inl old ↦ n.numbers j x old
        | inr (last, same) ↦ rw (same, fresh) (omega (arith, n.as_many, ap length n.names_are))
      ];
      owners = λ j x e. elim (snoc_cases ids id j e) [
        | inl old ↦ n.owners j x old ∙ sym kept
        | inr (last, same) ↦ rw (same, fresh) (sym kept)
      ];
      no_rows = λ i. rw (rows, get_or-snoc_nil) (n.no_rows i);
    }

pub add_all-Named :
    (names : List String) (b : Builder) (ids : List NodeId) (more : List String) {b' : Builder}
    {ids' : List NodeId}
    → Named names b ids
    → add_all b ids more ≡ ok (b', ids')
    → Named (names ++ more) b' ids'
unfolding add_all
add_all-Named names b ids [] {b'} {ids'} n h =
    let e : b' ≡ b = cc in let f : ids' ≡ ids = cc in rw (e, f, append-nil) n
add_all-Named names b ids (name ∷ more) {b'} {ids'} n h =
    let ((b₁, id), added, rest) = >>=-eq-ok (add b name) _ h in
    rw (← append_assoc names (name ∷ []) more) (
      add_all-Named (names ++ name ∷ []) b₁ (ids ++ id ∷ []) more
        (add_one-Named names b ids name n added) rest)

pub new-Named : (owner : ℕ) → Named [] (new owner) []
new-Named owner = record {
  valid = new-IsBuilder owner;
  names_are = refl;
  as_many = refl;
  numbers = λ j x e. cc;
  owners = λ j x e. cc;
  no_rows = λ i. refl;
}

-- What one call of `depends_on` does to the rows.
pub edge_row :
    (b : Builder) (node dependency : NodeId) {b' : Builder} (i d : ℕ)
    → IsBuilder b
    → depends_on b node dependency ≡ ok b'
    → (mem d (row b' i) ≡ (mem d (row b i) || (i == node.index && d == dependency.index)))
      × (b'.names ≡ b.names)
unfolding insert_edge
edge_row b node dependency i d w h =
    let (_, _, inside, _, _, e) = depends_on_cases b node dependency h in
    ground (
      arith,
      e,
      w.edged node.index dependency.index,
      get_or-update b.dependencies node.index i (λ ds. ds ++ dependency.index ∷ []),
      w.rows,
      mem-append d (row b i) (dependency.index ∷ []),
      ==_iff i node.index,
      ==_iff node.index i,
      ==_iff d dependency.index,
    )

-- What the inner loop does.
pub add_edges-rows :
    (ids : List NodeId) (id : NodeId) (b : Builder) (deps : List ℕ) {b' : Builder}
    → Numbers 0 ids
    → IsBuilder b
    → add_edges ids id b deps ≡ ok b'
    → IsBuilder b'
      × (b'.names ≡ b.names)
      × ((i d : ℕ) → mem d (row b' i) ≡ (mem d (row b i) || (i == id.index && mem d deps)))
unfolding add_edges
add_edges-rows ids id b [] {b'} n w h = let e : b' ≡ b = cc in rw e (w, refl, λ i d. ground arith)
add_edges-rows ids id b (dep ∷ deps) {b'} n w h = elim (Option-cases (get_elem? ids dep)) [
  | inl missing ↦ absurd (ground arith)
  | inr (target, found) ↦
      let (b₁, edge, rest) = >>=-eq-ok (depends_on b id target) _ (rw (found, add_edges) at h) in
      let (w', names, rows) =
        add_edges-rows ids id b₁ deps n (depends_on-IsBuilder b id target w edge) rest in
      (
        w',
        names ∙ (edge_row b id target 0 0 w edge).1,
        λ i d. ground (arith, rows i d, (edge_row b id target i d w edge).0, n dep target found),
      )
]

-- The row `deps` at position `k`, and then the rows behind it.
shift :
    (k i d : ℕ) (deps : List ℕ) (rows : List (List ℕ)) (old one two : Bool)
    → one ≡ (old || (i == k && mem d deps))
    → two ≡ (one || (leb (suc k) i && mem d (get_or rows (i - suc k) [])))
    → two ≡ (old || (leb k i && mem d (get_or (deps ∷ rows) (i - k) [])))
shift k i d deps rows old one two p q = elim (Bool-cases (leb (suc k) i)) [
  | inl above ↦ let e : i - k ≡ suc (i - suc k) = ground arith in rw e (ground arith)
  | inr not_above ↦ elim (Bool-cases (i == k)) [
    | inl same ↦ let e : i - k ≡ 0 = ground arith in rw e (ground arith)
    | inr below ↦ ground arith
  ]
]

-- The rows from position `k` on are entered.
pub add_rows-rows :
    (ids todo : List NodeId) (k : ℕ) (b : Builder) (rows : List (List ℕ)) {b' : Builder}
    → Numbers 0 ids
    → Numbers k todo
    → length todo ≡ length rows
    → IsBuilder b
    → add_rows ids todo b rows ≡ ok b'
    → IsBuilder b'
      × (b'.names ≡ b.names)
      × ((i d : ℕ)
          → mem d (row b' i) ≡ (mem d (row b i) || (leb k i && mem d (get_or rows (i - k) []))))
unfolding add_rows
add_rows-rows ids [] k b [] {b'} n m l w h =
    let e : b' ≡ b = cc in rw e (w, refl, λ i d. ground arith)
add_rows-rows ids (id ∷ todo) k b [] n m l w h = absurd (omega arith)
add_rows-rows ids [] k b (deps ∷ rows) n m l w h = absurd (omega arith)
add_rows-rows ids (id ∷ todo) k b (deps ∷ rows) n m l w h =
    let (b₁, edges, rest) = >>=-eq-ok (add_edges ids id b deps) _ h in
    let (w₁, names₁, row₁) = add_edges-rows ids id b deps n w edges in
    let here : id.index ≡ k = omega (arith, m 0 id refl) in
    let (w₂, names₂, row₂) =
      add_rows-rows ids todo (suc k) b₁ rows n (λ j x e. omega (arith, m (suc j) x e)) (omega arith)
        w₁ rest in
    (
      w₂,
      names₂ ∙ names₁,
      λ i d.
          shift k i d deps rows (mem d (row b i)) (mem d (row b₁ i)) _ (rw here at (row₁ i d))
            (row₂ i d),
    )

-- A topology that the native module returns: it comes from a valid builder, has the names, and its
-- rows hold the given dependencies.
pub record Represents (names : List String) (rows : List (List ℕ)) (g : Topology) : Type 0 where
  pub builder : Builder
  pub valid : IsBuilder builder
  pub compiled : IsCompiled builder g
  pub indexed : IsIndexed g
  pub names_are : g.names ≡ names
  pub rows_are : (i d : ℕ) → mem d (deps_of g i) ≡ mem d (get_or rows i [])

finish_compile :
    (names : List String) (rows : List (List ℕ)) (b : Builder) {g : Topology}
    → IsBuilder b
    → b.names ≡ names
    → ((i d : ℕ) → mem d (row b i) ≡ mem d (get_or rows i []))
    → compile b ≡ ok g
    → Represents names rows g
finish_compile names rows b w named same h =
    let c = compile-IsCompiled b w h in
    record {
      builder = b;
      valid = w;
      compiled = c;
      indexed = λ name i e.
          rw c.names_are (lt-length_of_get_elem? b.names i (w.named name i (rw c.index_is at e)));
      names_are = c.names_are ∙ named;
      rows_are = λ i d. rw c.rows_are (same i d);
    }

-- What `compile_topology` returns for names and rows of dependencies comes from a builder that
-- satisfies the invariant and is compiled from it, leads names to nodes, has the names, and has in
-- each row exactly the given dependencies.
pub compile_topology-Represents :
    (owner : ℕ) (names : List String) (rows : List (List ℕ)) {g : Topology}
    → compile_topology owner names rows ≡ ok g
    → Represents names rows g
unfolding compile_topology
compile_topology-Represents owner names rows h = elim (Bool-cases (length names == length rows)) [
  | inr differ ↦ absurd (ground arith)
  | inl same ↦
      let ((b, ids), added, rest) = >>=-eq-ok (add_all (new owner) [] names) _ (rw same at h) in
      let (b', entered, last) = >>=-eq-ok (add_rows ids ids b rows) _ rest in
      let n = add_all-Named [] (new owner) [] names (new-Named owner) added in
      let (w, kept, entries) =
        add_rows-rows ids ids 0 b rows n.numbers n.numbers
          (n.as_many ∙ (==_iff (length names) (length rows)).0 same) n.valid entered in
      finish_compile names rows b' w (kept ∙ n.names_are)
        (λ i d. let e : i - 0 ≡ i = omega arith in ground (arith, entries i d, n.no_rows i, e)) last
]
