-- ===== src/Engine/Builder/Valid.antt =====
-- What every builder satisfies, whatever the calls of `add` and `depends_on` that made it.
use traversal.Base.{
  snoc_cases, ℕ, ◌≤◌, ◌<◌, ◌≡◌, ◌∙◌, refl, ap, String, true, false, ◌&&◌, ◌||◌, some, List, [], ◌∷◌,
  ◌++◌, length, length-append, get_or, get_elem?, get_elem?-append_left, get_elem?-snoc,
  length-update, get_or-update, get_or-snoc_nil, ◌==◌, ==_iff, if◌then◌else◌, mem, mem-append,
  occurs, occurs-append, mem_of_occurs_pos, lookup, insert, lookup-insert, str_eq, eq_iff,
  trims_to_empty, Bool-cases, inl, inr, arith,
}
use traversal.Engine.Errors.{ok}
use traversal.Engine.Builder.{
  NodeId, Builder, new, is_known, mem_edge, add, check, insert_edge, depends_on,
}

-- A row for each name, holding other nodes' indices, each once; `edges` is the set of the pairs that
-- the rows hold; the map leads each name to its index, and nothing else to one.
pub record IsBuilder (b : Builder) : Type 0 where
  pub rows : length b.dependencies ≡ length b.names
  pub below : (i d : ℕ) → mem d (get_or b.dependencies i []) ≡ true → d < length b.names
  pub irreflexive : (i : ℕ) → mem i (get_or b.dependencies i []) ≡ false
  pub once : (i d : ℕ) → occurs d (get_or b.dependencies i []) ≤ 1
  pub edged : (i d : ℕ) → mem_edge i d b.edges ≡ mem d (get_or b.dependencies i [])
  pub named : (k : String) (i : ℕ) → lookup k b.by_name ≡ some i → get_elem? b.names i ≡ some k
  pub mapped : (k : String) (i : ℕ) → get_elem? b.names i ≡ some k → lookup k b.by_name ≡ some i

mem_edge-append :
    (i d : ℕ) (es : List (ℕ × ℕ)) (n e : ℕ)
    → mem_edge i d (es ++ (n, e) ∷ []) ≡ (mem_edge i d es || n == i && e == d)
mem_edge-append i d [] n e = ground arith
mem_edge-append i d ((a, c) ∷ es) n e = ground (arith, mem_edge-append i d es n e)

-- A new builder.
pub new-IsBuilder : (owner : ℕ) → IsBuilder (new owner)
unfolding lookup
new-IsBuilder owner = record {
  rows = refl;
  below = λ i d m. cc;
  irreflexive = λ i. refl;
  once = λ i d. omega arith;
  edged = λ i d. refl;
  named = λ k i h. cc;
  mapped = λ k i h. cc;
}

pub add_cases :
    (b : Builder) (name : String) {b' : Builder} {id : NodeId}
    → add b name ≡ ok (b', id)
    → (trims_to_empty name ≡ false)
      × (is_known b name ≡ false)
      × (b'.owner ≡ b.owner)
      × (b'.names ≡ b.names ++ name ∷ [])
      × (b'.by_name ≡ insert name (length b.names) b.by_name)
      × (b'.dependencies ≡ b.dependencies ++ [] ∷ [])
      × (b'.edges ≡ b.edges)
      × (id ≡ record { owner = b.owner; index = length b.names })
unfolding add
add_cases b name h = ground arith

-- When `add` returns, it has kept the builder's invariant: a row for each name, holding other
-- nodes' indices, each once; `edges` is the set of the pairs that the rows hold; the map leads each
-- name to its index, and nothing else to one.
pub add-IsBuilder :
    (b : Builder) (name : String) {b' : Builder} {id : NodeId}
    → IsBuilder b
    → add b name ≡ ok (b', id)
    → IsBuilder b'
add-IsBuilder b name {b'} w h =
    let (_, unknown, _, names, index, rows, edges, _) = add_cases b name h in
    record {
      rows =
          rw (rows, names)
            (omega (
              arith,
              length-append b.dependencies ([] ∷ []),
              length-append b.names (name ∷ []),
              w.rows,
            ));
      below = λ i d m. rw names (
          let old = w.below i d (rw (rows, get_or-snoc_nil) at m) in
          omega (arith, old, length-append b.names (name ∷ [])));
      irreflexive = λ i. rw (rows, get_or-snoc_nil) (w.irreflexive i);
      once = λ i d. rw (rows, get_or-snoc_nil) (w.once i d);
      edged = λ i d. rw (rows, edges, get_or-snoc_nil) (w.edged i d);
      named = λ k i e.
          rw names
            (named_after k i (rw (index, lookup-insert name k (length b.names) b.by_name) at e));
      mapped = λ k i e. rw index (
          lookup-insert name k (length b.names) b.by_name
          ∙ mapped_after k i unknown (rw names at e));
    }
  where
    named_after :
        (k : String) (i : ℕ)
        → (if str_eq name k then some (length b.names) else lookup k b.by_name) ≡ some i
        → get_elem? (b.names ++ name ∷ []) i ≡ some k
    named_after k i e = elim (Bool-cases (str_eq name k)) [
      | inl same ↦
          let here : length b.names ≡ i = ground arith in
          rw (← here) (get_elem?-snoc b.names name ∙ ap some ((eq_iff name k).0 same))
      | inr other ↦ get_elem?-append_left b.names (name ∷ []) i (w.named k i (ground arith))
    ]

    -- A name is new, so that no older one loses its place in the map.
    mapped_after :
        (k : String) (i : ℕ)
        → is_known b name ≡ false
        → get_elem? (b.names ++ name ∷ []) i ≡ some k
        → (if str_eq name k then some (length b.names) else lookup k b.by_name) ≡ some i
    mapped_after k i unknown e = elim (snoc_cases b.names name i e) [
      | inl old ↦ ground (arith, w.mapped k i old, eq_iff name k)
      | inr (last, same) ↦ ground (arith, last, same, eq_iff name k)
    ]

pub depends_on_cases :
    (b : Builder) (node dependency : NodeId) {b' : Builder}
    → depends_on b node dependency ≡ ok b'
    → (node.owner ≡ b.owner)
      × (dependency.owner ≡ b.owner)
      × (node.index < length b.names)
      × (dependency.index < length b.names)
      × ((node.index == dependency.index) ≡ false)
      × (b' ≡ insert_edge b node.index dependency.index)
unfolding depends_on check
depends_on_cases b node dependency h = ground arith

insert_edge-IsBuilder :
    (b : Builder) (n e : ℕ)
    → IsBuilder b
    → n < length b.names
    → e < length b.names
    → (n == e) ≡ false
    → IsBuilder (insert_edge b n e)
unfolding insert_edge
insert_edge-IsBuilder b n e w inside inside' other = elim (Bool-cases (mem_edge n e b.edges)) [
  | inl old ↦ rw old w
  | inr fresh ↦
      let row_after =
        λ (i : ℕ). get_or-update b.dependencies n i (λ ds. ds ++ e ∷ []) (omega (arith, w.rows)) in
      rw fresh (record {
        rows = length-update b.dependencies n (λ ds. ds ++ e ∷ []) ∙ w.rows;
        below = λ i d m. ground (
          arith,
          row_after i,
          w.below i d,
          mem-append d (get_or b.dependencies i []) (e ∷ []),
          ==_iff d e,
        );
        irreflexive = λ i. ground (
          arith,
          row_after i,
          w.irreflexive i,
          mem-append i (get_or b.dependencies i []) (e ∷ []),
          ==_iff i e,
          ==_iff n i,
        );
        once = λ i d. ground (
          arith,
          row_after i,
          w.once i d,
          w.edged n e,
          occurs-append d (get_or b.dependencies i []) (e ∷ []),
          mem_of_occurs_pos d (get_or b.dependencies i []),
          ==_iff d e,
          ==_iff n i,
        );
        edged = λ i d. ground (
          arith,
          row_after i,
          w.edged i d,
          mem_edge-append i d b.edges n e,
          mem-append d (get_or b.dependencies i []) (e ∷ []),
          ==_iff d e,
          ==_iff e d,
        );
        named = w.named;
        mapped = w.mapped;
      })
]

-- When `depends_on` returns, it has kept the builder's invariant: a row for each name, holding
-- other nodes' indices, each once; `edges` is the set of the pairs that the rows hold; the map
-- leads each name to its index, and nothing else to one.
pub depends_on-IsBuilder :
    (b : Builder) (node dependency : NodeId) {b' : Builder}
    → IsBuilder b
    → depends_on b node dependency ≡ ok b'
    → IsBuilder b'
depends_on-IsBuilder b node dependency w h =
    let (_, _, inside, inside', other, e) = depends_on_cases b node dependency h in
    rw e (insert_edge-IsBuilder b node.index dependency.index w inside inside' other)
