-- ===== src/Engine/Binding/Accepts/Names.antt =====
-- The names that `compile_topology` accepts.
use traversal.Base.{
  all_different, ℕ, ◌≡◌, refl, String, Bool, true, false, not, ◌||◌, List, [], ◌∷◌, ◌++◌, length,
  mem_text, str_eq, lookup, insert, lookup-insert, trims_to_empty, every, eq_iff, Bool-cases, inl,
  inr, arith,
}
use traversal.Engine.Errors.{ok, >>=-eq-ok}
use traversal.Engine.Builder.{NodeId, Builder, new, is_known, add}
use traversal.Engine.Builder.Valid.{add_cases}
use traversal.Engine.Binding.{add_all}

abbrev pub is_visible : String → Bool
is_visible name = not (trims_to_empty name)

-- None of the names is taken.
abbrev pub Fresh : Builder → List String → Type 0
Fresh b names = (name : String) → mem_text name names ≡ true → is_known b name ≡ false

known_after :
    (b : Builder) (name other : String) {b' : Builder} {id : NodeId}
    → add b name ≡ ok (b', id)
    → is_known b' other ≡ (str_eq name other || is_known b other)
known_after b name other h =
    let (_, _, _, _, index, _, _, _) = add_cases b name h in
    ground (arith, index, lookup-insert name other (length b.names) b.by_name)

-- Adding all names returns only if none is blank, taken or repeated.
pub add_all-visible :
    (b : Builder) (ids : List NodeId) (names : List String) {b' : Builder} {ids' : List NodeId}
    → add_all b ids names ≡ ok (b', ids')
    → (every is_visible names ≡ true) × (all_different names ≡ true) × Fresh b names
unfolding add_all all_different mem_text
add_all-visible b ids [] h = (refl, refl, λ name m. cc)
add_all-visible b ids (name ∷ names) h =
    let ((b₁, id), added, rest) = >>=-eq-ok (add b name) _ h in
    let (seen, unknown, _, _, _, _, _, _) = add_cases b name added in
    let (visible, different, fresh) = add_all-visible b₁ (ids ++ id ∷ []) names rest in
    let known = λ (other : String). known_after b name other added in
    (
      ground arith,
      ground (arith, different, fresh name, known name, eq_iff name name),
      λ other m. elim (Bool-cases (str_eq name other)) [
        | inl same ↦ rw (← (eq_iff name other).0 same) unknown
        | inr apart ↦ ground (arith, fresh other, known other)
      ],
    )

add_returns :
    (b : Builder) (name : String)
    → trims_to_empty name ≡ false
    → is_known b name ≡ false
    → (b' : Builder) × (id : NodeId) × (add b name ≡ ok (b', id))
unfolding add
add_returns b name visible unknown = (
  record b {
    names = b.names ++ name ∷ [];
    by_name = insert name (length b.names) b.by_name;
    dependencies = b.dependencies ++ [] ∷ [];
  },
  record { owner = b.owner; index = length b.names },
  rw (visible, unknown) refl,
)

-- Adding visible, fresh and different names returns.
pub add_all_accepts :
    (b : Builder) (ids : List NodeId) (names : List String)
    → every is_visible names ≡ true
    → all_different names ≡ true
    → Fresh b names
    → (b' : Builder) × (ids' : List NodeId) × (add_all b ids names ≡ ok (b', ids'))
unfolding add_all all_different mem_text
add_all_accepts b ids [] visible different fresh = (b, ids, refl)
add_all_accepts b ids (name ∷ names) visible different fresh =
    let (b₁, id, added) =
      add_returns b name (ground arith) (fresh name (ground (arith, eq_iff name name))) in
    let (b', ids', rest) =
      add_all_accepts b₁ (ids ++ id ∷ []) names (ground arith) (ground arith)
        (λ other m. ground (arith, fresh other, known_after b name other added, apart other m)) in
    (b', ids', rw added rest)
  where
    apart : (other : String) → mem_text other names ≡ true → str_eq name other ≡ false
    apart other m = elim (Bool-cases (str_eq name other)) [
      | inr e ↦ e
      | inl e ↦ absurd (ground (arith, different, rw (← (eq_iff name other).0 e) at m))
    ]

pub new-Fresh : (owner : ℕ) (names : List String) → Fresh (new owner) names
unfolding lookup
new-Fresh owner names name m = refl
