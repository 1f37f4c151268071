-- ===== src/Command/Export.antt =====
-- The exported skill is the package's, less what is skipped.
use traversal.Base.{
  ◌≡◌, refl, ap, String, true, false, Option, none, some, List, [], ◌∷◌, some_of, if◌then◌else◌,
  str_eq, eq_iff, Bool-cases, Option-cases, inl, inr, arith,
}
use traversal.Exceptions.{return}
use traversal.Command.{
  Tree, file, dir, Entries, empty, entry, is_skipped, child, Machine, export_skill,
}
use traversal.Command.Copy.{is_sound, kept, kept_tree, append, copy-Copies}

-- What a path leads to: nothing, a directory (`some none`) or a file with its bytes.
abbrev pub kind : Tree → Option String
kind (file bytes) = some bytes
kind (dir inner) = none

unfoldable pub entry_at : Entries → List String → Option (Option String)
unfolding child
entry_at es [] = some none
entry_at es (name ∷ []) = elim (child name es) [ none ↦ none | some tree ↦ some (kind tree) ]
entry_at es (name ∷ next ∷ path) = elim (child name es) [
  | none ↦ none
  | some (file bytes) ↦ none
  | some (dir inner) ↦ entry_at inner (next ∷ path)
]

child-kept :
    (name : String) (es : Entries)
    → child name (kept es) ≡ (
        if is_skipped name
        then none
        else (elim (child name es) [ none ↦ none | some tree ↦ some (kept_tree tree) ]))
unfolding child kept
child-kept name empty = ground arith
child-kept name (entry other tree rest) = elim (Bool-cases (str_eq other name)) [
  | inl same ↦
      let e : is_skipped other ≡ is_skipped name = ap is_skipped ((eq_iff other name).0 same) in
      ground (arith, same, e, child-kept name rest)
  | inr apart ↦ ground (arith, apart, child-kept name rest)
]

-- What is left of a tree is what no skipped name leads to.
entry_at-kept :
    (es : Entries) (path : List String)
    → entry_at (kept es) path ≡ (if some_of is_skipped path then none else entry_at es path)
unfolding entry_at kept_tree
entry_at-kept es [] = refl
entry_at-kept es (name ∷ []) = elim (Option-cases (child name es)) [
  | inl missing ↦ ground (arith, child-kept name es, missing)
  | inr (file bytes, found) ↦ ground (arith, child-kept name es, found)
  | inr (dir inner, found) ↦ ground (arith, child-kept name es, found)
]
entry_at-kept es (name ∷ next ∷ path) = elim (Option-cases (child name es)) [
  | inl missing ↦ ground (arith, child-kept name es, missing)
  | inr (file bytes, found) ↦ ground (arith, child-kept name es, found)
  | inr (dir inner, found) ↦
      ground (arith, child-kept name es, found, entry_at-kept inner (next ∷ path))
]

-- If the package's skill has no two entries of one name in a directory and the output does not
-- exist: the export returns a tree in which each path leads to what it leads to in the package's
-- skill, or to nothing if a name on it is `__pycache__` or ends with `.pyc`.
pub export_skill-entries :
    (m : Machine) (output : String)
    → is_sound m.package_skill ≡ true
    → m.exists output ≡ false
    → (made : Entries) × (export_skill m output ≡ return made)
      × ((path : List String)
          → entry_at made path
            ≡ (if some_of is_skipped path then none else entry_at m.package_skill path))
unfolding export_skill append
export_skill-entries m output sound new = (
  kept m.package_skill,
  ground (arith, new, copy-Copies m.package_skill empty sound (λ n h. unfold child in refl)),
  entry_at-kept m.package_skill,
)
