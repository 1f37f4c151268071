-- ===== src/Command/Copy.antt =====
-- What `copy` of __main__.py leaves of a tree.
use traversal.Base.{
  ◌≡◌, refl, ◌∙◌, sym, ap, String, Bool, true, false, not, ◌&&◌, none, some, is_some, if◌then◌else◌,
  str_eq, eq_iff, Bool-cases, inl, inr, arith,
}
use traversal.Exceptions.{return}
use traversal.Command.{
  Tree, file, dir, Entries, empty, entry, is_skipped, child, put, make_directory, write_bytes, copy,
}

-- No directory has two entries of one name.
unfoldable mutual
  unfolding child

  is_sound_tree : Tree → Bool
  is_sound_tree (file bytes) = true
  is_sound_tree (dir inner) = is_sound inner

  pub is_sound : Entries → Bool
  is_sound empty = true
  is_sound (entry name tree rest) =
      not (is_some (child name rest)) && (is_sound_tree tree && is_sound rest)

-- What is left of a tree.
unfoldable mutual
  pub kept_tree : Tree → Tree
  kept_tree (file bytes) = file bytes
  kept_tree (dir inner) = dir (kept inner)

  pub kept : Entries → Entries
  kept empty = empty
  kept (entry name tree rest) =
      if is_skipped name then kept rest else entry name (kept_tree tree) (kept rest)

unfoldable pub append : Entries → Entries → Entries
append empty more = more
append (entry name tree rest) more = entry name tree (append rest more)

append-empty : (es : Entries) → append es empty ≡ es
unfolding append
append-empty empty = refl
append-empty (entry name tree rest) = ap (entry name tree) (append-empty rest)

append-snoc :
    (es more : Entries) (name : String) (tree : Tree)
    → append (append es (entry name tree empty)) more ≡ append es (entry name tree more)
unfolding append
append-snoc empty more name tree = refl
append-snoc (entry n t rest) more name tree = ap (entry n t) (append-snoc rest more name tree)

put_new :
    (name : String) (tree : Tree) (es : Entries)
    → child name es ≡ none
    → put name tree es ≡ append es (entry name tree empty)
unfolding child put append
put_new name tree empty h = refl
put_new name tree (entry other old rest) h = ground (arith, put_new name tree rest)

put_again :
    (name : String) (new old : Tree) (es : Entries)
    → child name es ≡ none
    → put name new (append es (entry name old empty)) ≡ append es (entry name new empty)
unfolding child put append
put_again name new old empty h = ground (arith, eq_iff name name)
put_again name new old (entry other t rest) h = ground (arith, put_again name new old rest)

child_snoc :
    (name other : String) (tree : Tree) (es : Entries)
    → child other es ≡ none
    → child other (append es (entry name tree empty))
      ≡ (if str_eq name other then some tree else none)
unfolding child append
child_snoc name other tree empty h = refl
child_snoc name other tree (entry n t rest) h = ground (arith, child_snoc name other tree rest)

-- None of the names is in the target.
abbrev pub IsFree : Entries → Entries → Type 0
IsFree es target = (name : String) → is_some (child name es) ≡ true → child name target ≡ none

IsFree-head :
    (name : String) (tree : Tree) (rest target : Entries)
    → IsFree (entry name tree rest) target
    → child name target ≡ none
unfolding child
IsFree-head name tree rest target free = free name (ground (arith, eq_iff name name))

IsFree-skip :
    (name : String) (tree : Tree) (rest target : Entries)
    → IsFree (entry name tree rest) target
    → IsFree rest target
unfolding child
IsFree-skip name tree rest target free other h = free other (ground (arith, h))

IsFree-next :
    (name : String) (tree new : Tree) (rest target : Entries)
    → child name rest ≡ none
    → IsFree (entry name tree rest) target
    → IsFree rest (append target (entry name new empty))
IsFree-next name tree new rest target once free other h = elim (Bool-cases (str_eq name other)) [
  | inl same ↦
      let gone : child other rest ≡ none = rw ((eq_iff name other).0 same) at once in
      absurd (ground (arith, gone, h))
  | inr apart ↦
      child_snoc name other new target (IsFree-skip name tree rest target free other h)
      ∙ rw apart refl
]

copy_file :
    (name bytes : String) (rest target t : Entries)
    → is_skipped name ≡ false
    → child name target ≡ none
    → copy rest (append target (entry name (file bytes) empty)) ≡ return t
    → copy (entry name (file bytes) rest) target ≡ return t
unfolding copy write_bytes
copy_file name bytes rest target t shown free h =
    rw (copy, shown, write_bytes, free, put_new name (file bytes) target free) h

copy_dir :
    (name : String) (inner filled rest target t : Entries)
    → is_skipped name ≡ false
    → child name target ≡ none
    → copy inner empty ≡ return filled
    → copy rest (append target (entry name (dir filled) empty)) ≡ return t
    → copy (entry name (dir inner) rest) target ≡ return t
unfolding copy make_directory
copy_dir name inner filled rest target t shown free inside h = ground (
  arith,
  shown,
  free,
  put_new name (dir empty) target free,
  put_again name (dir filled) (dir empty) target free,
  inside,
  h,
)

copy_skipped :
    (name : String) (tree : Tree) (rest target : Entries)
    → is_skipped name ≡ true
    → copy (entry name tree rest) target ≡ copy rest target
unfolding copy
copy_skipped name (file bytes) rest target h = rw h refl
copy_skipped name (dir inner) rest target h = rw h refl

pub kept_skipped :
    (name : String) (tree : Tree) (rest : Entries)
    → is_skipped name ≡ true
    → kept (entry name tree rest) ≡ kept rest
unfolding kept
kept_skipped name tree rest h = rw h refl

pub kept_shown :
    (name : String) (tree : Tree) (rest : Entries)
    → is_skipped name ≡ false
    → kept (entry name tree rest) ≡ entry name (kept_tree tree) (kept rest)
unfolding kept
kept_shown name tree rest h = rw h refl

-- What `copy` into a directory that has none of the names leaves.
abbrev pub Copies : Entries → Entries → Type 0
Copies es target = copy es target ≡ return (append target (kept es))

empty-Copies : (target : Entries) → Copies empty target
unfolding copy kept append
empty-Copies target = ap return (sym (append-empty target))

skipped-Copies :
    (name : String) (tree : Tree) (rest target : Entries)
    → is_skipped name ≡ true
    → Copies rest target
    → Copies (entry name tree rest) target
skipped-Copies name tree rest target skipped h =
    copy_skipped name tree rest target skipped
    ∙ h
    ∙ ap (λ es. return (append target es)) (sym (kept_skipped name tree rest skipped))

shown-Copies :
    (name : String) (tree : Tree) (rest target : Entries)
    → is_skipped name ≡ false
    → ((t : Entries)
        → copy rest (append target (entry name (kept_tree tree) empty)) ≡ return t
        → copy (entry name tree rest) target ≡ return t)
    → Copies rest (append target (entry name (kept_tree tree) empty))
    → Copies (entry name tree rest) target
shown-Copies name tree rest target shown step h =
    step (append target (entry name (kept_tree tree) (kept rest)))
      (h ∙ ap return (append-snoc target (kept rest) name (kept_tree tree)))
    ∙ ap (λ es. return (append target es)) (sym (kept_shown name tree rest shown))

pub copy-Copies : (es target : Entries) → is_sound es ≡ true → IsFree es target → Copies es target
unfolding is_sound kept_tree append
copy-Copies empty target sound free = empty-Copies target
copy-Copies (entry name (file bytes) rest) target sound free = elim (Bool-cases (is_skipped name)) [
  | inl skipped ↦
      skipped-Copies name (file bytes) rest target skipped
        (copy-Copies rest target (ground arith) (IsFree-skip name (file bytes) rest target free))
  | inr shown ↦
      shown-Copies name (file bytes) rest target shown
        (λ t.
          copy_file name bytes rest target t shown (IsFree-head name (file bytes) rest target free))
        (copy-Copies rest (append target (entry name (file bytes) empty)) (ground arith)
          (IsFree-next name (file bytes) (file bytes) rest target (ground arith) free))
]
copy-Copies (entry name (dir inner) rest) target sound free = elim (Bool-cases (is_skipped name)) [
  | inl skipped ↦
      skipped-Copies name (dir inner) rest target skipped
        (copy-Copies rest target (ground arith) (IsFree-skip name (dir inner) rest target free))
  | inr shown ↦
      shown-Copies name (dir inner) rest target shown
        (λ t.
          copy_dir name inner (kept inner) rest target t shown
            (IsFree-head name (dir inner) rest target free)
            (copy-Copies inner empty (ground arith) (λ n m. refl)))
        (copy-Copies rest (append target (entry name (dir (kept inner)) empty)) (ground arith)
          (IsFree-next name (dir inner) (dir (kept inner)) rest target (ground arith) free))
]
