-- ===== src/Engine/Topology/Closing.antt =====
-- The loop of `Topology::select`: the needed nodes, and what holds between two rounds.
use traversal.Base.{
  ℕ, zero, suc, ◌≤◌, ◌<◌, ◌≡◌, ◌⊎◌, ◌∙◌, String, Bool, true, false, not, some, List, [], ◌∷◌,
  length, length-set, get_or, set, get_or-set_self, get_or-set_ne, count, count-set, ◌==◌, ==_iff,
  ◌||◌, mem, mem_text, lookup, Bool-cases, inl, inr, arith,
}
use traversal.Engine.Topology.{Topology, extend, close}
use traversal.Engine.Topology.Shape.{IsTopology, size, deps_of}

-- The targets, and the dependencies of what is needed.
pub data Needed (g : Topology) (targets : List String) : ℕ → Type 0 where
  target :
      {i : ℕ} (name : String)
      → mem_text name targets ≡ true
      → lookup name g.by_name ≡ some i
      → Needed g targets i
  dependency : {i d : ℕ} → Needed g targets i → mem d (deps_of g i) ≡ true → Needed g targets d

-- The names lead to nodes.
abbrev pub IsIndexed : Topology → Type 0
IsIndexed g = (name : String) (i : ℕ) → lookup name g.by_name ≡ some i → i < size g

abbrev pub marked : List Bool → ℕ → Bool
marked selected i = get_or selected i false

marked-set :
    (selected : List Bool) (i j : ℕ)
    → i < length selected
    → marked (set selected i true) j ≡ (i == j || marked selected j)
marked-set selected i j h = elim (Bool-cases (i == j)) [
  | inl e ↦ rw (e, ← (==_iff i j).0 e) (get_or-set_self selected i true false h)
  | inr e ↦ rw e (get_or-set_ne selected i j true false (λ p. ground arith))
]

mem-extend : (x : ℕ) (stack ds : List ℕ) → mem x (extend stack ds) ≡ (mem x stack || mem x ds)
mem-extend x stack [] = ground arith
mem-extend x stack (d ∷ ds) = ground (arith, mem-extend x (d ∷ stack) ds)

module _ (g : Topology) (targets : List String) where
  -- The variables of the loop, between two rounds.
  pub record IsClosing (roots : List ℕ) (selected : List Bool) (stack : List ℕ) : Type 0 where
    pub as_many : length selected ≡ size g
    pub inside : (i : ℕ) → mem i stack ≡ true → i < size g
    pub rooted : (i : ℕ) → mem i roots ≡ true → (marked selected i || mem i stack) ≡ true
    pub closed :
        (i d : ℕ)
        → marked selected i ≡ true
        → mem d (deps_of g i) ≡ true
        → (marked selected d || mem d stack) ≡ true
    pub sound : (i : ℕ) → (marked selected i || mem i stack) ≡ true → Needed g targets i

  pub pass-IsClosing :
      (roots : List ℕ) (selected : List Bool) (node : ℕ) (stack : List ℕ)
      → marked selected node ≡ true
      → IsClosing roots selected (node ∷ stack)
      → IsClosing roots selected stack
  pass-IsClosing roots selected node stack old c = record {
    as_many = c.as_many;
    inside = λ i m. c.inside i (ground arith);
    rooted = λ i m. ground (arith, c.rooted i m, ==_iff i node);
    closed = λ i d m e. ground (arith, c.closed i d m e, ==_iff d node);
    sound = λ i m. c.sound i (ground arith);
  }

  select_one-IsClosing :
      (rank : ℕ → ℕ) (roots : List ℕ) (selected : List Bool) (node : ℕ) (stack : List ℕ)
      → IsTopology g rank
      → IsClosing roots selected (node ∷ stack)
      → IsClosing roots (set selected node true) (extend stack (deps_of g node))
  select_one-IsClosing rank roots selected node stack t c =
      let inside : node < length selected =
        omega (arith, c.as_many, c.inside node (ground (arith, ==_iff node node))) in
      record {
        as_many = length-set selected node true ∙ c.as_many;
        inside =
            λ i m. ground (arith, mem-extend i stack (deps_of g node), c.inside i, t.below node i);
        rooted = λ i m. ground (
          arith,
          c.rooted i m,
          marked-set selected node i inside,
          mem-extend i stack (deps_of g node),
          ==_iff i node,
          ==_iff node i,
        );
        closed = λ i d m e. ground (
          arith,
          c.closed i d,
          marked-set selected node i inside,
          marked-set selected node d inside,
          mem-extend d stack (deps_of g node),
          ==_iff node i,
          ==_iff d node,
          ==_iff node d,
        );
        sound = λ i m. pick i (
            ground (
              arith,
              marked-set selected node i inside,
              mem-extend i stack (deps_of g node),
              ==_iff i node,
              ==_iff node i,
            ));
      }
    where
      pick :
          (i : ℕ)
          → ((marked selected i || mem i (node ∷ stack)) ≡ true) ⊎ (mem i (deps_of g node) ≡ true)
          → Needed g targets i
      pick i (inl old) = c.sound i old
      pick i (inr new) = dependency (c.sound node (ground (arith, ==_iff node node))) new

  unmarked-set :
      (selected : List Bool) (i : ℕ)
      → i < length selected
      → marked selected i ≡ false
      → suc (count not (set selected i true)) ≡ count not selected
  unmarked-set selected i h e = ground (arith, count-set not selected i true false h)

  all_marked :
      (selected : List Bool) (i : ℕ)
      → count not selected ≤ 0
      → i < length selected
      → marked selected i ≡ true
  all_marked [] i h b = absurd (omega arith)
  all_marked (s ∷ selected) zero h b = ground arith
  all_marked (s ∷ selected) (suc i) h b = all_marked selected i (ground arith) (omega arith)

  pub close-IsClosing :
      (rank : ℕ → ℕ) (roots : List ℕ) (fuel : ℕ) (selected : List Bool) (stack : List ℕ)
      → IsTopology g rank
      → count not selected ≤ fuel
      → IsClosing roots selected stack
      → IsClosing roots (close g.dependencies fuel selected stack) []
  unfolding close
  close-IsClosing rank roots zero selected [] t h c = c
  close-IsClosing rank roots (suc fuel) selected [] t h c = c
  close-IsClosing rank roots zero selected (node ∷ stack) t h c =
      close-IsClosing rank roots zero selected stack t h (
        pass-IsClosing roots selected node stack
          (all_marked selected node h
            (omega (arith, c.as_many, c.inside node (ground (arith, ==_iff node node)))))
          c)
  close-IsClosing rank roots (suc fuel) selected (node ∷ stack) t h c =
      elim (Bool-cases (marked selected node)) [
        | inl old ↦ rw old (
            close-IsClosing rank roots (suc fuel) selected stack t h
              (pass-IsClosing roots selected node stack old c))
        | inr new ↦
            let inside : node < length selected =
              omega (arith, c.as_many, c.inside node (ground (arith, ==_iff node node))) in
            rw new (
              close-IsClosing rank roots fuel (set selected node true)
                (extend stack (deps_of g node)) t
                (omega (arith, unmarked-set selected node inside new))
                (select_one-IsClosing rank roots selected node stack t c))
      ]
