-- ===== src/Plan/Keys.antt =====
-- Which nodes get a fingerprint: `Plan._fingerprints`.
use traversal.Base.{
  ℕ, zero, suc, ◌<◌, ◌≡◌, ◌↔◌, refl, sym, ◌∙◌, String, Bool, true, false, ◌&&◌, ◌||◌, Option, none,
  some, List, [], ◌∷◌, ◌++◌, append_assoc, append-nil, foldl, map, length, length-set,
  length-replicate, get_or, set, subst, replicate, every, every_at, mem, mem-append, index_of,
  ==_iff, ◌==◌, Bool-cases, Option-cases, inl, inr, arith, is_some,
}
use traversal.Engine.Topology.Shape.{size}
use traversal.Engine.Binding.Valid.{compile_topology-Represents}
use traversal.Exceptions.{return}
use traversal.Cache.{Codec, Cache}
use traversal.Graph.{Task, Graph, Target}
use traversal.Plan.{Plan, cache_at, has_fingerprint, fingerprint_one, fingerprints, compile}
use traversal.Plan.Frozen.{IsFrozen, compile-IsFrozen}

-- A node with a cache key, all of whose dependencies are such nodes.
pub data Cacheable (p : Plan) : ℕ → Type 0 where
  keyed :
      {i : ℕ} (cache : Cache)
      → cache_at p.tasks i ≡ some cache
      → ((d : ℕ) → mem d (get_or p.dependencies i []) ≡ true → Cacheable p d)
      → Cacheable p i

own_key : (p : Plan) {i : ℕ} → Cacheable p i → (cache : Cache) × (cache_at p.tasks i ≡ some cache)
own_key p (keyed cache e deps) = (cache, e)

their_keys :
    (p : Plan) {i : ℕ} (d : ℕ)
    → Cacheable p i
    → mem d (get_or p.dependencies i []) ≡ true
    → Cacheable p d
their_keys p d (keyed cache e deps) m = deps d m

lt_of_cache_at :
    (tasks : List Task) (i : ℕ) {cache : Cache} → cache_at tasks i ≡ some cache → i < length tasks
lt_of_cache_at [] i h = cc
lt_of_cache_at (t ∷ tasks) zero h = omega arith
lt_of_cache_at (t ∷ tasks) (suc i) h = omega (arith, lt_of_cache_at tasks i h)

has_fingerprint-set :
    (keys : List (Option String)) (i j : ℕ) (k : String)
    → i < length keys
    → has_fingerprint (set keys i (some k)) j ≡ (has_fingerprint keys j || i == j)
has_fingerprint-set [] i j k h = absurd (omega arith)
has_fingerprint-set (x ∷ keys) zero zero k h = ground arith
has_fingerprint-set (x ∷ keys) zero (suc j) k h = ground arith
has_fingerprint-set (x ∷ keys) (suc i) zero k h = ground arith
has_fingerprint-set (x ∷ keys) (suc i) (suc j) k h =
    ground (arith, has_fingerprint-set keys i j k (omega arith))

-- In an order, what stands before an element stands in any list that this element follows.
mem_of_before :
    (d j : ℕ) (seen rest : List ℕ)
    → index_of d (seen ++ j ∷ rest) < index_of j (seen ++ j ∷ rest)
    → mem d seen ≡ true
mem_of_before d j [] rest h = absurd (ground (arith, ==_iff j j))
mem_of_before d j (x ∷ seen) rest h = ground (arith, mem_of_before d j seen rest)

every_of_all :
    (f : ℕ → Bool) (xs : List ℕ) → ((x : ℕ) → mem x xs ≡ true → f x ≡ true) → every f xs ≡ true
every_of_all f [] h = refl
every_of_all f (x ∷ xs) h =
    ground (arith, h x, ==_iff x x, every_of_all f xs (λ y m. h y (ground arith)))

module _ (c : Codec) (p : Plan) where
  abbrev deps : ℕ → List ℕ
  deps i = get_or p.dependencies i []

  -- After the nodes of `seen`: these have a fingerprint exactly if they are cacheable, others none.
  record Keyed (seen : List ℕ) (keys : List (Option String)) : Type 0 where
    as_many : length keys ≡ length p.tasks
    only : (i : ℕ) → has_fingerprint keys i ≡ true → (mem i seen ≡ true) × Cacheable p i
    all : (i : ℕ) → mem i seen ≡ true → Cacheable p i → has_fingerprint keys i ≡ true

  one-length :
      (keys : List (Option String)) (i : ℕ) → length (fingerprint_one c p keys i) ≡ length keys
  unfolding fingerprint_one
  one-length keys i = elim (Option-cases (cache_at p.tasks i)) [
    | inl keyless ↦ rw (fingerprint_one, keyless) refl
    | inr (cache, has) ↦ elim (Bool-cases (every (has_fingerprint keys) (deps i))) [
      | inl ready ↦ rw (fingerprint_one, has, ready) (length-set keys i _)
      | inr unready ↦ rw (fingerprint_one, has, unready) refl
    ]
  ]

  -- What the body of the loop does.
  one-cases :
      (keys : List (Option String)) (i j : ℕ)
      → length keys ≡ length p.tasks
      → has_fingerprint (fingerprint_one c p keys i) j ≡ (
          has_fingerprint keys j
          || (i == j && (is_some (cache_at p.tasks i) && every (has_fingerprint keys) (deps i))))
  unfolding fingerprint_one
  one-cases keys i j l = elim (Option-cases (cache_at p.tasks i)) [
    | inl keyless ↦ rw (fingerprint_one, keyless) (ground arith)
    | inr (cache, has) ↦ elim (Bool-cases (every (has_fingerprint keys) (deps i))) [
      | inl ready ↦
          rw (fingerprint_one, has, ready)
            (has_fingerprint-set keys i j _ (rw l (lt_of_cache_at p.tasks i has)) ∙ ground arith)
      | inr unready ↦ rw (fingerprint_one, has, unready) (ground arith)
    ]
  ]

  one-Keyed :
      (seen : List ℕ) (keys : List (Option String)) (i : ℕ)
      → ((d : ℕ) → mem d (deps i) ≡ true → mem d seen ≡ true)
      → Keyed seen keys
      → Keyed (seen ++ i ∷ []) (fingerprint_one c p keys i)
  one-Keyed seen keys i before k = record {
    as_many = one-length keys i ∙ k.as_many;
    only = λ j h. elim (Bool-cases (has_fingerprint keys j)) [
      | inl had ↦ (ground (arith, k.only j had, mem-append j seen (i ∷ [])), (k.only j had).1)
      | inr new ↦
          let (same, keyed_self, ready) : (i ≡ j)
              × (is_some (cache_at p.tasks i) ≡ true)
              × (every (has_fingerprint keys) (deps i) ≡ true) =
            ground (arith, one-cases keys i j k.as_many, ==_iff i j) in
          (
            ground (arith, mem-append j seen (i ∷ [])),
            subst (Cacheable p) same (cacheable_one keyed_self ready),
          )
    ];
    all = λ j m cacheable. elim (Bool-cases (i == j)) [
      | inr other ↦
          ground
            (arith, one-cases keys i j k.as_many, k.all j, cacheable, mem-append j seen (i ∷ []))
      | inl same ↦
          let here : Cacheable p i = subst (Cacheable p) (sym ((==_iff i j).0 same)) cacheable in
          let (cache, has) = own_key p here in
          let ready =
            every_of_all (has_fingerprint keys) (deps i)
              (λ d dep. k.all d (before d dep) (their_keys p d here dep)) in
          ground (arith, one-cases keys i j k.as_many, has, ready)
    ];
  }
    where
      cacheable_one :
          is_some (cache_at p.tasks i) ≡ true
          → every (has_fingerprint keys) (deps i) ≡ true
          → Cacheable p i
      cacheable_one own ready = elim (Option-cases (cache_at p.tasks i)) [
        | inl keyless ↦ absurd (ground arith)
        | inr (cache, has) ↦
            keyed cache has
              (λ d dep. (k.only d (every_at (has_fingerprint keys) (deps i) d ready dep)).1)
      ]

  all-Keyed :
      (seen rest : List ℕ) (keys : List (Option String))
      → ((before after : List ℕ) (j d : ℕ)
          → seen ++ rest ≡ before ++ j ∷ after
          → mem d (deps j) ≡ true
          → mem d before ≡ true)
      → Keyed seen keys
      → Keyed (seen ++ rest) (foldl (fingerprint_one c p) keys rest)
  all-Keyed seen [] keys ordered k = rw (append-nil seen) k
  all-Keyed seen (i ∷ rest) keys ordered k = rw (← append_assoc seen (i ∷ []) rest) (
      all-Keyed (seen ++ i ∷ []) rest (fingerprint_one c p keys i)
        (λ before after j d e. ordered before after j d (sym (append_assoc seen (i ∷ []) rest) ∙ e))
        (one-Keyed seen keys i (λ d. ordered seen rest i d refl) k))

  -- For a plan whose parts belong together.
  frozen-keys :
      (owner i : ℕ)
      → IsFrozen owner p
      → i < size p.topology
      → (has_fingerprint (fingerprints c p) i ≡ true) ↔ Cacheable p i
  unfolding fingerprints
  frozen-keys owner i f inside =
      let native_rows =
        compile_topology-Represents owner (map (λ e. e.0) p.index) p.dependencies f.made in
      let order = p.topology.order in
      let covered = native_rows.compiled.covers i inside in
      let k =
        all-Keyed [] order (replicate (length p.tasks) none)
          (λ before after j d e dep.
            mem_of_before d j before after
              (rw e at (native_rows.compiled.topology.falls j d (native_rows.rows_are j d ∙ dep))))
          (record {
            as_many = length-replicate (length p.tasks) none;
            only = λ j h. absurd (ground (arith, no_keys (length p.tasks) j));
            all = λ j m cacheable. cc;
          }) in
      (λ h. (k.only i h).1, k.all i covered)
    where
      no_keys : (n j : ℕ) → has_fingerprint (replicate n none) j ≡ false
      no_keys zero j = refl
      no_keys (suc n) zero = refl
      no_keys (suc n) (suc j) = no_keys n j

-- In a plan that `compile` returns, a node has a fingerprint exactly when it has a cache key and
-- all of its dependencies have one too, and theirs, and so on.
pub fingerprints-Cacheable :
    (c : Codec) (g : Graph) (targets : List Target) (owner : ℕ) (p : Plan) (i : ℕ)
    → compile g targets owner ≡ return p
    → i < size p.topology
    → (has_fingerprint (fingerprints c p) i ≡ true) ↔ Cacheable p i
fingerprints-Cacheable c g targets owner p i h =
    frozen-keys c p owner i (compile-IsFrozen g targets owner p h)
