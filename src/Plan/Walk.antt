-- ===== src/Plan/Walk.antt =====
-- When `_map_value` returns, whatever function it applies to the references.
use traversal.Base.{
  ◌≡◌, refl, Bool, true, false, ◌&&◌, List, [], ◌∷◌, ◌++◌, every, Bool-cases, inl, inr, arith,
}
use traversal.Exceptions.{Result, return, raise, ◌>>=◌, >>=-eq-return}
use traversal.Cache.{Object}
use traversal.Values.{
  Node, Value, Values, Items, node, list, tuple, dict, object, nil, cons, end, item, has_node_key,
  map_value, map_values, map_items,
}
use traversal.Plan.Closed.{fine, fine_all, fine_items}
use traversal.Plan.Dependencies.{nodes_in, nodes_in_all, nodes_in_items}

-- A call that returns.
abbrev pub Returns : {B : Type 0} → Result B → Type 0
Returns {B} m = (b : B) × (m ≡ return b)

pub then-Returns :
    {A B : Type 0} (m : Result A) (f : A → Result B)
    → Returns m
    → ((a : A) → Returns (f a))
    → Returns (m >>= f)
then-Returns (return a) f r k = k a
then-Returns (raise e) f (a, h) k = cc

module _ {S : Type 0} (f : S → Node → Result (S × Value Object)) (p : Node → Bool) where
  -- It returns if the function does for each reference, and no dictionary has a reference as a key.
  module _ (returns : (s : S) (n : Node) → p n ≡ true → Returns (f s n)) where
    mutual
      unfolding map_value

      pub value_total : (v : Value Object) (s : S) → fine p v ≡ true → Returns (map_value v f s)
      value_total (node n) s h = returns s n h
      value_total (list vs) s h =
          then-Returns (map_values vs f s) _ (values_total vs s h) (λ r. (_, refl))
      value_total (tuple vs) s h =
          then-Returns (map_values vs f s) _ (values_total vs s h) (λ r. (_, refl))
      value_total (dict items) s h =
          let keyless : has_node_key items ≡ false = ground arith in
          rw (map_value, keyless)
            (then-Returns (map_items items f s) (λ (s', items'). return (s', dict items'))
              (items_total items s (ground arith)) (λ r. ((r.0, dict r.1), refl)))
      value_total (object a) s h = (_, refl)

      pub values_total :
          (vs : Values Object) (s : S) → fine_all p vs ≡ true → Returns (map_values vs f s)
      values_total nil s h = (_, refl)
      values_total (cons v vs) s h =
          then-Returns (map_value v f s) _ (value_total v s (ground arith)) (λ r.
            then-Returns (map_values vs f r.0) _ (values_total vs r.0 (ground arith))
              (λ r'. (_, refl)))

      pub items_total :
          (items : Items Object) (s : S) → fine_items p items ≡ true → Returns (map_items items f s)
      items_total end s h = (_, refl)
      items_total (item k v rest) s h =
          then-Returns (map_value v f s) _ (value_total v s (ground arith)) (λ r.
            then-Returns (map_items rest f r.0) _ (items_total rest r.0 (ground arith))
              (λ r'. (_, refl)))

  -- It returns only if the function did for each reference, and no dictionary has such a key.
  module _ (only : (s : S) (n : Node) → Returns (f s n) → p n ≡ true) where
    mutual
      unfolding map_value

      pub value_only : (v : Value Object) (s : S) → Returns (map_value v f s) → fine p v ≡ true
      value_only (node n) s h = only s n h
      value_only (list vs) s (_, h) =
          let (r, e, last) = >>=-eq-return (map_values vs f s) _ h in values_only vs s (r, e)
      value_only (tuple vs) s (_, h) =
          let (r, e, last) = >>=-eq-return (map_values vs f s) _ h in values_only vs s (r, e)
      value_only (dict items) s (_, h) = elim (Bool-cases (has_node_key items)) [
        | inl bad ↦ absurd (ground arith)
        | inr good ↦
            let (r, e, last) = >>=-eq-return (map_items items f s) _ (rw (map_value, good) at h) in
            ground (arith, items_only items s (r, e))
      ]
      value_only (object a) s h = refl

      pub values_only :
          (vs : Values Object) (s : S) → Returns (map_values vs f s) → fine_all p vs ≡ true
      values_only nil s h = refl
      values_only (cons v vs) s (_, h) =
          let (r, e, rest) = >>=-eq-return (map_value v f s) _ h in
          let (r', e', last) = >>=-eq-return (map_values vs f r.0) _ rest in
          ground (arith, value_only v s (r, e), values_only vs r.0 (r', e'))

      pub items_only :
          (items : Items Object) (s : S) → Returns (map_items items f s) → fine_items p items ≡ true
      items_only end s h = refl
      items_only (item k v items) s (_, h) =
          let (r, e, rest) = >>=-eq-return (map_value v f s) _ h in
          let (r', e', last) = >>=-eq-return (map_items items f r.0) _ rest in
          ground (arith, value_only v s (r, e), items_only items r.0 (r', e'))

every-append {ℓ} :
    {A : Type ℓ} (p : A → Bool) (xs ys : List A) → every p (xs ++ ys) ≡ (every p xs && every p ys)
every-append p [] ys = refl
every-append p (x ∷ xs) ys = ground (arith, every-append p xs ys)

module _ (p q : Node → Bool) where
  -- Another test that all references pass.
  mutual
    value_again :
        (v : Value Object) → fine p v ≡ true → every q (nodes_in v) ≡ true → fine q v ≡ true
    value_again (node n) h e = ground arith
    value_again (list vs) h e = values_again vs h e
    value_again (tuple vs) h e = values_again vs h e
    value_again (dict items) h e = ground (arith, items_again items)
    value_again (object a) h e = refl

    pub values_again :
        (vs : Values Object)
        → fine_all p vs ≡ true
        → every q (nodes_in_all vs) ≡ true
        → fine_all q vs ≡ true
    values_again nil h e = refl
    values_again (cons v vs) h e =
        ground
          (arith, value_again v, values_again vs, every-append q (nodes_in v) (nodes_in_all vs))

    pub items_again :
        (items : Items Object)
        → fine_items p items ≡ true
        → every q (nodes_in_items items) ≡ true
        → fine_items q items ≡ true
    items_again end h e = refl
    items_again (item k v rest) h e =
        ground (
          arith,
          value_again v,
          items_again rest,
          every-append q (nodes_in v) (nodes_in_items rest),
        )

module _ (p : Node → Bool) where
  mutual
    value_each : (v : Value Object) → fine p v ≡ true → every p (nodes_in v) ≡ true
    value_each (node n) h = ground arith
    value_each (list vs) h = values_each vs h
    value_each (tuple vs) h = values_each vs h
    value_each (dict items) h = items_each items (ground arith)
    value_each (object a) h = refl

    pub values_each : (vs : Values Object) → fine_all p vs ≡ true → every p (nodes_in_all vs) ≡ true
    values_each nil h = refl
    values_each (cons v vs) h =
        ground (arith, value_each v, values_each vs, every-append p (nodes_in v) (nodes_in_all vs))

    pub items_each :
        (items : Items Object) → fine_items p items ≡ true → every p (nodes_in_items items) ≡ true
    items_each end h = refl
    items_each (item k v rest) h =
        ground
          (arith, value_each v, items_each rest, every-append p (nodes_in v) (nodes_in_items rest))
