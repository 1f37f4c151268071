-- ===== src/Engine/Run/Counts.antt =====
-- The counters of `RunState`: what `active`, `capacity` and `unfinished` say of the states.
use traversal.Base.{
  ℕ, zero, suc, ◌+◌, ◌-◌, ◌≤◌, ◌<◌, ◌≡◌, refl, Bool, true, false, List, [], ◌∷◌, ◌++◌, foldl,
  length, get_or, set, count, ltb, if◌then◌else◌, count-set, Bool-cases, inl, inr, arith,
}
use traversal.Engine.Errors.{ok}
use traversal.Engine.Run.{
  State, unselected, pending, ready, running, blocked, is_pending, is_ready, is_running, is_waiting,
  is_success, is_outcome, RunState, state_at, claim, mark_blocked, admit_from, admit, release,
  block, settle, propagate, finish, cancel_all, cancel,
}

-- A node that `unfinished` counts.
abbrev pub is_live : State → Bool
is_live pending = true
is_live ready = true
is_live running = true
is_live _ = false

pub record IsCounted (r : RunState) : Type 0 where
  pub live : r.unfinished ≡ count is_live r.states
  pub at_work : r.active ≡ count is_running r.states
  pub within : r.active ≤ r.capacity

-- Only an index in range has a state other than the default.
pub lt_of_state :
    (p : State → Bool) (states : List State) (i : ℕ)
    → p unselected ≡ false
    → p (state_at states i) ≡ true
    → i < length states
lt_of_state p [] i no_default h = cc
lt_of_state p (s ∷ states) zero no_default h = omega arith
lt_of_state p (s ∷ states) (suc i) no_default h = omega (arith, lt_of_state p states i no_default h)

-- What a write does to both counts.
pub live-set :
    (states : List State) (i : ℕ) (v : State)
    → i < length states
    → count is_live (set states i v) + (if is_live (state_at states i) then 1 else 0)
      ≡ count is_live states + (if is_live v then 1 else 0)
live-set states i v h = count-set is_live states i v unselected h

pub running-set :
    (states : List State) (i : ℕ) (v : State)
    → i < length states
    → count is_running (set states i v) + (if is_running (state_at states i) then 1 else 0)
      ≡ count is_running states + (if is_running v then 1 else 0)
running-set states i v h = count-set is_running states i v unselected h

admit_one-IsCounted :
    (r : RunState) (i : ℕ)
    → IsCounted r
    → ltb r.active r.capacity ≡ true
    → is_ready (state_at r.states i) ≡ true
    → IsCounted (claim r i)
admit_one-IsCounted r i c room is_free = ground (
  arith,
  lt_of_state is_ready r.states i,
  live-set r.states i running,
  running-set r.states i running,
)

admit_from-IsCounted :
    (r : RunState) (queue admitted : List ℕ)
    → IsCounted r
    → IsCounted (admit_from r queue admitted).0
unfolding admit_from
admit_from-IsCounted r [] admitted c = record {
  live = c.live;
  at_work = c.at_work;
  within = c.within;
}
admit_from-IsCounted r (i ∷ rest) admitted c = elim (Bool-cases (ltb r.active r.capacity)) [
  | inl room ↦ elim (Bool-cases (is_ready (state_at r.states i))) [
    | inl free ↦
        rw (room, free)
          (admit_from-IsCounted (claim r i) rest (admitted ++ i ∷ [])
            (admit_one-IsCounted r i c room free))
    | inr stale ↦ rw (room, stale) (admit_from-IsCounted r rest admitted c)
  ]
  | inr full ↦ rw full (record { live = c.live; at_work = c.at_work; within = c.within })
]

release-IsCounted : (r : RunState) (next : ℕ) → IsCounted r → IsCounted (release r next)
unfolding release
release-IsCounted r next c = ground (
  arith,
  lt_of_state is_pending r.states next,
  live-set r.states next ready,
  running-set r.states next ready,
)

release_all-IsCounted :
    (r : RunState) (nexts : List ℕ) → IsCounted r → IsCounted (foldl release r nexts)
release_all-IsCounted r [] c = c
release_all-IsCounted r (n ∷ nexts) c =
    release_all-IsCounted (release r n) nexts (release-IsCounted r n c)

block_one-IsCounted :
    (r : RunState) (next : ℕ)
    → IsCounted r
    → is_waiting (state_at r.states next) ≡ true
    → IsCounted (mark_blocked r next)
block_one-IsCounted r next c waits = ground (
  arith,
  lt_of_state is_waiting r.states next,
  live-set r.states next blocked,
  running-set r.states next blocked,
)

block-IsCounted :
    (fuel : ℕ) (r : RunState) (queue : List ℕ) → IsCounted r → IsCounted (block fuel r queue)
unfolding block
block-IsCounted zero r [] c = c
block-IsCounted (suc fuel) r [] c = c
block-IsCounted zero r (next ∷ rest) c = block-IsCounted zero r rest c
block-IsCounted (suc fuel) r (next ∷ rest) c =
    elim (Bool-cases (is_waiting (state_at r.states next))) [
      | inl waits ↦
          rw waits
            (block-IsCounted fuel (mark_blocked r next) _ (block_one-IsCounted r next c waits))
      | inr settled ↦ rw settled (block-IsCounted (suc fuel) r rest c)
    ]

settle-IsCounted :
    (r : RunState) (node : ℕ) (outcome : State)
    → IsCounted r
    → is_running (state_at r.states node) ≡ true
    → is_outcome outcome ≡ true
    → IsCounted (settle r node outcome)
settle-IsCounted r node outcome c runs valid = ground (
  arith,
  lt_of_state is_running r.states node,
  live-set r.states node outcome,
  running-set r.states node outcome,
)

propagate-IsCounted :
    (r : RunState) (node : ℕ) (success : Bool) → IsCounted r → IsCounted (propagate r node success)
unfolding propagate
propagate-IsCounted r node true c = release_all-IsCounted r (get_or r.graph.dependents node []) c
propagate-IsCounted r node false c =
    block-IsCounted (length r.states) r (get_or r.graph.dependents node []) c

pub finish-IsCounted :
    (r : RunState) (node : ℕ) (outcome : State) {r' : RunState}
    → IsCounted r
    → finish r node outcome ≡ ok r'
    → IsCounted r'
unfolding finish
finish-IsCounted r node outcome c h = ground (
  arith,
  settle-IsCounted r node outcome c,
  propagate-IsCounted (settle r node outcome) node (is_success outcome),
)

pub admit-IsCounted : (r : RunState) → IsCounted r → IsCounted (admit r).0
unfolding admit
admit-IsCounted r c = admit_from-IsCounted r r.queue [] c

cancel_all-live :
    (states : List State) (n : ℕ)
    → count is_live states ≤ n
    → (cancel_all states n).1 + count is_live states ≡ n + count is_live (cancel_all states n).0
unfolding cancel_all
cancel_all-live [] n h = refl
cancel_all-live (s ∷ states) n h =
    ground (arith, cancel_all-live states n, cancel_all-live states (n - 1))

cancel_all-running :
    (states : List State) (n : ℕ)
    → count is_running (cancel_all states n).0 ≡ count is_running states
unfolding cancel_all
cancel_all-running [] n = refl
cancel_all-running (s ∷ states) n =
    ground (arith, cancel_all-running states n, cancel_all-running states (n - 1))

pub cancel-IsCounted : (r : RunState) → IsCounted r → IsCounted (cancel r)
unfolding cancel
cancel-IsCounted r c =
    omega (arith, cancel_all-live r.states r.unfinished, cancel_all-running r.states r.unfinished)
