-- ===== src/WorkerPool/Races/Simulation.antt =====
-- States of the atomic steps against the pool of internal/worker/pool.go, and the steps that its
-- operations take.
use mathlib.Core.List.{map, Perm, perm_middle}
use mathlib.Core.List.Perm
use chrysalis.Base.{
  ℕ, suc, ◌+◌, ◌%◌, ◌^◌, ◌≡◌, refl, ap, subst, ◌⊎◌, true, false, Bool, List, [], ◌∷◌, ◌++◌, Text,
}
use chrysalis.Worker.{Worker}
use chrysalis.WorkerPool.{
  Pool, Acquired, got, pool_closed, cancelled, gave_up, waits, nil_worker, spawn_failed,
}
use chrysalis.WorkerPool.Hands.{sock_of}
use chrysalis.WorkerPool.Races.{
  Local, resting, acquiring, replacing, checking, holding, Closer, not_yet, shut, State, Moves,
  Step, begin_acquire, receive, receive_nil, cancel, answers, is_dead, respawn, spawn_fails,
  begin_release, release_closed, send_back, channel_full, send_on_closed, store_closed,
  close_channel, drain,
}

abbrev pub closer_of : Bool → Closer
closer_of true = shut
closer_of false = not_yet

abbrev pub sock : Worker → Text
sock wk = wk.sock_path

-- The state has the workers of the pool in the channel, in their order, and among the stopped, each by
-- the number of its socket; the next number is that of the next spawn, and the state is closed when
-- the pool is.
pub record Matches (p : Pool) (s : State) : Type 0 where
  pub queued : map (sock_of p) s.queue ≡ map sock p.idle
  pub same_capacity : s.capacity ≡ p.capacity
  pub same_closed : s.closer ≡ closer_of p.closed
  pub same_stopped : Perm (map (sock_of p) s.stopped) (map sock p.stopped)
  pub same_next : s.next_id % 2 ^ 64 ≡ (p.next_sock_id + 1) % 2 ^ 64

-- The operations, and to which of them a step belongs.
pub data Operation : Type 0 where
  acquire_op release_op close_op : Operation

unfoldable pub of : {s t : State} → Step s t → Operation
of (begin_acquire c m e) = acquire_op
of (receive w q h m e) = acquire_op
of (receive_nil c h m e) = acquire_op
of (cancel m e) = acquire_op
of (answers w m e) = acquire_op
of (is_dead w m e) = acquire_op
of (respawn m e) = acquire_op
of (spawn_fails m e) = acquire_op
of (begin_release w c m e) = release_op
of (release_closed w c m e) = release_op
of (send_back w c room m e) = release_op
of (channel_full w c full m e) = release_op
of (send_on_closed w c m e) = release_op
of (store_closed c e) = close_op
of (close_channel c e) = close_op
of (drain w q c h e) = close_op

-- Steps of one operation only, of the caller between `left` and `right`, who stay where they are.
pub data Alone (o : Operation) (left right : List Local) (s : State) : State → Type 0 where
  start : Alone o left right s s
  goes :
      {t u : State} (l : Local)
      → Alone o left right s t
      → (st : Step t u) → of st ≡ o
      → u.threads ≡ left ++ l ∷ right
      → Alone o left right s u

unfoldable pub taken :
    {o : Operation} {left right : List Local} {s t : State} → Alone o left right s t → ℕ
taken start = 0
taken (goes l r st is e) = suc (taken r)

-- Where Acquire leaves its caller, and in how many steps. The worker that it hands out is the one that
-- the caller holds.
abbrev pub Leaves : Pool → Acquired → Local → ℕ → Type 0
Leaves p (got wk) l n =
    ((w : ℕ) × (l ≡ holding w) × (sock_of p w ≡ wk.sock_path)) × ((n ≡ 3) ⊎ (n ≡ 4))
Leaves p waits l n = (l ≡ acquiring) × (n ≡ 1)
Leaves p pool_closed l n = (l ≡ resting) × (n ≡ 0)
Leaves p cancelled l n = (l ≡ resting) × (n ≡ 2)
Leaves p (spawn_failed e) l n = (l ≡ resting) × (n ≡ 4)
Leaves p gave_up l n = ⊥
Leaves p nil_worker l n = ⊥

-- From `s` steps of the operation alone lead to a state that matches `p`, in which the caller stands at
-- a place, after a number of steps, with the property.
pub record Reaches (o : Operation) (s : State) (left right : List Local) (p : Pool)
    (P : Local → ℕ → Type 0) : Type 0 where
  pub final : State
  pub path : Alone o left right s final
  pub matches : Matches p final
  pub caller : Local
  pub place : P caller (taken path)
  pub others_stay : final.threads ≡ left ++ caller ∷ right

-- The first worker of a channel that matches.
pub uncons :
    (f : ℕ → Text) (q : List ℕ) (x : Text) (r : List Text)
    → map f q ≡ x ∷ r
    → (w : ℕ) × (rest : List ℕ) × (q ≡ w ∷ rest) × (f w ≡ x) × (map f rest ≡ r)
uncons f [] x r h = absurd cc
uncons f (w ∷ rest) x r h = (w, rest, refl, cc, cc)

-- The loop of Close shuts down all that the channel holds.
pub drains_all :
    {o : State} {left right : List Local} (l : Local) (s : State) (q : List ℕ)
    → s.closer ≡ shut
    → s.queue ≡ q
    → s.threads ≡ left ++ l ∷ right
    → Alone close_op left right o s
    → (st : List ℕ) × Alone close_op left right o (record s { queue = []; stopped = st })
      × Perm st (q ++ s.stopped)
unfolding of
drains_all {o} {left} {right} l s [] c e at_ r = (
  s.stopped,
  subst (Alone close_op left right o) (ap (λ q. record s { queue = q }) e) r,
  Perm.refl s.stopped,
)
drains_all {o} {left} {right} l s (w ∷ q) c e at_ r =
    let (st, all, same) =
      drains_all l (record s { queue = q; stopped = w ∷ s.stopped }) q c refl at_
        (goes l r (drain w q c e refl) refl at_) in
    (st, all, Perm.trans same (perm_middle q s.stopped))

module _ (s : State) (left right : List Local) where
  abbrev pub at : Local → State → State
  at l u = record u { threads = left ++ l ∷ right }

  pub to :
      (u : State) (a b : Local)
      → u.threads ≡ left ++ a ∷ right
      → Moves a b u.threads (left ++ b ∷ right)
  to u a b e = record { left = left; right = right; was = e; is = refl }

  -- Acquire up to the select, and on to the worker that it takes.
  unfoldable pub waiting :
      s.threads ≡ left ++ resting ∷ right
      → s.closer ≡ not_yet
      → Alone acquire_op left right s (at acquiring s)
  unfolding of
  waiting e c = goes acquiring start (begin_acquire c (to s resting acquiring e) refl) refl refl

  unfoldable pub received :
      (w : ℕ) (q : List ℕ)
      → s.threads ≡ left ++ resting ∷ right
      → s.closer ≡ not_yet
      → s.queue ≡ w ∷ q
      → Alone acquire_op left right s (at (checking w) (record s { queue = q }))
  unfolding of
  received w q e c h =
      goes (checking w) (waiting e c)
        (receive w q h (to (at acquiring s) acquiring (checking w) refl) refl) refl refl

  unfoldable pub found_dead :
      (w : ℕ) (q : List ℕ)
      → s.threads ≡ left ++ resting ∷ right
      → s.closer ≡ not_yet
      → s.queue ≡ w ∷ q
      → Alone acquire_op left right s
          (at replacing (record s { queue = q; stopped = w ∷ s.stopped }))
  unfolding of
  found_dead w q e c h =
      let u = at (checking w) (record s { queue = q }) in
      goes replacing (received w q e c h) (is_dead w (to u (checking w) replacing refl) refl) refl
        refl
