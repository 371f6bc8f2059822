-- ===== src/WorkerPool/Races.antt =====
-- Acquire, release and Close of internal/worker/pool.go run side by side. Each step is what one
-- goroutine does between two others' steps: one atomic load or store, one channel operation.
pub mod Exclusive
pub mod Crashes
pub mod Room
pub mod Progress
pub mod Simulation
pub mod Acquiring
pub mod Releasing
pub mod Closing
pub mod Sequential
use chrysalis.Base.{
  ℕ, zero, suc, ◌+◌, ◌≤◌, ◌<◌, ◌≡◌, ◌≢◌, Bool, true, false, List, [], ◌∷◌, ◌++◌, ◌==◌,
  if◌then◌else◌, length,
}

-- Where a caller stands. `acquiring` has seen the pool open and is at the select; `checking` has
-- received a worker and pings it; `replacing` has shut a dead worker down; `releasing` has seen the
-- pool open and is at the select that sends.
pub data Local : Type 0 where
  resting acquiring replacing : Local
  checking holding releasing : ℕ → Local
  -- The crashes: a nil worker from the closed channel, and a send on it.
  nil_deref : Local
  sent_on_closed : ℕ → Local

-- How far the one call of Close has come that runs inside `closeOnce`.
pub data Closer : Type 0 where
  not_yet flagged shut : Closer

-- Workers are named by their socket numbers; `queue` is the channel.
pub record State : Type 0 where
  pub queue : List ℕ
  pub capacity : ℕ
  pub closer : Closer
  pub next_id : ℕ
  pub stopped : List ℕ
  pub threads : List Local

-- One caller moves, the others stay.
pub record Moves (a b : Local) (s t : List Local) : Type 0 where
  pub left : List Local
  pub right : List Local
  pub was : s ≡ left ++ a ∷ right
  pub is : t ≡ left ++ b ∷ right

-- What a caller's move does to the pool. The numbers are what the caller carries before and after.
pub data Step (s t : State) : Type 0 where
  -- `p.closed.Load()` in Acquire
  begin_acquire :
      s.closer ≡ not_yet
      → Moves resting acquiring s.threads t.threads
      → t ≡ record s { threads = t.threads }
      → Step s t
  -- the two cases of the select; a closed channel still delivers what it holds
  receive :
      (w : ℕ) (q : List ℕ)
      → s.queue ≡ w ∷ q
      → Moves acquiring (checking w) s.threads t.threads
      → t ≡ record s { queue = q; threads = t.threads }
      → Step s t
  receive_nil :
      s.closer ≡ shut
      → s.queue ≡ []
      → Moves acquiring nil_deref s.threads t.threads
      → t ≡ record s { threads = t.threads }
      → Step s t
  cancel :
      Moves acquiring resting s.threads t.threads → t ≡ record s { threads = t.threads } → Step s t
  -- Ping
  answers :
      (w : ℕ)
      → Moves (checking w) (holding w) s.threads t.threads
      → t ≡ record s { threads = t.threads }
      → Step s t
  is_dead :
      (w : ℕ)
      → Moves (checking w) replacing s.threads t.threads
      → t ≡ record s { stopped = w ∷ s.stopped; threads = t.threads }
      → Step s t
  -- spawn
  respawn :
      Moves replacing (holding s.next_id) s.threads t.threads
      → t ≡ record s { next_id = suc s.next_id; threads = t.threads }
      → Step s t
  spawn_fails :
      Moves replacing resting s.threads t.threads
      → t ≡ record s { next_id = suc s.next_id; threads = t.threads }
      → Step s t
  -- `p.closed.Load()` in release
  begin_release :
      (w : ℕ)
      → s.closer ≡ not_yet
      → Moves (holding w) (releasing w) s.threads t.threads
      → t ≡ record s { threads = t.threads }
      → Step s t
  release_closed :
      (w : ℕ)
      → s.closer ≢ not_yet
      → Moves (holding w) resting s.threads t.threads
      → t ≡ record s { stopped = w ∷ s.stopped; threads = t.threads }
      → Step s t
  -- the select of release: the send, its default, and the send on a closed channel
  send_back :
      (w : ℕ)
      → s.closer ≢ shut
      → length s.queue < s.capacity
      → Moves (releasing w) resting s.threads t.threads
      → t ≡ record s { queue = s.queue ++ w ∷ []; threads = t.threads }
      → Step s t
  channel_full :
      (w : ℕ)
      → s.closer ≢ shut
      → s.capacity ≤ length s.queue
      → Moves (releasing w) resting s.threads t.threads
      → t ≡ record s { stopped = w ∷ s.stopped; threads = t.threads }
      → Step s t
  send_on_closed :
      (w : ℕ)
      → s.closer ≡ shut
      → Moves (releasing w) (sent_on_closed w) s.threads t.threads
      → t ≡ record s { threads = t.threads }
      → Step s t
  -- Close: the flag, the channel, and the loop that drains it
  store_closed : s.closer ≡ not_yet → t ≡ record s { closer = flagged } → Step s t
  close_channel : s.closer ≡ flagged → t ≡ record s { closer = shut } → Step s t
  drain :
      (w : ℕ) (q : List ℕ)
      → s.closer ≡ shut
      → s.queue ≡ w ∷ q
      → t ≡ record s { queue = q; stopped = w ∷ s.stopped }
      → Step s t

pub data Reach (s : State) : State → Type 0 where
  here : Reach s s
  next : {t u : State} → Reach s t → Step t u → Reach s u
