-- ===== src/WorkerPool.antt =====
-- internal/worker/pool.go: the pool of workers. Each function here runs as one step, so that calls
-- follow one another; module Races takes the calls apart.
pub mod Slots
pub mod History
pub mod Opening
pub mod Starts
pub mod Hands
pub mod Ended
pub mod Races
mod Tests
use chrysalis.Base.{
  ℕ, zero, suc, ◌+◌, ◌%◌, ◌^◌, Bool, true, false, ◌&&◌, List, [], ◌∷◌, ◌++◌, ltb, if◌then◌else◌,
  length, map, Text, codes, Option, none, some, Result, ok, err, ◌==◌,
}
use chrysalis.Base.Int.{ℤ, pos, negsuc}
use chrysalis.Decimal.{show}
use chrysalis.FilePath.{slash, join}
use chrysalis.Worker.Protocol.{Codec}
use chrysalis.Worker.{
  Worker, WorkerError, ping, shutdown, start, Launch, Started, up, failed, StartError,
}

-- `idle` is what stands in the channel, the next worker first. `stopped` collects the workers that
-- Shutdown was called on.
pub record Pool : Type 0 where
  pub idle : List Worker
  pub capacity : ℕ
  pub sock_dir : Text
  pub sock_base_name : Text
  pub worker_script : Text
  pub next_sock_id : ℕ
  pub closed : Bool
  pub stopped : List Worker

-- What the pool meets outside: the JSON library, and how the start at a socket path goes.
pub record Host : Type 0 where
  pub codec : Codec
  pub launch_at : Text → Launch

-- The context of a caller: whether it is cancelled, and whether `select` takes that case when a
-- worker is there too.
pub record Context : Type 0 where
  pub done : Bool
  pub takes_done : Bool

-- Split of package filepath: the text up to the last slash, and the text after it.
keep_char : ℕ → Text × Text → Text × Text
keep_char c ([], base) = ([], c ∷ base)
keep_char c (d ∷ dir, base) = (c ∷ d ∷ dir, base)

pass_slash : ℕ → Text × Text → Text × Text
pass_slash c (dir, base) = (c ∷ dir, base)

unfoldable pub split_file : Text → Text × Text
unfolding keep_char pass_slash
split_file [] = ([], [])
split_file (c ∷ s) =
    let rest = split_file s in if c == slash then pass_slash c rest else keep_char c rest

-- How Acquire ends. `waits` is a caller that blocks on the channel for good; `nil_worker` is the
-- receive from a closed channel, whose nil worker crashes in Ping.
pub data Acquired : Type 0 where
  got : Worker → Acquired
  pool_closed cancelled gave_up waits nil_worker : Acquired
  spawn_failed : StartError → Acquired

pub data Opened : Type 0 where
  opened : Pool → Opened
  bad_size : ℤ → Opened
  not_all : ℕ → StartError → List Worker → Opened

or_dot : Text → Text
or_dot [] = codes "."
or_dot (c ∷ s) = c ∷ s

-- The literal of NewPool.
unfoldable pub empty_pool : ℕ → Text → Text → Pool
unfolding split_file or_dot
empty_pool size sock_path script =
    let (dir, base) = split_file sock_path in
    record {
      idle = [];
      capacity = size;
      sock_dir = or_dot dir;
      sock_base_name = base;
      worker_script = script;
      next_sock_id = 0;
      closed = false;
      stopped = [];
    }

-- The loop of NewPool over the results: the workers that are up, and the first error.
unfoldable pub collect : List Started → List Worker × Option StartError
collect [] = ([], none)
collect (up wk ∷ rs) = let (wks, e) = collect rs in (wk ∷ wks, e)
collect (failed e _ _ ∷ rs) = let (wks, _) = collect rs in (wks, some e)

module _ (host : Host) where
  -- `spawn`, with `nextSockID.Add(1)` on 64 bits
  unfoldable pub spawn : Pool → Pool × Started
  spawn p =
      let id = (p.next_sock_id + 1) % 2 ^ 64 in
      let path = join p.sock_dir (p.sock_base_name ++ codes "." ++ show id) in
      (record p { next_sock_id = id }, start host.codec path p.worker_script (host.launch_at path))

  unfoldable pub stop : Pool → Worker → Pool
  stop p wk = record p { stopped = shutdown host.codec wk ∷ p.stopped }

  -- The goroutines of NewPool, numbered by the sockets that they take.
  unfoldable pub spawn_all : ℕ → Pool → Pool × List Started
  spawn_all zero p = (p, [])
  spawn_all (suc n) p = let (p1, r) = spawn p in let (p2, rs) = spawn_all n p1 in (p2, r ∷ rs)

  fill : ℕ → Pool → List Worker × Option StartError → Opened
  fill size p (wks, none) = opened (record p { idle = wks })
  fill size p (wks, some e) = not_all size e (map (shutdown host.codec) wks)

  -- `arrive` is the order in which the results come out of the channel.
  unfoldable pub new_pool : (List Started → List Started) → ℤ → Text → Text → Opened
  unfolding fill empty_pool
  new_pool arrive (negsuc n) sock_path script = bad_size (negsuc n)
  new_pool arrive (pos zero) sock_path script = bad_size (pos zero)
  new_pool arrive (pos (suc n)) sock_path script =
      let (p, rs) = spawn_all (suc n) (empty_pool (suc n) sock_path script) in
      fill (suc n) p (collect (arrive rs))

  -- A worker that fails its health check is shut down and replaced.
  replaced : Pool × Started → Pool × Acquired
  replaced (p, up wk) = (p, got wk)
  replaced (p, failed e _ _) = (p, spawn_failed e)

  checked : Pool → Worker × Result WorkerError (Unit {0}) → Pool × Acquired
  unfolding replaced
  checked p (wk, ok _) = (p, got wk)
  checked p (wk, err e) = replaced (spawn (stop p wk))

  take_idle : Context → Pool → List Worker → Pool × Acquired
  unfolding checked
  take_idle ctx p [] =
      if ctx.done then (p, cancelled) else if p.closed then (p, nil_worker) else (p, waits)
  take_idle ctx p (wk ∷ rest) =
      if ctx.done && ctx.takes_done
      then (p, cancelled)
      else checked (record p { idle = rest }) (ping host.codec wk)

  -- The loop over the attempts. Every path through its body returns, so there is no next round.
  unfoldable pub rounds : ℕ → Context → Pool → Pool × Acquired
  unfolding take_idle
  rounds zero ctx p = (p, gave_up)
  rounds (suc attempts) ctx p = take_idle ctx p p.idle

  unfoldable pub acquire : Context → Pool → Pool × Acquired
  unfolding rounds
  acquire ctx p = if p.closed then (p, pool_closed) else rounds 3 ctx p

  unfoldable pub release : Pool → Worker → Pool
  unfolding stop
  release p wk =
      if p.closed
      then stop p wk
      else if ltb (length p.idle) p.capacity
      then record p { idle = p.idle ++ wk ∷ [] }
      else stop p wk

  -- `closeOnce.Do(…)`: the second call does nothing.
  unfoldable pub close : Pool → Pool
  close p = if p.closed then p else record p {
    closed = true;
    idle = [];
    stopped = map (shutdown host.codec) p.idle ++ p.stopped;
  }
