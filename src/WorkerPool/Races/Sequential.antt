-- ===== src/WorkerPool/Races/Sequential.antt =====
-- The operations of the pool as single steps are schedules of the atomic steps of their caller alone.
use chrysalis.Base.{ℕ, ◌≡◌}
use chrysalis.Worker.{Worker}
use chrysalis.WorkerPool.{Pool, Host, Context, acquire, release, close}
use chrysalis.WorkerPool.Hands.{sock_of}
use chrysalis.WorkerPool.Races.{Local, resting, holding}
use chrysalis.WorkerPool.Races.Simulation.{
  sock, Operation, acquire_op, release_op, close_op, Leaves,
}
use chrysalis.WorkerPool.Races.Releasing.{Rests}

-- One call of a caller. A release gives back the worker that its caller holds.
pub data Call : Type 0 where
  acquires : Context → Call
  releases : Worker → Call
  closes : Call

abbrev pub operation : Call → Operation
operation (acquires ctx) = acquire_op
operation (releases wk) = release_op
operation closes = close_op

-- From where a caller makes a call.
abbrev pub From : Pool → Call → Local → Type 0
From p (acquires ctx) l = l ≡ resting
From p (releases wk) l = (w : ℕ) × (l ≡ holding w) × (sock_of p w ≡ sock wk)
From p closes l = Unit {0}

abbrev pub pool_after : Host → Call → Pool → Pool
pool_after host (acquires ctx) p = (acquire host ctx p).0
pool_after host (releases wk) p = release host p wk
pool_after host closes p = close host p

-- To where the call brings its caller, and in how many steps.
abbrev pub To : Host → Call → Pool → Local → Local → ℕ → Type 0
To host (acquires ctx) p l x n = Leaves p (acquire host ctx p).1 x n
To host (releases wk) p l x n = Rests x n
To host closes p l x n = x ≡ l
