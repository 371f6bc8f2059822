-- ===== src/Runs/Slots.antt =====
-- The worker of a run goes back to the pool.
use chrysalis.Base.{
  ◌+◌, ◌≤◌, ◌≡◌, refl, ◌∙◌, true, false, [], ◌∷◌, ltb, length, length-append, arith, Text, Result,
  ok, err,
}
use chrysalis.Worker.{Worker}
use chrysalis.Filter.{Filter, LoadError}
use chrysalis.WorkerPool.{
  Pool, Context, Acquired, got, pool_closed, cancelled, gave_up, waits, nil_worker, spawn_failed,
  release,
}
use chrysalis.WorkerPool.Slots.{Accounts, acquire-Accounts}
use chrysalis.Handler.{RunResult}
use chrysalis.Runs.{Site, Sandbox, Service, released, acquired, filtered, run}

-- The same number of idle workers, in an open pool of the same capacity.
abbrev pub SameSlots : Pool → Pool → Type 0
SameSlots p q = (length q.idle ≡ length p.idle) × (q.capacity ≡ p.capacity) × (q.closed ≡ false)

module _ (site : Site) where
  release-SameSlots :
      (p q : Pool) (wk : Worker)
      → length q.idle + 1 ≡ length p.idle
      → q.capacity ≡ p.capacity
      → q.closed ≡ false
      → length p.idle ≤ p.capacity
      → SameSlots p (release site.host q wk)
  unfolding release
  release-SameSlots p q wk less same open_ fits =
      let room : ltb (length q.idle) q.capacity ≡ true = ground arith in
      rw (open_, room) (omega (arith, length-append q.idle (wk ∷ [])), same, refl)

  acquired-SameSlots :
      (sandbox : Sandbox) (svc : Service) (f : Filter) (r : Pool × Acquired) (result : RunResult)
      → Accounts site.host svc.pool r
      → svc.pool.closed ≡ false
      → length svc.pool.idle ≤ svc.pool.capacity
      → (acquired site sandbox svc f r).1 ≡ ok result
      → SameSlots svc.pool (acquired site sandbox svc f r).0.pool
  unfolding acquired released
  acquired-SameSlots sandbox svc f (q, got wk) result (less, cap, closed, _) open_ fits h =
      release-SameSlots svc.pool q _ less cap (closed ∙ open_) fits
  acquired-SameSlots sandbox svc f (q, pool_closed) result acc open_ fits h = cc
  acquired-SameSlots sandbox svc f (q, cancelled) result acc open_ fits h = cc
  acquired-SameSlots sandbox svc f (q, gave_up) result acc open_ fits h = cc
  acquired-SameSlots sandbox svc f (q, waits) result acc open_ fits h = cc
  acquired-SameSlots sandbox svc f (q, nil_worker) result acc open_ fits h = cc
  acquired-SameSlots sandbox svc f (q, spawn_failed e) result acc open_ fits h = cc

  filtered-SameSlots :
      (ctx : Context) (sandbox : Sandbox) (svc : Service) (r : Result LoadError Filter)
      (result : RunResult)
      → svc.pool.closed ≡ false
      → length svc.pool.idle ≤ svc.pool.capacity
      → (filtered site ctx sandbox svc r).1 ≡ ok result
      → SameSlots svc.pool (filtered site ctx sandbox svc r).0.pool
  unfolding filtered
  filtered-SameSlots ctx sandbox svc (err e) result open_ fits h = cc
  filtered-SameSlots ctx sandbox svc (ok f) result open_ fits h =
      acquired-SameSlots sandbox svc f _ result (acquire-Accounts site.host ctx svc.pool) open_ fits
        h

  -- A run that returns a result, from an open pool whose idle workers fit its channel and with no
  -- other run beside it, leaves the pool open with as many idle workers as before.
  pub run-SameSlots :
      (ctx : Context) (profile : Text) (sandbox : Sandbox) (svc : Service) (result : RunResult)
      → svc.pool.closed ≡ false
      → length svc.pool.idle ≤ svc.pool.capacity
      → (run site ctx profile sandbox svc).1 ≡ ok result
      → SameSlots svc.pool (run site ctx profile sandbox svc).0.pool
  unfolding run
  run-SameSlots ctx profile sandbox svc result = filtered-SameSlots ctx sandbox svc _ result
