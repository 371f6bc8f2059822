-- ===== src/Runs/Closed.antt =====
-- Runs that begin after the pool of workers was closed.
use chrysalis.Base.{◌≡◌, refl, ap, true, Text, Result, ok, err, if◌then◌else◌}
use chrysalis.Filter.{Filter, LoadError}
use chrysalis.WorkerPool.{Context, pool_closed, rounds, acquire}
use chrysalis.Runs.{
  Site, Sandbox, Service, RunError, load_failed, not_acquired, acquired, filtered, run,
}

-- The run failed, and everything is as it was.
abbrev pub Fails : {S A : Type 0} → S → S × Result RunError A → Type 0
Fails s r = (e : RunError) × (r ≡ (s, err e))

module _ (site : Site) (ctx : Context) (sandbox : Sandbox) (svc : Service)
    (closed : svc.pool.closed ≡ true) where
  acquire_closed : acquire site.host ctx svc.pool ≡ (svc.pool, pool_closed)
  unfolding acquire
  acquire_closed =
      ap (λ b. if b then (svc.pool, pool_closed) else rounds site.host 3 ctx svc.pool) closed

  filtered_closed : (r : Result LoadError Filter) → Fails svc (filtered site ctx sandbox svc r)
  unfolding filtered acquired
  filtered_closed (err e) = (load_failed e, refl)
  filtered_closed (ok f) =
      (not_acquired pool_closed, ap (acquired site sandbox svc f) acquire_closed)

  pub run_closed : (profile : Text) → Fails svc (run site ctx profile sandbox svc)
  unfolding run
  run_closed profile = filtered_closed _
