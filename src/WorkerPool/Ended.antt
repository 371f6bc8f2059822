-- ===== src/WorkerPool/Ended.antt =====
-- Every worker that the pool has stopped was shut down and has ended.
use chrysalis.Base.{
  inl, inr, true, false, ◌&&◌, List, [], ◌∷◌, map, if◌then◌else◌, Bool-cases, All, All-append,
  Result, ok, err,
}
use chrysalis.Worker.{Worker, WorkerError, Started, up, failed, ping, shutdown}
use chrysalis.Worker.Calls.{shutdown_ends}
use chrysalis.WorkerPool.{
  Pool, Host, Context, pool_closed, spawn, stop, replaced, checked, take_idle, rounds, acquire,
  close,
}
use chrysalis.WorkerPool.Opening.{IsStopped, All-IsStopped}

module _ (host : Host) where
  replaced-stopped :
      (r : Pool × Started) → All IsStopped r.0.stopped → All IsStopped (replaced host r).0.stopped
  unfolding replaced
  replaced-stopped (p, up wk) h = h
  replaced-stopped (p, failed e _ _) h = h

  checked-stopped :
      (p : Pool) (r : Worker × Result WorkerError (Unit {0}))
      → All IsStopped p.stopped
      → All IsStopped (checked host p r).0.stopped
  unfolding checked spawn stop
  checked-stopped p (wk, ok _) h = h
  checked-stopped p (wk, err e) h =
      let e = shutdown_ends host.codec wk in
      replaced-stopped (spawn host (stop host p wk)) ((e.0, e.1), h)

  take_idle-stopped :
      (ctx : Context) (p : Pool) (l : List Worker)
      → All IsStopped p.stopped
      → All IsStopped (take_idle host ctx p l).0.stopped
  unfolding take_idle
  take_idle-stopped ctx p [] h = elim (Bool-cases ctx.done) [
    | inl done ↦ rw done h
    | inr waiting ↦ elim (Bool-cases p.closed) [
      | inl shut ↦ rw (waiting, shut) h
      | inr open_ ↦ rw (waiting, open_) h
    ]
  ]
  take_idle-stopped ctx p (wk ∷ rest) h = elim (Bool-cases (ctx.done && ctx.takes_done)) [
    | inl done ↦ rw done h
    | inr ready ↦ rw ready (checked-stopped (record p { idle = rest }) (ping host.codec wk) h)
  ]

  pub acquire-stopped :
      (ctx : Context) (p : Pool)
      → All IsStopped p.stopped
      → All IsStopped (acquire host ctx p).0.stopped
  unfolding acquire rounds
  acquire-stopped ctx p h =
      elim p.closed
        as (λ b. All IsStopped (if b then (p, pool_closed) else rounds host 3 ctx p).0.stopped) [
          | true ↦ h
          | false ↦ take_idle-stopped ctx p p.idle h
        ]

  pub close-stopped : (p : Pool) → All IsStopped p.stopped → All IsStopped (close host p).stopped
  unfolding close
  close-stopped p h = elim (Bool-cases p.closed) [
    | inl shut ↦ rw shut h
    | inr open_ ↦ rw open_ (
        All-append IsStopped (map (shutdown host.codec) p.idle) p.stopped
          (All-IsStopped host p.idle) h)
  ]
