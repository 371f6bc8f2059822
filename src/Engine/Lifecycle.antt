-- ===== src/Engine/Lifecycle.antt =====
-- The life of an engine: New, runs one after the other, and Close.
use chrysalis.Base.{
  ap, ℕ, suc, ◌+◌, ◌≤◌, ◌≡◌, refl, subst, true, false, List, [], ◌∷◌, map, length, length-append,
  length-map, arith, Text, Result, ok, err, All,
}
use chrysalis.Base.Int.{ℤ, pos}
use chrysalis.Wire.{Bytes}
use chrysalis.Worker.{Started, shutdown}
use chrysalis.WorkerPool.{close}
use chrysalis.WorkerPool.Opening.{IsStopped}
use chrysalis.WorkerPool.Ended.{close-stopped}
use chrysalis.Handler.{RunResult}
use chrysalis.Runs.{RunError, Service}
use chrysalis.Runs.Closed.{Fails, run_closed}
use chrysalis.Runs.Kept.{lost_slot, IsKept, run-IsKept}
use chrysalis.Engine.{
  Outside, Job, TimedResult, Engine, new, timed, dispatcher_run, execute, executes, shut_down,
}
use chrysalis.Engine.Opening.{new-IsKept}

-- How many of the runs lost a slot of the pool.
unfoldable pub losses : List (Result RunError TimedResult) → ℕ
losses [] = 0
losses (r ∷ rs) = lost_slot r + losses rs

-- The engine `e` after runs with the results `rs`, and `f` after Close.
pub record Lives (out : Outside) (workers : ℤ) (e : Engine)
    (rs : List (Result RunError TimedResult)) (f : Engine) : Type 0 where
  pub size : ℕ
  pub asked : workers ≡ pos size
  pub is_open : e.service.pool.closed ≡ false
  pub slots : length e.service.pool.idle + losses rs ≡ size
  pub runtime_closed : f.runtime_open ≡ false
  pub pool_closed : f.service.pool.closed ≡ true
  pub none_idle : f.service.pool.idle ≡ []
  pub all_stopped : size ≤ length f.service.pool.stopped
  pub ended : All IsStopped f.service.pool.stopped
  pub none_runs : (job : Job) → Fails f (execute out job f)

timed-IsKept :
    (out : Outside) (n lost : ℕ) (e : Engine) (elapsed : ℕ)
    (r : Service × Result RunError RunResult)
    → IsKept n (lost + lost_slot r.1) r.0.pool
    → IsKept n (lost + lost_slot (timed out e elapsed r).1) (timed out e elapsed r).0.service.pool
unfolding timed lost_slot
timed-IsKept out n lost e elapsed (svc, ok r) kept = kept
timed-IsKept out n lost e elapsed (svc, err x) kept = kept

zero_add : (k : ℕ) → 0 + k ≡ k
zero_add k = omega arith

module _ (out : Outside) where
  execute-IsKept :
      (n lost : ℕ) (job : Job) (e : Engine)
      → IsKept n lost e.service.pool
      → IsKept n (lost + lost_slot (execute out job e).1) (execute out job e).0.service.pool
  unfolding execute dispatcher_run
  execute-IsKept n lost job e kept =
      timed-IsKept out n lost e job.elapsed _
        (run-IsKept (record out.site { filter_dir = e.dispatcher.filter_dir }) n lost _ _ _ _ kept)

  executes-IsKept :
      (n lost : ℕ) (jobs : List Job) (e : Engine)
      → IsKept n lost e.service.pool
      → IsKept n (lost + losses (executes out jobs e).1) (executes out jobs e).0.service.pool
  unfolding executes losses
  executes-IsKept n lost [] e kept = subst (λ k. IsKept n k e.service.pool) (omega arith) kept
  executes-IsKept n lost (job ∷ jobs) e kept =
      let r = execute out job e in
      subst (λ k. IsKept n k (executes out jobs r.0).0.service.pool) (omega arith)
        (executes-IsKept n (lost + lost_slot r.1) jobs r.0 (execute-IsKept n lost job e kept))

  timed-Fails :
      (e : Engine) (elapsed : ℕ) (r : Service × Result RunError RunResult)
      → Fails e.service r
      → Fails e (timed out e elapsed r)
  unfolding timed
  timed-Fails e elapsed r (x, is) = (x, ap (timed out e elapsed) is)

  execute_closed :
      (job : Job) (e : Engine) → e.service.pool.closed ≡ true → Fails e (execute out job e)
  unfolding execute dispatcher_run
  execute_closed job e closed =
      timed-Fails e job.elapsed _ (
        run_closed (record out.site { filter_dir = e.dispatcher.filter_dir }) _ _ e.service closed
          _)

  shut_down-Lives :
      (n : ℕ) (workers : ℤ) (e : Engine) (rs : List (Result RunError TimedResult))
      → workers ≡ pos n
      → IsKept n (losses rs) e.service.pool
      → Lives out workers e rs (shut_down out e)
  unfolding shut_down close
  shut_down-Lives n workers e rs asked kept =
      let p = e.service.pool in
      let ended = close-stopped out.site.host p kept.ended in
      let longer = length-append (map (shutdown out.site.host.codec) p.idle) p.stopped in
      rw kept.is_open (record {
        size = n;
        asked = asked;
        is_open = refl;
        slots = kept.slots;
        runtime_closed = refl;
        pool_closed = refl;
        none_idle = refl;
        all_stopped =
            omega
              (arith, longer, kept.none_leaks, length-map (shutdown out.site.host.codec) p.idle);
        ended = rw kept.is_open at ended;
        none_runs = λ job. execute_closed job _ refl;
      })

  -- Provided that as many start results arrive as were sent: when New succeeds for a number of
  -- workers, then after any runs, one after the other, the pool is open and has as many idle workers
  -- as were asked for, less one for each run whose replacement of a dead worker failed. After Close
  -- the runtime and the pool are closed, no worker is idle, at least as many workers as were asked
  -- for have been stopped, each of them has ended, and every further run fails and changes nothing.
  pub new-executes-Lives :
      (wasm : Bytes) (script shim_path dir sock : Text) (workers : ℤ) (jobs : List Job) (e : Engine)
      → ((rs : List Started) → length (out.arrive rs) ≡ length rs)
      → new out wasm script shim_path dir sock workers ≡ ok e
      → Lives out workers
          (executes out jobs e).0
          (executes out jobs e).1
          (shut_down out (executes out jobs e).0)
  new-executes-Lives wasm script shim_path dir sock workers jobs e same made =
      let (n, asked, kept) = new-IsKept out wasm script shim_path dir sock workers e same made in
      let after = executes out jobs e in
      shut_down-Lives (suc n) workers after.0 after.1 asked (
        subst (λ k. IsKept (suc n) k after.0.service.pool) (zero_add (losses after.1))
          (executes-IsKept (suc n) 0 jobs e kept))
