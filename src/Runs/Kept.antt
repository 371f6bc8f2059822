-- ===== src/Runs/Kept.antt =====
-- What one run does to the slots of the pool, on each of its outcomes.
use chrysalis.Base.{
  ℕ, ◌+◌, ◌≤◌, ◌≡◌, refl, sym, ◌∙◌, inl, inr, true, false, [], ◌∷◌, ltb, length, length-append,
  arith, All, Text, Result, ok, err, subst,
}
use chrysalis.Worker.{Worker}
use chrysalis.Filter.{Filter, LoadError}
use chrysalis.WorkerPool.{
  Pool, Context, Acquired, got, pool_closed, cancelled, gave_up, waits, nil_worker, spawn_failed,
  acquire, release,
}
use chrysalis.WorkerPool.Slots.{Accounts, acquire-Accounts}
use chrysalis.WorkerPool.Opening.{IsStopped}
use chrysalis.WorkerPool.Ended.{acquire-stopped}
use chrysalis.Runs.{
  Site, Sandbox, Service, RunError, load_failed, not_acquired, released, acquired, filtered, run,
}

-- Whether a run ended because the replacement of a dead worker did not start.
unfoldable pub loss : RunError → ℕ
loss (load_failed e) = 0
loss (not_acquired (spawn_failed e)) = 1
loss (not_acquired (got wk)) = 0
loss (not_acquired pool_closed) = 0
loss (not_acquired cancelled) = 0
loss (not_acquired gave_up) = 0
loss (not_acquired waits) = 0
loss (not_acquired nil_worker) = 0

unfoldable pub lost_slot {ℓ} : {A : Type ℓ} → Result RunError A → ℕ
lost_slot (ok r) = 0
lost_slot (err x) = loss x

-- An open pool of `n` slots, `lost` of them lost; all others have an idle worker. Every worker that
-- was stopped has ended.
pub record IsKept (n lost : ℕ) (p : Pool) : Type 0 where
  pub capacity : p.capacity ≡ n
  pub is_open : p.closed ≡ false
  pub slots : length p.idle + lost ≡ n
  pub none_leaks : n ≤ length p.idle + length p.stopped
  pub ended : All IsStopped p.stopped

module _ (site : Site) (n lost : ℕ) where
  IsKept-release :
      (p q : Pool) (wk : Worker)
      → IsKept n lost p
      → Accounts site.host p (q, got wk)
      → All IsStopped q.stopped
      → (wk' : Worker) → IsKept n (lost + 0) (release site.host q wk')
  unfolding release
  IsKept-release p q wk kept (less, same, closed, more) ended wk' =
      let open_ : q.closed ≡ false = closed ∙ kept.is_open in
      let room : ltb (length q.idle) q.capacity ≡ true =
        ground (arith, kept.slots, kept.capacity) in
      let longer = length-append q.idle (wk' ∷ []) in
      rw (open_, room)
        (record {
          capacity = same ∙ kept.capacity;
          is_open = refl;
          slots = omega (arith, longer, kept.slots);
          none_leaks = elim more [
            | inl e ↦ omega (arith, longer, kept.none_leaks)
            | inr e ↦ omega (arith, longer, kept.none_leaks)
          ];
          ended = ended;
        })

  IsKept-same : (p q : Pool) → IsKept n lost p → q ≡ p → IsKept n (lost + 0) q
  IsKept-same p q kept e = subst (IsKept n (lost + 0)) (sym e) (record {
    capacity = kept.capacity;
    is_open = kept.is_open;
    slots = omega (arith, kept.slots);
    none_leaks = kept.none_leaks;
    ended = kept.ended;
  })

  IsKept-acquired :
      (sandbox : Sandbox) (svc : Service) (f : Filter) (r : Pool × Acquired)
      → IsKept n lost svc.pool
      → Accounts site.host svc.pool r
      → All IsStopped r.0.stopped
      → IsKept n
          (lost + lost_slot (acquired site sandbox svc f r).1)
          (acquired site sandbox svc f r).0.pool
  unfolding acquired released lost_slot loss
  IsKept-acquired sandbox svc f (q, got wk) kept acc ended =
      IsKept-release svc.pool q wk kept acc ended _
  IsKept-acquired sandbox svc f (q, pool_closed) kept (e, _) ended = IsKept-same svc.pool q kept e
  IsKept-acquired sandbox svc f (q, cancelled) kept e ended = IsKept-same svc.pool q kept e
  IsKept-acquired sandbox svc f (q, gave_up) kept e ended = absurd e
  IsKept-acquired sandbox svc f (q, waits) kept (e, _, _) ended = IsKept-same svc.pool q kept e
  IsKept-acquired sandbox svc f (q, nil_worker) kept e ended = absurd e
  IsKept-acquired sandbox svc f (q, spawn_failed e) kept (less, same, closed, more) ended = record {
    capacity = same ∙ kept.capacity;
    is_open = closed ∙ kept.is_open;
    slots = omega (arith, kept.slots);
    none_leaks = omega (arith, kept.none_leaks);
    ended = ended;
  }

  IsKept-filtered :
      (ctx : Context) (sandbox : Sandbox) (svc : Service) (r : Result LoadError Filter)
      → IsKept n lost svc.pool
      → IsKept n
          (lost + lost_slot (filtered site ctx sandbox svc r).1)
          (filtered site ctx sandbox svc r).0.pool
  unfolding filtered lost_slot loss
  IsKept-filtered ctx sandbox svc (err e) kept = IsKept-same svc.pool svc.pool kept refl
  IsKept-filtered ctx sandbox svc (ok f) kept =
      IsKept-acquired sandbox svc f (acquire site.host ctx svc.pool) kept
        (acquire-Accounts site.host ctx svc.pool)
        (acquire-stopped site.host ctx svc.pool kept.ended)

  pub run-IsKept :
      (ctx : Context) (profile : Text) (sandbox : Sandbox) (svc : Service)
      → IsKept n lost svc.pool
      → IsKept n
          (lost + lost_slot (run site ctx profile sandbox svc).1)
          (run site ctx profile sandbox svc).0.pool
  unfolding run
  run-IsKept ctx profile sandbox svc kept = IsKept-filtered ctx sandbox svc _ kept
