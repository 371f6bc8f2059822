-- ===== src/WorkerPool/History.antt =====
-- What holds over any history of calls: no worker has no place in the channel, and lost slots stay
-- lost.
use chrysalis.Base.{
  ℕ, ◌≤◌, ◌<◌, ◌≡◌, subst, sym, ap, ◌∙◌, ◌≢◌, ◌⊎◌, inl, inr, true, false, List, [], ◌∷◌, ◌++◌,
  arith, ltb, length, length-append, Bool-cases,
}
use chrysalis.Worker.{Worker}
use chrysalis.WorkerPool.{
  Pool, Host, Context, Acquired, got, pool_closed, cancelled, gave_up, waits, nil_worker,
  spawn_failed, stop, acquire, release, close,
}
use chrysalis.WorkerPool.Slots.{
  Use, Call, acquires, releases, closes, length-remove_nth, hand_out, step, run, live, Accounts,
  acquire-Accounts,
}

module _ (host : Host) where
  -- The idle workers and the held ones fit the channel, and a closed pool has none idle.
  pub record IsSound (u : Use) : Type 0 where
    pub fits : live host u ≤ u.pool.capacity
    pub drained : u.pool.closed ≡ true → length u.pool.idle ≡ 0

  back :
      (u : Use) {q : Pool} → q ≡ u.pool → IsSound u → IsSound (record { pool = q; held = u.held })
  back u e v = subst (λ q. IsSound (record { pool = q; held = u.held })) (sym e) v

  hand_out-IsSound :
      (u : Use) (r : Pool × Acquired)
      → Accounts host u.pool r
      → IsSound u
      → IsSound (hand_out u.held r)
  hand_out-IsSound u (q, got wk) a v = record {
    fits = omega (arith, v.fits, a.0, a.1);
    drained = λ shut. absurd (omega (arith, v.drained (sym a.2 ∙ shut), a.0));
  }
  hand_out-IsSound u (q, spawn_failed e) a v = record {
    fits = omega (arith, v.fits, a.0, a.1);
    drained = λ shut. absurd (omega (arith, v.drained (sym a.2 ∙ shut), a.0));
  }
  hand_out-IsSound u (q, pool_closed) a v = back u a.0 v
  hand_out-IsSound u (q, cancelled) a v = back u a v
  hand_out-IsSound u (q, waits) a v = back u a.0 v
  hand_out-IsSound u (q, gave_up) a v = absurd a
  hand_out-IsSound u (q, nil_worker) a v = absurd a

  -- The channel has room for every worker that comes back.
  release-idle :
      (p : Pool) (wk : Worker)
      → p.closed ≡ false
      → length p.idle < p.capacity
      → release host p wk ≡ record p { idle = p.idle ++ wk ∷ [] }
  unfolding release
  release-idle p wk open_ room =
      let fits : ltb (length p.idle) p.capacity ≡ true = ground arith in simp (open_, fits)

  release-closed : (p : Pool) (wk : Worker) → p.closed ≡ true → release host p wk ≡ stop host p wk
  unfolding release
  release-closed p wk shut = simp shut

  -- Every call keeps it so.
  pub step-IsSound : (u : Use) (c : Call) → IsSound u → IsSound (step host u c)
  unfolding step release stop close
  step-IsSound u (acquires ctx) v =
      hand_out-IsSound u (acquire host ctx u.pool) (acquire-Accounts host ctx u.pool) v
  step-IsSound u (releases i wk) v =
      ground
        (arith, v.fits, v.drained, length-append u.pool.idle (wk ∷ []), length-remove_nth i u.held)
  step-IsSound u closes v = ground (arith, v.fits, v.drained)

  pub run-IsSound : (u : Use) (cs : List Call) → IsSound u → IsSound (run host u cs)
  unfolding run
  run-IsSound u [] v = v
  run-IsSound u (c ∷ cs) v = run-IsSound (step host u c) cs (step-IsSound u c v)

  step-releases :
      (u : Use) (i : ℕ) (wk : Worker)
      → i < length u.held
      → (step host u (releases i wk)).pool ≡ release host u.pool wk
  unfolding step
  step-releases u i wk h = let there : ltb i (length u.held) ≡ true = ground arith in simp there

  -- A worker that is given back goes to the end of the channel, or is shut down if the pool is
  -- closed: the branch for a full channel is never taken.
  pub release_keeps :
      (u : Use) (i : ℕ) (wk : Worker)
      → IsSound u
      → i < length u.held
      → ((u.pool.closed ≡ false)
          × ((step host u (releases i wk)).pool
              ≡ record (u.pool) { idle = u.pool.idle ++ wk ∷ [] }))
        ⊎ ((u.pool.closed ≡ true) × ((step host u (releases i wk)).pool ≡ stop host u.pool wk))
  release_keeps u i wk v h = elim (Bool-cases u.pool.closed) [
    | inl shut ↦ inr (shut, step-releases u i wk h ∙ release-closed u.pool wk shut)
    | inr open_ ↦
        inl (open_, step-releases u i wk h ∙ release-idle u.pool wk open_ (omega (arith, v.fits)))
  ]

  hand_out-live-le :
      (u : Use) (r : Pool × Acquired)
      → Accounts host u.pool r
      → live host (hand_out u.held r) ≤ live host u
  hand_out-live-le u (q, got wk) a = omega (arith, a.0)
  hand_out-live-le u (q, spawn_failed e) a = omega (arith, a.0)
  hand_out-live-le u (q, pool_closed) a = omega (arith, ap (λ p. length p.idle) a.0)
  hand_out-live-le u (q, cancelled) a = omega (arith, ap (λ p. length p.idle) a)
  hand_out-live-le u (q, waits) a = omega (arith, ap (λ p. length p.idle) a.0)
  hand_out-live-le u (q, gave_up) a = absurd a
  hand_out-live-le u (q, nil_worker) a = absurd a

  step-live-le : (u : Use) (c : Call) → live host (step host u c) ≤ live host u
  unfolding step release stop close
  step-live-le u (acquires ctx) =
      hand_out-live-le u (acquire host ctx u.pool) (acquire-Accounts host ctx u.pool)
  step-live-le u (releases i wk) =
      ground (arith, length-append u.pool.idle (wk ∷ []), length-remove_nth i u.held)
  step-live-le u closes = ground arith

  run-live-le : (u : Use) (cs : List Call) → live host (run host u cs) ≤ live host u
  unfolding run
  run-live-le u [] = omega arith
  run-live-le u (c ∷ cs) = omega (arith, run-live-le (step host u c) cs, step-live-le u c)

  got_needs_idle :
      (p : Pool) (r : Pool × Acquired) (wk : Worker)
      → Accounts host p r
      → r.1 ≡ got wk
      → 0 < length p.idle
  got_needs_idle p (q, got w) wk a e = omega (arith, a.0)
  got_needs_idle p (q, spawn_failed x) wk a e = omega (arith, a.0)
  got_needs_idle p (q, pool_closed) wk a e = cc
  got_needs_idle p (q, cancelled) wk a e = cc
  got_needs_idle p (q, waits) wk a e = cc
  got_needs_idle p (q, gave_up) wk a e = absurd a
  got_needs_idle p (q, nil_worker) wk a e = absurd a

  -- No call brings a slot back, so a pool that has lost them all hands out nothing any more.
  pub exhausted_forever :
      (u : Use) (cs : List Call) (ctx : Context) (wk : Worker)
      → live host u ≡ 0
      → (acquire host ctx (run host u cs).pool).1 ≢ got wk
  exhausted_forever u cs ctx wk h e =
      let p = (run host u cs).pool in
      let idle = got_needs_idle p (acquire host ctx p) wk (acquire-Accounts host ctx p) e in
      omega (arith, run-live-le u cs)
