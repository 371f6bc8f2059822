-- ===== src/WorkerPool/Slots.antt =====
-- The slots of the pool over a history of calls: a worker stands in the channel or with a caller.
use chrysalis.Base.{
  ℕ, zero, suc, ◌+◌, ◌<◌, ◌≡◌, subst, refl, ◌&&◌, sym, ap, ◌⊎◌, inl, inr, true, false, List, [],
  ◌∷◌, arith, ltb, if◌then◌else◌, length, Bool-cases, Result, ok, err,
}
use chrysalis.Worker.{Worker, WorkerError, Started, up, failed, ping}
use chrysalis.WorkerPool.{
  Pool, Host, Context, Acquired, got, pool_closed, cancelled, gave_up, waits, nil_worker,
  spawn_failed, spawn, stop, replaced, checked, take_idle, rounds, acquire, release, close,
}

-- The pool, and the workers that callers hold.
pub record Use : Type 0 where
  pub pool : Pool
  pub held : List Worker

-- A caller gives back the i-th of them, in the state that its calls have left it in.
pub data Call : Type 0 where
  acquires : Context → Call
  releases : ℕ → Worker → Call
  closes : Call

unfoldable pub remove_nth : ℕ → List Worker → List Worker
remove_nth i [] = []
remove_nth zero (w ∷ ws) = ws
remove_nth (suc i) (w ∷ ws) = w ∷ remove_nth i ws

abbrev pub hand_out : List Worker → Pool × Acquired → Use
hand_out held (p, got wk) = record { pool = p; held = wk ∷ held }
hand_out held (p, pool_closed) = record { pool = p; held = held }
hand_out held (p, cancelled) = record { pool = p; held = held }
hand_out held (p, gave_up) = record { pool = p; held = held }
hand_out held (p, waits) = record { pool = p; held = held }
hand_out held (p, nil_worker) = record { pool = p; held = held }
hand_out held (p, spawn_failed e) = record { pool = p; held = held }

pub length-remove_nth :
    (i : ℕ) (ws : List Worker) → i < length ws → length (remove_nth i ws) + 1 ≡ length ws
unfolding remove_nth
length-remove_nth i [] h = absurd (omega arith)
length-remove_nth zero (w ∷ ws) h = omega arith
length-remove_nth (suc i) (w ∷ ws) h = omega (arith, length-remove_nth i ws)

module _ (host : Host) where
  unfoldable pub step : Use → Call → Use
  step u (acquires ctx) = hand_out u.held (acquire host ctx u.pool)
  step u (releases i wk) =
      if ltb i (length u.held)
      then record { pool = release host u.pool wk; held = remove_nth i u.held }
      else u
  step u closes = record u { pool = close host u.pool }

  unfoldable pub run : Use → List Call → Use
  run u [] = u
  run u (c ∷ cs) = run (step u c) cs

  abbrev pub live : Use → ℕ
  live u = length u.pool.idle + length u.held

  abbrev pub population : Use → ℕ
  population u = live u + length u.pool.stopped

  -- What one Acquire does to the counts. A failed replacement loses a slot.
  abbrev pub Accounts : Pool → Pool × Acquired → Type 0
  Accounts p (q, got wk) =
      (length q.idle + 1 ≡ length p.idle)
      × (q.capacity ≡ p.capacity)
      × (q.closed ≡ p.closed)
      × ((length q.stopped ≡ length p.stopped) ⊎ (length q.stopped ≡ length p.stopped + 1))
  Accounts p (q, spawn_failed e) =
      (length q.idle + 1 ≡ length p.idle)
      × (q.capacity ≡ p.capacity)
      × (q.closed ≡ p.closed)
      × (length q.stopped ≡ length p.stopped + 1)
  Accounts p (q, pool_closed) = (q ≡ p) × (p.closed ≡ true)
  Accounts p (q, cancelled) = q ≡ p
  Accounts p (q, waits) = (q ≡ p) × (p.idle ≡ []) × (p.closed ≡ false)
  Accounts p (q, gave_up) = ⊥
  Accounts p (q, nil_worker) = ⊥

  -- `q` is `p` with one idle worker less and `n` more that are stopped.
  record Took (n : ℕ) (p q : Pool) : Type 0 where
    one_less : length q.idle + 1 ≡ length p.idle
    same_capacity : q.capacity ≡ p.capacity
    same_closed : q.closed ≡ p.closed
    stopped_more : length q.stopped ≡ length p.stopped + n

  replaced-Accounts : (p q : Pool) (r : Started) → Took 1 p q → Accounts p (replaced host (q, r))
  unfolding replaced
  replaced-Accounts p q (up wk) t = (t.one_less, t.same_capacity, t.same_closed, inr t.stopped_more)
  replaced-Accounts p q (failed e _ _) t =
      (t.one_less, t.same_capacity, t.same_closed, t.stopped_more)

  checked-Accounts :
      (p q : Pool) (r : Worker × Result WorkerError (Unit {0}))
      → Took 0 p q
      → Accounts p (checked host q r)
  unfolding checked spawn stop
  checked-Accounts p q (wk, ok u) t =
      (t.one_less, t.same_capacity, t.same_closed, inl (omega (arith, t.stopped_more)))
  checked-Accounts p q (wk, err e) t =
      let s = spawn host (stop host q wk) in
      replaced-Accounts p s.0 s.1 (record {
        one_less = t.one_less;
        same_capacity = t.same_capacity;
        same_closed = t.same_closed;
        stopped_more = omega (arith, t.stopped_more);
      })

  take_idle-Accounts :
      (ctx : Context) (p : Pool) (l : List Worker)
      → p.idle ≡ l
      → p.closed ≡ false
      → Accounts p (take_idle host ctx p l)
  unfolding take_idle
  take_idle-Accounts ctx p [] e open_ = elim (Bool-cases ctx.done) [
    | inl done ↦ rw done refl
    | inr waiting ↦ rw waiting (
        subst (λ b. Accounts p (if b then (p, nil_worker) else (p, waits))) (sym open_)
          (refl, e, open_))
  ]
  take_idle-Accounts ctx p (wk ∷ rest) e open_ = elim (Bool-cases (ctx.done && ctx.takes_done)) [
    | inl done ↦ rw done refl
    | inr ready ↦ rw ready (
        checked-Accounts p (record p { idle = rest }) (ping host.codec wk)
          (record {
            one_less = omega (arith, ap length e);
            same_capacity = refl;
            same_closed = refl;
            stopped_more = omega arith;
          }))
  ]

  -- Acquire takes one worker, or none and changes nothing. It never gives up after its attempts,
  -- and it meets a nil worker only if Close runs beside it.
  pub acquire-Accounts : (ctx : Context) (p : Pool) → Accounts p (acquire host ctx p)
  unfolding acquire rounds
  acquire-Accounts ctx p = elim (Bool-cases p.closed) [
    | inl shut ↦
        let e = ap (λ b. if b then (p, pool_closed) else rounds host 3 ctx p) shut in
        subst (Accounts p) (sym e) (refl, shut)
    | inr open_ ↦
        let e = ap (λ b. if b then (p, pool_closed) else rounds host 3 ctx p) open_ in
        subst (Accounts p) (sym e) (take_idle-Accounts ctx p p.idle refl open_)
  ]
