-- ===== src/WorkerPool/Hands.antt =====
-- Which worker Acquire hands out, which it stops, and which stay in the channel.
use chrysalis.Base.{
  ℕ, ◌+◌, ◌%◌, ◌^◌, ◌≡◌, refl, sym, ap, ◌∙◌, subst, ◌&&◌, ◌⊎◌, inl, inr, true, false, Bool-cases,
  List, [], ◌∷◌, ◌++◌, if◌then◌else◌, Text, codes, Result, ok, err,
}
use chrysalis.Decimal.{show}
use chrysalis.FilePath.{join}
use chrysalis.Worker.{Worker, WorkerError, Started, up, failed, ping, shutdown}
use chrysalis.Worker.Sockets.{ping-sock, shutdown-sock, UpAt, start-UpAt}
use chrysalis.WorkerPool.{
  Pool, Host, Context, Acquired, got, pool_closed, cancelled, gave_up, waits, nil_worker,
  spawn_failed, spawn, stop, replaced, checked, take_idle, rounds, acquire,
}

-- The socket path of the worker with a number.
abbrev pub sock_of : Pool → ℕ → Text
sock_of p w = join p.sock_dir (p.sock_base_name ++ codes "." ++ show (w % 2 ^ 64))

-- The pool without its first idle worker.
abbrev pub taking : Pool → List Worker → Pool
taking p rest = record p { idle = rest }

-- The pool without its first idle worker, which is stopped, after a spawn.
abbrev pub after_dead : Pool → List Worker → Worker → Pool
after_dead p rest x = record p {
  idle = rest;
  stopped = x ∷ p.stopped;
  next_sock_id = (p.next_sock_id + 1) % 2 ^ 64;
}

module _ (p : Pool) where
  -- The first idle worker goes; `q` is what is left of the pool when it is dead.
  pub record Stops (q : Pool) : Type 0 where
    pub first : Worker
    pub rest : List Worker
    pub dead : Worker
    pub idle_is : p.idle ≡ first ∷ rest
    pub same_worker : dead.sock_path ≡ first.sock_path
    pub is : q ≡ after_dead p rest dead

  pub record Takes (q : Pool) (wk : Worker) : Type 0 where
    pub first : Worker
    pub rest : List Worker
    pub idle_is : p.idle ≡ first ∷ rest
    pub same_worker : wk.sock_path ≡ first.sock_path
    pub is : q ≡ taking p rest

  -- Acquire hands out the first idle worker, or stops it and hands out one on a new socket.
  abbrev pub Hands : Pool × Acquired → Type 0
  Hands (q, got wk) = Takes q wk ⊎ (Stops q × (wk.sock_path ≡ sock_of p (p.next_sock_id + 1)))
  Hands (q, spawn_failed e) = Stops q
  Hands (q, waits) = (q ≡ p) × (p.idle ≡ []) × (p.closed ≡ false)
  Hands (q, pool_closed) = (q ≡ p) × (p.closed ≡ true)
  Hands (q, cancelled) = (q ≡ p) × (p.closed ≡ false)
  Hands (q, gave_up) = ⊥
  Hands (q, nil_worker) = ⊥

module _ (host : Host) where
  replaced-Hands :
      (p q : Pool) (r : Started)
      → Stops p q
      → UpAt host.codec (sock_of p (p.next_sock_id + 1)) r
      → Hands p (replaced host (q, r))
  unfolding replaced
  replaced-Hands p q (up wk) s at_ = inr (s, at_)
  replaced-Hands p q (failed e _ _) s at_ = s

  checked-Hands :
      (p : Pool) (first : Worker) (rest : List Worker) (r : Worker × Result WorkerError (Unit {0}))
      → p.idle ≡ first ∷ rest
      → r.0.sock_path ≡ first.sock_path
      → Hands p (checked host (taking p rest) r)
  unfolding checked spawn stop
  checked-Hands p first rest (wk, ok u) e same =
      inl (record { first = first; rest = rest; idle_is = e; same_worker = same; is = refl })
  checked-Hands p first rest (wk, err x) e same =
      let s = spawn host (stop host (taking p rest) wk) in
      replaced-Hands p s.0 s.1
        (record {
          first = first;
          rest = rest;
          dead = shutdown host.codec wk;
          idle_is = e;
          same_worker = shutdown-sock host.codec wk ∙ same;
          is = refl;
        })
        (start-UpAt host.codec _ _ _)

  take_idle-Hands :
      (ctx : Context) (p : Pool) (l : List Worker)
      → p.idle ≡ l
      → p.closed ≡ false
      → Hands p (take_idle host ctx p l)
  unfolding take_idle
  take_idle-Hands ctx p [] e open_ = elim (Bool-cases ctx.done) [
    | inl done ↦ rw done (refl, open_)
    | inr waiting ↦ rw waiting (
        subst (λ b. Hands p (if b then (p, nil_worker) else (p, waits))) (sym open_)
          (refl, e, open_))
  ]
  take_idle-Hands ctx p (wk ∷ rest) e open_ = elim (Bool-cases (ctx.done && ctx.takes_done)) [
    | inl done ↦ rw done (refl, open_)
    | inr ready ↦
        rw ready (checked-Hands p wk rest (ping host.codec wk) e (ping-sock host.codec wk))
  ]

  pub acquire-Hands : (ctx : Context) (p : Pool) → Hands p (acquire host ctx p)
  unfolding acquire rounds
  acquire-Hands ctx p = elim (Bool-cases p.closed) [
    | inl shut ↦
        let e = ap (λ b. if b then (p, pool_closed) else rounds host 3 ctx p) shut in
        subst (Hands p) (sym e) (refl, shut)
    | inr open_ ↦
        let e = ap (λ b. if b then (p, pool_closed) else rounds host 3 ctx p) open_ in
        subst (Hands p) (sym e) (take_idle-Hands ctx p p.idle refl open_)
  ]
