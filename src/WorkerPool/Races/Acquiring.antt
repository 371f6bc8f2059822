-- ===== src/WorkerPool/Races/Acquiring.antt =====
-- Acquire as a schedule of its atomic steps.
use mathlib.Core.List.{map}
use mathlib.Core.List.Perm
use chrysalis.Base.{
  ℕ, suc, ◌+◌, ◌≡◌, refl, sym, ap, ◌∙◌, subst, inl, inr, false, Bool-cases, List, ◌∷◌, ◌++◌,
  if◌then◌else◌, arith, codes,
}
use chrysalis.Decimal.{show}
use chrysalis.FilePath.{join}
use chrysalis.Worker.{Worker, StartError}
use chrysalis.WorkerPool.{
  Pool, Host, Context, Acquired, got, pool_closed, cancelled, gave_up, waits, nil_worker,
  spawn_failed, rounds, acquire,
}
use chrysalis.WorkerPool.Hands.{sock_of, Takes, Stops, Hands, acquire-Hands}
use chrysalis.WorkerPool.Races.{
  Local, resting, acquiring, replacing, checking, holding, not_yet, State, cancel, answers, respawn,
  spawn_fails,
}
use chrysalis.WorkerPool.Races.Simulation.{
  closer_of, sock, Matches, acquire_op, of, start, goes, taken, Leaves, Reaches, uncons, at, to,
  waiting, received, found_dead,
}

module _ (p : Pool) (s : State) (left right : List Local) (m : Matches p s)
    (open_ : p.closed ≡ false) (e : s.threads ≡ left ++ resting ∷ right) where
  still_open : s.closer ≡ not_yet
  still_open = m.same_closed ∙ ap closer_of open_

  abbrev Ends : Pool × Acquired → Type 0
  Ends r = Reaches acquire_op s left right r.0 (Leaves p r.1)

  -- The first idle worker answers.
  hands_first : (q : Pool) (wk : Worker) → Takes p q wk → Ends (q, got wk)
  unfolding of taken waiting received
  hands_first q wk t =
      let (w, rest, h, first_is, rest_is) =
        uncons (sock_of p) s.queue (sock t.first) (map sock t.rest)
          (m.queued ∙ ap (map sock) t.idle_is) in
      let u = at s left right (checking w) (record s { queue = rest }) in
      subst (λ x. Ends (x, got wk)) (sym t.is)
        (record {
          final = at s left right (holding w) (record s { queue = rest });
          path =
              goes (holding w) (received s left right w rest e still_open h)
                (answers w (to s left right u (checking w) (holding w) refl) refl) refl refl;
          matches = record {
            queued = rest_is;
            same_capacity = m.same_capacity;
            same_closed = m.same_closed;
            same_stopped = m.same_stopped;
            same_next = m.same_next;
          };
          caller = holding w;
          place = ((w, refl, first_is ∙ sym t.same_worker), inl refl);
          others_stay = refl;
        })

  -- The first idle worker is dead: the steps up to the spawn, and what the pool is after it.
  record FindsDead (q : Pool) : Type 0 where
    number : ℕ
    rest : List ℕ
    is_first : s.queue ≡ number ∷ rest
    matches_after :
        (l : Local)
        → Matches q (record s {
          queue = rest;
          stopped = number ∷ s.stopped;
          next_id = suc s.next_id;
          threads = left ++ l ∷ right;
        })

  finds_dead : (q : Pool) → Stops p q → FindsDead q
  finds_dead q t =
      let (w, rest, h, first_is, rest_is) =
        uncons (sock_of p) s.queue (sock t.first) (map sock t.rest)
          (m.queued ∙ ap (map sock) t.idle_is) in
      record {
        number = w;
        rest = rest;
        is_first = h;
        matches_after = λ l.
            subst
              (λ x. Matches x (record s {
                queue = rest;
                stopped = w ∷ s.stopped;
                next_id = suc s.next_id;
                threads = left ++ l ∷ right;
              }))
              (sym t.is)
              (record {
                queued = rest_is;
                same_capacity = m.same_capacity;
                same_closed = m.same_closed;
                same_stopped = Perm.cons' (first_is ∙ sym t.same_worker) m.same_stopped;
                same_next = omega (arith, m.same_next);
              });
      }

  hands_new :
      (q : Pool) (wk : Worker)
      → Stops p q
      → wk.sock_path ≡ sock_of p (p.next_sock_id + 1)
      → Ends (q, got wk)
  unfolding of taken waiting received found_dead
  hands_new q wk t new =
      let d = finds_dead q t in
      let u =
        at s left right replacing (record s { queue = d.rest; stopped = d.number ∷ s.stopped }) in
      record {
        final = record u { next_id = suc s.next_id; threads = left ++ holding s.next_id ∷ right };
        path =
            goes (holding s.next_id)
              (found_dead s left right d.number d.rest e still_open d.is_first)
              (respawn (to s left right u replacing (holding s.next_id) refl) refl) refl refl;
        matches = d.matches_after (holding s.next_id);
        caller = holding s.next_id;
        place = (
          (
            s.next_id,
            refl,
            ap (λ n. join p.sock_dir (p.sock_base_name ++ codes "." ++ show n)) m.same_next
                ∙ sym new,
          ),
          inr refl,
        );
        others_stay = refl;
      }

  hands_none : (q : Pool) (x : StartError) → Stops p q → Ends (q, spawn_failed x)
  unfolding of taken waiting received found_dead
  hands_none q x t =
      let d = finds_dead q t in
      let u =
        at s left right replacing (record s { queue = d.rest; stopped = d.number ∷ s.stopped }) in
      record {
        final = record u { next_id = suc s.next_id; threads = left ++ resting ∷ right };
        path =
            goes resting (found_dead s left right d.number d.rest e still_open d.is_first)
              (spawn_fails (to s left right u replacing resting refl) refl) refl refl;
        matches = d.matches_after resting;
        caller = resting;
        place = (refl, refl);
        others_stay = refl;
      }

  -- The pool is as it was.
  same_pool : (l : Local) → Matches p (record s { threads = left ++ l ∷ right })
  same_pool l = record {
    queued = m.queued;
    same_capacity = m.same_capacity;
    same_closed = m.same_closed;
    same_stopped = m.same_stopped;
    same_next = m.same_next;
  }

  waits_on : Ends (p, waits)
  unfolding of taken waiting
  waits_on = record {
    final = at s left right acquiring s;
    path = waiting s left right e still_open;
    matches = same_pool acquiring;
    caller = acquiring;
    place = (refl, refl);
    others_stay = refl;
  }

  gives_up : Ends (p, cancelled)
  unfolding of taken waiting
  gives_up =
      let u = at s left right acquiring s in
      record {
        final = at s left right resting s;
        path =
            goes resting (waiting s left right e still_open)
              (cancel (to s left right u acquiring resting refl) refl) refl refl;
        matches = same_pool resting;
        caller = resting;
        place = (refl, refl);
        others_stay = refl;
      }

  -- The steps of Acquire on an open pool, by how it ends.
  acquire-Reaches_open : (r : Pool × Acquired) → Hands p r → Ends r
  acquire-Reaches_open (q, got wk) (inl t) = hands_first q wk t
  acquire-Reaches_open (q, got wk) (inr (t, new)) = hands_new q wk t new
  acquire-Reaches_open (q, spawn_failed x) t = hands_none q x t
  acquire-Reaches_open (q, waits) (same, _, _) = subst (λ x. Ends (x, waits)) (sym same) waits_on
  acquire-Reaches_open (q, cancelled) (same, _) =
      subst (λ x. Ends (x, cancelled)) (sym same) gives_up
  acquire-Reaches_open (q, pool_closed) (same, shut_) = absurd cc
  acquire-Reaches_open (q, gave_up) h = absurd h
  acquire-Reaches_open (q, nil_worker) h = absurd h

module _ (host : Host) (p : Pool) (s : State) (left right : List Local) (m : Matches p s) where
  pub acquire-Reaches :
      (ctx : Context)
      → s.threads ≡ left ++ resting ∷ right
      → Reaches acquire_op s left right (acquire host ctx p).0 (Leaves p (acquire host ctx p).1)
  unfolding acquire taken
  acquire-Reaches ctx e = elim (Bool-cases p.closed) [
    | inr open_ ↦
        acquire-Reaches_open p s left right m open_ e (acquire host ctx p)
          (acquire-Hands host ctx p)
    | inl shut_ ↦
        let is : acquire host ctx p ≡ (p, pool_closed) =
          ap (λ b. if b then (p, pool_closed) else rounds host 3 ctx p) shut_ in
        subst (λ r. Reaches acquire_op s left right r.0 (Leaves p r.1)) (sym is)
          (record {
            final = s;
            path = start;
            matches = m;
            caller = resting;
            place = (refl, refl);
            others_stay = e;
          })
  ]
