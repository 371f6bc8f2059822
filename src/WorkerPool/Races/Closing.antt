-- ===== src/WorkerPool/Races/Closing.antt =====
-- Close as a schedule of its atomic steps.
use mathlib.Core.List.{map, map-append, Perm}
use mathlib.Core.List.Perm
use chrysalis.Base.{
  ◌≡◌, refl, sym, ap, ◌∙◌, subst, inl, inr, true, false, Bool, Bool-cases, List, [], ◌∷◌, ◌++◌,
  if◌then◌else◌,
}
use chrysalis.Worker.{Worker, shutdown}
use chrysalis.Worker.Sockets.{shutdown-sock}
use chrysalis.WorkerPool.{Pool, Host, close}
use chrysalis.WorkerPool.Hands.{sock_of}
use chrysalis.WorkerPool.Races.{Local, not_yet, shut, State, store_closed, close_channel}
use chrysalis.WorkerPool.Races.Simulation.{
  closer_of, sock, Matches, close_op, of, Alone, start, goes, Reaches, drains_all,
}

module _ (host : Host) (p : Pool) (s : State) (left right : List Local) (m : Matches p s) where
  shutdown-socks : (wks : List Worker) → map sock (map (shutdown host.codec) wks) ≡ map sock wks
  shutdown-socks [] = refl
  shutdown-socks (wk ∷ wks) =
      ap (λ x. x ∷ map sock (map (shutdown host.codec) wks)) (shutdown-sock host.codec wk)
      ∙ ap (◌∷◌ (sock wk)) (shutdown-socks wks)

  close_open :
      (l : Local)
      → p.closed ≡ false
      → s.threads ≡ left ++ l ∷ right
      → Reaches close_op s left right
          (record p {
            closed = true;
            idle = [];
            stopped = map (shutdown host.codec) p.idle ++ p.stopped;
          })
          (λ x n. x ≡ l)
  unfolding of
  close_open l open_ e =
      let c : s.closer ≡ not_yet = m.same_closed ∙ ap closer_of open_ in
      let u = record s { closer = shut } in
      let path : Alone close_op left right s u =
        goes l (goes l start (store_closed c refl) refl e) (close_channel refl refl) refl e in
      let (st, all, same) = drains_all l u s.queue refl refl e path in
      let ended = map (shutdown host.codec) p.idle in
      record {
        final = record u { queue = []; stopped = st };
        path = all;
        matches = record {
          queued = refl;
          same_capacity = m.same_capacity;
          same_closed = refl;
          same_stopped = subst (Perm (map (sock_of p) st)) (sym (map-append sock ended p.stopped)) (
              Perm.trans
                (subst (Perm (map (sock_of p) st)) (map-append (sock_of p) s.queue s.stopped)
                  (Perm.map (sock_of p) same))
                (subst
                  (λ l.
                    Perm (map (sock_of p) s.queue ++ map (sock_of p) s.stopped)
                      (l ++ map sock p.stopped))
                  (m.queued ∙ sym (shutdown-socks p.idle))
                  (Perm.append_left (map (sock_of p) s.queue) m.same_stopped)));
          same_next = m.same_next;
        };
        caller = l;
        place = refl;
        others_stay = e;
      }

  pub close-Reaches :
      (l : Local)
      → s.threads ≡ left ++ l ∷ right
      → Reaches close_op s left right (close host p) (λ x n. x ≡ l)
  unfolding close
  close-Reaches l e =
      let closed_ : Pool = record p {
        closed = true;
        idle = [];
        stopped = map (shutdown host.codec) p.idle ++ p.stopped;
      } in
      let by_closed = λ (b : Bool). if b then p else closed_ in
      let ends = λ (q : Pool). Reaches close_op s left right q (λ x n. x ≡ l) in
      elim (Bool-cases p.closed) [
        | inl shut_ ↦ subst ends (sym (ap by_closed shut_)) (record {
          final = s;
          path = start;
          matches = m;
          caller = l;
          place = refl;
          others_stay = e;
        })
        | inr open_ ↦ subst ends (sym (ap by_closed open_)) (close_open l open_ e)
      ]
