-- ===== src/WorkerPool/Races/Releasing.antt =====
-- release as a schedule of its atomic steps.
use mathlib.Core.List.{map, map-append}
use mathlib.Core.List.Perm
use chrysalis.Base.{
  ℕ, ◌≤◌, ◌<◌, ◌≡◌, refl, sym, ap, ◌∙◌, subst, ◌⊎◌, inl, inr, true, false, Bool, Bool-cases, List,
  [], ◌∷◌, ◌++◌, length, length-map, ltb, if◌then◌else◌, arith,
}
use chrysalis.Worker.{Worker}
use chrysalis.Worker.Sockets.{shutdown-sock}
use chrysalis.WorkerPool.{Pool, Host, release, stop}
use chrysalis.WorkerPool.Hands.{sock_of}
use chrysalis.WorkerPool.Races.{
  Local, resting, holding, releasing, not_yet, shut, State, begin_release, release_closed,
  send_back, channel_full,
}
use chrysalis.WorkerPool.Races.Simulation.{
  closer_of, sock, Matches, release_op, of, Alone, start, goes, taken, Reaches, at, to,
}

-- Where release leaves its caller, and in how many steps.
abbrev pub Rests : Local → ℕ → Type 0
Rests l n = (l ≡ resting) × ((n ≡ 1) ⊎ (n ≡ 2))

module _ (host : Host) (p : Pool) (s : State) (left right : List Local) (m : Matches p s) where
  same_lengths : length s.queue ≡ length p.idle
  same_lengths = sym (length-map (sock_of p) s.queue) ∙ ap length m.queued ∙ length-map sock p.idle

  module _ (wk : Worker) (w : ℕ) (same : sock_of p w ≡ sock wk)
      (e : s.threads ≡ left ++ holding w ∷ right) where
    abbrev Ends : Pool → Type 0
    Ends q = Reaches release_op s left right q Rests

    sent : p.closed ≡ false → Alone release_op left right s (at s left right (releasing w) s)
    unfolding of
    sent open_ =
        goes (releasing w) start
          (begin_release w (m.same_closed ∙ ap closer_of open_)
            (to s left right s (holding w) (releasing w) e) refl)
          refl refl

    -- The worker that goes back to the channel, behind the others.
    gives_back :
        p.closed ≡ false → length p.idle < p.capacity → Ends (record p { idle = p.idle ++ wk ∷ [] })
    unfolding of taken sent
    gives_back open_ room =
        let c : s.closer ≡ not_yet = m.same_closed ∙ ap closer_of open_ in
        let u = at s left right (releasing w) s in
        let size = same_lengths in
        record {
          final = at s left right resting (record s { queue = s.queue ++ w ∷ [] });
          path =
              goes resting (sent open_)
                (send_back w (λ is. cc (c, is)) (omega (arith, room, size, m.same_capacity))
                  (to s left right u (releasing w) resting refl) refl)
                refl refl;
          matches = record {
            queued =
                map-append (sock_of p) s.queue (w ∷ [])
                ∙ ap (λ l. l ++ sock_of p w ∷ []) m.queued
                ∙ ap (λ x. map sock p.idle ++ x ∷ []) same
                ∙ sym (map-append sock p.idle (wk ∷ []));
            same_capacity = m.same_capacity;
            same_closed = m.same_closed;
            same_stopped = m.same_stopped;
            same_next = m.same_next;
          };
          caller = resting;
          place = (refl, inr refl);
          others_stay = refl;
        }

    -- The worker that is shut down.
    stopped_too :
        Matches (stop host p wk) (at s left right resting (record s { stopped = w ∷ s.stopped }))
    unfolding stop
    stopped_too = record {
      queued = m.queued;
      same_capacity = m.same_capacity;
      same_closed = m.same_closed;
      same_stopped = Perm.cons' (same ∙ sym (shutdown-sock host.codec wk)) m.same_stopped;
      same_next = m.same_next;
    }

    overflows : p.closed ≡ false → p.capacity ≤ length p.idle → Ends (stop host p wk)
    unfolding of taken sent
    overflows open_ full =
        let c : s.closer ≡ not_yet = m.same_closed ∙ ap closer_of open_ in
        let u = at s left right (releasing w) s in
        let size = same_lengths in
        record {
          final = at s left right resting (record s { stopped = w ∷ s.stopped });
          path =
              goes resting (sent open_)
                (channel_full w (λ is. cc (c, is)) (omega (arith, full, size, m.same_capacity))
                  (to s left right u (releasing w) resting refl) refl)
                refl refl;
          matches = stopped_too;
          caller = resting;
          place = (refl, inr refl);
          others_stay = refl;
        }

    refused_release : p.closed ≡ true → Ends (stop host p wk)
    unfolding of taken
    refused_release shut_ =
        let c : s.closer ≡ shut = m.same_closed ∙ ap closer_of shut_ in
        record {
          final = at s left right resting (record s { stopped = w ∷ s.stopped });
          path =
              goes resting start
                (release_closed w (λ is. cc (c, is)) (to s left right s (holding w) resting e) refl)
                refl refl;
          matches = stopped_too;
          caller = resting;
          place = (refl, inl refl);
          others_stay = refl;
        }

    pub release-Reaches : Ends (release host p wk)
    unfolding release
    release-Reaches =
        let back : Pool = record p { idle = p.idle ++ wk ∷ [] } in
        let by_room = λ (b : Bool). if b then back else stop host p wk in
        let by_closed =
          λ (b : Bool). if b then stop host p wk else by_room (ltb (length p.idle) p.capacity) in
        elim (Bool-cases p.closed) [
          | inl shut_ ↦ subst Ends (sym (ap by_closed shut_)) (refused_release shut_)
          | inr open_ ↦
              subst Ends (sym (ap by_closed open_))
                (elim (Bool-cases (ltb (length p.idle) p.capacity)) [
                  | inl room ↦ subst Ends (sym (ap by_room room)) (gives_back open_ (ground arith))
                  | inr full ↦ subst Ends (sym (ap by_room full)) (overflows open_ (ground arith))
                ])
        ]
