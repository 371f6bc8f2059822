-- ===== src/WorkerPool/Races/Crashes.antt =====
-- A caller that has seen the pool open before Close has run can always crash.
use chrysalis.Base.{ℕ, ◌≡◌, refl, ap, ◌∙◌, subst, ◌⊎◌, inl, inr, List, [], ◌∷◌, ◌++◌}
use chrysalis.WorkerPool.Races.{
  Local, resting, acquiring, replacing, checking, holding, releasing, nil_deref, sent_on_closed,
  not_yet, shut, State, Moves, receive_nil, send_on_closed, store_closed, close_channel, drain,
  Reach, here, next,
}

-- A caller that has passed the test of release, and Close running before its send: the send on the
-- closed channel crashes.
pub close_crashes_release :
    (s : State) (left right : List Local) (w : ℕ)
    → s.closer ≡ not_yet
    → s.threads ≡ left ++ releasing w ∷ right
    → Reach s (record s { closer = shut; threads = left ++ sent_on_closed w ∷ right })
close_crashes_release s left right w c e =
    next (next (next here (store_closed c refl)) (close_channel refl refl))
      (send_on_closed w refl (record { left = left; right = right; was = e; is = refl }) refl)

-- The loop of Close empties the channel.
drains :
    {o : State} (s : State) (q : List ℕ)
    → s.closer ≡ shut
    → s.queue ≡ q
    → Reach o s
    → (st : List ℕ) × Reach o (record s { queue = []; stopped = st })
drains {o} s [] c e r = (s.stopped, subst (Reach o) (ap (λ q. record s { queue = q }) e) r)
drains s (w ∷ q) c e r =
    drains (record s { queue = q; stopped = w ∷ s.stopped }) q c refl (next r (drain w q c e refl))

-- A caller that waits for a worker, and Close: the nil worker crashes it.
pub close_crashes_acquire :
    (s : State) (left right : List Local)
    → s.closer ≡ not_yet
    → s.threads ≡ left ++ acquiring ∷ right
    → (st : List ℕ) × Reach s
        (record s { closer = shut; queue = []; stopped = st; threads = left ++ nil_deref ∷ right })
close_crashes_acquire s left right c e =
    let closed : Reach s (record s { closer = shut }) =
      next (next here (store_closed c refl)) (close_channel refl refl) in
    let (st, r) = drains (record s { closer = shut }) s.queue refl refl closed in
    let move : Moves acquiring nil_deref s.threads (left ++ nil_deref ∷ right) = record {
      left = left;
      right = right;
      was = e;
      is = refl;
    } in
    (st, next r (receive_nil refl refl move refl))

-- The crash of a caller that has seen the pool open.
unfoldable pub crashed : Local → Local
crashed acquiring = nil_deref
crashed (releasing w) = sent_on_closed w
crashed resting = resting
crashed replacing = replacing
crashed (checking w) = checking w
crashed (holding w) = holding w
crashed nil_deref = nil_deref
crashed (sent_on_closed w) = sent_on_closed w

-- From every state in which Close has not begun: a caller at the select of Acquire or of release can
-- crash. Close can close the channel first, and drain it; then Acquire receives a nil worker, which
-- Ping follows, and release sends on the closed channel. The other callers stay where they are.
pub close_crashes :
    (s : State) (left right : List Local) (l : Local)
    → s.closer ≡ not_yet
    → s.threads ≡ left ++ l ∷ right
    → (l ≡ acquiring) ⊎ ((w : ℕ) × (l ≡ releasing w))
    → (q : List ℕ) × (st : List ℕ) × Reach s
        (record s { closer = shut; queue = q; stopped = st; threads = left ++ crashed l ∷ right })
unfolding crashed
close_crashes s left right l c e (inl is) =
    let at_select = e ∙ ap (λ x. left ++ x ∷ right) is in
    let (st, r) = close_crashes_acquire s left right c at_select in ([], st, rw is r)
close_crashes s left right l c e (inr (w, is)) =
    let at_select = e ∙ ap (λ x. left ++ x ∷ right) is in
    (s.queue, s.stopped, rw is (close_crashes_release s left right w c at_select))
