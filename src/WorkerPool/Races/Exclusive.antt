-- ===== src/WorkerPool/Races/Exclusive.antt =====
-- No two callers ever use one worker, the channel never overflows, and nothing crashes before Close.
use chrysalis.Base.{
  ℕ, suc, ◌+◌, ◌≤◌, ◌≡◌, refl, ap, ◌∙◌, Bool, true, false, List, [], ◌∷◌, ◌++◌, ◌==◌, arith,
}
use chrysalis.WorkerPool.Races.{
  Local, resting, acquiring, replacing, checking, holding, releasing, nil_deref, sent_on_closed,
  State, Moves, Step, begin_acquire, receive, receive_nil, cancel, answers, is_dead, respawn,
  spawn_fails, begin_release, release_closed, send_back, channel_full, send_on_closed, store_closed,
  close_channel, drain, Reach, here, next,
}

unfoldable pub one_if : Bool → ℕ
one_if true = 1
one_if false = 0

-- How often worker `a` stands in a list, and with a caller.
unfoldable pub count : ℕ → List ℕ → ℕ
unfolding one_if
count a [] = 0
count a (x ∷ xs) = one_if (x == a) + count a xs

unfoldable pub count_local : ℕ → Local → ℕ
unfolding one_if
count_local a (checking w) = one_if (w == a)
count_local a (holding w) = one_if (w == a)
count_local a (releasing w) = one_if (w == a)
count_local a (sent_on_closed w) = one_if (w == a)
count_local a resting = 0
count_local a acquiring = 0
count_local a replacing = 0
count_local a nil_deref = 0

unfoldable pub total : (Local → ℕ) → List Local → ℕ
total f [] = 0
total f (l ∷ ls) = f l + total f ls

pub total-append :
    (f : Local → ℕ) (xs ys : List Local) → total f (xs ++ ys) ≡ total f xs + total f ys
unfolding total
total-append f [] ys = omega arith
total-append f (x ∷ xs) ys = omega (arith, total-append f xs ys)

count-append : (a : ℕ) (xs ys : List ℕ) → count a (xs ++ ys) ≡ count a xs + count a ys
unfolding count
count-append a [] ys = omega arith
count-append a (x ∷ xs) ys = omega (arith, count-append a xs ys)

-- A move changes a sum over the callers by what it changes at its caller.
pub total-Moves :
    (f : Local → ℕ) {a b : Local} {s t : List Local}
    → Moves a b s t
    → total f t + f a ≡ total f s + f b
unfolding total
total-Moves f {a} {b} m = omega (
  arith,
  ap (total f) m.was,
  ap (total f) m.is,
  total-append f m.left (a ∷ m.right),
  total-append f m.left (b ∷ m.right),
)

-- The places where a worker can be.
unfoldable pub places : ℕ → State → ℕ
places a s = count a s.queue + total (count_local a) s.threads + count a s.stopped

-- Each worker is in one place at most, and numbers not yet given are in none.
abbrev pub Exclusive : State → Type 0
Exclusive s = (a : ℕ) → (places a s ≤ 1) × (s.next_id ≤ a → places a s ≡ 0)

-- A step moves workers about, or makes the next one.
data Balanced (s t : State) : Type 0 where
  kept : t.next_id ≡ s.next_id → ((a : ℕ) → places a t ≤ places a s) → Balanced s t
  grown :
      t.next_id ≡ suc s.next_id
      → ((a : ℕ) → places a t ≤ places a s + one_if (s.next_id == a))
      → Balanced s t

-- The three kinds of step: a caller moves and carries what it carried; a worker that it carried is
-- stopped; any other change to the pool.
moves_on :
    {s t : State} {b c : Local}
    → Moves b c s.threads t.threads
    → t ≡ record s { threads = t.threads }
    → ((a : ℕ) → count_local a c ≡ count_local a b)
    → Balanced s t
unfolding places
moves_on m e same =
    kept (ap (λ x. x.next_id) e)
      (λ a. omega (arith, ap (places a) e, total-Moves (count_local a) m, same a))

stops :
    {s t : State} {b c : Local} (w : ℕ)
    → Moves b c s.threads t.threads
    → t ≡ record s { stopped = w ∷ s.stopped; threads = t.threads }
    → ((a : ℕ) → count_local a c + one_if (w == a) ≡ count_local a b)
    → Balanced s t
unfolding places count
stops w m e same =
    kept (ap (λ x. x.next_id) e)
      (λ a. omega (arith, ap (places a) e, total-Moves (count_local a) m, same a))

changes :
    {s t u : State}
    → t ≡ u
    → u.next_id ≡ s.next_id
    → ((a : ℕ) → places a u ≤ places a s)
    → Balanced s t
changes {s} e i le = kept (ap (λ x. x.next_id) e ∙ i) (λ a. rw e (le a))

Step-Balanced : {s t : State} → Step s t → Balanced s t
unfolding places count total count_local
Step-Balanced (begin_acquire c m e) = moves_on m e (λ a. refl)
Step-Balanced (receive w q h m e) =
    changes e refl (λ a. omega (arith, ap (count a) h, total-Moves (count_local a) m))
Step-Balanced (receive_nil c h m e) = moves_on m e (λ a. refl)
Step-Balanced (cancel m e) = moves_on m e (λ a. refl)
Step-Balanced (answers w m e) = moves_on m e (λ a. refl)
Step-Balanced (is_dead w m e) = stops w m e (λ a. omega arith)
Step-Balanced (respawn m e) =
    grown (ap (λ x. x.next_id) e)
      (λ a. omega (arith, ap (places a) e, total-Moves (count_local a) m))
Step-Balanced (spawn_fails m e) =
    grown (ap (λ x. x.next_id) e)
      (λ a. omega (arith, ap (places a) e, total-Moves (count_local a) m))
Step-Balanced (begin_release w c m e) = moves_on m e (λ a. refl)
Step-Balanced (release_closed w c m e) = stops w m e (λ a. omega arith)
Step-Balanced {s} (send_back w c room m e) =
    changes e refl
      (λ a. omega (arith, count-append a s.queue (w ∷ []), total-Moves (count_local a) m))
Step-Balanced (channel_full w c full m e) = stops w m e (λ a. omega arith)
Step-Balanced (send_on_closed w c m e) = moves_on m e (λ a. refl)
Step-Balanced (store_closed c e) = changes e refl (λ a. omega arith)
Step-Balanced (close_channel c e) = changes e refl (λ a. omega arith)
Step-Balanced (drain w q c h e) = changes e refl (λ a. omega (arith, ap (count a) h))

Balanced-Exclusive :
    {s t : State}
    → Balanced s t
    → Exclusive s
    → (a : ℕ) → (places a t ≤ 1) × (t.next_id ≤ a → places a t ≡ 0)
unfolding one_if
Balanced-Exclusive (kept i h) x a =
    let y = x a in (omega (arith, h a, y.0), λ le. omega (arith, h a, y.1 (omega (arith, i))))
Balanced-Exclusive (grown i h) x a = let y = x a in ground (arith, h a, i, y.0, y.1)

-- In every state that the pool reaches, a worker stands in one place at most: with one caller, in
-- the channel, or among the stopped.
pub Reach-Exclusive : {s t : State} → Reach s t → Exclusive s → Exclusive t
Reach-Exclusive here x = x
Reach-Exclusive (next r st) x = Balanced-Exclusive (Step-Balanced st) (Reach-Exclusive r x)
