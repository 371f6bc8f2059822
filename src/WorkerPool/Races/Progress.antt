-- ===== src/WorkerPool/Races/Progress.antt =====
-- No schedule goes on for ever without new calls, and none ends while the pool itself could go on: at
-- the select of Acquire, at the send of release, and in Close.
use chrysalis.Base.{
  ℕ, suc, ◌+◌, ◌*◌, ◌≤◌, ◌≡◌, ◌≢◌, sym, ap, subst, [], ◌∷◌, length, length-append, All, Bool, true,
  false, arith,
}
use chrysalis.WorkerPool.Races.{
  Local, resting, acquiring, replacing, checking, holding, releasing, nil_deref, sent_on_closed,
  Closer, not_yet, flagged, shut, State, Step, begin_acquire, receive, receive_nil, cancel, answers,
  is_dead, respawn, spawn_fails, begin_release, release_closed, send_back, channel_full,
  send_on_closed, store_closed, close_channel, drain, Reach, here, next,
}
use chrysalis.WorkerPool.Races.Exclusive.{total, total-Moves}

-- How many steps a caller can still take in the call that it is in, at most.
unfoldable pub ahead : Local → ℕ
ahead resting = 0
ahead nil_deref = 0
ahead (sent_on_closed w) = 0
ahead (releasing w) = 2
ahead (holding w) = 3
ahead replacing = 4
ahead (checking w) = 5
ahead acquiring = 5

unfoldable pub closing : Closer → ℕ
closing not_yet = 2
closing flagged = 1
closing shut = 0

-- The steps that are left without new calls: those of the callers, of Close, and of its loop.
unfoldable pub work : State → ℕ
unfolding total ahead closing
work s = total ahead s.threads + closing s.closer + length s.queue

-- Whether a step is a new call of Acquire.
unfoldable pub new_call : {s t : State} → Step s t → ℕ
new_call (begin_acquire c m e) = 1
new_call (receive w q h m e) = 0
new_call (receive_nil c h m e) = 0
new_call (cancel m e) = 0
new_call (answers w m e) = 0
new_call (is_dead w m e) = 0
new_call (respawn m e) = 0
new_call (spawn_fails m e) = 0
new_call (begin_release w c m e) = 0
new_call (release_closed w c m e) = 0
new_call (send_back w c room m e) = 0
new_call (channel_full w c full m e) = 0
new_call (send_on_closed w c m e) = 0
new_call (store_closed c e) = 0
new_call (close_channel c e) = 0
new_call (drain w q c h e) = 0

unfoldable pub steps : {s t : State} → Reach s t → ℕ
steps here = 0
steps (next r st) = suc (steps r)

unfoldable pub new_calls : {s t : State} → Reach s t → ℕ
new_calls here = 0
new_calls (next r st) = new_call st + new_calls r

work_after :
    (s : State) {t u : State} (n : ℕ)
    → t ≡ u
    → suc (total ahead u.threads + closing u.closer + length u.queue) ≤ work s + n
    → suc (work t) ≤ work s + n
unfolding work
work_after s n e h = subst (λ x. suc (work x) ≤ work s + n) (sym e) h

-- A step makes less work, and a new call up to five steps more.
Step-work : {s t : State} (st : Step s t) → suc (work t) ≤ work s + 6 * new_call st
unfolding work ahead closing new_call
Step-work {s} (begin_acquire c m e) = work_after s 6 e (omega (arith, total-Moves ahead m))
Step-work {s} (receive w q h m e) =
    work_after s 0 e (omega (arith, ap length h, total-Moves ahead m))
Step-work {s} (receive_nil c h m e) = work_after s 0 e (omega (arith, total-Moves ahead m))
Step-work {s} (cancel m e) = work_after s 0 e (omega (arith, total-Moves ahead m))
Step-work {s} (answers w m e) = work_after s 0 e (omega (arith, total-Moves ahead m))
Step-work {s} (is_dead w m e) = work_after s 0 e (omega (arith, total-Moves ahead m))
Step-work {s} (respawn m e) = work_after s 0 e (omega (arith, total-Moves ahead m))
Step-work {s} (spawn_fails m e) = work_after s 0 e (omega (arith, total-Moves ahead m))
Step-work {s} (begin_release w c m e) = work_after s 0 e (omega (arith, total-Moves ahead m))
Step-work {s} (release_closed w c m e) = work_after s 0 e (omega (arith, total-Moves ahead m))
Step-work {s} (send_back w c room m e) =
    work_after s 0 e (omega (arith, length-append s.queue (w ∷ []), total-Moves ahead m))
Step-work {s} (channel_full w c full m e) = work_after s 0 e (omega (arith, total-Moves ahead m))
Step-work {s} (send_on_closed w c m e) = work_after s 0 e (omega (arith, total-Moves ahead m))
Step-work {s} (store_closed c e) = work_after s 0 e (omega (arith, ap closing c))
Step-work {s} (close_channel c e) = work_after s 0 e (omega (arith, ap closing c))
Step-work {s} (drain w q c h e) = work_after s 0 e (omega (arith, ap length h))

-- Under every schedule the number of steps is bounded: by the work of the first state and six for
-- each new call of Acquire. So callers and Close do not go on for ever, whatever runs first.
pub steps_bounded : {s t : State} (r : Reach s t) → steps r + work t ≤ work s + 6 * new_calls r
unfolding steps new_calls
steps_bounded here = omega arith
steps_bounded (next r st) = omega (arith, steps_bounded r, Step-work st)

-- Steps that the pool cannot take by itself: a new call, a context that is cancelled, a call of Close,
-- what the worker answers to Ping (which has no deadline), how the start of a worker ends, and the end
-- of the run that holds a worker.
unfoldable pub from_outside : {s t : State} → Step s t → Bool
from_outside (begin_acquire c m e) = true
from_outside (receive w q h m e) = false
from_outside (receive_nil c h m e) = false
from_outside (cancel m e) = true
from_outside (answers w m e) = true
from_outside (is_dead w m e) = true
from_outside (respawn m e) = true
from_outside (spawn_fails m e) = true
from_outside (begin_release w c m e) = true
from_outside (release_closed w c m e) = true
from_outside (send_back w c room m e) = false
from_outside (channel_full w c full m e) = false
from_outside (send_on_closed w c m e) = false
from_outside (store_closed c e) = true
from_outside (close_channel c e) = false
from_outside (drain w q c h e) = false

-- A caller for which the pool can do nothing: it rests, it has crashed, it waits for its worker to
-- answer or to start, its run goes on with the worker, or it waits at the select while the channel is
-- empty and open.
abbrev pub Idles : State → Local → Type 0
Idles s resting = Unit {0}
Idles s nil_deref = Unit {0}
Idles s (sent_on_closed w) = Unit {0}
Idles s acquiring = (s.queue ≡ []) × (s.closer ≢ shut)
Idles s (checking w) = Unit {0}
Idles s replacing = Unit {0}
Idles s (holding w) = Unit {0}
Idles s (releasing w) = ⊥

pub record IsAtRest (s : State) : Type 0 where
  pub callers : All (Idles s) s.threads
  pub not_half_closed : s.closer ≢ flagged
  pub drained : s.closer ≡ shut → s.queue ≡ []

abbrev HasStep : State → Type 0
HasStep s = (t : State) × ((st : Step s t) × (from_outside st ≡ false))
