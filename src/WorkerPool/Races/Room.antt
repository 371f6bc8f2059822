-- ===== src/WorkerPool/Races/Room.antt =====
-- The room in the channel: the pool never has more workers than its channel takes.
use chrysalis.Base.{
  ℕ, ◌+◌, ◌≤◌, ◌<◌, ◌≡◌, refl, sym, ap, subst, List, [], ◌∷◌, ◌++◌, length, length-append, arith,
}
use chrysalis.WorkerPool.Races.{
  Local, resting, acquiring, replacing, checking, holding, releasing, nil_deref, sent_on_closed,
  State, Moves, Step, begin_acquire, receive, receive_nil, cancel, answers, is_dead, respawn,
  spawn_fails, begin_release, release_closed, send_back, channel_full, send_on_closed, store_closed,
  close_channel, drain, Reach, here, next,
}
use chrysalis.WorkerPool.Races.Exclusive.{total, total-Moves}

-- A caller that has a worker, or the slot of one that it replaces.
unfoldable pub slot : Local → ℕ
slot (checking w) = 1
slot (holding w) = 1
slot (releasing w) = 1
slot replacing = 1
slot resting = 0
slot acquiring = 0
slot nil_deref = 0
slot (sent_on_closed w) = 0

-- The workers in the channel and with the callers fit the channel.
pub record HasRoom (s : State) : Type 0 where
  pub room : length s.queue + total slot s.threads ≤ s.capacity

-- `t` is `u`, whose channel and callers take no more room than those of `s`.
HasRoom-of_eq :
    {s t u : State}
    → t ≡ u
    → u.capacity ≡ s.capacity
    → length u.queue + total slot u.threads ≤ length s.queue + total slot s.threads
    → HasRoom s
    → HasRoom t
HasRoom-of_eq e c r v = subst HasRoom (sym e) (record { room = omega (arith, v.room, r, c) })

Step-HasRoom : {s t : State} → Step s t → HasRoom s → HasRoom t
unfolding slot
Step-HasRoom (receive w q h m e) =
    HasRoom-of_eq e refl (omega (arith, ap length h, total-Moves slot m))
Step-HasRoom {s} (send_back w c room m e) =
    HasRoom-of_eq e refl (omega (arith, length-append s.queue (w ∷ []), total-Moves slot m))
Step-HasRoom (store_closed c e) = HasRoom-of_eq e refl (omega arith)
Step-HasRoom (close_channel c e) = HasRoom-of_eq e refl (omega arith)
Step-HasRoom (drain w q c h e) = HasRoom-of_eq e refl (omega (arith, ap length h))
Step-HasRoom (begin_acquire c m e) = HasRoom-of_eq e refl (omega (arith, total-Moves slot m))
Step-HasRoom (receive_nil c h m e) = HasRoom-of_eq e refl (omega (arith, total-Moves slot m))
Step-HasRoom (cancel m e) = HasRoom-of_eq e refl (omega (arith, total-Moves slot m))
Step-HasRoom (answers w m e) = HasRoom-of_eq e refl (omega (arith, total-Moves slot m))
Step-HasRoom (is_dead w m e) = HasRoom-of_eq e refl (omega (arith, total-Moves slot m))
Step-HasRoom (respawn m e) = HasRoom-of_eq e refl (omega (arith, total-Moves slot m))
Step-HasRoom (spawn_fails m e) = HasRoom-of_eq e refl (omega (arith, total-Moves slot m))
Step-HasRoom (begin_release w c m e) = HasRoom-of_eq e refl (omega (arith, total-Moves slot m))
Step-HasRoom (release_closed w c m e) = HasRoom-of_eq e refl (omega (arith, total-Moves slot m))
Step-HasRoom (channel_full w c full m e) = HasRoom-of_eq e refl (omega (arith, total-Moves slot m))
Step-HasRoom (send_on_closed w c m e) = HasRoom-of_eq e refl (omega (arith, total-Moves slot m))

Reach-HasRoom : {s t : State} → Reach s t → HasRoom s → HasRoom t
Reach-HasRoom here v = v
Reach-HasRoom (next r st) v = Step-HasRoom st (Reach-HasRoom r v)

-- Over all interleavings of Acquire, release and Close, from a state in which the workers in the
-- channel and those that callers have or replace fit the channel: a caller at the send of release
-- finds room in the channel, so that the default branch, which would lose a slot, is never taken.
pub release-finds_room :
    {s t : State} (left right : List Local) (w : ℕ)
    → Reach s t
    → HasRoom s
    → t.threads ≡ left ++ releasing w ∷ right
    → length t.queue < t.capacity
unfolding slot
release-finds_room {s} {t} left right w r v e =
    let m : Moves (releasing w) resting t.threads (left ++ resting ∷ right) = record {
      left = left;
      right = right;
      was = e;
      is = refl;
    } in
    omega (arith, (Reach-HasRoom r v).room, total-Moves slot m)
