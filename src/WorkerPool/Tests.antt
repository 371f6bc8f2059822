-- ===== src/WorkerPool/Tests.antt =====
-- Runs of pool.go, and the theorems at concrete pools.
use mathlib.Core.List.Perm
use chrysalis.Base.{
  inl, ◌+◌, ◌*◌, ◌≤◌, ◌<◌, length, ℕ, ◌≡◌, ◌≢◌, refl, false, List, [], ◌∷◌, ◌++◌, arith, codes, ok,
  err,
}
use chrysalis.Wire.{Bytes}
use chrysalis.Worker.Protocol.{Codec, no_message}
use chrysalis.Worker.{Conn, Worker, new_worker}
use chrysalis.WorkerPool.{Pool, Host, Context, got, acquire, split_file}
use chrysalis.WorkerPool.Slots.{acquires, run, Accounts, acquire-Accounts}
use chrysalis.WorkerPool.History.{exhausted_forever}
use chrysalis.WorkerPool.Races.{
  Local, resting, acquiring, holding, checking, releasing, not_yet, shut, State, Moves,
  begin_acquire, receive, answers, begin_release, Reach, here, next,
}
use chrysalis.WorkerPool.Races.Sequential
use chrysalis.WorkerPool.Races.Exclusive.{
  total, count, count_local, one_if, places, Exclusive, Reach-Exclusive,
}
use chrysalis.WorkerPool.Races.Crashes.{crashed, close_crashes}
use chrysalis.WorkerPool.Races.Room.{slot, HasRoom, release-finds_room}
use chrysalis.WorkerPool.Races.Progress.{work, steps, new_calls, steps_bounded}

-- A codec that keeps the type of a message only.
abbrev type_codec : Codec
type_codec = record {
  marshal = λ m. ok m.type;
  unmarshal = λ b. ok (record no_message { type = b });
}

abbrev conn : Bytes → Conn
conn incoming = record { incoming = incoming; outgoing = []; outcomes = []; closed = false }

-- Every worker says that it is ready, and answers one ping.
abbrev host : Host
host = record {
  codec = type_codec;
  launch_at = λ path. record {
    listen = ok tt;
    launch = ok tt;
    accept = ok (conn (0 ∷ 0 ∷ 0 ∷ 5 ∷ codes "ready" ++ (0 ∷ 0 ∷ 0 ∷ 4 ∷ codes "pong")));
  };
}

-- No worker can be started any more.
abbrev broken : Host
broken = record {
  codec = type_codec;
  launch_at = λ path. record { listen = err (codes "EMFILE"); launch = ok tt; accept = err [] };
}

abbrev calm : Context
calm = record { done = false; takes_done = false }

abbrev dead : Worker
dead = new_worker (codes "/tmp/s.1") (codes "worker.py") (conn [])

abbrev live_worker : Worker
live_worker =
    new_worker (codes "/tmp/s.2") (codes "worker.py") (conn (0 ∷ 0 ∷ 0 ∷ 4 ∷ codes "pong"))

abbrev pool : List Worker → Pool
pool ws = record {
  idle = ws;
  capacity = 2;
  sock_dir = codes "/tmp";
  sock_base_name = codes "s";
  worker_script = codes "worker.py";
  next_sock_id = 2;
  closed = false;
  stopped = [];
}

splits : split_file (codes "/tmp/a/s.sock") ≡ (codes "/tmp/a/", codes "s.sock")
unfolding split_file
splits = refl

acquire-Accounts_example :
    Accounts broken (pool (dead ∷ [])) (acquire broken calm (pool (dead ∷ [])))
acquire-Accounts_example = acquire-Accounts broken calm (pool (dead ∷ []))

exhausted_forever_example :
    (acquire broken calm
      (run broken (record { pool = pool []; held = [] }) (acquires calm ∷ [])).pool).1
    ≢ got dead
exhausted_forever_example =
    exhausted_forever broken (record { pool = pool []; held = [] }) (acquires calm ∷ []) calm dead
      refl

-- Two idle workers and two callers.
abbrev opening : State
opening = record {
  queue = 1 ∷ 2 ∷ [];
  capacity = 2;
  closer = not_yet;
  next_id = 3;
  stopped = [];
  threads = resting ∷ resting ∷ [];
}

abbrev at_select : State
at_select = record opening { threads = acquiring ∷ resting ∷ [] }

abbrev received : State
received = record opening { queue = 2 ∷ []; threads = checking 1 ∷ resting ∷ [] }

abbrev in_hand : State
in_hand = record opening { queue = 2 ∷ []; threads = holding 1 ∷ resting ∷ [] }

abbrev giving_back : State
giving_back = record opening { queue = 2 ∷ []; threads = releasing 1 ∷ resting ∷ [] }

abbrev first : (a b : Local) → Moves a b (a ∷ resting ∷ []) (b ∷ resting ∷ [])
first a b = record { left = []; right = resting ∷ []; was = refl; is = refl }

to_in_hand : Reach opening in_hand
to_in_hand =
    let r1 : Reach opening at_select =
      next here (begin_acquire refl (first resting acquiring) refl) in
    let r2 : Reach opening received =
      next r1 (receive 1 (2 ∷ []) refl (first acquiring (checking 1)) refl) in
    next r2 (answers 1 (first (checking 1) (holding 1)) refl)

to_giving_back : Reach opening giving_back
to_giving_back = next to_in_hand (begin_release 1 refl (first (holding 1) (releasing 1)) refl)

opening-Exclusive : Exclusive opening
unfolding places count total count_local one_if
opening-Exclusive a = ground arith

opening-HasRoom : HasRoom opening
unfolding total slot
opening-HasRoom = record { room = omega arith }

Reach-Exclusive_example : Exclusive in_hand
Reach-Exclusive_example = Reach-Exclusive to_in_hand opening-Exclusive

release-finds_room_example : length giving_back.queue < giving_back.capacity
release-finds_room_example =
    release-finds_room [] (resting ∷ []) 1 to_giving_back opening-HasRoom refl

close_crashes_example :
    (q : List ℕ) × (st : List ℕ) × Reach at_select (record at_select {
      closer = shut;
      queue = q;
      stopped = st;
      threads = crashed acquiring ∷ resting ∷ [];
    })
close_crashes_example = close_crashes at_select [] (resting ∷ []) acquiring refl refl (inl refl)

steps_bounded_example :
    steps to_giving_back + work giving_back ≤ work opening + 6 * new_calls to_giving_back
steps_bounded_example = steps_bounded to_giving_back

-- The worker in the pool is dead, and its replacement does not start.
abbrev one_idle : State
one_idle = record {
  queue = 1 ∷ [];
  capacity = 2;
  closer = not_yet;
  next_id = 3;
  stopped = [];
  threads = holding 2 ∷ resting ∷ [];
}
