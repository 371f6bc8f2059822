-- ===== src/Worker/Tests.antt =====
-- Runs of worker.go with a small codec, and the theorems at concrete workers.
use chrysalis.Base.{
  zero, suc, ◌≤◌, subst, ◌≡◌, refl, Bool, true, false, not, ◌&&◌, List, [], ◌∷◌, ◌++◌, arith,
  length, Text, codes, text_eq, Option, none, some, ok, err, if◌then◌else◌,
}
use chrysalis.Base.Int.{ℤ, pos, negsuc}
use chrysalis.Wire.{Bytes, frame, put_uint32, uint32, read_full, closed_pipe}
use chrysalis.Worker.Protocol.{Codec, Message, no_message}
use chrysalis.Worker.{
  Conn, Worker, too_large, max_message, write, read, write_conn, read_conn, write_frame, send,
  recv_body, recv, ping, call, probe, complete, cut, Launch, start, new_worker,
}
use chrysalis.Worker.Frames.{reads_to}
use chrysalis.Worker.Streams.{Decodes, Fits, send_all, recv_all, recv_all-send_all}
use chrysalis.Worker.Health.{Tracks, methods-Tracks}
use chrysalis.Worker.Calls.{call_answers, recv_desync, Ends, start-Ends}

abbrev is_nil {ℓ} : {A : Type ℓ} → List A → Bool
is_nil [] = true
is_nil (x ∷ xs) = false

abbrev is_none {ℓ} : {A : Type ℓ} → Option A → Bool
is_none none = true
is_none (some x) = false

abbrev is_zero : ℤ → Bool
is_zero (pos zero) = true
is_zero (pos (suc n)) = false
is_zero (negsuc n) = false

abbrev plain : Text → Message
plain t = record no_message { type = t }

-- Only the type is set.
abbrev is_plain : Message → Bool
is_plain m =
    is_nil m.id
    && is_nil m.func
    && is_nil m.target
    && is_nil m.args
    && is_nil m.kwargs
    && is_none m.value
    && not m.is_module
    && not m.is_callable
    && is_nil m.error
    && is_nil m.message
    && is_zero m.cb_id

is_nil→eq {ℓ} : {A : Type ℓ} (l : List A) → is_nil l ≡ true → l ≡ []
is_nil→eq [] h = refl
is_nil→eq (x ∷ xs) h = cc

is_none→eq {ℓ} : {A : Type ℓ} (o : Option A) → is_none o ≡ true → o ≡ none
is_none→eq none h = refl
is_none→eq (some x) h = cc

is_zero→eq : (i : ℤ) → is_zero i ≡ true → i ≡ pos 0
is_zero→eq (pos zero) h = refl
is_zero→eq (pos (suc n)) h = cc
is_zero→eq (negsuc n) h = cc

is_plain→eq : (m : Message) → is_plain m ≡ true → m ≡ plain m.type
is_plain→eq m h = ground (
  arith,
  is_nil→eq m.id,
  is_nil→eq m.func,
  is_nil→eq m.target,
  is_nil→eq m.args,
  is_nil→eq m.kwargs,
  is_none→eq m.value,
  is_nil→eq m.error,
  is_nil→eq m.message,
  is_zero→eq m.cb_id,
)

-- A codec for messages that have a type and nothing else.
abbrev plain_codec : Codec
plain_codec = record {
  marshal = λ m. if is_plain m then ok m.type else err (codes "unsupported");
  unmarshal = λ b. ok (plain b);
}

plain_codec-Decodes : Decodes plain_codec
plain_codec-Decodes m b h = ground (arith, is_plain→eq m)

abbrev conn : Bytes → Conn
conn incoming = record { incoming = incoming; outgoing = []; outcomes = []; closed = false }

abbrev fresh : Bytes → Worker
fresh incoming = record (new_worker (codes "/tmp/s.1") (codes "worker.py") (conn incoming)) {
  healthy = true;
}

pinged : (ping plain_codec (fresh (0 ∷ 0 ∷ 0 ∷ 4 ∷ codes "pong"))).1 ≡ ok tt
unfolding ping send recv recv_body read write read_conn write_conn write_frame uint32 put_uint32
    read_full text_eq
pinged = refl

half_written :
    let w = fresh [] in
    let v = record w { conn = record w.conn { outcomes = complete ∷ cut 1 closed_pipe ∷ [] } } in
    (send plain_codec (plain (codes "ping")) v).0.conn.outgoing ≡ 0 ∷ 0 ∷ 0 ∷ 4 ∷ b'p' ∷ []
unfolding send write write_conn write_frame put_uint32
half_written = refl

Fits-plain : (t : Text) → length t ≤ max_message → Fits plain_codec (plain t)
Fits-plain t h body e = let same : t ≡ body = cc e in subst (λ b. length b ≤ max_message) same h

abbrev hello : List Message
hello = plain (codes "hi") ∷ plain (codes "yo") ∷ []

recv_all-send_all_example :
    recv_all plain_codec 2 (fresh (0 ∷ 0 ∷ 0 ∷ 2 ∷ codes "hi" ++ 0 ∷ 0 ∷ 0 ∷ 2 ∷ codes "yo!")) ≡ (
      reads_to (fresh (0 ∷ 0 ∷ 0 ∷ 2 ∷ codes "hi" ++ 0 ∷ 0 ∷ 0 ∷ 2 ∷ codes "yo!")) (codes "!"),
      ok hello,
    )
unfolding send_all send write write_conn write_frame put_uint32
recv_all-send_all_example =
    recv_all-send_all plain_codec plain_codec-Decodes hello (fresh [])
      (fresh (0 ∷ 0 ∷ 0 ∷ 2 ∷ codes "hi" ++ 0 ∷ 0 ∷ 0 ∷ 2 ∷ codes "yo!")) (codes "!")
      (Fits-plain (codes "hi") (omega arith), (Fits-plain (codes "yo") (omega arith), tt)) refl refl
      refl

methods-Tracks_example :
    Tracks (send plain_codec (plain []))
    × Tracks (recv plain_codec)
    × Tracks (ping plain_codec)
    × Tracks (call plain_codec (codes "numpy.dot") [] [])
    × Tracks (probe plain_codec (codes "numpy"))
methods-Tracks_example =
    methods-Tracks plain_codec (plain []) (codes "numpy.dot") (codes "numpy") [] []

-- Any request is written as one byte.
abbrev short_codec : Codec
short_codec = record { marshal = λ m. ok (codes "x"); unmarshal = λ b. ok (plain b) }

abbrev answered : Worker
answered = fresh (frame (codes "result"))

call_answers_example : call short_codec (codes "numpy.dot") [] [] answered ≡ (
  record answered {
    req_seq = 1;
    conn = record answered.conn { incoming = []; outgoing = frame (codes "x") };
  },
  ok (plain (codes "result")),
)
unfolding frame put_uint32
call_answers_example =
    call_answers short_codec (codes "numpy.dot") [] [] answered (codes "x") (codes "result") []
      (plain (codes "result")) (record { not_closed = refl; writable = refl }) refl refl
      (omega arith) refl

-- The worker announces 16777217 bytes, and the body begins like a frame of its own.
abbrev flooded : Worker
flooded = fresh (put_uint32 16_777_217 ++ frame (codes "pong"))

recv_desync_example :
    ((recv short_codec flooded).1 ≡ err (too_large 16_777_217))
    × ((recv short_codec flooded).0.healthy ≡ true)
    × (recv short_codec (recv short_codec flooded).0
        ≡ (reads_to flooded [], ok (plain (codes "pong"))))
unfolding frame put_uint32
recv_desync_example =
    recv_desync short_codec 16_777_217 (codes "pong") [] flooded refl (omega arith) (omega arith)
      (omega arith) refl

abbrev healthy_launch : Launch
healthy_launch = record {
  listen = ok tt;
  launch = ok tt;
  accept = ok (conn (frame (codes "ready")));
}

start-Ends_example :
    Ends plain_codec
      (codes "s")
      (codes "w")
      healthy_launch
      (start plain_codec (codes "s") (codes "w") healthy_launch)
start-Ends_example = start-Ends plain_codec (codes "s") (codes "w") healthy_launch
