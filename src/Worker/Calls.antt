-- ===== src/Worker/Calls.antt =====
-- What the methods of a worker do as a whole.
use chrysalis.Base.{
  ℕ, ◌+◌, ◌%◌, ◌^◌, ◌≤◌, ◌<◌, ◌≡◌, refl, sym, ap, ◌∙◌, ◌⊎◌, inl, inr, true, false, List, [], ◌++◌,
  append_assoc, arith, length, Text, codes, text_eq, none, some, Result, ok, err, Bool-cases,
  if◌then◌else◌, leb,
}
use chrysalis.Decimal.{show}
use chrysalis.Wire.{Bytes, frame, put_uint32, closed_pipe, IoError}
use chrysalis.Worker.Protocol.{Codec, Message, Arg, no_message}
use chrysalis.Worker.{
  Conn, Worker, killed, reaped, M, ◌>>=◌, bind_ok, continue, WorkerError, lift, guard,
  marshal_failed, write_header, write_body, read_header, read_body, new_worker, too_large,
  unmarshal_failed, max_message, write, read, write_conn, read_conn, checked, write_frame, send,
  recv_body, recv, next_seq, call, shutdown, after_outcome, Launch, Started, up, failed, start,
  handshake, accepted, launched, listened,
}
use chrysalis.Worker.Frames.{reads_to, recv-frame, recv-header}

-- A worker whose connection is open and takes every write.
pub record IsOpen (w : Worker) : Type 0 where
  pub not_closed : w.conn.closed ≡ false
  pub writable : w.conn.outcomes ≡ []

abbrev pub writes : Worker → Bytes → Worker
writes w b = record w { conn = record w.conn { outgoing = w.conn.outgoing ++ b } }

write_conn-IsOpen :
    (b : Bytes) (w : Worker) → IsOpen w → write_conn w.conn b ≡ ((writes w b).conn, ok tt)
unfolding write_conn after_outcome
write_conn-IsOpen b w o =
    ap (λ shut. if shut then (w.conn, err closed_pipe) else after_outcome w.conn b w.conn.outcomes)
      o.not_closed
    ∙ ap (after_outcome w.conn b) o.writable

write-IsOpen :
    (wrap : IoError → WorkerError) (b : Bytes) (w : Worker)
    → IsOpen w
    → write wrap b w ≡ (writes w b, ok tt)
unfolding write
write-IsOpen wrap b w o =
    ap (λ p. checked wrap (record w { conn = p.0 }) p.1) (write_conn-IsOpen b w o)

writes-IsOpen : (w : Worker) (b : Bytes) → IsOpen w → IsOpen (writes w b)
writes-IsOpen w b o = record { not_closed = o.not_closed; writable = o.writable }

write_frame-IsOpen :
    (b : Bytes) (w : Worker) → IsOpen w → write_frame b w ≡ (writes w (frame b), ok tt)
unfolding write_frame frame
write_frame-IsOpen b w o =
    let hdr = put_uint32 (length b) in
    bind_ok (write write_header hdr) (λ _. write write_body b) (write-IsOpen write_header hdr w o)
    ∙ write-IsOpen write_body b (writes w hdr) (writes-IsOpen w hdr o)
    ∙ ap (λ out. (record w { conn = record w.conn { outgoing = out } }, ok tt))
        (append_assoc w.conn.outgoing hdr b)

module _ (codec : Codec) where
  send-IsOpen :
      (msg : Message) (body : Bytes) (w : Worker)
      → IsOpen w
      → codec.marshal msg ≡ ok body
      → send codec msg w ≡ (writes w (frame body), ok tt)
  unfolding send
  send-IsOpen msg body w o e =
      ap (λ r. continue (lift marshal_failed r w) write_frame) e ∙ write_frame-IsOpen body w o

  abbrev pub request : Worker → Text → List Arg → List (Text × Arg) → Message
  request w fn args kwargs = record no_message {
    id = codes "req-" ++ show ((w.req_seq + 1) % 2 ^ 64);
    type = codes "call";
    func = fn;
    args = args;
    kwargs = kwargs;
  }

  -- A call writes one frame, with the request under the next number, and returns the next message
  -- of the worker whatever its id; the stream is left behind that message.
  pub call_answers :
      (fn : Text) (args : List Arg) (kwargs : List (Text × Arg)) (w : Worker)
      (sent body rest : Bytes) (reply : Message)
      → IsOpen w
      → codec.marshal (request w fn args kwargs) ≡ ok sent
      → w.conn.incoming ≡ frame body ++ rest
      → length body ≤ max_message
      → codec.unmarshal body ≡ ok reply
      → call codec fn args kwargs w ≡ (
        record w {
          req_seq = (w.req_seq + 1) % 2 ^ 64;
          conn = record w.conn { incoming = rest; outgoing = w.conn.outgoing ++ frame sent };
        },
        ok reply,
      )
  unfolding call next_seq
  call_answers fn args kwargs w sent body rest reply o enc e short dec =
      let v = record w { req_seq = (w.req_seq + 1) % 2 ^ 64 } in
      let o' : IsOpen v = record { not_closed = o.not_closed; writable = o.writable } in
      bind_ok (send codec (request w fn args kwargs)) (λ _. recv codec)
        (send-IsOpen (request w fn args kwargs) sent v o' enc)
      ∙ recv-frame codec body rest (writes v (frame sent)) o.not_closed short e
      ∙ ap (λ r. lift unmarshal_failed r (reads_to (writes v (frame sent)) rest)) dec

  recv_body-large :
      (n : ℕ) (w : Worker) → max_message < n → recv_body codec n w ≡ (w, err (too_large n))
  unfolding recv_body
  recv_body-large n w h =
      let refused : leb n max_message ≡ false = ground arith in
      ap (λ b. continue (guard b (too_large n) w) (λ _. continue_body n)) refused
    where
      continue_body : ℕ → M Message
      continue_body k = read read_body k >>= λ b. lift unmarshal_failed (codec.unmarshal b)

  -- A message above the limit is refused with its body left on the stream and the worker marked
  -- healthy, so the next recv takes the first bytes of that body for a header.
  pub recv_desync :
      (n : ℕ) (inner rest : Bytes) (w : Worker)
      → w.conn.closed ≡ false
      → max_message < n
      → n < 2 ^ 32
      → length inner ≤ max_message
      → w.conn.incoming ≡ put_uint32 n ++ (frame inner ++ rest)
      → let w' = (recv codec w).0 in
        ((recv codec w).1 ≡ err (too_large n))
        × (w'.healthy ≡ w.healthy)
        × (recv codec w' ≡ lift unmarshal_failed (codec.unmarshal inner) (reads_to w rest))
  recv_desync n inner rest w open_ big word short e =
      let refused : recv codec w ≡ (reads_to w (frame inner ++ rest), err (too_large n)) =
        recv-header codec n (frame inner ++ rest) w open_ e
        ∙ ap (λ k. recv_body codec k (reads_to w (frame inner ++ rest))) (omega arith)
        ∙ recv_body-large n (reads_to w (frame inner ++ rest)) big in
      (
        ap (λ p. p.1) refused,
        ap (λ p. p.0.healthy) refused,
        ap (λ p. recv codec p.0) refused
            ∙ recv-frame codec inner rest (reads_to w (frame inner ++ rest)) open_ short refl,
      )

  shut_recv : (w : Worker) → w.conn.closed ≡ true → (recv codec w).1 ≡ err (read_header closed_pipe)
  unfolding recv read read_conn
  shut_recv w h = simp h

  -- Shutdown ends with the process waited for and the connection closed, whatever its messages
  -- meet, and nothing is received from the worker any more.
  pub shutdown_ends :
      (w : Worker)
      → ((shutdown codec w).process ≡ reaped)
        × ((shutdown codec w).conn.closed ≡ true)
        × ((recv codec (shutdown codec w)).1 ≡ err (read_header closed_pipe))
  unfolding shutdown
  shutdown_ends w = (refl, refl, shut_recv (shutdown codec w) refl)

  -- How Start ends: with a healthy worker that has said "ready", or with an error that leaves no
  -- process, or one that is killed and not waited for.
  abbrev pub Ends : Text → Text → Launch → Started → Type 0
  Ends sock script env (up w) =
      (c : Conn) × (msg : Message) × (env.accept ≡ ok c)
      × ((recv codec (new_worker sock script c)).1 ≡ ok msg)
      × (text_eq msg.type (codes "ready") ≡ true)
      × (w ≡ record ((recv codec (new_worker sock script c)).0) { healthy = true })
      × (env.listen ≡ ok tt)
      × (env.launch ≡ ok tt)
  Ends sock script env (failed e left conn) = (left ≡ none) ⊎ (left ≡ some killed)

  module _ (sock script : Text) (env : Launch) where
    handshake-Ends :
        (c : Conn) (p : Worker × Result WorkerError Message)
        → recv codec (new_worker sock script c) ≡ p
        → env.accept ≡ ok c
        → env.listen ≡ ok tt
        → env.launch ≡ ok tt
        → Ends sock script env (handshake p)
    unfolding handshake
    handshake-Ends c (w, err e) received ha hl hs = inr refl
    handshake-Ends c (w, ok msg) received ha hl hs =
        elim (Bool-cases (text_eq msg.type (codes "ready"))) [
          | inl ready ↦ rw ready (
            c,
            msg,
            ha,
            ap (λ p. p.1) received,
            ready,
            ap (λ p. record p.0 { healthy = true }) (sym received),
            hl,
            hs,
          )
          | inr other ↦ rw other (inr refl)
        ]

    accepted-Ends :
        (r : Result Text Conn)
        → env.accept ≡ r
        → env.listen ≡ ok tt
        → env.launch ≡ ok tt
        → Ends sock script env (accepted codec sock script r)
    unfolding accepted
    accepted-Ends (err e) ha hl hs = inr refl
    accepted-Ends (ok c) ha hl hs =
        handshake-Ends c (recv codec (new_worker sock script c)) refl ha hl hs

    launched-Ends :
        (r : Result Text (Unit {0}))
        → env.launch ≡ r
        → env.listen ≡ ok tt
        → Ends sock script env (launched codec sock script env r)
    unfolding launched
    launched-Ends (err e) hs hl = inl refl
    launched-Ends (ok u) hs hl = accepted-Ends env.accept refl hl hs

    listened-Ends :
        (r : Result Text (Unit {0}))
        → env.listen ≡ r
        → Ends sock script env (listened codec sock script env r)
    unfolding listened
    listened-Ends (err e) hl = inl refl
    listened-Ends (ok u) hl = launched-Ends env.launch refl hl

    pub start-Ends : Ends sock script env (start codec sock script env)
    unfolding start
    start-Ends = listened-Ends env.listen refl
