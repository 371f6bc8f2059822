-- ===== src/Worker/Frames.antt =====
-- What send puts on the connection, recv takes off it.
use chrysalis.Base.{
  ℕ, ◌%◌, ◌^◌, ◌≤◌, ◌≡◌, refl, ap, ◌∙◌, false, List, [], ◌∷◌, ◌++◌, append_assoc, arith, length,
  le→leb, Text, Result, ok, err,
}
use chrysalis.Wire.{IoError, Bytes, put_uint32, uint32, read_full, frame}
use chrysalis.Wire.Frames.{uint32-put_uint32, read_full-append}
use chrysalis.Worker.Protocol.{Codec, Message}
use chrysalis.Worker.{
  Conn, Worker, bind_ok, continue-ok, continue, write_frame, after_outcome, complete, cut, lift,
  WorkerError, write, read, write_conn, read_conn, send, recv, recv_body, max_message, write_header,
  write_body, read_header, read_body, unmarshal_failed, marshal_failed, WriteOutcome,
}

-- The worker after its connection has been read down to `rest`, and after `b` has been written.
abbrev pub reads_to : Worker → Bytes → Worker
reads_to w rest = record w { conn = record w.conn { incoming = rest } }

-- A read that finds all its bytes.
pub read_append :
    (wrap : IoError → WorkerError) (s t : Bytes) (w : Worker)
    → w.conn.closed ≡ false
    → w.conn.incoming ≡ s ++ t
    → read wrap (length s) w ≡ (reads_to w t, ok s)
unfolding read read_conn
read_append wrap s t w open_ e =
    let found : read_full (length s) w.conn.incoming ≡ (ok s, t) =
      ap (read_full (length s)) e ∙ read_full-append s t in
    ground (arith, found)

read_header_append :
    (wrap : IoError → WorkerError) (n : ℕ) (t : Bytes) (w : Worker)
    → w.conn.closed ≡ false
    → w.conn.incoming ≡ put_uint32 n ++ t
    → read wrap 4 w ≡ (reads_to w t, ok (put_uint32 n))
unfolding put_uint32
read_header_append wrap n t w open_ e = read_append wrap (put_uint32 n) t w open_ e

-- `v` is `w` after `b` has been written to it.
pub record Appends (b : Bytes) (w v : Worker) : Type 0 where
  pub written : v.conn.outgoing ≡ w.conn.outgoing ++ b
  pub same_incoming : v.conn.incoming ≡ w.conn.incoming
  pub same_closed : v.conn.closed ≡ w.conn.closed
  pub same_health : v.healthy ≡ w.healthy
  pub same_seq : v.req_seq ≡ w.req_seq

Appends-trans :
    {a b : Bytes} {u v w : Worker} → Appends a u v → Appends b v w → Appends (a ++ b) u w
Appends-trans {a} {b} {u} p q = record {
  written = q.written ∙ ap (λ t. t ++ b) p.written ∙ append_assoc u.conn.outgoing a b;
  same_incoming = q.same_incoming ∙ p.same_incoming;
  same_closed = q.same_closed ∙ p.same_closed;
  same_health = q.same_health ∙ p.same_health;
  same_seq = q.same_seq ∙ p.same_seq;
}

after_outcome-ok :
    (c : Conn) (b : Bytes) (l : List WriteOutcome)
    → (after_outcome c b l).1 ≡ ok tt
    → ((after_outcome c b l).0.outgoing ≡ c.outgoing ++ b)
      × ((after_outcome c b l).0.incoming ≡ c.incoming)
      × ((after_outcome c b l).0.closed ≡ c.closed)
unfolding after_outcome
after_outcome-ok c b [] h = (refl, refl, refl)
after_outcome-ok c b (complete ∷ l) h = (refl, refl, refl)
after_outcome-ok c b (cut n e ∷ l) h = cc

write-ok :
    (wrap : IoError → WorkerError) (b : Bytes) (w : Worker)
    → (write wrap b w).1 ≡ ok tt
    → Appends b w (write wrap b w).0
unfolding write write_conn
write-ok wrap b w h = ground (arith, after_outcome-ok w.conn b w.conn.outcomes)

write_frame-ok :
    (body : Bytes) (w : Worker)
    → (write_frame body w).1 ≡ ok tt
    → Appends (frame body) w (write_frame body w).0
unfolding write_frame frame
write_frame-ok body w h =
    let hdr = put_uint32 (length body) in
    let first = write write_header hdr w in
    let (_, e, h2) = continue-ok first (λ _. write write_body body) h in
    let middle : write_frame body w ≡ write write_body body first.0 =
      ap (λ p. continue p (λ _. write write_body body)) e in
    rw middle (
      Appends-trans (write-ok write_header hdr w (ap (λ p. p.1) e))
        (write-ok write_body body first.0 h2))

encoded-ok :
    (r : Result Text Bytes) (w : Worker)
    → (continue (lift marshal_failed r w) write_frame).1 ≡ ok tt
    → (body : Bytes) × (r ≡ ok body)
      × Appends (frame body) w (continue (lift marshal_failed r w) write_frame).0
encoded-ok (ok body) w h = (body, refl, write_frame-ok body w h)
encoded-ok (err e) w h = cc

module _ (codec : Codec) where
  recv_body-append :
      (body rest : Bytes) (w : Worker)
      → w.conn.closed ≡ false
      → length body ≤ max_message
      → w.conn.incoming ≡ body ++ rest
      → recv_body codec (length body) w
        ≡ lift unmarshal_failed (codec.unmarshal body) (reads_to w rest)
  unfolding recv_body
  recv_body-append body rest w open_ short e = rw (le→leb (length body) max_message short) (
      bind_ok (read read_body (length body)) (λ b. lift unmarshal_failed (codec.unmarshal b))
        (read_append read_body body rest w open_ e))

  -- The header, whatever follows.
  pub recv-header :
      (n : ℕ) (rest : Bytes) (w : Worker)
      → w.conn.closed ≡ false
      → w.conn.incoming ≡ put_uint32 n ++ rest
      → recv codec w ≡ recv_body codec (n % 2 ^ 32) (reads_to w rest)
  unfolding recv
  recv-header n rest w open_ e =
      bind_ok (read read_header 4) (λ hdr. recv_body codec (uint32 hdr))
        (read_header_append read_header n rest w open_ e)
      ∙ ap (λ k. recv_body codec k (reads_to w rest)) (uint32-put_uint32 n)

  -- A frame that is not too large is taken off the stream whole, and its body decoded.
  pub recv-frame :
      (body rest : Bytes) (w : Worker)
      → w.conn.closed ≡ false
      → length body ≤ max_message
      → w.conn.incoming ≡ frame body ++ rest
      → recv codec w ≡ lift unmarshal_failed (codec.unmarshal body) (reads_to w rest)
  unfolding frame
  recv-frame body rest w open_ short e =
      let small : length body % 2 ^ 32 ≡ length body = omega arith in
      recv-header (length body) (body ++ rest) w open_
        (e ∙ append_assoc (put_uint32 (length body)) body rest)
      ∙ ap (λ k. recv_body codec k (reads_to w (body ++ rest))) small
      ∙ recv_body-append body rest (reads_to w (body ++ rest)) open_ short refl

  -- A send that succeeds has written one frame, and changed nothing else of what is followed here.
  pub send-ok :
      (msg : Message) (w : Worker)
      → (send codec msg w).1 ≡ ok tt
      → (body : Bytes) × (codec.marshal msg ≡ ok body) × Appends (frame body) w (send codec msg w).0
  unfolding send
  send-ok msg w h = encoded-ok (codec.marshal msg) w h
