-- ===== src/Worker/Streams.antt =====
-- A conversation: what one side sends in a row, the other side receives in the same order.
use mathlib.Core.List.{append_cancel_left}
use chrysalis.Base.{
  ℕ, zero, suc, ◌≤◌, ◌≡◌, refl, sym, ap, ◌∙◌, false, List, [], ◌∷◌, ◌++◌, append-nil, append_assoc,
  length, All, ok,
}
use chrysalis.Wire.{Bytes, frame}
use chrysalis.Worker.Protocol.{Codec, Message}
use chrysalis.Worker.{
  Worker, M, lift, unmarshal_failed, bind_ok, continue, continue-ok, send, recv, max_message,
}
use chrysalis.Worker.Frames.{reads_to, recv-frame, send-ok}

-- The two sides use the JSON library rightly: what is encoded is decoded again.
abbrev pub Decodes : Codec → Type 0
Decodes codec =
    (msg : Message) (body : Bytes) → codec.marshal msg ≡ ok body → codec.unmarshal body ≡ ok msg

-- A message that recv accepts by its length.
abbrev pub Fits : Codec → Message → Type 0
Fits codec msg = (body : Bytes) → codec.marshal msg ≡ ok body → length body ≤ max_message

module _ (codec : Codec) where
  unfoldable pub send_all : List Message → M (Unit {0})
  send_all [] w = (w, ok tt)
  send_all (msg ∷ msgs) w = continue (send codec msg w) (λ _. send_all msgs)

  unfoldable pub recv_all : ℕ → M (List Message)
  recv_all zero w = (w, ok [])
  recv_all (suc n) w =
      continue (recv codec w) (λ msg v. continue (recv_all n v) (λ msgs u. (u, ok (msg ∷ msgs))))

  -- The bytes of a row of messages, and what reading them gives.
  record Row (msgs : List Message) (w v : Worker) : Type 0 where
    bytes : Bytes
    written : v.conn.outgoing ≡ w.conn.outgoing ++ bytes
    readable :
        (r : Worker) (rest : Bytes)
        → r.conn.closed ≡ false
        → r.conn.incoming ≡ bytes ++ rest
        → recv_all (length msgs) r ≡ (reads_to r rest, ok msgs)

  module _ (decodes : Decodes codec) where
    recv_all-cons :
        (msg : Message) (msgs : List Message) (body later rest : Bytes) (r : Worker)
        → r.conn.closed ≡ false
        → length body ≤ max_message
        → codec.marshal msg ≡ ok body
        → r.conn.incoming ≡ frame body ++ later
        → recv_all (length msgs) (reads_to r later) ≡ (reads_to r rest, ok msgs)
        → recv_all (suc (length msgs)) r ≡ (reads_to r rest, ok (msg ∷ msgs))
    unfolding recv_all
    recv_all-cons msg msgs body later rest r open_ short encoded e more =
        let first : recv codec r ≡ (reads_to r later, ok msg) =
          recv-frame codec body later r open_ short e
          ∙ ap (λ q. lift unmarshal_failed q (reads_to r later)) (decodes msg body encoded) in
        bind_ok (recv codec) (λ m v. continue (recv_all (length msgs) v) (λ ms u. (u, ok (m ∷ ms))))
          first
        ∙ ap (λ p. continue p (λ ms u. (u, ok (msg ∷ ms)))) more

    send_all-Row :
        (msgs : List Message) (w : Worker)
        → All (Fits codec) msgs
        → (send_all msgs w).1 ≡ ok tt
        → Row msgs w (send_all msgs w).0
    unfolding send_all recv_all
    send_all-Row [] w fits h = record {
      bytes = [];
      written = sym (append-nil w.conn.outgoing);
      readable = λ r rest open_ e. ap (λ t. (reads_to r t, ok [])) e;
    }
    send_all-Row (msg ∷ msgs) w fits h =
        let v = (send codec msg w).0 in
        let (_, e, h2) = continue-ok (send codec msg w) (λ _. send_all msgs) h in
        let (body, encoded, sent) = send-ok codec msg w (ap (λ p. p.1) e) in
        let row = send_all-Row msgs v fits.1 h2 in
        let split = ap (λ p. continue p (λ _. send_all msgs)) e in
        record {
          bytes = frame body ++ row.bytes;
          written =
              ap (λ p. p.0.conn.outgoing) split
              ∙ row.written
              ∙ ap (λ t. t ++ row.bytes) sent.written
              ∙ append_assoc w.conn.outgoing (frame body) row.bytes;
          readable = λ r rest open_ e'.
              recv_all-cons msg msgs body (row.bytes ++ rest) rest r open_ (fits.0 body encoded)
                encoded (e' ∙ append_assoc (frame body) row.bytes rest)
                (row.readable (reads_to r (row.bytes ++ rest)) rest open_ refl);
        }

    -- Messages that were all sent are all received, in order, and nothing after them is touched.
    pub recv_all-send_all :
        (msgs : List Message) (w r : Worker) (rest : Bytes)
        → All (Fits codec) msgs
        → (send_all msgs w).1 ≡ ok tt
        → r.conn.closed ≡ false
        → w.conn.outgoing ++ r.conn.incoming ≡ (send_all msgs w).0.conn.outgoing ++ rest
        → recv_all (length msgs) r ≡ (reads_to r rest, ok msgs)
    recv_all-send_all msgs w r rest fits sent open_ e =
        let row = send_all-Row msgs w fits sent in
        row.readable r rest open_ (
          append_cancel_left w.conn.outgoing _ _
            (e ∙ ap (λ t. t ++ rest) row.written ∙ append_assoc w.conn.outgoing row.bytes rest))
