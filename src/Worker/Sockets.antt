-- ===== src/Worker/Sockets.antt =====
-- A worker keeps its socket path: no method changes it, and Start gives it.
use chrysalis.Base.{
  ℕ, length, leb, ◌≡◌, refl, ◌∙◌, true, false, Bool, Bool-cases, inl, inr, Text, codes, text_eq,
  Result, ok, err,
}
use chrysalis.Wire.{Bytes, IoError, put_uint32, uint32}
use chrysalis.Worker.Protocol.{Codec, Message, no_message}
use chrysalis.Worker.{
  Worker, M, ◌>>=◌, continue, guard, lift, WorkerError, marshal_failed, write_header, write_body,
  read_header, read_body, too_large, unmarshal_failed, expected_pong, max_message, write, read,
  write_conn, read_conn, checked, write_frame, send, recv_body, recv, ping, shutdown, Launch,
  Started, up, failed, new_worker, handshake, accepted, launched, listened, start,
}

abbrev Keeps : {A : Type 0} → M A → Type 0
Keeps m = (w : Worker) → (m w).0.sock_path ≡ w.sock_path

continue-Keeps :
    {A B : Type 0} (sock : Text) (p : Worker × Result WorkerError A) (f : A → M B)
    → p.0.sock_path ≡ sock
    → ((a : A) → Keeps (f a))
    → (continue p f).0.sock_path ≡ sock
continue-Keeps sock (w, ok a) f e h = h a w ∙ e
continue-Keeps sock (w, err x) f e h = e

bind-Keeps :
    {A B : Type 0} (m : M A) (f : A → M B) → Keeps m → ((a : A) → Keeps (f a)) → Keeps (m >>= f)
bind-Keeps m f hm hf w = continue-Keeps w.sock_path (m w) f (hm w) hf

lift-Keeps : {A E : Type 0} (wrap : E → WorkerError) (r : Result E A) → Keeps (lift wrap r)
lift-Keeps wrap (ok a) w = refl
lift-Keeps wrap (err e) w = refl

guard-Keeps : (b : Bool) (e : WorkerError) → Keeps (guard b e)
guard-Keeps true e w = refl
guard-Keeps false e w = refl

checked-Keeps :
    {A : Type 0} (wrap : IoError → WorkerError) (w : Worker) (r : Result IoError A)
    → (checked wrap w r).0.sock_path ≡ w.sock_path
checked-Keeps wrap w (ok a) = refl
checked-Keeps wrap w (err e) = refl

write-Keeps : (wrap : IoError → WorkerError) (b : Bytes) → Keeps (write wrap b)
unfolding write
write-Keeps wrap b w = checked-Keeps wrap _ (write_conn w.conn b).1

read-Keeps : (wrap : IoError → WorkerError) (n : ℕ) → Keeps (read wrap n)
unfolding read
read-Keeps wrap n w = checked-Keeps wrap _ (read_conn n w.conn).1

write_frame-Keeps : (body : Bytes) → Keeps (write_frame body)
unfolding write_frame
write_frame-Keeps body =
    bind-Keeps (write write_header (put_uint32 (length body))) (λ u. write write_body body)
      (write-Keeps write_header (put_uint32 (length body))) λ u. write-Keeps write_body body

module _ (codec : Codec) where
  send-Keeps : (msg : Message) → Keeps (send codec msg)
  unfolding send
  send-Keeps msg =
      bind-Keeps (lift marshal_failed (codec.marshal msg)) write_frame
        (lift-Keeps marshal_failed (codec.marshal msg)) write_frame-Keeps

  decoded-Keeps : (body : Bytes) → Keeps (lift unmarshal_failed (codec.unmarshal body))
  decoded-Keeps body = lift-Keeps unmarshal_failed (codec.unmarshal body)

  recv_body-Keeps : (n : ℕ) → Keeps (recv_body codec n)
  unfolding recv_body
  recv_body-Keeps n =
      bind-Keeps (guard (leb n max_message) (too_large n)) _ (guard-Keeps _ (too_large n)) λ u.
        bind-Keeps (read read_body n) (λ b. lift unmarshal_failed (codec.unmarshal b))
          (read-Keeps read_body n) decoded-Keeps

  recv-Keeps : Keeps (recv codec)
  unfolding recv
  recv-Keeps =
      bind-Keeps (read read_header 4) (λ hdr. recv_body codec (uint32 hdr))
        (read-Keeps read_header 4) λ hdr. recv_body-Keeps (uint32 hdr)

  pong-Keeps :
      (msg : Message) → Keeps (guard (text_eq msg.type (codes "pong")) (expected_pong msg.type))
  pong-Keeps msg = guard-Keeps (text_eq msg.type (codes "pong")) (expected_pong msg.type)

  pub ping-sock : (w : Worker) → (ping codec w).0.sock_path ≡ w.sock_path
  unfolding ping
  ping-sock =
      let asked = record no_message { type = codes "ping" } in
      bind-Keeps (send codec asked) _ (send-Keeps asked) λ u.
        bind-Keeps (recv codec)
          (λ msg. guard (text_eq msg.type (codes "pong")) (expected_pong msg.type)) recv-Keeps
          pong-Keeps

  pub shutdown-sock : (w : Worker) → (shutdown codec w).sock_path ≡ w.sock_path
  unfolding shutdown
  shutdown-sock w =
      let asked = record no_message { type = codes "shutdown" } in
      recv-Keeps (send codec asked w).0 ∙ send-Keeps asked w

  -- A worker that is up has the path that its start was given.
  abbrev pub UpAt : Text → Started → Type 0
  UpAt sock (up w) = w.sock_path ≡ sock
  UpAt sock (failed e p c) = Unit {0}

  handshake-UpAt :
      (sock : Text) (r : Worker × Result WorkerError Message)
      → r.0.sock_path ≡ sock
      → UpAt sock (handshake r)
  unfolding handshake
  handshake-UpAt sock (w, ok msg) e = elim (Bool-cases (text_eq msg.type (codes "ready"))) [
    | inl ready ↦ rw ready e
    | inr other ↦ rw other tt
  ]
  handshake-UpAt sock (w, err x) e = tt

  pub start-UpAt : (sock script : Text) (env : Launch) → UpAt sock (start codec sock script env)
  unfolding start listened launched accepted
  start-UpAt sock script env =
      elim env.listen as (λ r. UpAt sock (listened codec sock script env r)) [
        | err e ↦ tt
        | ok _ ↦ elim env.launch as (λ r. UpAt sock (launched codec sock script env r)) [
          | err e ↦ tt
          | ok _ ↦ elim env.accept as (λ r. UpAt sock (accepted codec sock script r)) [
            | err e ↦ tt
            | ok c ↦ handshake-UpAt sock (recv codec (new_worker sock script c)) (recv-Keeps _)
          ]
        ]
      ]
