-- ===== src/Worker/Health.antt =====
-- When a worker counts as unhealthy: exactly after an error of its connection.
use chrysalis.Base.{
  ℕ, ◌≡◌, refl, ap, ◌∙◌, Bool, true, false, List, Text, Result, ok, err, if◌then◌else◌,
}
use chrysalis.Wire.{Bytes, uint32, IoError}
use chrysalis.Worker.Protocol.{Codec, Message, Arg}
use chrysalis.Worker.{
  Worker, M, ◌>>=◌, continue, guard, lift, WorkerError, marshal_failed, write_header, write_body,
  read_header, too_large, read_body, unmarshal_failed, expected_pong, write, read, write_conn,
  read_conn, checked, write_frame, send, recv_body, recv, ping, next_seq, call, probe,
}

-- The errors of the connection itself.
pub is_io : WorkerError → Bool
is_io (write_header e) = true
is_io (write_body e) = true
is_io (read_header e) = true
is_io (read_body e) = true
is_io (marshal_failed e) = false
is_io (too_large n) = false
is_io (unmarshal_failed e) = false
is_io (expected_pong t) = false

-- The mark after a result, from the mark before.
pub health_after : {A : Type 0} → Bool → Result WorkerError A → Bool
unfolding is_io
health_after h (ok a) = h
health_after h (err e) = if is_io e then false else h

-- A method leaves the mark that its result calls for.
abbrev pub Tracks : {A : Type 0} → M A → Type 0
Tracks m = (w : Worker) → (m w).0.healthy ≡ health_after w.healthy (m w).1

continue-Tracks :
    {A B : Type 0} (h : Bool) (p : Worker × Result WorkerError A) (f : A → M B)
    → p.0.healthy ≡ health_after h p.1
    → ((a : A) → Tracks (f a))
    → (continue p f).0.healthy ≡ health_after h (continue p f).1
unfolding health_after
continue-Tracks h (w, ok a) f e t = t a w ∙ ap (λ b. health_after b (f a w).1) e
continue-Tracks h (w, err x) f e t = e

bind-Tracks :
    {A B : Type 0} (m : M A) (f : A → M B) → Tracks m → ((a : A) → Tracks (f a)) → Tracks (m >>= f)
bind-Tracks m f hm hf w = continue-Tracks w.healthy (m w) f (hm w) hf

lift-Tracks :
    {A E : Type 0} (wrap : E → WorkerError) (r : Result E A)
    → ((e : E) → is_io (wrap e) ≡ false)
    → Tracks (lift wrap r)
unfolding health_after
lift-Tracks wrap (ok a) h w = refl
lift-Tracks wrap (err e) h w = rw (h e)

guard-Tracks : (b : Bool) (e : WorkerError) → is_io e ≡ false → Tracks (guard b e)
unfolding health_after
guard-Tracks true e h w = refl
guard-Tracks false e h w = rw h

checked-Tracks :
    {A : Type 0} (wrap : IoError → WorkerError) (w : Worker) (r : Result IoError A)
    → ((e : IoError) → is_io (wrap e) ≡ true)
    → (checked wrap w r).0.healthy ≡ health_after w.healthy (checked wrap w r).1
unfolding health_after
checked-Tracks wrap w (ok a) h = refl
checked-Tracks wrap w (err e) h = rw (h e)

write-Tracks :
    (wrap : IoError → WorkerError) (b : Bytes)
    → ((e : IoError) → is_io (wrap e) ≡ true)
    → Tracks (write wrap b)
unfolding write
write-Tracks wrap b h w = checked-Tracks wrap _ (write_conn w.conn b).1 h

read-Tracks :
    (wrap : IoError → WorkerError) (n : ℕ)
    → ((e : IoError) → is_io (wrap e) ≡ true)
    → Tracks (read wrap n)
unfolding read
read-Tracks wrap n h w = checked-Tracks wrap _ (read_conn n w.conn).1 h

write_frame-Tracks : (b : Bytes) → Tracks (write_frame b)
unfolding write_frame is_io
write_frame-Tracks b =
    bind-Tracks _ _ (write-Tracks write_header _ (λ e. refl))
      (λ _. write-Tracks write_body b (λ e. refl))

next_seq-Tracks : Tracks next_seq
unfolding next_seq health_after
next_seq-Tracks w = refl

module _ (codec : Codec) where
  send-Tracks : (msg : Message) → Tracks (send codec msg)
  unfolding send is_io
  send-Tracks msg =
      bind-Tracks _ _ (lift-Tracks marshal_failed (codec.marshal msg) (λ e. refl))
        write_frame-Tracks

  recv_body-Tracks : (n : ℕ) → Tracks (recv_body codec n)
  unfolding recv_body is_io
  recv_body-Tracks n = bind-Tracks _ _ (guard-Tracks _ (too_large n) refl) λ _.
      bind-Tracks _ _ (read-Tracks read_body n (λ e. refl))
        λ b. lift-Tracks unmarshal_failed (codec.unmarshal b) (λ e. refl)

  recv-Tracks : Tracks (recv codec)
  unfolding recv is_io
  recv-Tracks =
      bind-Tracks _ _ (read-Tracks read_header 4 (λ e. refl)) (λ hdr. recv_body-Tracks (uint32 hdr))

  ping-Tracks : Tracks (ping codec)
  unfolding ping is_io
  ping-Tracks =
      bind-Tracks _ _ (send-Tracks _)
        λ _. bind-Tracks _ _ recv-Tracks λ msg. guard-Tracks _ (expected_pong msg.type) refl

  call-Tracks :
      (fn : Text) (args : List Arg) (kwargs : List (Text × Arg))
      → Tracks (call codec fn args kwargs)
  unfolding call
  call-Tracks fn args kwargs =
      bind-Tracks _ _ next_seq-Tracks λ n. bind-Tracks _ _ (send-Tracks _) λ _. recv-Tracks

  probe-Tracks : (target : Text) → Tracks (probe codec target)
  unfolding probe
  probe-Tracks target =
      bind-Tracks _ _ next_seq-Tracks λ n. bind-Tracks _ _ (send-Tracks _) λ _. recv-Tracks

  -- Every method on a running worker marks it unhealthy on an error of the connection, and on no
  -- other; nothing makes it healthy again.
  pub methods-Tracks :
      (msg : Message) (fn target : Text) (args : List Arg) (kwargs : List (Text × Arg))
      → Tracks (send codec msg)
        × Tracks (recv codec)
        × Tracks (ping codec)
        × Tracks (call codec fn args kwargs)
        × Tracks (probe codec target)
  methods-Tracks msg fn target args kwargs =
      (send-Tracks msg, recv-Tracks, ping-Tracks, call-Tracks fn args kwargs, probe-Tracks target)
