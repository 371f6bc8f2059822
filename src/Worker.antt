-- ===== src/Worker.antt =====
-- internal/worker/worker.go: one Python worker process and the connection to it.
pub mod Protocol
pub mod Frames
pub mod Streams
pub mod Health
pub mod Sockets
pub mod Calls
mod Tests
use chrysalis.Base.{
  ℕ, ◌≡◌, refl, ap, ◌+◌, ◌*◌, ◌%◌, ◌^◌, Bool, true, false, List, [], ◌∷◌, ◌++◌, ltb, leb,
  if◌then◌else◌, length, take, Text, codes, text_eq, Option, none, some, Result, ok, err,
}
use chrysalis.Decimal.{show}
use chrysalis.Wire.{Bytes, put_uint32, uint32, IoError, closed_pipe, read_full}
use Protocol.{Codec, Message, Arg, no_message}

-- What happens to a write: all bytes go out, or some and then an error.
pub data WriteOutcome : Type 0 where
  complete : WriteOutcome
  cut : ℕ → IoError → WriteOutcome

-- The connection. `incoming` is what the worker sends until it closes its end, `outgoing` what has
-- been written to it, and `outcomes` says how the next writes end; those after them are complete.
pub record Conn : Type 0 where
  pub incoming : Bytes
  pub outgoing : Bytes
  pub outcomes : List WriteOutcome
  pub closed : Bool

-- The state of the process: `cmd.Process.Kill` and `cmd.Wait`.
pub data Process : Type 0 where
  running killed reaped : Process

pub record Worker : Type 0 where
  pub sock_path : Text
  pub worker_path : Text
  pub process : Process
  pub conn : Conn
  pub healthy : Bool
  pub req_seq : ℕ

-- The errors that the functions return, each with what it wraps.
pub data WorkerError : Type 0 where
  marshal_failed : Text → WorkerError
  write_header : IoError → WorkerError
  write_body : IoError → WorkerError
  read_header : IoError → WorkerError
  too_large : ℕ → WorkerError
  read_body : IoError → WorkerError
  unmarshal_failed : Text → WorkerError
  expected_pong : Text → WorkerError

-- A method under the worker's mutex: it runs alone, and returns the worker and its result.
abbrev pub M : Type 0 → Type 0
M A = Worker → Worker × Result WorkerError A

abbrev pub continue :
    {A B : Type 0} → Worker × Result WorkerError A → (A → M B) → Worker × Result WorkerError B
continue (w, ok a) f = f a w
continue (w, err e) f = (w, err e)

infixl 5 ◌>>=◌ ◌>>◌
abbrev pub ◌>>=◌ : {A B : Type 0} → M A → (A → M B) → M B
◌>>=◌ m f w = continue (m w) f

abbrev pub ◌>>◌ : {B : Type 0} → M (Unit {0}) → M B → M B
m >> k = m >>= λ _. k

-- A step that succeeds hands its value on; one that fails ends the block.
pub bind_ok :
    {A B : Type 0} (m : M A) (f : A → M B) {w w' : Worker} {a : A}
    → m w ≡ (w', ok a)
    → (m >>= f) w ≡ f a w'
bind_ok m f e = ap (λ p. continue p f) e

pub bind_err :
    {A B : Type 0} (m : M A) (f : A → M B) {w w' : Worker} {e : WorkerError}
    → m w ≡ (w', err e)
    → (m >>= f) w ≡ (w', err e)
bind_err m f h = ap (λ p. continue p f) h

-- Inversion of a block that succeeds.
pub continue-ok :
    {A B : Type 0} (p : Worker × Result WorkerError A) (f : A → M B) {b : B}
    → (continue p f).1 ≡ ok b
    → (a : A) × (p ≡ (p.0, ok a)) × ((f a p.0).1 ≡ ok b)
continue-ok (w, ok a) f h = (a, refl, h)
continue-ok (w, err e) f h = cc

abbrev pub lift : {A E : Type 0} → (E → WorkerError) → Result E A → M A
lift wrap (ok a) w = (w, ok a)
lift wrap (err e) w = (w, err (wrap e))

-- `conn.Write(b)`
after_outcome : Conn → Bytes → List WriteOutcome → Conn × Result IoError (Unit {0})
after_outcome c b [] = (record c { outgoing = c.outgoing ++ b }, ok tt)
after_outcome c b (complete ∷ later) =
    (record c { outgoing = c.outgoing ++ b; outcomes = later }, ok tt)
after_outcome c b (cut n e ∷ later) =
    (record c { outgoing = c.outgoing ++ take n b; outcomes = later }, err e)

unfoldable pub write_conn : Conn → Bytes → Conn × Result IoError (Unit {0})
unfolding after_outcome
write_conn c b = if c.closed then (c, err closed_pipe) else after_outcome c b c.outcomes

-- `io.ReadFull(conn, buf)`
unfoldable pub read_conn : ℕ → Conn → Conn × Result IoError Bytes
read_conn n c =
    let (r, rest) = read_full n c.incoming in
    if c.closed then (c, err closed_pipe) else (record c { incoming = rest }, r)

-- An error of the connection marks the worker unhealthy.
abbrev checked :
    {A : Type 0}
    → (IoError → WorkerError)
    → Worker
    → Result IoError A
    → Worker × Result WorkerError A
checked wrap w (ok a) = (w, ok a)
checked wrap w (err e) = (record w { healthy = false }, err (wrap e))

unfoldable pub write : (IoError → WorkerError) → Bytes → M (Unit {0})
write wrap b w = let (c, r) = write_conn w.conn b in checked wrap (record w { conn = c }) r

unfoldable pub read : (IoError → WorkerError) → ℕ → M Bytes
read wrap n w = let (c, r) = read_conn n w.conn in checked wrap (record w { conn = c }) r

abbrev pub guard : Bool → WorkerError → M (Unit {0})
guard true e w = (w, ok tt)
guard false e w = (w, err e)

abbrev pub max_message : ℕ
max_message = 16 * 1024 * 1024

-- The two writes of send: the length of the body in four bytes, and the body.
unfoldable pub write_frame : Bytes → M (Unit {0})
write_frame body = do write write_header (put_uint32 (length body)); write write_body body

-- `w.reqSeq.Add(1)`, a counter of 64 bits.
unfoldable pub next_seq : M ℕ
next_seq w = let n = (w.req_seq + 1) % 2 ^ 64 in (record w { req_seq = n }, ok n)

module _ (codec : Codec) where
  unfoldable pub send : Message → M (Unit {0})
  send msg = do body ← lift marshal_failed (codec.marshal msg); write_frame body

  -- What recv does once it knows the length.
  unfoldable pub recv_body : ℕ → M Message
  recv_body n = do
    guard (leb n max_message) (too_large n)
    body ← read read_body n
    lift unmarshal_failed (codec.unmarshal body)

  unfoldable pub recv : M Message
  recv = do hdr ← read read_header 4; recv_body (uint32 hdr)

  unfoldable pub ping : M (Unit {0})
  ping = do
    send (record no_message { type = codes "ping" })
    msg ← recv
    guard (text_eq msg.type (codes "pong")) (expected_pong msg.type)

  unfoldable pub call : Text → List Arg → List (Text × Arg) → M Message
  call fn args kwargs = do
    n ← next_seq
    send (record no_message {
      id = codes "req-" ++ show n;
      type = codes "call";
      func = fn;
      args = args;
      kwargs = kwargs;
    })
    recv

  unfoldable pub probe : Text → M Message
  probe target = do
    n ← next_seq
    send
        (record no_message { id = codes "probe-" ++ show n; type = codes "probe"; target = target })
    recv

  -- The errors of Shutdown's steps are dropped.
  unfoldable pub shutdown : Worker → Worker
  shutdown w =
      let (sent, _) = send (record no_message { type = codes "shutdown" }) w in
      let (received, _) = recv sent in
      record received { conn = record received.conn { closed = true }; process = reaped }

unfoldable pub is_healthy : Worker → Bool
is_healthy w = w.healthy

-- What Start meets outside: Listen, the start of the process, and Accept within 30 seconds.
pub record Launch : Type 0 where
  pub listen : Result Text (Unit {0})
  pub launch : Result Text (Unit {0})
  pub accept : Result Text Conn

pub data StartError : Type 0 where
  listen_failed launch_failed not_connected : Text → StartError
  not_ready : Result WorkerError Message → StartError

-- A failed start with the process and the connection that it leaves.
pub data Started : Type 0 where
  up : Worker → Started
  failed : StartError → Option Process → Option Conn → Started

-- The literal of Start.
abbrev pub new_worker : Text → Text → Conn → Worker
new_worker sock script c = record {
  sock_path = sock;
  worker_path = script;
  process = running;
  conn = c;
  healthy = false;
  req_seq = 0;
}

handshake : Worker × Result WorkerError Message → Started
handshake (w, ok msg) =
    if text_eq msg.type (codes "ready")
    then up (record w { healthy = true })
    else failed (not_ready (ok msg)) (some killed) (some w.conn)
handshake (w, err e) = failed (not_ready (err e)) (some killed) (some w.conn)

module _ (codec : Codec) where
  accepted : Text → Text → Result Text Conn → Started
  accepted sock script (err e) = failed (not_connected e) (some killed) none
  accepted sock script (ok c) = handshake (recv codec (new_worker sock script c))

  launched : Text → Text → Launch → Result Text (Unit {0}) → Started
  launched sock script env (err e) = failed (launch_failed e) none none
  launched sock script env (ok _) = accepted sock script env.accept

  listened : Text → Text → Launch → Result Text (Unit {0}) → Started
  listened sock script env (err e) = failed (listen_failed e) none none
  listened sock script env (ok _) = launched sock script env env.launch

  unfoldable pub start : Text → Text → Launch → Started
  unfolding listened launched accepted handshake
  start sock script env = listened sock script env env.listen
