-- ===== src/Dispatch/Tests.antt =====
-- Runs of dispatcher.go and shm.go on small requests, and the theorems at concrete worlds.
use chrysalis.Base.{
  ℕ, ◌≡◌, refl, ap, sym, ◌∙◌, Result, inl, inr, true, false, List, [], ◌∷◌, arith, Text, codes,
  text_eq, text_key, nat_key, none, some, ok, err, lookup, insert,
}
use chrysalis.Base.Int.{pos}
use chrysalis.Decimal.{show}
use chrysalis.Strings.{has_suffix, trim_suffix}
use chrysalis.FilePath.{join}
use chrysalis.Wire.{Bytes, frame, put_uint32, uint32, read_full}
use chrysalis.Base64.{encode, decode, of_char}
use chrysalis.Base64.RoundTrip.{decode-encode}
use chrysalis.Filter.{FilterConfig, allow, any_match, compile, allow_all}
use chrysalis.Worker.Protocol.{Codec, Message, no_message, Arg, no_arg, kind_ndarray}
use chrysalis.Worker.{
  Conn, WorkerError, new_worker, probe, send, recv, recv_body, write, read, write_conn, read_conn,
  write_frame, next_seq,
}
use chrysalis.Shm.{
  System, AllocOutcome, open_fails, dir, new_manager, shm_name, path_of, next_counter, alloc,
  alloc_shm, shm_dir,
}
use chrysalis.Shm.Contents.{IsReady}
use chrysalis.Dispatch.{
  BridgeRequest, World, Serve, dispatch, dispatch_probe, refusal, not_allowed, unknown_handle,
  probe_suffix, ProbeResult,
}
use chrysalis.Dispatch.Probes.{dispatch-probe_cached}
use chrysalis.Dispatch.Oracle.{IsHonest, Tells, dispatch-probe_Tells}
use chrysalis.Dispatch.Refusals.{dispatch_denied, dispatch-unknown_handle}
use chrysalis.Dispatch.Concurrent.{Arrives, resolve_arg-Arrives}
use chrysalis.Shm.Sharing.{Operation, operate, act, acts, no_blocks}
use chrysalis.Strings.Search.{Lacks}
use chrysalis.FilePath.{slash}

encoded : encode (codes "light wo") ≡ codes "bGlnaHQgd28="
unfolding encode
encoded = refl

skips_break : decode (codes "bGln\naHQ=") ≡ some (codes "light")
unfolding decode of_char
skips_break = refl

garbage_after_padding : decode (codes "aHQ=aHQ=") ≡ none
unfolding decode
garbage_after_padding = refl

decode-encode_example : decode (encode (0 ∷ 255 ∷ 7 ∷ 128 ∷ [])) ≡ some (0 ∷ 255 ∷ 7 ∷ 128 ∷ [])
decode-encode_example =
    decode-encode (0 ∷ 255 ∷ 7 ∷ 128 ∷ [])
      (omega arith, (omega arith, (omega arith, (omega arith, tt))))

abbrev pub linux : System
linux = record {
  files = (codes "/dev/shm/other", 1 ∷ 2 ∷ []) ∷ [];
  dev_shm = dir;
  temp_dir = codes "/tmp";
  pid_tag = codes "7-a1b2c3";
  shm_counter = 41;
  outcomes = [];
}

allocates_a_file :
    (alloc 2 (record { sys = linux; mgr = new_manager })).0.sys.files
    ≡ (codes "/dev/shm/other", 1 ∷ 2 ∷ []) ∷ (codes "/dev/shm/chr-7-a1b2c3-42", 0 ∷ 0 ∷ []) ∷ []
unfolding alloc alloc_shm shm_dir shm_name path_of join show next_counter insert lookup text_eq
allocates_a_file = refl

-- Every request is written as one byte, and every reply says that its target is callable.
abbrev pub callable_codec : Codec
callable_codec = record {
  marshal = λ m. ok (codes "x");
  unmarshal = λ b. ok (record no_message { type = codes "result"; is_callable = true });
}

abbrev pub idle : Serve
idle args kwargs fs = fs

abbrev pub conn : Bytes → Conn
conn incoming = record { incoming = incoming; outgoing = []; outcomes = []; closed = false }

abbrev pub world : World
world = record {
  worker = new_worker (codes "/tmp/s.1") (codes "worker.py") (conn (frame (codes "y")));
  system = linux;
  probe_cache = [];
}

abbrev pub request : Text → List Arg → BridgeRequest
request fn args = record { fn = fn; args = args; kwargs = [] }

abbrev inline_array : Arg
inline_array = record no_arg { kind = kind_ndarray; b64 = codes "AQI="; dtype = codes "uint8" }

abbrev pub deny_load : FilterConfig
deny_load = record {
  name = codes "t";
  description = [];
  default = codes "allow";
  allow = [];
  deny = codes "numpy.load" ∷ [];
}

dispatch_denied_example :
    dispatch callable_codec idle
      (compile (codes "t") deny_load)
      (request (codes "numpy.load") [])
      world
    ≡ (
      world,
      refusal (not_allowed (codes "numpy.load") (compile (codes "t") deny_load).profile_name),
    )
unfolding has_suffix probe_suffix text_eq
dispatch_denied_example =
    dispatch_denied callable_codec idle (codes "t") deny_load (request (codes "numpy.load") [])
      world refl (ground arith) (inl refl)

-- The first answer comes from the worker, the second one from the cache, for a worker that says
-- nothing.
abbrev probe_request : BridgeRequest
probe_request = request (codes "numpy.dot.__probe__") []

abbrev after_probe : World
after_probe = (dispatch callable_codec idle allow_all probe_request world).0

abbrev silent : World
silent = record after_probe { worker = new_worker (codes "/tmp/s.2") (codes "worker.py") (conn []) }

dispatch-probe_cached_example :
    dispatch callable_codec idle (compile (codes "t") deny_load) probe_request silent
    ≡ (silent, (dispatch callable_codec idle allow_all probe_request world).1)
unfolding dispatch dispatch_probe probe send recv recv_body read write read_conn write_conn
    write_frame uint32 put_uint32 read_full next_seq lookup has_suffix text_eq probe_suffix
    trim_suffix frame
dispatch-probe_cached_example =
    dispatch-probe_cached callable_codec idle allow_all (compile (codes "t") deny_load)
      probe_request world silent refl refl refl

-- An array without elements has the empty text.
abbrev empty_array : Arg
empty_array = record inline_array { b64 = [] }

dispatch-unknown_handle_example :
    ((dispatch callable_codec idle allow_all
        (request (codes "numpy.sum") (empty_array ∷ []))
        world).0.worker
      ≡ world.worker)
    × ((dispatch callable_codec idle allow_all
          (request (codes "numpy.sum") (empty_array ∷ []))
          world).1
        ≡ refusal (unknown_handle (pos 0)))
unfolding has_suffix probe_suffix text_eq allow allow_all any_match lookup
dispatch-unknown_handle_example =
    dispatch-unknown_handle callable_codec idle allow_all
      (request (codes "numpy.sum") (empty_array ∷ [])) world empty_array [] refl refl refl refl refl

-- The third allocation fails.
abbrev filling : System
filling = record linux {
  outcomes = AllocOutcome.allocates ∷ AllocOutcome.allocates ∷ open_fails (codes "ENOSPC") ∷ [];
}

-- Another request has a block, fails to get a second one, writes to its own and frees all.
abbrev history : List (ℕ × Operation)
history = (1, Operation.allocates 3) ∷ []

abbrev later : List (ℕ × Operation)
later =
    (1, Operation.allocates 4)
    ∷ (1, Operation.copies 0 (9 ∷ 9 ∷ 9 ∷ []))
    ∷ (1, Operation.frees_all)
    ∷ []

shared_dir : (acts (no_blocks filling) history).sys.dev_shm ≡ dir
unfolding acts act operate alloc alloc_shm lookup path_of shm_dir shm_name next_counter join show
    text_eq
shared_dir = refl

shared-Lacks : Lacks slash (acts (no_blocks filling) history).sys.pid_tag
unfolding acts act operate alloc alloc_shm lookup path_of shm_dir shm_name next_counter join show
    text_eq
shared-Lacks = ground arith

shared-IsReady : IsReady (acts (no_blocks filling) history).sys
unfolding acts act operate alloc alloc_shm path_of shm_dir shm_name next_counter join show lookup
    text_eq insert
shared-IsReady = record { allocating = inr (_, refl); file_new = refl }

resolve_arg-Arrives_example :
    Arrives (1 ∷ 2 ∷ []) inline_array (acts (no_blocks filling) history) 0 later
unfolding encode
resolve_arg-Arrives_example =
    resolve_arg-Arrives filling history later 0 inline_array 1 (2 ∷ []) refl refl
      (omega arith, (omega arith, tt)) shared_dir shared-Lacks shared-IsReady
      (omega arith, (omega arith, (omega arith, tt)))

abbrev all_functions : Text → ProbeResult
all_functions t = record { is_module = false; is_callable = true }

-- What the worker answers at once.
first_answer :
    (probe callable_codec (codes "numpy.dot") world.worker).1
    ≡ ok (record no_message { type = codes "result"; is_callable = true })
unfolding probe send recv recv_body read write read_conn write_conn write_frame uint32 put_uint32
    read_full next_seq frame
first_answer = refl

abbrev verdict : Result WorkerError Message → ProbeResult
verdict (ok m) = record { is_module = m.is_module; is_callable = m.is_callable }
verdict (err e) = all_functions []

honest : IsHonest callable_codec all_functions (codes "numpy.dot") world.worker
honest msg e = ap verdict (sym e ∙ first_answer)

dispatch-probe_Tells_example :
    Tells all_functions
      (trim_suffix probe_request.fn probe_suffix)
      (dispatch callable_codec idle allow_all probe_request world)
unfolding has_suffix probe_suffix text_eq trim_suffix lookup
dispatch-probe_Tells_example =
    dispatch-probe_Tells callable_codec idle all_functions allow_all probe_request world refl
      (λ t pr h. cc) honest
