-- ===== src/Dispatch.antt =====
-- internal/bridge/dispatcher.go: one request of the sandbox, from the probe cache and the filter to
-- the worker and back.
pub mod Arrays
pub mod Bridge
pub mod Files
pub mod Outcomes
pub mod Probes
pub mod Refusals
pub mod Resolved
pub mod Oracle
pub mod Concurrent
mod Tests
use chrysalis.Base.{
  ℕ, Bool, true, false, List, [], ◌∷◌, ◌++◌, if◌then◌else◌, length, Text, codes, text_eq, Option,
  none, some, Result, ok, err, text_key, lookup, insert, remove,
}
use chrysalis.Base.Int.{ℤ, pos, to_uint32}
use chrysalis.Strings.{has_suffix, trim_suffix}
use chrysalis.Wire.{Bytes}
use chrysalis.Filter.{Filter, allow}
use chrysalis.Worker.Protocol.{
  Json, string, bool, object, no_fields, field, Arg, no_arg, kind_scalar, kind_ndarray, Message,
  Codec,
}
use chrysalis.Worker.{Worker, WorkerError, call, probe}
use chrysalis.Shm.{
  System, DevShm, absent, not_dir, dir, ShmBlock, ShmError, Shm, new_manager, alloc, fill, get,
  free_all,
}
use chrysalis.Base64.{encode, decode}

pub record BridgeRequest : Type 0 where
  pub fn : Text
  pub args : List Arg
  pub kwargs : List (Text × Arg)

-- What the field Error of a response is formatted from. `no_block` is the crash on a nil block.
pub data DispatchError : Type 0 where
  not_allowed : Text → Text → DispatchError
  worker_failed : WorkerError → DispatchError
  python_error : Text → Text → DispatchError
  bad_request : Text → DispatchError
  bad_base64 : DispatchError
  no_memory : ShmError → DispatchError
  unknown_handle : ℤ → DispatchError
  no_block : DispatchError
  no_result_file : Text → DispatchError

-- An empty Error is `none`.
pub record BridgeResponse : Type 0 where
  pub value : Option Arg
  pub error : Option DispatchError

abbrev pub answer : Option Arg → BridgeResponse
answer v = record { value = v; error = none }

abbrev pub refusal : DispatchError → BridgeResponse
refusal e = record { value = none; error = some e }

pub record ProbeResult : Type 0 where
  pub is_module : Bool
  pub is_callable : Bool

-- What outlives one request: the worker of the run, the files, and the probe cache.
pub record World : Type 0 where
  pub worker : Worker
  pub system : System
  pub probe_cache : List (Text × ProbeResult)

file_dir : DevShm → Text → Text
file_dir absent temp = temp
file_dir not_dir temp = codes "/dev/shm"
file_dir dir temp = codes "/dev/shm"

unfoldable pub shm_file_path : System → Text → Text
unfolding file_dir
shm_file_path sys name = file_dir sys.dev_shm sys.temp_dir ++ codes "/" ++ name

-- A step on the files and blocks of one request.
abbrev pub Step : Type 0 → Type 0
Step A = Shm → Shm × Result DispatchError A

abbrev pub proceed :
    {A B : Type 0} → Shm × Result DispatchError A → (A → Step B) → Shm × Result DispatchError B
proceed (s, ok a) f = f a s
proceed (s, err e) f = (s, err e)

-- The argument for the worker: the array's block by its path.
abbrev pub by_path : Arg → ℤ → System → ShmBlock → Arg
by_path a h sys blk = record no_arg {
  kind = kind_ndarray;
  shm_handle = h;
  shape = a.shape;
  dtype = a.dtype;
  value = string (shm_file_path sys blk.name);
}

located : DispatchError → Arg → ℤ → Shm → Option ShmBlock → Shm × Result DispatchError Arg
located e a h s none = (s, err e)
located e a h s (some blk) = (s, ok (by_path a h s.sys blk))

stored : Arg → Bytes → Shm × Result ShmError ℕ → Shm × Result DispatchError Arg
unfolding located
stored a raw (s, err e) = (s, err (no_memory e))
stored a raw (s, ok h) =
    let filled = fill h raw s in located no_block a (pos h) filled (get filled.mgr h)

unpacked : Arg → Shm → Option Bytes → Shm × Result DispatchError Arg
unfolding stored
unpacked a s none = (s, err bad_base64)
unpacked a s (some raw) = stored a raw (alloc (length raw) s)

unfoldable pub resolve_arg : Arg → Step Arg
unfolding unpacked located
resolve_arg a s =
    if text_eq a.kind kind_ndarray
    then if text_eq a.b64 []
      then located (unknown_handle a.shm_handle) a a.shm_handle s
          (get s.mgr (to_uint32 a.shm_handle))
      else unpacked a s (decode a.b64)
    else (s, ok a)

unfoldable pub resolve_args : List Arg → Step (List Arg)
unfolding resolve_arg
resolve_args [] s = (s, ok [])
resolve_args (a ∷ rest) s =
    proceed (resolve_arg a s) λ b t. proceed (resolve_args rest t) λ bs u. (u, ok (b ∷ bs))

-- A Go map is gone through in some order; the list stands for it.
unfoldable pub resolve_kwargs : List (Text × Arg) → Step (List (Text × Arg))
unfolding resolve_arg
resolve_kwargs [] s = (s, ok [])
resolve_kwargs ((k, a) ∷ rest) s =
    proceed (resolve_arg a s) λ b t. proceed (resolve_kwargs rest t) λ bs u. (u, ok ((k, b) ∷ bs))

-- `arg.Value.(string)`, empty for another type.
unfoldable pub as_string : Json → Text
as_string (string t) = t
as_string _ = []

collected : Arg → Text → Shm → Option Bytes → Shm × Result DispatchError Arg
collected a path s none = (s, err (no_result_file path))
collected a path s (some content) = (
  record s { sys = record s.sys { files = remove path s.sys.files } },
  ok (record no_arg {
    kind = kind_ndarray;
    shape = a.shape;
    dtype = a.dtype;
    b64 = encode content;
  }),
)

unfoldable pub encode_ndarray_result : Arg → Step Arg
unfolding collected as_string
encode_ndarray_result a s =
    let path = as_string a.value in
    if text_eq path [] then (s, ok a) else collected a path s (lookup path s.sys.files)

abbrev pub probe_response : ProbeResult → BridgeResponse
probe_response pr = answer (
    some (record no_arg {
      kind = kind_scalar;
      value = object (
          field (codes "is_module") (bool pr.is_module)
            (field (codes "is_callable") (bool pr.is_callable) no_fields));
    }))

probed : Text → World → Worker × Result WorkerError Message → World × BridgeResponse
probed target w (wk, err e) = (record w { worker = wk }, refusal (worker_failed e))
probed target w (wk, ok msg) =
    let pr : ProbeResult = record { is_module = msg.is_module; is_callable = msg.is_callable } in
    (record w { worker = wk; probe_cache = insert target pr w.probe_cache }, probe_response pr)

unfoldable pub probe_suffix : Text
probe_suffix = codes ".__probe__"

-- The files after a Python worker has served a call with these arguments.
abbrev pub Serve : Type 0
Serve = List Arg → List (Text × Arg) → List (Text × Bytes) → List (Text × Bytes)

respond_with : Shm × Result DispatchError Arg → Shm × BridgeResponse
respond_with (s, ok a) = (s, answer (some a))
respond_with (s, err e) = (s, refusal e)

responded : Shm → Option Arg → Shm × BridgeResponse
unfolding respond_with
responded s none = (s, answer none)
responded s (some a) =
    if text_eq a.kind kind_ndarray
    then respond_with (encode_ndarray_result a s)
    else (s, answer (some a))

-- The response from what Call returned.
replied : Shm → Result WorkerError Message → Shm × BridgeResponse
unfolding responded
replied s (err e) = (s, refusal (worker_failed e))
replied s (ok msg) =
    if text_eq msg.type (codes "error")
    then (s, refusal (python_error msg.error msg.message))
    else responded s msg.value

serve_files : (List (Text × Bytes) → List (Text × Bytes)) → Shm → Shm
serve_files f s = record s { sys = record s.sys { files = f s.sys.files } }

-- The request's arguments, the positional ones first.
unfoldable pub resolve_all : BridgeRequest → Step (List Arg × List (Text × Arg))
unfolding resolve_args resolve_kwargs
resolve_all req s =
    proceed (resolve_args req.args s)
      λ args t. proceed (resolve_kwargs req.kwargs t) λ kwargs u. (u, ok (args, kwargs))

from_cache : Codec → Text → World → Option ProbeResult → World × BridgeResponse
unfolding probed
from_cache codec target w (some pr) = (w, probe_response pr)
from_cache codec target w none = probed target w (probe codec target w.worker)

unfoldable pub dispatch_probe : Codec → Text → World → World × BridgeResponse
unfolding from_cache
dispatch_probe codec target w = from_cache codec target w (lookup target w.probe_cache)

module _ (codec : Codec) (serve : Serve) where
  called :
      Text
      → Worker
      → Shm × Result DispatchError (List Arg × List (Text × Arg))
      → Worker × Shm × BridgeResponse
  unfolding replied serve_files
  called fn wk (s, err e) = (wk, s, refusal e)
  called fn wk (s, ok (args, kwargs)) =
      let (wk', reply) = call codec fn args kwargs wk in
      let (t, resp) = replied (serve_files (serve args kwargs) s) reply in (wk', t, resp)

  -- The call of a permitted function. FreeAll is deferred: it runs on every way out.
  unfoldable pub dispatch_call : BridgeRequest → World → World × BridgeResponse
  unfolding called resolve_all
  dispatch_call req w =
      let start : Shm = record { sys = w.system; mgr = new_manager } in
      let (wk, s, resp) = called req.fn w.worker (resolve_all req start) in
      (record w { worker = wk; system = (free_all s).sys }, resp)

  unfoldable pub dispatch : Filter → BridgeRequest → World → World × BridgeResponse
  unfolding dispatch_call dispatch_probe probe_suffix
  dispatch f req w =
      if has_suffix req.fn probe_suffix
      then dispatch_probe codec (trim_suffix req.fn probe_suffix) w
      else if allow f req.fn
      then dispatch_call req w
      else (w, refusal (not_allowed req.fn f.profile_name))
