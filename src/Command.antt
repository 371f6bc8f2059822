-- ===== src/Command.antt =====
-- cmd/chrysalis/main.go: the command line, the routes and the life of the process.
pub mod Routes
pub mod Serving
pub mod Exits
mod Tests
use chrysalis.Base.{
  ℕ, ◌+◌, Bool, true, false, not, ◌&&◌, List, [], ◌∷◌, ◌++◌, ◌==◌, if◌then◌else◌, Text, codes,
  text_eq, Option, none, some, Result, ok, err,
}
use chrysalis.Base.Int.{ℤ, pos, negsuc}
use chrysalis.Decimal.{show}
use chrysalis.FilePath.{slash, clean}
use chrysalis.Strings.{has_suffix}
use chrysalis.Wire.{Bytes}
use chrysalis.WorkerPool.{Context}
use chrysalis.Handler.{RunRequest, RunResult, Run, Served, serve_http}
use chrysalis.Handler as Handler
use chrysalis.Runs.{Sandbox, RunError}
use chrysalis.Engine.{
  Outside, EngineError, Engine, Job, Timing, TimedResult, new, execute, shut_down,
}
use chrysalis.Flags.{Flags, FlagError, default_flags, parse}
use chrysalis.Flags as Flags

-- What main.go takes from outside: the text of an error, the JSON decoder and the number parser.
pub record Setup : Type 0 where
  pub outside : Outside
  pub error_text : RunError → Text
  pub decode : Text → Result Text RunRequest
  pub parse_int : Text → Option ℤ

-- A request to the server, the random bytes for its trace id, and what a run that it starts will
-- meet.
pub record Request : Type 0 where
  pub method : Text
  pub path : Text
  pub body : Text
  pub random : Bytes
  pub within : ℤ → Context
  pub instantiate : ℤ → ℕ → List Text → Sandbox
  pub elapsed : ℕ

-- Where the mux sends a request. It answers the last four by itself.
pub data Route : Type 0 where
  to_run to_health : Route
  moved : Text → Route
  not_found bad_request options : Route

-- cleanPath of net/http
unfoldable pub clean_path : Text → Text
clean_path [] = codes "/"
clean_path (c ∷ s) =
    let p = if c == slash then c ∷ s else slash ∷ c ∷ s in
    if has_suffix p (codes "/") && not (text_eq (clean p) (codes "/"))
    then clean p ++ codes "/"
    else clean p

abbrev looked_up : Text → Route
looked_up path =
    if text_eq path (codes "/run")
    then to_run
    else if text_eq path (codes "/health")
    then to_health
    else not_found

-- The mux with its two patterns. The path of CONNECT is taken as it is; any other path that is not
-- clean is redirected.
unfoldable pub route : Text → Text → Route
unfolding clean_path
route method path =
    if text_eq path (codes "*")
    then (if text_eq method (codes "OPTIONS") then options else bad_request)
    else if text_eq method (codes "CONNECT")
    then looked_up path
    else if text_eq (clean_path path) path
    then looked_up path
    else moved (clean_path path)

pub data Answer : Type 0 where
  from_handler : Served → Answer
  healthy : Answer
  by_mux : Route → Answer

unfoldable pub mux_status : Route → ℕ
mux_status to_run = 200
mux_status to_health = 200
mux_status options = 200
mux_status (moved path) = 301
mux_status bad_request = 400
mux_status not_found = 404

unfoldable pub status : Answer → ℕ
unfolding mux_status
status (from_handler s) = s.status_code
status healthy = 200
status (by_mux r) = mux_status r

unfoldable pub runs_of : Answer → List Run
runs_of (from_handler s) = s.runs
runs_of healthy = []
runs_of (by_mux r) = []

unfoldable pub job_of : Request → Run → Job
job_of req run = record {
  code = run.code;
  filter_profile = run.filter_profile;
  timeout_sec = run.timeout_sec;
  within = req.within;
  instantiate = req.instantiate;
  elapsed = req.elapsed;
}

module _ (setup : Setup) where
  outcome : Result RunError TimedResult → Result Text RunResult × ℕ
  outcome (err x) = (err (setup.error_text x), 0)
  outcome (ok r) =
      (ok (record { stdout = r.stdout; stderr = r.stderr; error = r.error }), r.timing.total_ms)

  -- The engine as the handler sees it.
  unfoldable pub engine_of : Request → Engine → Handler.Engine
  unfolding outcome job_of
  engine_of req e = record {
    random = req.random;
    decode = setup.decode;
    dispatch_run = λ run. outcome (execute setup.outside (job_of req run) e).1;
  }

  answer_at : Request → Engine → Route → Answer
  unfolding engine_of
  answer_at req e to_run = from_handler (serve_http (engine_of req e) req.path req.method req.body)
  answer_at req e to_health = healthy
  answer_at req e (moved path) = by_mux (moved path)
  answer_at req e not_found = by_mux not_found
  answer_at req e bad_request = by_mux bad_request
  answer_at req e options = by_mux options

  -- The engine after the runs that an answer started.
  unfoldable pub after_runs : Request → List Run → Engine → Engine
  after_runs req [] e = e
  after_runs req (r ∷ rs) e = after_runs req rs (execute setup.outside (job_of req r) e).0

  -- One request.
  unfoldable pub answer : Request → Engine → Engine × Answer
  unfolding answer_at route
  answer req e =
      let a = answer_at req e (route req.method req.path) in (after_runs req (runs_of a) e, a)

  -- Requests one after the other.
  unfoldable pub answers : List Request → Engine → Engine × List Answer
  answers [] e = (e, [])
  answers (req ∷ reqs) e =
      let (e1, a) = answer req e in let (e2, more) = answers reqs e1 in (e2, a ∷ more)

-- How ListenAndServe ends: by Shutdown after a signal, or with another error.
pub data ServerEnd : Type 0 where
  server_closed : ServerEnd
  fails : Text → ServerEnd

-- The requests that the server answers, and its end.
pub record Life : Type 0 where
  pub requests : List Request
  pub server_end : ServerEnd

pub data Reason : Type 0 where
  usage helped : Reason
  unknown_command : Text → Reason
  bad_flags : FlagError → Reason
  wasm_unreadable server_failed : Text → Reason
  init_failed : EngineError → Reason
  stopped : Reason

-- The end of the process: its exit code, why, the address that it listened on, the engine as it
-- is left, and what was answered.
pub record Exit : Type 0 where
  pub code : ℕ
  pub reason : Reason
  pub address : Option Text
  pub engine : Option Engine
  pub answered : List Answer

abbrev pub early : ℕ → Reason → Exit
early code reason = record {
  code = code;
  reason = reason;
  address = none;
  engine = none;
  answered = [];
}

-- `fmt.Sprintf(":%d", port)`
unfoldable pub address_of : ℤ → Text
address_of (pos n) = b':' ∷ show n
address_of (negsuc n) = b':' ∷ b'-' ∷ show (n + 1)

module _ (setup : Setup) where
  -- The deferred Close runs when serve returns; log.Fatalf ends the process before it.
  ended : Text → Engine × List Answer → ServerEnd → Exit
  ended address (e, answered) server_closed = record {
    code = 0;
    reason = stopped;
    address = some address;
    engine = some (shut_down setup.outside e);
    answered = answered;
  }
  ended address (e, answered) (fails x) = record {
    code = 1;
    reason = server_failed x;
    address = some address;
    engine = some e;
    answered = answered;
  }

  listening : Flags → Life → Result EngineError Engine → Exit
  unfolding ended address_of
  listening fl life (err x) = early 1 (init_failed x)
  listening fl life (ok e) =
      ended (address_of fl.port) (answers setup life.requests e) life.server_end

  with_wasm : Flags → Life → Result Text Bytes → Exit
  unfolding listening
  with_wasm fl life (err x) = early 1 (wasm_unreadable x)
  with_wasm fl life (ok wasm) =
      listening fl life (
        new setup.outside wasm fl.worker_script fl.shim_script fl.filter_dir fl.sock_path
          fl.workers)

  flagged : Life → Result FlagError Flags → Exit
  unfolding with_wasm
  flagged life (err Flags.help) = early 0 helped
  flagged life (err x) = early 2 (bad_flags x)
  flagged life (ok fl) = with_wasm fl life (setup.outside.read_file fl.wasm_path)

  unfoldable pub serve : Life → List Text → Exit
  unfolding flagged default_flags
  serve life args = flagged life (parse setup.parse_int args none default_flags)

  -- main, on os.Args
  unfoldable pub main : Life → List Text → Exit
  main life [] = early 1 usage
  main life (prog ∷ []) = early 1 usage
  main life (prog ∷ command ∷ args) =
      if text_eq command (codes "serve") then serve life args else early 1 (unknown_command command)
