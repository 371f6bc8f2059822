-- ===== src/Engine.antt =====
-- internal/pool/pool.go: the engine, from the compiled module and the pool of workers to the runs.
pub mod Opening
pub mod Lifecycle
pub mod Tests
use chrysalis.Base.{
  ℕ, ◌/◌, ◌^◌, true, false, Bool, List, [], ◌∷◌, ◌++◌, Text, codes, Result, ok, err,
}
use chrysalis.Base.Int.{ℤ, pos}
use chrysalis.Wire.{Bytes}
use chrysalis.Filter.{Profiles}
use chrysalis.Worker.{Started, StartError}
use chrysalis.WorkerPool.{Host, Context, Opened, opened, bad_size, not_all, new_pool, close}
use chrysalis.Shm.{System}
use chrysalis.Dispatch.{Serve}
use chrysalis.Dispatch.Bridge.{BridgeCodec}
use chrysalis.Handler.{RunResult, seconds, timeout_or_30}
use chrysalis.Runs.{Site, Sandbox, Service, RunError, run}

-- What New meets outside: wazero, which numbers the modules that it compiles, the files, the pool's
-- operating system with the order in which started workers report, and what the dispatcher needs.
pub record Outside : Type 0 where
  pub instantiate_wasi : Result Text (Unit {0})
  pub compile : Bytes → Result Text ℕ
  pub read_file : Text → Result Text Text
  pub arrive : List Started → List Started
  pub site : Site
  pub system : System

pub data EngineError : Type 0 where
  wasi_failed compile_failed : Text → EngineError
  shim_unreadable : Text → Text → EngineError
  pool_failed : Opened → EngineError

-- The fields of the dispatcher that stay as they are; its cache and its pool are in Service.
pub record Dispatcher : Type 0 where
  pub compiled : ℕ
  pub shim_code : Text
  pub filter_dir : Text

-- Pool of this package. `runtime_open` until the runtime is closed.
pub record Engine : Type 0 where
  pub runtime_open : Bool
  pub dispatcher : Dispatcher
  pub service : Service

-- What a caller asks for, and what its run meets: the state of its context and the WASM instance,
-- both for the duration that the context is given, and the nanoseconds that the run takes.
pub record Job : Type 0 where
  pub code : Text
  pub filter_profile : Text
  pub timeout_sec : ℤ
  pub within : ℤ → Context
  pub instantiate : ℤ → ℕ → List Text → Sandbox
  pub elapsed : ℕ

pub record Timing : Type 0 where
  pub total_ms : ℕ
  pub exec_ms : ℕ

pub record TimedResult : Type 0 where
  pub stdout : Text
  pub stderr : Text
  pub error : Text
  pub timing : Timing

-- The script of Run: the shim, the code of the user and a flush.
unfoldable pub full_script : Text → Text → Text
full_script shim_code code =
    shim_code
    ++ (codes "\n\n# ---- user code ----\n"
        ++ (code ++ codes "\n\n# ---- flush ----\nimport sys as _sys\n_sys.stdout.flush()\n"))

unfoldable pub new_dispatcher : ℕ → Text → Text → Dispatcher
new_dispatcher compiled shim_code filter_dir = record {
  compiled = compiled;
  shim_code = shim_code;
  filter_dir = filter_dir;
}

module _ (out : Outside) where
  with_workers : Dispatcher → Opened → Result EngineError Engine
  with_workers d (opened p) = ok (record {
    runtime_open = true;
    dispatcher = d;
    service = record { pool = p; system = out.system; probe_cache = [] };
  })
  with_workers d (bad_size n) = err (pool_failed (bad_size n))
  with_workers d (not_all n e wks) = err (pool_failed (not_all n e wks))

  with_shim : ℕ → Text → Text → Text → Text → ℤ → Result Text Text → Result EngineError Engine
  unfolding with_workers new_dispatcher
  with_shim compiled script shim_path dir sock workers (err e) = err (shim_unreadable shim_path e)
  with_shim compiled script shim_path dir sock workers (ok shim) =
      with_workers (new_dispatcher compiled shim dir)
        (new_pool out.site.host out.arrive workers sock script)

  with_module : Text → Text → Text → Text → ℤ → Result Text ℕ → Result EngineError Engine
  unfolding with_shim
  with_module script shim_path dir sock workers (err e) = err (compile_failed e)
  with_module script shim_path dir sock workers (ok m) =
      with_shim m script shim_path dir sock workers (out.read_file shim_path)

  with_wasi :
      Bytes → Text → Text → Text → Text → ℤ → Result Text (Unit {0}) → Result EngineError Engine
  unfolding with_module
  with_wasi wasm script shim_path dir sock workers (err e) = err (wasi_failed e)
  with_wasi wasm script shim_path dir sock workers (ok _) =
      with_module script shim_path dir sock workers (out.compile wasm)

  -- New: the WASM bytes, the paths of the worker's script and of the shim, the directory of the
  -- profiles, the socket path and the number of workers.
  unfoldable pub new : Bytes → Text → Text → Text → Text → ℤ → Result EngineError Engine
  unfolding with_wasi
  new wasm script shim_path dir sock workers =
      with_wasi wasm script shim_path dir sock workers out.instantiate_wasi

  -- Run of the dispatcher, whose instance runs the full script.
  unfoldable pub dispatcher_run :
      Dispatcher → Job → ℤ → Service → Service × Result RunError RunResult
  unfolding full_script
  dispatcher_run d job duration svc =
      run (record out.site { filter_dir = d.filter_dir }) (job.within duration) job.filter_profile
        (job.instantiate duration d.compiled
          (codes "python3" ∷ codes "-c" ∷ full_script d.shim_code job.code ∷ []))
        svc

  timed : Engine → ℕ → Service × Result RunError RunResult → Engine × Result RunError TimedResult
  timed e elapsed (svc, err x) = (record e { service = svc }, err x)
  timed e elapsed (svc, ok r) = (
    record e { service = svc },
    ok (record {
      stdout = r.stdout;
      stderr = r.stderr;
      error = r.error;
      timing = record { total_ms = elapsed / 10 ^ 6; exec_ms = elapsed / 10 ^ 6 };
    }),
  )

  -- Run of this package.
  unfoldable pub execute : Job → Engine → Engine × Result RunError TimedResult
  unfolding timed dispatcher_run timeout_or_30 seconds
  execute job e =
      timed e job.elapsed
        (dispatcher_run e.dispatcher job (seconds (timeout_or_30 job.timeout_sec)) e.service)

  -- Runs one after the other.
  unfoldable pub executes : List Job → Engine → Engine × List (Result RunError TimedResult)
  executes [] e = (e, [])
  executes (job ∷ jobs) e =
      let (e1, r) = execute job e in let (e2, rs) = executes jobs e1 in (e2, r ∷ rs)

  unfoldable pub shut_down : Engine → Engine
  unfolding close
  shut_down e = record e {
    service = record e.service { pool = close out.site.host e.service.pool };
    runtime_open = false;
  }
