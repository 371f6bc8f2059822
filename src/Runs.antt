-- ===== src/Runs.antt =====
-- Run of internal/bridge/dispatcher.go: one worker of the pool for all requests of one program.
pub mod Slots
pub mod Kept
pub mod Closed
mod Tests
use chrysalis.Base.{
  Bool, true, false, ◌||◌, List, [], ◌∷◌, if◌then◌else◌, Text, codes, text_eq, Option, none, some,
  Result, ok, err,
}
use chrysalis.Strings.{contains}
use chrysalis.Wire.{Bytes}
use chrysalis.Filter.{Filter, Profiles, LoadError, load_filter, allow_all}
use chrysalis.Worker.{Worker}
use chrysalis.WorkerPool.{
  Pool, Host, Context, Acquired, got, pool_closed, cancelled, gave_up, waits, nil_worker,
  spawn_failed, acquire, release,
}
use chrysalis.Shm.{System}
use chrysalis.Dispatch.{ProbeResult, Serve}
use chrysalis.Dispatch.Bridge.{BridgeCodec, Session, Ending, bridge}
use chrysalis.Handler.{RunResult}

-- What Run needs beside the request: the profiles, and what lies behind the pool and the bridge.
pub record Site : Type 0 where
  pub profiles : Profiles
  pub filter_dir : Text
  pub host : Host
  pub serve : Serve
  pub json : BridgeCodec

-- The WASM instance: what it writes to its standard output over its life and to its standard error,
-- and the error that it ends with.
pub record Sandbox : Type 0 where
  pub requests : Bytes
  pub stderr : Text
  pub exec_error : Option Text

-- What outlives a run.
pub record Service : Type 0 where
  pub pool : Pool
  pub system : System
  pub probe_cache : List (Text × ProbeResult)

pub data RunError : Type 0 where
  load_failed : LoadError → RunError
  not_acquired : Acquired → RunError

unfoldable pub choose_filter : Profiles → Text → Text → Result LoadError Filter
choose_filter io dir profile =
    if text_eq profile [] || text_eq profile (codes "allow-all")
    then ok allow_all
    else load_filter io dir profile

-- CPython exits with 0 on success, which is no error.
unfoldable pub exec_message : Option Text → Text
exec_message none = []
exec_message (some e) = if contains e (codes "exit_code(0)") then [] else e

module _ (site : Site) where
  -- The deferred release comes last.
  released : Sandbox → Pool → Session × Ending → Service × Result RunError RunResult
  unfolding exec_message
  released sandbox p (t, ending) = (
    record {
      pool = release site.host p t.world.worker;
      system = t.world.system;
      probe_cache = t.world.probe_cache;
    },
    ok (record {
      stdout = t.stdout;
      stderr = sandbox.stderr;
      error = exec_message sandbox.exec_error;
    }),
  )

  opening : Service → Worker → Session
  opening svc wk = record {
    world = record { worker = wk; system = svc.system; probe_cache = svc.probe_cache };
    answers = [];
    stdout = [];
  }

  acquired : Sandbox → Service → Filter → Pool × Acquired → Service × Result RunError RunResult
  unfolding released opening
  acquired sandbox svc f (p, got wk) =
      released sandbox p
        (bridge site.json site.host.codec site.serve f sandbox.requests (opening svc wk))
  acquired sandbox svc f (p, pool_closed) =
      (record svc { pool = p }, err (not_acquired pool_closed))
  acquired sandbox svc f (p, cancelled) = (record svc { pool = p }, err (not_acquired cancelled))
  acquired sandbox svc f (p, gave_up) = (record svc { pool = p }, err (not_acquired gave_up))
  acquired sandbox svc f (p, waits) = (record svc { pool = p }, err (not_acquired waits))
  acquired sandbox svc f (p, nil_worker) = (record svc { pool = p }, err (not_acquired nil_worker))
  acquired sandbox svc f (p, spawn_failed e) =
      (record svc { pool = p }, err (not_acquired (spawn_failed e)))

  filtered :
      Context → Sandbox → Service → Result LoadError Filter → Service × Result RunError RunResult
  unfolding acquired
  filtered ctx sandbox svc (err e) = (svc, err (load_failed e))
  filtered ctx sandbox svc (ok f) = acquired sandbox svc f (acquire site.host ctx svc.pool)

  unfoldable pub run : Context → Text → Sandbox → Service → Service × Result RunError RunResult
  unfolding filtered choose_filter
  run ctx profile sandbox svc =
      filtered ctx sandbox svc (choose_filter site.profiles site.filter_dir profile)
