-- ===== src/Engine/Tests.antt =====
-- An engine with one worker: it opens, runs a program and closes.
use mathlib.Core.List.Perm
use chrysalis.Base.{
  ◌≡◌, refl, if◌then◌else◌, false, [], ◌∷◌, ◌++◌, codes, text_eq, none, Result, ok, err,
}
use chrysalis.Base.Int.{pos}
use chrysalis.Wire.{Bytes, frame, put_uint32, uint32, read_full}
use chrysalis.Worker.Protocol.{no_message}
use chrysalis.Worker.{Conn, recv, recv_body, read, read_conn, start}
use chrysalis.WorkerPool.{spawn, spawn_all, collect, empty_pool, new_pool}
use chrysalis.Shm.{dir}
use chrysalis.Engine.{Outside, EngineError, Engine, Job, new, executes, shut_down}
use chrysalis.Engine.Opening.{Opens, new-Opens}
use chrysalis.Engine.Lifecycle.{Lives, new-executes-Lives}

abbrev conn : Bytes → Conn
conn incoming = record { incoming = incoming; outgoing = []; outcomes = []; closed = false }

-- A worker reports that it is ready and answers one ping.
abbrev pub outside : Outside
outside = record {
  instantiate_wasi = ok tt;
  compile = λ wasm. ok 1;
  read_file = λ path. ok (codes "import sys");
  arrive = λ rs. rs;
  site = record {
    profiles = record {
      read_file = λ path. err (codes "ENOENT");
      unmarshal = λ c. err (codes "bad");
    };
    filter_dir = [];
    host = record {
      codec = record {
        marshal = λ m. ok m.type;
        unmarshal = λ b. ok (record no_message { type = b });
      };
      launch_at = λ path. record {
        listen = ok tt;
        launch = ok tt;
        accept = ok (conn (frame (codes "ready") ++ frame (codes "pong")));
      };
    };
    serve = λ args kwargs fs. fs;
    json = record {
      envelope = λ b. ok b;
      request = λ b. err (codes "bad");
      response = λ r. codes "{}";
    };
  };
  system = record {
    files = [];
    dev_shm = dir;
    temp_dir = codes "/tmp";
    pid_tag = codes "7-a1b2c3";
    shm_counter = 0;
    outcomes = [];
  };
}

abbrev fallback : Engine
fallback = record {
  runtime_open = false;
  dispatcher = record { compiled = 0; shim_code = []; filter_dir = [] };
  service = record { pool = empty_pool 0 [] []; system = outside.system; probe_cache = [] };
}

abbrev pub made : Result EngineError Engine → Engine
made (ok e) = e
made (err x) = fallback

abbrev pub one_worker : Result EngineError Engine
one_worker =
    new outside (0 ∷ 97 ∷ []) (codes "worker.py") (codes "bootstrap.py") (codes "filters")
      (codes "/tmp/s") (pos 1)

abbrev prints : Job
prints = record {
  code = codes "print(1)";
  filter_profile = codes "allow-all";
  timeout_sec = pos 0;
  within = λ d. record { done = false; takes_done = false };
  instantiate = λ d m args. record { requests = []; stderr = []; exec_error = none };
  elapsed = 2500000;
}

opens : one_worker ≡ ok (made one_worker)
unfolding new new_pool spawn_all spawn start collect empty_pool recv recv_body read read_conn frame
    put_uint32 uint32 read_full text_eq
opens = refl

-- The second of two workers does not start.
abbrev one_fails : Outside
one_fails = record outside {
  site = record outside.site {
    host = record outside.site.host {
      launch_at = λ path.
          if text_eq path (codes "/tmp/s.2")
          then record { listen = err (codes "EMFILE"); launch = ok tt; accept = err [] }
          else outside.site.host.launch_at path;
    };
  };
}

new-Opens_example :
    Opens one_fails
      (0 ∷ 97 ∷ [])
      (codes "worker.py")
      (codes "bootstrap.py")
      (codes "filters")
      (codes "/tmp/s")
      (pos 2)
      (new one_fails
        (0 ∷ 97 ∷ [])
        (codes "worker.py")
        (codes "bootstrap.py")
        (codes "filters")
        (codes "/tmp/s")
        (pos 2))
new-Opens_example =
    new-Opens one_fails (0 ∷ 97 ∷ []) (codes "worker.py") (codes "bootstrap.py") (codes "filters")
      (codes "/tmp/s") (pos 2) Perm.refl

new-executes-Lives_example :
    Lives outside
      (pos 1)
      (executes outside (prints ∷ prints ∷ []) (made one_worker)).0
      (executes outside (prints ∷ prints ∷ []) (made one_worker)).1
      (shut_down outside (executes outside (prints ∷ prints ∷ []) (made one_worker)).0)
new-executes-Lives_example =
    new-executes-Lives outside (0 ∷ 97 ∷ []) (codes "worker.py") (codes "bootstrap.py")
      (codes "filters") (codes "/tmp/s") (pos 1) (prints ∷ prints ∷ []) (made one_worker)
      (λ rs. refl) opens
