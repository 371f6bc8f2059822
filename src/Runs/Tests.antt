-- ===== src/Runs/Tests.antt =====
-- A run with one worker.
use chrysalis.Base.{◌≡◌, refl, false, [], ◌∷◌, arith, codes, text_eq, none, some, ok, err}
use chrysalis.Wire.{Bytes, frame, put_uint32, uint32, read_full}
use chrysalis.Worker.Protocol.{no_message}
use chrysalis.Worker.{
  Conn, new_worker, ping, send, recv, recv_body, read, write, read_conn, write_conn, write_frame,
}
use chrysalis.WorkerPool.{Context, acquire, rounds}
use chrysalis.Shm.{dir}
use chrysalis.Dispatch.Bridge.{bridge}
use chrysalis.Runs.{Site, Sandbox, Service, choose_filter, exec_message, run}
use chrysalis.Runs.Slots.{SameSlots, run-SameSlots}
use chrysalis.Strings.{contains, has_prefix}

exit_zero : exec_message (some (codes "module closed with exit_code(0)")) ≡ []
unfolding exec_message contains has_prefix
exit_zero = refl

abbrev conn : Bytes → Conn
conn incoming = record { incoming = incoming; outgoing = []; outcomes = []; closed = false }

abbrev site : Site
site = record {
  profiles = record {
    read_file = λ path. err (codes "ENOENT");
    unmarshal = λ c. err (codes "bad");
  };
  filter_dir = codes "filters";
  host = record {
    codec = record {
      marshal = λ m. ok m.type;
      unmarshal = λ b. ok (record no_message { type = b });
    };
    launch_at = λ path. record { listen = err []; launch = err []; accept = err [] };
  };
  serve = λ args kwargs fs. fs;
  json = record {
    envelope = λ b. ok b;
    request = λ b. err (codes "bad");
    response = λ r. codes "{}";
  };
}

abbrev quiet : Sandbox
quiet = record { requests = []; stderr = codes "warning"; exec_error = none }

abbrev one_worker : Service
one_worker = record {
  pool = record {
    idle = new_worker (codes "/tmp/s.1") (codes "worker.py") (conn (frame (codes "pong"))) ∷ [];
    capacity = 1;
    sock_dir = codes "/tmp";
    sock_base_name = codes "s";
    worker_script = codes "worker.py";
    next_sock_id = 1;
    closed = false;
    stopped = [];
  };
  system = record {
    files = [];
    dev_shm = dir;
    temp_dir = codes "/tmp";
    pid_tag = codes "7-a1b2c3";
    shm_counter = 0;
    outcomes = [];
  };
  probe_cache = [];
}

abbrev calm : Context
calm = record { done = false; takes_done = false }

run-SameSlots_example :
    SameSlots one_worker.pool (run site calm (codes "allow-all") quiet one_worker).0.pool
unfolding run choose_filter text_eq acquire rounds ping send recv recv_body read write read_conn
    write_conn write_frame frame put_uint32 uint32 read_full exec_message bridge
run-SameSlots_example =
    run-SameSlots site calm (codes "allow-all") quiet one_worker
      (record { stdout = []; stderr = codes "warning"; error = [] }) refl (omega arith) refl
