-- ===== src/Command/Exits.antt =====
-- How the process ends, and what becomes of the workers.
use mathlib.Core.List.{Perm}
use chrysalis.Base.{
  ◌≡◌, refl, sym, subst, inl, inr, false, Bool-cases, List, [], ◌∷◌, length, length-Perm, drop, ◌≤◌,
  arith, Text, codes, text_eq, none, some, Result, ok, err,
}
use chrysalis.Wire.{Bytes}
use chrysalis.Worker.{Started}
use chrysalis.Engine.{EngineError, Engine, new, executes, shut_down}
use chrysalis.Engine.Opening.{Opens, new-Opens}
use chrysalis.Engine.Lifecycle.{Lives, new-executes-Lives}
use chrysalis.Command.Serving.{jobs_of, answers-executes}
use chrysalis.Flags.{Flags, FlagError, default_flags, parse}
use chrysalis.Flags as Flags
use chrysalis.Command.{
  Setup, answers, Life, ServerEnd, server_closed, fails, Reason, usage, helped, unknown_command,
  bad_flags, wasm_unreadable, server_failed, init_failed, stopped, Exit, address_of, ended,
  listening, with_wasm, flagged, serve, main,
}

module _ (setup : Setup) where
  -- The flags that the arguments of the process give.
  abbrev pub Reads : List Text → Flags → Type 0
  Reads args fl = parse setup.parse_int (drop 2 args) none default_flags ≡ ok fl

  -- An engine that New made with the flags, and that answered the requests of a life.
  pub record IsServed (fl : Flags) (life : Life) (x : Exit) : Type 0 where
    pub wasm : Bytes
    pub wasm_read : setup.outside.read_file fl.wasm_path ≡ ok wasm
    pub engine : Engine
    pub made :
        new setup.outside wasm fl.worker_script fl.shim_script fl.filter_dir fl.sock_path fl.workers
        ≡ ok engine
    pub listened : x.address ≡ some (address_of fl.port)
    pub all_answered : x.answered ≡ (answers setup life.requests engine).1

  abbrev pub EndsAs : Life → List Text → Exit → Reason → Type 0
  EndsAs life args x usage = (x.code ≡ 1) × (x.engine ≡ none) × (length args ≤ 1)
  EndsAs life args x (unknown_command c) =
      (x.code ≡ 1)
      × (x.engine ≡ none)
      × (text_eq c (codes "serve") ≡ false)
      × ((prog : Text) × (rest : List Text) × (args ≡ prog ∷ c ∷ rest))
  EndsAs life args x helped =
      (x.code ≡ 0)
      × (x.engine ≡ none)
      × (parse setup.parse_int (drop 2 args) none default_flags ≡ err Flags.help)
  EndsAs life args x (bad_flags e) =
      (x.code ≡ 2)
      × (x.engine ≡ none)
      × (parse setup.parse_int (drop 2 args) none default_flags ≡ err e)
  EndsAs life args x (wasm_unreadable e) =
      (x.code ≡ 1)
      × (x.engine ≡ none)
      × ((fl : Flags) × Reads args fl × (setup.outside.read_file fl.wasm_path ≡ err e))
  EndsAs life args x (init_failed e) =
      (x.code ≡ 1)
      × (x.engine ≡ none)
      × ((fl : Flags) × Reads args fl
          × (wasm : Bytes) × Opens setup.outside wasm fl.worker_script fl.shim_script fl.filter_dir
              fl.sock_path fl.workers (err e))
  EndsAs life args x (server_failed e) =
      (x.code ≡ 1)
      × (life.server_end ≡ fails e)
      × ((fl : Flags) × Reads args fl
          × (s : IsServed fl life x) × (x.engine ≡ some (answers setup life.requests s.engine).0))
  EndsAs life args x stopped =
      (x.code ≡ 0)
      × (life.server_end ≡ server_closed)
      × ((fl : Flags) × Reads args fl
          × (s : IsServed fl life x) × ((f : Engine) × (x.engine ≡ some f)
              × Lives setup.outside fl.workers (answers setup life.requests s.engine).0
                  (executes setup.outside (jobs_of setup life.requests s.engine) s.engine).1 f))

  module _ (life : Life) (prog command : Text) (args : List Text)
      (arrives : (rs : List Started) → Perm (setup.outside.arrive rs) rs) where
    abbrev Ends : Exit → Type 0
    Ends x = EndsAs life (prog ∷ command ∷ args) x x.reason

    abbrev served :
        {x : Exit} (fl : Flags) (wasm : Bytes) (e : Engine)
        → setup.outside.read_file fl.wasm_path ≡ ok wasm
        → new setup.outside wasm fl.worker_script fl.shim_script fl.filter_dir fl.sock_path
            fl.workers
          ≡ ok e
        → x.address ≡ some (address_of fl.port)
        → x.answered ≡ (answers setup life.requests e).1
        → IsServed fl life x
    served fl wasm e file made listened answered = record {
      wasm = wasm;
      wasm_read = file;
      engine = e;
      made = made;
      listened = listened;
      all_answered = answered;
    }

    ended-Ends :
        (fl : Flags) (wasm : Bytes) (e : Engine) (how : ServerEnd)
        → Reads (prog ∷ command ∷ args) fl
        → setup.outside.read_file fl.wasm_path ≡ ok wasm
        → new setup.outside wasm fl.worker_script fl.shim_script fl.filter_dir fl.sock_path
            fl.workers
          ≡ ok e
        → life.server_end ≡ how
        → Ends (ended setup (address_of fl.port) (answers setup life.requests e) how)
    unfolding ended
    ended-Ends fl wasm e server_closed reads file made how =
        let lives =
          new-executes-Lives setup.outside wasm fl.worker_script fl.shim_script fl.filter_dir
            fl.sock_path fl.workers (jobs_of setup life.requests e) e
            (λ rs. length-Perm (arrives rs)) made in
        let f = shut_down setup.outside (answers setup life.requests e).0 in
        (
          refl,
          how,
          (
            fl,
            reads,
            served fl wasm e file made refl refl,
            (
              f,
              refl,
              subst
                  (λ x.
                    Lives setup.outside fl.workers x
                      (executes setup.outside (jobs_of setup life.requests e) e).1
                      (shut_down setup.outside x))
                  (sym (answers-executes setup life.requests e)) lives,
            ),
          ),
        )
    ended-Ends fl wasm e (fails t) reads file made how =
        (refl, how, (fl, reads, served fl wasm e file made refl refl, refl))

    listening-Ends :
        (fl : Flags) (wasm : Bytes) (r : Result EngineError Engine)
        → Reads (prog ∷ command ∷ args) fl
        → setup.outside.read_file fl.wasm_path ≡ ok wasm
        → new setup.outside wasm fl.worker_script fl.shim_script fl.filter_dir fl.sock_path
            fl.workers
          ≡ r
        → Ends (listening setup fl life r)
    unfolding listening
    listening-Ends fl wasm (ok e) reads file made =
        ended-Ends fl wasm e life.server_end reads file made refl
    listening-Ends fl wasm (err x) reads file made = (
      refl,
      refl,
      (
        fl,
        reads,
        wasm,
        subst
            (Opens setup.outside wasm fl.worker_script fl.shim_script fl.filter_dir fl.sock_path
              fl.workers)
            made
            (new-Opens setup.outside wasm fl.worker_script fl.shim_script fl.filter_dir fl.sock_path
              fl.workers arrives),
      ),
    )

    with_wasm-Ends :
        (fl : Flags) (r : Result Text Bytes)
        → Reads (prog ∷ command ∷ args) fl
        → setup.outside.read_file fl.wasm_path ≡ r
        → Ends (with_wasm setup fl life r)
    unfolding with_wasm
    with_wasm-Ends fl (err x) reads file = (refl, refl, (fl, reads, file))
    with_wasm-Ends fl (ok wasm) reads file =
        listening-Ends fl wasm
          (new setup.outside wasm fl.worker_script fl.shim_script fl.filter_dir fl.sock_path
            fl.workers)
          reads file refl

    flagged-Ends :
        (r : Result FlagError Flags)
        → parse setup.parse_int args none default_flags ≡ r
        → Ends (flagged setup life r)
    unfolding flagged
    flagged-Ends (err Flags.help) h = (refl, refl, h)
    flagged-Ends (err (Flags.bad_syntax w)) h = (refl, refl, h)
    flagged-Ends (err (Flags.not_defined w)) h = (refl, refl, h)
    flagged-Ends (err (Flags.needs_argument f)) h = (refl, refl, h)
    flagged-Ends (err (Flags.invalid_value f v)) h = (refl, refl, h)
    flagged-Ends (ok fl) h = with_wasm-Ends fl (setup.outside.read_file fl.wasm_path) h refl

    main-Ends_command : Ends (main setup life (prog ∷ command ∷ args))
    unfolding main serve
    main-Ends_command = elim (Bool-cases (text_eq command (codes "serve"))) [
      | inl e ↦ rw e (flagged-Ends (parse setup.parse_int args none default_flags) refl)
      | inr e ↦ rw e (refl, refl, e, (prog, args, refl))
    ]

  -- Provided that the start results arrive in some order, each once: for every command line and every
  -- life of the server, by the reason for which the process ends. Without a command, or with another
  -- than serve, the code is 1; help gives 0 and bad flags give 2; a WASM file that cannot be read and
  -- an engine that New refuses give 1, and when not all workers started, those of the starts that went
  -- well, all of them, have been shut down. When the server fails the
  -- code is 1 and the engine is left as the requests have left it. When the server was closed the
  -- code is 0, and the pool has been closed: at least as many workers as the flags ask for have been
  -- stopped, all of them have ended, and none is idle.
  pub main-EndsAs :
      (life : Life) (args : List Text)
      → ((rs : List Started) → Perm (setup.outside.arrive rs) rs)
      → EndsAs life args (main setup life args) (main setup life args).reason
  unfolding main
  main-EndsAs life [] arrives = (refl, refl, omega arith)
  main-EndsAs life (prog ∷ []) arrives = (refl, refl, omega arith)
  main-EndsAs life (prog ∷ command ∷ args) arrives =
      main-Ends_command life prog command args arrives
