-- ===== src/Lib.antt =====
-- Verification of chrysalis, a service that runs untrusted Python in a WASM sandbox and bridges
-- library calls to Python workers.
--
-- The program. An HTTP handler (internal/handler) checks a request and hands its code to the
-- engine (internal/pool), which runs it in a WASM instance. The code's library calls come over a
-- pipe to the dispatcher (internal/bridge/dispatcher.go), which asks the filter (internal/filter)
-- whether a function is allowed, moves arrays through shared memory (internal/bridge/shm.go) and
-- calls a worker (internal/worker/worker.go), one that the request holds from the pool of workers
-- (internal/worker/pool.go).
--
-- Which file models which part.
--   Base.antt and its children: shared names, lists, texts, dictionaries, results, integers.
--   Strings.antt, FilePath.antt, Decimal.antt: what the code uses of Go's packages strings,
--     path/filepath and fmt. A text is the list of its characters.
--   Filter.antt: internal/filter/filter.go, one definition for each function and loop. Glob,
--     Wildcard, Rules and Load hold what is proved.
--   Wire.antt: the frames of four bytes of length and a body, and ReadFull.
--   Worker.antt: internal/worker/worker.go, each method a function from the worker to the worker
--     and a result; Worker/Protocol.antt: internal/worker/protocol.go. The connection is the bytes
--     that the worker will send, the bytes written to it and the outcomes of the next writes.
--   WorkerPool.antt: internal/worker/pool.go, each operation one function on the state of the pool.
--     WorkerPool/Races.antt takes Acquire, release and Close apart into the steps between which
--     other goroutines run; Simulation, Acquiring, Releasing, Closing and Sequential below it relate
--     the two, worker by worker: WorkerPool/Hands.antt and Worker/Sockets.antt follow the sockets by
--     which the workers are told apart. WorkerPool/Starts.antt: the starts of NewPool.
--   Shm.antt: internal/bridge/shm.go and shm_unix.go, on the files of the system; Shm/Sharing.antt:
--     the managers of several requests at work on the same files; Shm/Growing.antt: what a request
--     adds to the files while it sets up its arguments; Shm/Names.antt: the names of
--     blocks; Shm/Other.antt: internal/bridge/shm_other.go. Hex.antt and Base64.antt: what the
--     package uses of Go's encoding/hex and encoding/base64.
--   Dispatch.antt: dispatch of internal/bridge/dispatcher.go and what it calls, on the worker, the
--     files and the probe cache. Dispatch/Bridge.antt: the loop of its Run that takes requests from
--     the sandbox and answers them.
--   Runs.antt: Run of internal/bridge/dispatcher.go, from the pool of workers and back to it, on what
--     the sandbox writes over its life.
--   Safety.antt: internal/safety/checker.go, the regular expression as a scan.
--   Handler.antt: internal/handler/handler.go, with the contexts of internal/pool/pool.go.
--   Engine.antt: internal/pool/pool.go: New, Run and Close. Engine/Opening and Engine/Lifecycle hold
--     what is proved of New and of a life from New to Close.
--   Flags.antt: the flags of cmd/chrysalis/main.go, with what it uses of Go's package flag.
--   Command.antt: cmd/chrysalis/main.go, with the routes of Go's ServeMux, over the engine and the
--     handler: requests one after the other, and the exit code and what is left at the end.
--
-- Fuel. matchWildcard recurs on the rest of the pattern after a star; the model runs it on the
-- length of the pattern plus one, and match_wildcard_iff holds both ways with no fuel in it, so it
-- never runs out. The bridge loop has the length of the stream plus one, since a round reads four
-- bytes or ends; the scan for imports has the length of the code, since a step moves on by a
-- character or more. The digits of a number take fuel equal to the number.
--
-- Parameters. The JSON and YAML libraries, reading a file, parsing a number, wazero, and what the
-- operating system answers to the start of a worker are arguments of the definitions. An error is a
-- constructor that carries what its message is formatted from.
--
-- The order in which Go goes through a map is that of the list that stands for it. The files that a
-- Python worker writes, the JSON of the bridge and the run of the WASM module are parameters too.
--
-- Not modelled: requests to the server that run side by side, beyond the pool of workers and the
-- shared memory, and requests still running when Shutdown is called; paths with percent signs in
-- the routes; the Python side (shim) and logging.
pub mod Base
pub mod Strings
pub mod FilePath
pub mod Decimal
pub mod Filter
pub mod Wire
pub mod Worker
pub mod WorkerPool
pub mod Shm
pub mod Hex
pub mod Base64
pub mod Dispatch
pub mod Engine
pub mod Flags
pub mod Command
pub mod Safety
pub mod Handler
pub mod Runs
