-- ===== src/Flags.antt =====
-- The flags of cmd/chrysalis/main.go, and what serve uses of Go's package flag.
pub mod Settings
use chrysalis.Base.{
  ℕ, Bool, true, false, ◌||◌, List, [], ◌∷◌, ◌++◌, ◌==◌, if◌then◌else◌, Text, codes, text_eq,
  Option, none, some, Result, ok, err, ◌>>=◌,
}
use chrysalis.Base.Int.{ℤ, pos}
use chrysalis.Strings.{contains, before, after}

pub data Flag : Type 0 where
  wasm filter_dir port sock worker shim workers : Flag

-- The values of the flags.
pub record Flags : Type 0 where
  pub wasm_path : Text
  pub filter_dir : Text
  pub port : ℤ
  pub sock_path : Text
  pub worker_script : Text
  pub shim_script : Text
  pub workers : ℤ

unfoldable pub default_flags : Flags
default_flags = record {
  wasm_path = codes "wasm/python.wasm";
  filter_dir = codes "filters";
  port = pos 8080;
  sock_path = codes "/tmp/chrysalis_worker.sock";
  worker_script = codes "shim/worker.py";
  shim_script = codes "shim/bootstrap.py";
  workers = pos 4;
}

unfoldable pub flag_of : Text → Option Flag
flag_of s =
    if text_eq s (codes "wasm")
    then some wasm
    else if text_eq s (codes "filter-dir")
    then some filter_dir
    else if text_eq s (codes "port")
    then some port
    else if text_eq s (codes "sock")
    then some sock
    else if text_eq s (codes "worker")
    then some worker
    else if text_eq s (codes "shim")
    then some shim
    else if text_eq s (codes "workers")
    then some workers
    else none

pub data FlagError : Type 0 where
  help : FlagError
  bad_syntax not_defined : Text → FlagError
  needs_argument : Flag → FlagError
  invalid_value : Flag → Text → FlagError

-- What an argument is: the end of the flags, or a flag that may carry its value after an `=`.
pub data Word : Type 0 where
  ends : Word
  malformed : Text → Word
  names : Text → Option Text → Word

named : Text → Text → Word
named word [] = malformed word
named word (c ∷ name) =
    if (c == b'-') || (c == b'=')
    then malformed word
    else if contains (c ∷ name) (codes "=")
    then names (before b'=' (c ∷ name)) (some (after b'=' (c ∷ name)))
    else names (c ∷ name) none

after_dashes : Text → Text → Word
unfolding named
after_dashes word [] = ends
after_dashes word (c ∷ s) = named word (c ∷ s)

unfoldable pub word_of : Text → Word
unfolding named after_dashes
word_of [] = ends
word_of (c ∷ []) = ends
word_of (c ∷ d ∷ s) =
    if c == b'-'
    then (if d == b'-' then after_dashes (c ∷ d ∷ s) s else named (c ∷ d ∷ s) (d ∷ s))
    else ends

unknown : Text → FlagError
unknown name =
    if text_eq name (codes "help") || text_eq name (codes "h") then help else not_defined name

module _ (parse_int : Text → Option ℤ) where
  as_int : Flag → Text → (ℤ → Flags) → Option ℤ → Result FlagError Flags
  as_int f v put none = err (invalid_value f v)
  as_int f v put (some n) = ok (put n)

  -- Set of a string flag and of an int flag
  unfoldable pub set : Flag → Text → Flags → Result FlagError Flags
  unfolding as_int
  set wasm v fl = ok (record fl { wasm_path = v })
  set filter_dir v fl = ok (record fl { filter_dir = v })
  set port v fl = as_int port v (λ n. record fl { port = n }) (parse_int v)
  set sock v fl = ok (record fl { sock_path = v })
  set worker v fl = ok (record fl { worker_script = v })
  set shim v fl = ok (record fl { shim_script = v })
  set workers v fl = as_int workers v (λ n. record fl { workers = n }) (parse_int v)

  -- One flag: with its value, or waiting for the next argument. `go` reads the arguments after it.
  with_value :
      (Option Flag → Flags → Result FlagError Flags)
      → Text
      → Option Text
      → Option Flag
      → Flags
      → Result FlagError Flags
  with_value go name v none fl = err (unknown name)
  with_value go name none (some f) fl = go (some f) fl
  with_value go name (some v) (some f) fl = set f v fl >>= go none

  on_word : (Option Flag → Flags → Result FlagError Flags) → Word → Flags → Result FlagError Flags
  unfolding with_value flag_of unknown
  on_word go ends fl = ok fl
  on_word go (malformed word) fl = err (bad_syntax word)
  on_word go (names name v) fl = with_value go name v (flag_of name) fl

  -- Parse: an argument is the value of the flag that waits for it, or a word of its own.
  unfoldable pub parse : List Text → Option Flag → Flags → Result FlagError Flags
  unfolding on_word
  parse [] none fl = ok fl
  parse [] (some f) fl = err (needs_argument f)
  parse (v ∷ args) (some f) fl = set f v fl >>= parse args none
  parse (a ∷ args) none fl = on_word (parse args) (word_of a) fl
