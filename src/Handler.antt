-- ===== src/Handler.antt =====
-- internal/handler/handler.go: the HTTP endpoint /run, and Run of internal/pool/pool.go under it.
pub mod Answers
pub mod Messages
pub mod Timeouts
mod Tests
use chrysalis.Base.{
  ℕ, zero, suc, ◌+◌, ◌-◌, ◌*◌, ◌%◌, ◌^◌, Bool, true, false, not, ◌||◌, ◌&&◌, List, [], ◌∷◌, ◌++◌,
  ◌==◌, ltb, leb, if◌then◌else◌, Text, codes, text_eq, Option, none, some, Result, ok, err,
}
use chrysalis.Base.Int.{ℤ, pos, negsuc}
use chrysalis.Strings.{contains}
use chrysalis.Wire.{Bytes}
use chrysalis.Hex.{hex_encode}
use chrysalis.Safety.{Finding, check}

pub record RunRequest : Type 0 where
  pub code : Text
  pub filter : Text
  pub timeout_sec : ℤ

-- What Run of internal/bridge/dispatcher.go returns.
pub record RunResult : Type 0 where
  pub stdout : Text
  pub stderr : Text
  pub error : Text

-- The field Error of a response, by what it is formatted from.
pub data Problem : Type 0 where
  invalid_json : Text → Problem
  code_required : Problem
  check_failed : List Finding → Problem
  run_failed : Text → Problem
  program_failed : Text → Problem

-- Both times are the milliseconds that the run took.
pub record RunResponse : Type 0 where
  pub status : Text
  pub trace_id : Text
  pub stdout : Text
  pub stderr : Text
  pub error : Option Problem
  pub total_ms : ℕ
  pub exec_ms : ℕ

abbrev pub empty_response : Text → Text → Option Problem → RunResponse
empty_response trace_id status problem = record {
  status = status;
  trace_id = trace_id;
  stdout = [];
  stderr = [];
  error = problem;
  total_ms = 0;
  exec_ms = 0;
}

-- A call of the dispatcher: its arguments, and the durations of the two contexts around it, the
-- handler's and the engine's, in nanoseconds.
pub record Run : Type 0 where
  pub code : Text
  pub filter_profile : Text
  pub timeout_sec : ℤ
  pub outer : ℤ
  pub inner : ℤ

-- The plain answer of http.Error, or a JSON response.
pub data Body : Type 0 where
  plain : Text → Body
  json : RunResponse → Body

-- What a request leads to: the status code, the body, and the runs that it starts.
pub record Served : Type 0 where
  pub status_code : ℕ
  pub body : Body
  pub runs : List Run

-- The low 64 bits of a number, signed.
wrap64 : ℕ → ℤ
wrap64 n = let r = n % 2 ^ 64 in if ltb r (2 ^ 63) then pos r else negsuc (2 ^ 64 - 1 - r)

-- `time.Duration(n)*time.Second`
unfoldable pub seconds : ℕ → ℤ
unfolding wrap64
seconds n = wrap64 (n * 10 ^ 9)

-- A timeout that is not positive counts as 30 seconds. The handler applies this before the engine.
unfoldable pub timeout_or_30 : ℤ → ℕ
timeout_or_30 (pos zero) = 30
timeout_or_30 (pos (suc n)) = suc n
timeout_or_30 (negsuc n) = 30

or_autograder : Text → Text
or_autograder [] = codes "autograder"
or_autograder (c ∷ s) = c ∷ s

-- unicode.IsSpace
unfoldable pub is_space : ℕ → Bool
is_space c =
    (leb 9 c && leb c 13)
    || (c == 32)
    || (c == 0x85)
    || (c == 0xa0)
    || (c == 0x1680)
    || (leb 0x2000 c && leb c 0x200a)
    || (c == 0x2028)
    || (c == 0x2029)
    || (c == 0x202f)
    || (c == 0x205f)
    || (c == 0x3000)

unfoldable pub trim_left : (ℕ → Bool) → Text → Text
trim_left p [] = []
trim_left p (c ∷ s) = if p c then trim_left p s else c ∷ s

keep_unless : Bool → ℕ → Text → Text
keep_unless b c [] = if b then [] else c ∷ []
keep_unless b c (d ∷ s) = c ∷ d ∷ s

unfoldable pub trim_right : (ℕ → Bool) → Text → Text
unfolding keep_unless
trim_right p [] = []
trim_right p (c ∷ s) = keep_unless (p c) c (trim_right p s)

-- TrimSpace(s)
unfoldable pub trim_space : Text → Text
unfolding trim_left trim_right is_space
trim_space s = trim_right is_space (trim_left is_space s)

-- `s[i+1:]` after the last index `i` of the character, or all of `s` where there is none
unfoldable pub after_last : ℕ → Text → Text
unfolding contains
after_last sep [] = []
after_last sep (c ∷ s) =
    let later = after_last sep s in
    if contains s (sep ∷ []) then later else if c == sep then s else c ∷ s

line_end : ℕ → Bool
line_end c = (c == b'\n') || (c == b'\r') || (c == b' ')

unfoldable pub last_line : Text → Text
unfolding trim_space after_last line_end
last_line s = trim_space (after_last b'\n' (trim_right line_end s))

unfoldable pub translate_exec_error : Text → Text → Text
unfolding last_line
translate_exec_error raw_err stderr =
    if not (text_eq (last_line stderr) [])
    then last_line stderr
    else if contains raw_err (codes "exit_code")
    then codes "Python user code exited with a non-zero status"
    else if contains raw_err (codes "context deadline exceeded")
    then codes "execution timed out"
    else raw_err

unfoldable pub run_of : RunRequest → Run
unfolding timeout_or_30 or_autograder seconds
run_of req =
    let n = timeout_or_30 req.timeout_sec in
    record {
      code = req.code;
      filter_profile = or_autograder req.filter;
      timeout_sec = pos n;
      outer = seconds (n + 5);
      inner = seconds n;
    }

-- `hex.EncodeToString(b)`, of six bytes that rand.Read gave
unfoldable pub new_trace_id : Bytes → Text
new_trace_id random = hex_encode random

-- The response to a result that came after `ms` milliseconds.
unfoldable pub run_response : Text → RunResult → ℕ → RunResponse
unfolding translate_exec_error
run_response trace_id result ms = record {
  status = if text_eq result.error [] then codes "ok" else codes "error";
  trace_id = trace_id;
  stdout = result.stdout;
  stderr = result.stderr;
  error =
      if text_eq result.error []
      then none
      else some (program_failed (translate_exec_error result.error result.stderr));
  total_ms = ms;
  exec_ms = ms;
}

finished : Text → Run → Result Text RunResult × ℕ → Served
unfolding run_response
finished trace_id run (err e, ms) = record {
  status_code = 500;
  body = json (empty_response trace_id (codes "error") (some (run_failed e)));
  runs = run ∷ [];
}
finished trace_id run (ok result, ms) = record {
  status_code = 200;
  body = json (run_response trace_id result ms);
  runs = run ∷ [];
}

-- What the handler calls: the random bytes for a request, the JSON decoder, and Run of the
-- dispatcher with the time that it takes.
pub record Engine : Type 0 where
  pub random : Bytes
  pub decode : Text → Result Text RunRequest
  pub dispatch_run : Run → Result Text RunResult × ℕ

-- writeError
refused : Text → ℕ → Text → Problem → Served
refused trace_id code status problem = record {
  status_code = code;
  body = json (empty_response trace_id status (some problem));
  runs = [];
}

module _ (engine : Engine) where
  checked : Text → RunRequest → Served
  unfolding finished run_of refused trim_space check text_eq
  checked trace_id req =
      if text_eq (trim_space req.code) []
      then refused trace_id 400 (codes "error") code_required
      else if (check req.code).safe
      then finished trace_id (run_of req) (engine.dispatch_run (run_of req))
      else refused trace_id 403 (codes "blocked") (check_failed (check req.code).blocked)

  decoded : Text → Result Text RunRequest → Served
  unfolding checked refused
  decoded trace_id (err e) = refused trace_id 400 (codes "error") (invalid_json e)
  decoded trace_id (ok req) = checked trace_id req

  unfoldable pub handle_run : Text → Served
  unfolding decoded new_trace_id
  handle_run body = decoded (new_trace_id engine.random) (engine.decode body)

  unfoldable pub serve_http : Text → Text → Text → Served
  unfolding handle_run text_eq
  serve_http path method body =
      if not (text_eq path (codes "/run")) || not (text_eq method (codes "POST"))
      then record { status_code = 404; body = plain (codes "not found"); runs = [] }
      else handle_run body
