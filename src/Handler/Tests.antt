-- ===== src/Handler/Tests.antt =====
-- Runs of handler.go with a small engine.
use chrysalis.Base.{◌+◌, ◌*◌, ◌^◌, ◌≤◌, ◌≡◌, refl, true, [], ◌∷◌, arith, codes, ok}
use chrysalis.Base.Int.{pos, negsuc}
use chrysalis.Strings.{contains, has_prefix}
use chrysalis.Handler.{
  RunRequest, Engine, run_of, is_space, trim_left, trim_right, trim_space, after_last, last_line,
  new_trace_id, serve_http,
}
use chrysalis.Handler.Answers.{Answers, serve_http-Answers}
use chrysalis.Handler.Timeouts.{is_negative, run_of-durations}

last_line_of_traceback :
    last_line (codes "Traceback:\n  x\nValueError: bad \n\n") ≡ codes "ValueError: bad"
unfolding last_line trim_space trim_left trim_right is_space after_last contains has_prefix
last_line_of_traceback = refl

-- The body is the code itself.
abbrev echo : Engine
echo = record {
  random = 1 ∷ 2 ∷ 254 ∷ 0 ∷ 0 ∷ 16 ∷ [];
  decode = λ body. ok (record { code = body; filter = []; timeout_sec = negsuc 0 });
  dispatch_run = λ run. (ok (record { stdout = run.code; stderr = []; error = [] }), 7);
}

serve_http-Answers_example :
    Answers
      (new_trace_id echo.random)
      (serve_http echo (codes "/run") (codes "POST") (codes "print(1)"))
serve_http-Answers_example =
    serve_http-Answers echo (codes "/run") (codes "POST") (codes "print(1)")

abbrev slow : RunRequest
slow = record { code = codes "print(1)"; filter = []; timeout_sec = pos 10000000000 }

run_of-durations_example :
    (10000000000 ≤ 9223372031
      → ((run_of slow).inner ≡ pos (10000000000 * 10 ^ 9))
        × ((run_of slow).outer ≡ pos ((10000000000 + 5) * 10 ^ 9)))
    × (9223372037 ≤ 10000000000
        → 10000000000 ≤ 18446744068
        → (is_negative (run_of slow).inner ≡ true) × (is_negative (run_of slow).outer ≡ true))
run_of-durations_example = run_of-durations slow 10000000000 refl (omega arith)
