-- ===== src/Handler/Answers.antt =====
-- Which requests are run, and with which status codes they are answered.
use chrysalis.Base.{
  ℕ, zero, suc, ◌<◌, ◌≡◌, ◌⊎◌, inl, inr, refl, true, false, not, ◌||◌, [], ◌∷◌, Bool-cases, arith,
  Text, codes, text_eq, Result, ok, err,
}
use chrysalis.Base.Int.{ℤ, pos, negsuc}
use chrysalis.Safety.{check}
use chrysalis.Handler.{
  RunRequest, RunResult, Run, Served, Engine, timeout_or_30, or_autograder, run_of, trim_space,
  Body, plain, json, new_trace_id, run_response, finished, refused, checked, decoded, handle_run,
  serve_http,
}

-- A run that the handler may start.
pub record IsProper (run : Run) : Type 0 where
  pub seconds_given : ℕ
  pub timeout : run.timeout_sec ≡ pos seconds_given
  pub positive : 0 < seconds_given
  pub profile : text_eq run.filter_profile [] ≡ false
  pub not_blank : text_eq (trim_space run.code) [] ≡ false
  pub passes : (check run.code).safe ≡ true

-- A JSON response carries the trace id.
abbrev pub Traced : Text → Body → Type 0
Traced trace_id (plain t) = Unit {0}
Traced trace_id (json r) = r.trace_id ≡ trace_id

-- Nothing was run, and the request was refused; or one proper run was started, and answered.
abbrev pub Answers : Text → Served → Type 0
Answers trace_id s =
    Traced trace_id s.body
    × (((s.runs ≡ []) × ((s.status_code ≡ 404) ⊎ ((s.status_code ≡ 400) ⊎ (s.status_code ≡ 403))))
        ⊎ ((run : Run) × (s.runs ≡ run ∷ [])
            × IsProper run
            × ((s.status_code ≡ 200) ⊎ (s.status_code ≡ 500))))

timeout_positive : (t : ℤ) → 0 < timeout_or_30 t
unfolding timeout_or_30
timeout_positive (pos zero) = omega arith
timeout_positive (pos (suc n)) = omega arith
timeout_positive (negsuc n) = omega arith

profile_given : (s : Text) → text_eq (or_autograder s) [] ≡ false
unfolding or_autograder text_eq
profile_given [] = refl
profile_given (c ∷ s) = refl

run_of-IsProper :
    (req : RunRequest)
    → text_eq (trim_space req.code) [] ≡ false
    → (check req.code).safe ≡ true
    → IsProper (run_of req)
unfolding run_of
run_of-IsProper req filled safe = record {
  seconds_given = timeout_or_30 req.timeout_sec;
  timeout = refl;
  positive = timeout_positive req.timeout_sec;
  profile = profile_given req.filter;
  not_blank = filled;
  passes = safe;
}

finished-Answers :
    (t : Text) (run : Run) (r : Result Text RunResult × ℕ)
    → IsProper run
    → Answers t (finished t run r)
unfolding finished run_response
finished-Answers t run (ok result, ms) proper = (refl, inr (run, refl, proper, inl refl))
finished-Answers t run (err e, ms) proper = (refl, inr (run, refl, proper, inr refl))

module _ (engine : Engine) where
  checked-Answers : (t : Text) (req : RunRequest) → Answers t (checked engine t req)
  unfolding checked refused
  checked-Answers t req = elim (Bool-cases (text_eq (trim_space req.code) [])) [
    | inl blank ↦ rw blank (refl, inl (refl, inr (inl refl)))
    | inr filled ↦ elim (Bool-cases (check req.code).safe) [
      | inr unsafe ↦ rw (filled, unsafe) (refl, inl (refl, inr (inr refl)))
      | inl safe ↦
          rw (filled, safe)
            (finished-Answers t (run_of req) (engine.dispatch_run (run_of req))
              (run_of-IsProper req filled safe))
    ]
  ]

  decoded-Answers : (t : Text) (r : Result Text RunRequest) → Answers t (decoded engine t r)
  unfolding decoded refused
  decoded-Answers t (err e) = (refl, inl (refl, inr (inl refl)))
  decoded-Answers t (ok req) = checked-Answers t req

  -- Every request is answered in one of two ways. Nothing was run and the status is 404, 400 or 403;
  -- or exactly one run was started and the status is 200 or 500, and that run has a positive timeout,
  -- a filter profile that is not empty, and code that is not blank and passes the safety check. A
  -- JSON response carries the trace id that was made for the request.
  pub serve_http-Answers :
      (path method body : Text)
      → Answers (new_trace_id engine.random) (serve_http engine path method body)
  unfolding serve_http handle_run
  serve_http-Answers path method body =
      elim (Bool-cases (not (text_eq path (codes "/run")) || not (text_eq method (codes "POST")))) [
        | inl other ↦ rw other (tt, inl (refl, inl refl))
        | inr run ↦ rw run (decoded-Answers (new_trace_id engine.random) (engine.decode body))
      ]
