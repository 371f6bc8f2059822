-- ===== src/Command/Routes.antt =====
-- Which requests to the server start a run.
use chrysalis.Base.{
  ◌≡◌, ◌≢◌, refl, ap, ◌∙◌, ◌⊎◌, inl, inr, false, Bool-cases, [], ◌∷◌, Text, codes, text_eq,
  text_eq_iff,
}
use chrysalis.Handler.{Run, Served, new_trace_id, serve_http}
use chrysalis.Handler as Handler
use chrysalis.Handler.Answers.{IsProper, Answers, serve_http-Answers}
use chrysalis.Engine.{Engine, execute}
use chrysalis.Command.{
  Setup, Request, Route, to_run, to_health, moved, not_found, bad_request, options, Answer,
  from_handler, healthy, by_mux, route, status, runs_of, job_of, engine_of, answer_at, after_runs,
  answer,
}

-- Nothing was run and the engine stays as it is; or the request was a POST of /run, and one proper
-- run was started and answered.
abbrev pub Answered : Setup → Request → Engine → Engine × Answer → Type 0
Answered setup req e (e', a) =
    ((runs_of a ≡ []) × (e' ≡ e))
    ⊎ ((req.path ≡ codes "/run")
        × (req.method ≡ codes "POST")
        × ((run : Run) × (runs_of a ≡ run ∷ [])
            × IsProper run
            × ((status a ≡ 200) ⊎ (status a ≡ 500))
            × (e' ≡ (execute setup.outside (job_of req run) e).0)))

-- The handler answers other paths and methods without a run.
serve_http-not_post :
    (engine : Handler.Engine) (path method body : Text)
    → (text_eq path (codes "/run") ≡ false) ⊎ (text_eq method (codes "POST") ≡ false)
    → (serve_http engine path method body).runs ≡ []
unfolding serve_http
serve_http-not_post engine path method body (inl h) = rw h refl
serve_http-not_post engine path method body (inr h) =
    elim (Bool-cases (text_eq path (codes "/run"))) [ inl e ↦ rw (e, h) refl | inr e ↦ rw e refl ]

module _ (setup : Setup) (req : Request) (e : Engine) where
  after_none :
      (a : Answer) → runs_of a ≡ [] → Answered setup req e (after_runs setup req (runs_of a) e, a)
  unfolding after_runs
  after_none a h = inl (h, ap (λ rs. after_runs setup req rs e) h)

  after_served :
      (trace_id : Text) (s : Served)
      → (s.runs ≢ [] → (req.path ≡ codes "/run") × (req.method ≡ codes "POST"))
      → Answers trace_id s
      → Answered setup req e (after_runs setup req s.runs e, from_handler s)
  unfolding after_runs runs_of status
  after_served trace_id s posted (_, inl (none_run, _)) =
      inl (none_run, ap (λ rs. after_runs setup req rs e) none_run)
  after_served trace_id s posted (_, inr (run, one, proper, code)) =
      let (path, method) = posted (λ none_run. cc (one, none_run)) in
      inr (path, method, (run, one, proper, code, ap (λ rs. after_runs setup req rs e) one))

  posted :
      (s : Served)
      → s ≡ serve_http (engine_of setup req e) req.path req.method req.body
      → s.runs ≢ []
      → (req.path ≡ codes "/run") × (req.method ≡ codes "POST")
  posted s is ran = elim (Bool-cases (text_eq req.path (codes "/run"))) [
    | inr h ↦ absurd (
        ran (
          ap (λ (x : Served). x.runs) is
          ∙ serve_http-not_post (engine_of setup req e) req.path req.method req.body (inl h)))
    | inl h ↦ elim (Bool-cases (text_eq req.method (codes "POST"))) [
      | inr g ↦ absurd (
          ran (
            ap (λ (x : Served). x.runs) is
            ∙ serve_http-not_post (engine_of setup req e) req.path req.method req.body (inr g)))
      | inl g ↦ ((text_eq_iff _ _).0 h, (text_eq_iff _ _).0 g)
    ]
  ]

  answer_at-Answered :
      (r : Route)
      → Answered setup req e
          (after_runs setup req (runs_of (answer_at setup req e r)) e, answer_at setup req e r)
  unfolding answer_at runs_of
  answer_at-Answered to_run =
      let s = serve_http (engine_of setup req e) req.path req.method req.body in
      after_served (new_trace_id req.random) s (posted s refl)
        (serve_http-Answers (engine_of setup req e) req.path req.method req.body)
  answer_at-Answered to_health = after_none healthy refl
  answer_at-Answered (moved path) = after_none (by_mux (moved path)) refl
  answer_at-Answered not_found = after_none (by_mux not_found) refl
  answer_at-Answered bad_request = after_none (by_mux bad_request) refl
  answer_at-Answered options = after_none (by_mux options) refl

  -- Of a request to the server one of two things holds. It starts no run, and the engine stays as it
  -- is; or it is a POST of the path /run, spelled so, and starts one run, with a positive timeout, a
  -- filter profile, and code that is not blank and passes the safety check, which is answered with
  -- 200 or 500, and the engine changes by that run and nothing else.
  pub answer-Answered : Answered setup req e (answer setup req e)
  unfolding answer
  answer-Answered = answer_at-Answered (route req.method req.path)
