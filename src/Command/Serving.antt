-- ===== src/Command/Serving.antt =====
-- What the requests to the server do to the engine.
use chrysalis.Base.{◌≡◌, refl, sym, ap, ◌∙◌, List, [], ◌∷◌, ◌++◌, map}
use chrysalis.Handler.{Run}
use chrysalis.Engine.{Outside, Engine, Job, execute, executes}
use chrysalis.Command.{
  Setup, Request, runs_of, job_of, after_runs, answer_at, answer, answers, route,
}

executes-append :
    (out : Outside) (xs ys : List Job) (e : Engine)
    → (executes out (xs ++ ys) e).0 ≡ (executes out ys (executes out xs e).0).0
unfolding executes
executes-append out [] ys e = refl
executes-append out (x ∷ xs) ys e = executes-append out xs ys (execute out x e).0

module _ (setup : Setup) where
  -- The runs that requests start.
  unfoldable pub jobs_of : List Request → Engine → List Job
  unfolding answer
  jobs_of [] e = []
  jobs_of (req ∷ reqs) e =
      let (e1, a) = answer setup req e in map (job_of req) (runs_of a) ++ jobs_of reqs e1

  after_runs-executes :
      (req : Request) (runs : List Run) (e : Engine)
      → after_runs setup req runs e ≡ (executes setup.outside (map (job_of req) runs) e).0
  unfolding after_runs executes
  after_runs-executes req [] e = refl
  after_runs-executes req (r ∷ runs) e =
      after_runs-executes req runs (execute setup.outside (job_of req r) e).0

  -- Requests change the engine by the runs that they start.
  pub answers-executes :
      (reqs : List Request) (e : Engine)
      → (answers setup reqs e).0 ≡ (executes setup.outside (jobs_of reqs e) e).0
  unfolding answers answer jobs_of executes
  answers-executes [] e = refl
  answers-executes (req ∷ reqs) e =
      let a = answer_at setup req e (route req.method req.path) in
      let e1 = after_runs setup req (runs_of a) e in
      answers-executes reqs e1
      ∙ ap (λ x. (executes setup.outside (jobs_of reqs e1) x).0)
          (after_runs-executes req (runs_of a) e)
      ∙ sym (executes-append setup.outside (map (job_of req) (runs_of a)) (jobs_of reqs e1) e)
