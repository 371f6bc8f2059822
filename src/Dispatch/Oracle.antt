-- ===== src/Dispatch/Oracle.antt =====
-- The probe cache against what the Python environment really has.
use chrysalis.Base.{
  ◌≡◌, refl, sym, ap, ◌∙◌, subst, ◌⊎◌, inl, inr, true, Bool-cases, Text, text_key, text_eq,
  text_eq_iff, Option, none, some, Result, ok, err, lookup, insert, lookup-insert,
}
use chrysalis.Strings.{has_suffix, trim_suffix}
use chrysalis.Filter.{Filter}
use chrysalis.Worker.Protocol.{Message, Codec}
use chrysalis.Worker.{Worker, WorkerError, probe}
use chrysalis.Dispatch.{
  BridgeRequest, BridgeResponse, World, ProbeResult, Serve, dispatch, dispatch_probe, from_cache,
  probed, probe_suffix, probe_response, refusal, worker_failed,
}
use chrysalis.Dispatch.Probes.{dispatch-probe}

-- Every entry of the cache says what `truth` says.
abbrev pub IsTrue : (Text → ProbeResult) → World → Type 0
IsTrue truth w = (t : Text) (pr : ProbeResult) → lookup t w.probe_cache ≡ some pr → pr ≡ truth t

-- The worker, if it answers the probe at all, says what `truth` says.
abbrev pub IsHonest : Codec → (Text → ProbeResult) → Text → Worker → Type 0
IsHonest codec truth target wk =
    (msg : Message)
    → (probe codec target wk).1 ≡ ok msg
    → record { is_module = msg.is_module; is_callable = msg.is_callable } ≡ truth target

abbrev pub Tells : (Text → ProbeResult) → Text → World × BridgeResponse → Type 0
Tells truth target r =
    IsTrue truth r.0
    × ((r.1 ≡ probe_response (truth target))
        ⊎ ((e : WorkerError) × (r.1 ≡ refusal (worker_failed e))))

module _ (codec : Codec) (truth : Text → ProbeResult) (target : Text) (w : World)
    (known : IsTrue truth w) where
  insert-IsTrue :
      (wk : Worker) (pr : ProbeResult)
      → pr ≡ truth target
      → IsTrue truth (record w { worker = wk; probe_cache = insert target pr w.probe_cache })
  insert-IsTrue wk pr e t q h =
      let found = sym (lookup-insert target t pr w.probe_cache) ∙ h in
      elim (Bool-cases (text_eq target t)) [
        | inl is ↦ cc (rw is at found, e, (text_eq_iff target t).0 is)
        | inr other ↦ known t q (rw other at found)
      ]

  probed-Tells :
      (r : Worker × Result WorkerError Message)
      → ((msg : Message)
          → r.1 ≡ ok msg
          → record { is_module = msg.is_module; is_callable = msg.is_callable } ≡ truth target)
      → Tells truth target (probed target w r)
  unfolding probed
  probed-Tells (wk, err e) honest = (known, inr (e, refl))
  probed-Tells (wk, ok msg) honest =
      let e = honest msg refl in (insert-IsTrue wk _ e, inl (ap probe_response e))

  from_cache-Tells :
      (o : Option ProbeResult)
      → lookup target w.probe_cache ≡ o
      → IsHonest codec truth target w.worker
      → Tells truth target (from_cache codec target w o)
  unfolding from_cache
  from_cache-Tells (some pr) hit honest = (known, inl (ap probe_response (known target pr hit)))
  from_cache-Tells none hit honest = probed-Tells (probe codec target w.worker) honest

module _ (codec : Codec) (serve : Serve) (truth : Text → ProbeResult) where
  -- When the cache is true and the worker, if it answers the probe, tells the truth: the probe is
  -- answered with the truth or with the error of the worker, and the cache stays true.
  pub dispatch-probe_Tells :
      (f : Filter) (req : BridgeRequest) (w : World)
      → has_suffix req.fn probe_suffix ≡ true
      → IsTrue truth w
      → IsHonest codec truth (trim_suffix req.fn probe_suffix) w.worker
      → Tells truth (trim_suffix req.fn probe_suffix) (dispatch codec serve f req w)
  unfolding dispatch_probe
  dispatch-probe_Tells f req w probing known honest =
      let target = trim_suffix req.fn probe_suffix in
      subst (Tells truth target) (sym (dispatch-probe codec serve f req w probing))
        (from_cache-Tells codec truth target w known (lookup target w.probe_cache) refl honest)
