-- ===== src/Dispatch/Probes.antt =====
-- The probe cache: an answered probe is answered from it.
use chrysalis.Base.{
  ◌≡◌, refl, sym, ap, ◌∙◌, true, Text, text_key, text_eq_refl, Option, none, some, Result, ok, err,
  lookup, lookup-insert,
}
use chrysalis.Strings.{has_suffix, trim_suffix}
use chrysalis.Filter.{Filter}
use chrysalis.Worker.Protocol.{Message, Codec}
use chrysalis.Worker.{Worker, WorkerError, probe}
use chrysalis.Dispatch.{
  BridgeRequest, World, ProbeResult, Serve, dispatch, dispatch_probe, from_cache, probed,
  probe_suffix, probe_response,
}

module _ (codec : Codec) (serve : Serve) where
  -- An answered probe is in the cache.
  probed_again :
      (target : Text) (w : World) (r : Worker × Result WorkerError Message)
      → (probed target w r).1.error ≡ none
      → (q : ProbeResult) × (lookup target (probed target w r).0.probe_cache ≡ some q)
        × ((probed target w r).1 ≡ probe_response q)
  unfolding probed
  probed_again target w (wk, err e) h = cc
  probed_again target w (wk, ok msg) h =
      let pr : ProbeResult = record { is_module = msg.is_module; is_callable = msg.is_callable } in
      (pr, lookup-insert target target pr w.probe_cache ∙ rw (text_eq_refl target), refl)

  from_cache_again :
      (target : Text) (w : World) (o : Option ProbeResult)
      → lookup target w.probe_cache ≡ o
      → (from_cache codec target w o).1.error ≡ none
      → (q : ProbeResult) × (lookup target (from_cache codec target w o).0.probe_cache ≡ some q)
        × ((from_cache codec target w o).1 ≡ probe_response q)
  unfolding from_cache
  from_cache_again target w (some pr) e h = (pr, e, refl)
  from_cache_again target w none e h = probed_again target w (probe codec target w.worker) h

  cached :
      (target : Text) (v : World) (q : ProbeResult)
      → lookup target v.probe_cache ≡ some q
      → dispatch_probe codec target v ≡ (v, probe_response q)
  unfolding dispatch_probe from_cache
  cached target v q hit = rw hit

  pub dispatch-probe :
      (f : Filter) (req : BridgeRequest) (w : World)
      → has_suffix req.fn probe_suffix ≡ true
      → dispatch codec serve f req w ≡ dispatch_probe codec (trim_suffix req.fn probe_suffix) w
  unfolding dispatch
  dispatch-probe f req w probing = rw probing

  -- A probe that was answered is answered the same way as long as the cache is the one left behind,
  -- under every filter, by any worker and whatever happens to the files: the worker hears nothing of
  -- it, and nothing changes.
  pub dispatch-probe_cached :
      (f g : Filter) (req : BridgeRequest) (w v : World)
      → has_suffix req.fn probe_suffix ≡ true
      → (dispatch codec serve f req w).1.error ≡ none
      → v.probe_cache ≡ (dispatch codec serve f req w).0.probe_cache
      → dispatch codec serve g req v ≡ (v, (dispatch codec serve f req w).1)
  unfolding dispatch_probe
  dispatch-probe_cached f g req w v probing answered same =
      let target = trim_suffix req.fn probe_suffix in
      let first = dispatch-probe f req w probing in
      let (q, hit, e) =
        from_cache_again target w _ refl (ap (λ r. r.1.error) (sym first) ∙ answered) in
      let hit_again = ap (lookup target) (same ∙ ap (λ r. r.0.probe_cache) first) ∙ hit in
      dispatch-probe g req v probing
      ∙ cached target v q hit_again
      ∙ ap (λ r. (v, r)) (sym (ap (λ r. r.1) first ∙ e))
