-- ===== src/Dispatch/Refusals.antt =====
-- Requests that dispatch refuses before the worker hears of them.
use chrysalis.Base.{
  ◌≡◌, refl, ap, ◌∙◌, true, false, List, [], ◌∷◌, Text, text_key, Result, ok, err, Some,
}
use chrysalis.Strings.{has_suffix}
use chrysalis.Strings.Search.{Lacks}
use chrysalis.Filter.{Filter, FilterConfig, star, allow, compile}
use chrysalis.Filter.Rules.{deny_wins}
use chrysalis.Worker.Protocol.{Arg, Codec, kind_ndarray}
use chrysalis.Worker.{Worker}
use chrysalis.Shm.{Shm, new_manager}
use chrysalis.Dispatch.{
  BridgeRequest, DispatchError, not_allowed, refusal, World, Serve, called, resolve_all,
  resolve_args, dispatch, dispatch_call, probe_suffix,
}
use chrysalis.Dispatch.Arrays.{resolve_arg-new_manager}
use chrysalis.Dispatch.{refusal, unknown_handle, not_allowed, resolve_arg, proceed, Step}

abbrev error_or {ℓ} : {A : Type ℓ} → DispatchError → Result DispatchError A → DispatchError
error_or d (ok a) = d
error_or d (err e) = e

proceed-err :
    {A B : Type 0} (p : Shm × Result DispatchError A) (f : A → Step B) (e : DispatchError)
    → p.1 ≡ err e
    → (proceed p f).1 ≡ err e
proceed-err (s, ok a) f e h = cc
proceed-err (s, err d) f e h = ap err (ap (error_or d) h)

args_err :
    (a : Arg) (rest : List Arg) (s : Shm) (e : DispatchError)
    → (resolve_arg a s).1 ≡ err e
    → (resolve_args (a ∷ rest) s).1 ≡ err e
unfolding resolve_args
args_err a rest s e failed = proceed-err (resolve_arg a s) _ e failed

-- The error of the first argument is the error of all.
resolve_all-err :
    (req : BridgeRequest) (s : Shm) (a : Arg) (rest : List Arg) (e : DispatchError)
    → req.args ≡ a ∷ rest
    → (resolve_arg a s).1 ≡ err e
    → (resolve_all req s).1 ≡ err e
unfolding resolve_all
resolve_all-err req s a rest e first failed =
    proceed-err (resolve_args req.args s) _ e
      (ap (λ l. (resolve_args l s).1) first ∙ args_err a rest s e failed)

module _ (codec : Codec) (serve : Serve) where
  -- A function without a star in its name that is no probe and stands in the deny list of the
  -- profile: dispatch answers "not allowed", and the worker, the files and the cache stay as they
  -- were.
  pub dispatch_denied :
      (profile : Text) (cfg : FilterConfig) (req : BridgeRequest) (w : World)
      → has_suffix req.fn probe_suffix ≡ false
      → Lacks star req.fn
      → Some (λ entry. entry ≡ req.fn) cfg.deny
      → dispatch codec serve (compile profile cfg) req w
        ≡ (w, refusal (not_allowed req.fn (compile profile cfg).profile_name))
  unfolding dispatch
  dispatch_denied profile cfg req w calling bare listed =
      rw (calling, deny_wins profile cfg req.fn bare listed)

  called-err :
      (fn : Text) (wk : Worker) (r : Shm × Result DispatchError (List Arg × List (Text × Arg)))
      (e : DispatchError)
      → r.1 ≡ err e
      → ((called codec serve fn wk r).0 ≡ wk) × ((called codec serve fn wk r).2 ≡ refusal e)
  unfolding called
  called-err fn wk (s, ok a) e h = cc
  called-err fn wk (s, err d) e h = (refl, ap refusal (ap (error_or d) h))

  -- A permitted call whose first argument is an array that is not sent inline: the response is the
  -- error "unknown shm handle" with the handle of that array, and the worker hears nothing.
  pub dispatch-unknown_handle :
      (f : Filter) (req : BridgeRequest) (w : World) (a : Arg) (rest : List Arg)
      → has_suffix req.fn probe_suffix ≡ false
      → allow f req.fn ≡ true
      → req.args ≡ a ∷ rest
      → a.kind ≡ kind_ndarray
      → a.b64 ≡ []
      → ((dispatch codec serve f req w).0.worker ≡ w.worker)
        × ((dispatch codec serve f req w).1 ≡ refusal (unknown_handle a.shm_handle))
  unfolding dispatch dispatch_call
  dispatch-unknown_handle f req w a rest calling granted first kind b64 =
      let start : Shm = record { sys = w.system; mgr = new_manager } in
      rw (calling, granted)
        (called-err req.fn w.worker (resolve_all req start) (unknown_handle a.shm_handle)
          (resolve_all-err req start a rest _ first (resolve_arg-new_manager a w.system kind b64)))
