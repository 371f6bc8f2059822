-- ===== src/Dispatch/Outcomes.antt =====
-- What one dispatch leaves behind: the files, the worker and the probe cache.
use chrysalis.Base.{
  ◌+◌, ◌^◌, ◌<◌, ◌≡◌, refl, sym, ap, ◌∙◌, List, [], length, arith, Text, codes, text_eq, text_key,
  text_eq_iff, Option, none, some, Result, ok, err, lookup, lookup-remove, Bool-cases, ◌⊎◌, inl,
  inr,
}
use chrysalis.Strings.{has_suffix, trim_suffix}
use chrysalis.Wire.{Bytes}
use chrysalis.Filter.{Filter, allow}
use chrysalis.Worker.Protocol.{Arg, Message, Codec, kind_ndarray}
use chrysalis.Worker.{Worker, WorkerError, call, probe}
use chrysalis.Shm.{Shm, new_manager, free_all, shm_dir}
use chrysalis.Shm.Blocks.{new_manager-Restores, lookup-free_each}
use chrysalis.Dispatch.{
  BridgeRequest, DispatchError, World, ProbeResult, Serve, as_string, collected,
  encode_ndarray_result, respond_with, responded, replied, serve_files, called, resolve_all,
  resolve_args, resolve_kwargs, dispatch, dispatch_call, dispatch_probe, from_cache, probed,
  probe_suffix,
}
use chrysalis.Dispatch.Files.{Keeps, proceed-Keeps, resolve_args-Keeps, resolve_kwargs-Keeps}

-- The reply hands over an array in the file at `p`.
abbrev pub Names : Text → Result WorkerError Message → Type 0
Names p (ok msg) =
    (a : Arg) × (msg.value ≡ some a) × (a.kind ≡ kind_ndarray) × (as_string a.value ≡ p)
Names p (err e) = ⊥

module _ (p : Text) where
  -- What is at the path once the blocks are freed.
  abbrev finally : Shm → Option Bytes
  finally s = lookup p (free_all s).sys.files

  finally-same :
      (s t : Shm)
      → t.mgr.blocks ≡ s.mgr.blocks
      → shm_dir t.sys ≡ shm_dir s.sys
      → lookup p t.sys.files ≡ lookup p s.sys.files
      → finally t ≡ finally s
  unfolding free_all
  finally-same s t blocks dir same =
      lookup-free_each t.sys p t.mgr.blocks
      ∙ rw (blocks, dir, same) (sym (lookup-free_each s.sys p s.mgr.blocks))

  serve_files-finally :
      (f : List (Text × Bytes) → List (Text × Bytes)) (s : Shm)
      → lookup p (f s.sys.files) ≡ lookup p s.sys.files
      → finally (serve_files f s) ≡ finally s
  unfolding serve_files shm_dir
  serve_files-finally f s same = finally-same s (serve_files f s) refl refl same

  collected-finally :
      (a : Arg) (path : Text) (s : Shm) (o : Option Bytes)
      → (finally (collected a path s o).0 ≡ finally s) ⊎ (path ≡ p)
  unfolding collected shm_dir
  collected-finally a path s none = inl refl
  collected-finally a path s (some content) = elim (Bool-cases (text_eq path p)) [
    | inl e ↦ inr ((text_eq_iff path p).0 e)
    | inr n ↦ inl (
        finally-same s (collected a path s (some content)).0 refl refl
          (ground (arith, lookup-remove path p s.sys.files)))
  ]

  encode-finally :
      (a : Arg) (s : Shm)
      → (finally (encode_ndarray_result a s).0 ≡ finally s) ⊎ (as_string a.value ≡ p)
  unfolding encode_ndarray_result
  encode-finally a s = elim (Bool-cases (text_eq (as_string a.value) [])) [
    | inl e ↦ rw e (inl refl)
    | inr n ↦ rw n (collected-finally a (as_string a.value) s _)
  ]

  respond_with-fst : (r : Shm × Result DispatchError Arg) → (respond_with r).0 ≡ r.0
  unfolding respond_with
  respond_with-fst (s, ok a) = refl
  respond_with-fst (s, err e) = refl

  responded-finally :
      (s : Shm) (v : Option Arg)
      → (finally (responded s v).0 ≡ finally s)
        ⊎ ((a : Arg) × (v ≡ some a) × (a.kind ≡ kind_ndarray) × (as_string a.value ≡ p))
  unfolding responded
  responded-finally s none = inl refl
  responded-finally s (some a) = elim (Bool-cases (text_eq a.kind kind_ndarray)) [
    | inr n ↦ rw n (inl refl)
    | inl e ↦
        rw (e, respond_with-fst (encode_ndarray_result a s))
          (elim (encode-finally a s) [
            | inl same ↦ inl same
            | inr named ↦ inr (a, refl, (text_eq_iff a.kind kind_ndarray).0 e, named)
          ])
  ]

  replied-finally :
      (s : Shm) (reply : Result WorkerError Message)
      → (finally (replied s reply).0 ≡ finally s) ⊎ Names p reply
  unfolding replied
  replied-finally s (err e) = inl refl
  replied-finally s (ok msg) = elim (Bool-cases (text_eq msg.type (codes "error"))) [
    | inl e ↦ rw e (inl refl)
    | inr n ↦ rw n (responded-finally s msg.value)
  ]

module _ (codec : Codec) (serve : Serve) where
  -- Some call of the function with some arguments got a reply that names the file at `p`.
  abbrev pub HandsOver : Text → Text → Worker → Type 0
  HandsOver p fn wk =
      (args : List Arg) × (kwargs : List (Text × Arg)) × Names p (call codec fn args kwargs wk).1

  -- Python leaves the path alone.
  abbrev pub LeavesAlone : Text → Type 0
  LeavesAlone p =
      (args : List Arg) (kwargs : List (Text × Arg)) (fs : List (Text × Bytes))
      → lookup p (serve args kwargs fs) ≡ lookup p fs

  called-finally :
      (p fn : Text) (wk : Worker) (r : Shm × Result DispatchError (List Arg × List (Text × Arg)))
      → LeavesAlone p
      → (finally p (called codec serve fn wk r).1 ≡ finally p r.0) ⊎ HandsOver p fn wk
  unfolding called
  called-finally p fn wk (s, err e) alone = inl refl
  called-finally p fn wk (s, ok (args, kwargs)) alone =
      elim (replied-finally p (serve_files (serve args kwargs) s)
        (call codec fn args kwargs wk).1) [
          | inl same ↦
              inl
                (same ∙ serve_files-finally p (serve args kwargs) s (alone args kwargs s.sys.files))
          | inr named ↦ inr (args, kwargs, named)
        ]

  resolve_all-Keeps :
      (before : List (Text × Bytes)) (req : BridgeRequest) (s : Shm)
      → Keeps before 0 s
      → length req.args + length req.kwargs < 2 ^ 32
      → Keeps before (length req.args + length req.kwargs) (resolve_all req s).0
  unfolding resolve_all
  resolve_all-Keeps before req s kept small =
      let n = length req.args in
      let m = n + length req.kwargs in
      proceed-Keeps before n m (resolve_args req.args s) _ (omega arith)
        (let (res, bound) = resolve_args-Keeps before req.args 0 s kept (omega arith) in
          (res, omega arith))
        λ args t h.
          proceed-Keeps before m m (resolve_kwargs req.kwargs t) _ (omega arith)
            (resolve_kwargs-Keeps before req.kwargs n t h (omega (arith, small)))
            λ kwargs u last. last

  dispatch_call_files :
      (p : Text) (req : BridgeRequest) (w : World)
      → LeavesAlone p
      → length req.args + length req.kwargs < 2 ^ 32
      → (lookup p (dispatch_call codec serve req w).0.system.files ≡ lookup p w.system.files)
        ⊎ HandsOver p req.fn w.worker
  unfolding dispatch_call new_manager
  dispatch_call_files p req w alone small =
      let start : Shm = record { sys = w.system; mgr = new_manager } in
      let resolved = resolve_all req start in
      elim (called-finally p req.fn w.worker resolved alone) [
        | inr named ↦ inr named
        | inl same ↦ inl (
            same
            ∙ (resolve_all-Keeps w.system.files req start
                  (new_manager-Restores w.system, omega arith) small).0.files_back
                p)
      ]

  probed_system :
      (target : Text) (w : World) (r : Worker × Result WorkerError Message)
      → (probed target w r).0.system ≡ w.system
  unfolding probed
  probed_system target w (wk, ok msg) = refl
  probed_system target w (wk, err e) = refl

  from_cache_system :
      (target : Text) (w : World) (o : Option ProbeResult)
      → (from_cache codec target w o).0.system ≡ w.system
  unfolding from_cache
  from_cache_system target w (some pr) = refl
  from_cache_system target w none = probed_system target w (probe codec target w.worker)

  -- For a request of fewer than 2^32 arguments and a path that the Python worker leaves alone, on
  -- every branch of dispatch, errors included: afterwards the path has the file, or none, that it
  -- had before, unless a reply of the worker handed an array over under that very path.
  pub dispatch_keeps_files :
      (f : Filter) (req : BridgeRequest) (w : World) (p : Text)
      → LeavesAlone p
      → length req.args + length req.kwargs < 2 ^ 32
      → (lookup p (dispatch codec serve f req w).0.system.files ≡ lookup p w.system.files)
        ⊎ HandsOver p req.fn w.worker
  unfolding dispatch dispatch_probe
  dispatch_keeps_files f req w p alone small = elim (Bool-cases (has_suffix req.fn probe_suffix)) [
    | inl probing ↦ rw probing (
        inl (
          ap (λ sys. lookup p sys.files) (from_cache_system (trim_suffix req.fn probe_suffix) w _)))
    | inr calling ↦ elim (Bool-cases (allow f req.fn)) [
      | inl granted ↦ rw (calling, granted) (dispatch_call_files p req w alone small)
      | inr refused ↦ rw (calling, refused) (inl refl)
    ]
  ]
