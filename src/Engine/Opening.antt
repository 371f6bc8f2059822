-- ===== src/Engine/Opening.antt =====
-- How New of internal/pool/pool.go ends on each of its branches.
use mathlib.Core.List.{Perm}
use chrysalis.Base.{
  ℕ, suc, ◌-◌, ◌≡◌, subst, refl, sym, ap, ◌∙◌, true, List, [], length, length-Perm, arith, Text,
  Result, ok, err, All,
}
use chrysalis.Base.Int.{ℤ, pos}
use chrysalis.Wire.{Bytes}
use chrysalis.Worker.{Started}
use chrysalis.WorkerPool.{Pool, Opened, opened, bad_size, not_all, new_pool}
use chrysalis.WorkerPool.Opening.{OpensWell, IsStopped, new_pool-OpensWell, new_pool-stops_none}
use chrysalis.WorkerPool.Starts.{Settles, new_pool-Settles}
use chrysalis.Runs.Kept.{IsKept}
use chrysalis.Engine.{
  Outside, EngineError, wasi_failed, compile_failed, shim_unreadable, pool_failed, Dispatcher,
  Engine, new, with_wasi, with_module, with_shim, with_workers, new_dispatcher,
}

-- The engine has its runtime, the compiled module, the shim, and a kept pool of as many slots as
-- were asked for, which holds all the workers that were started; or New fails with the first step that
-- failed, and a failed pool has shut down every worker that was up.
abbrev pub Opens :
    Outside → Bytes → Text → Text → Text → Text → ℤ → Result EngineError Engine → Type 0
Opens out wasm script shim_path dir sock workers (ok e) =
    (e.runtime_open ≡ true)
    × (out.instantiate_wasi ≡ ok tt)
    × (out.compile wasm ≡ ok e.dispatcher.compiled)
    × (out.read_file shim_path ≡ ok e.dispatcher.shim_code)
    × (e.dispatcher.filter_dir ≡ dir)
    × (e.service.probe_cache ≡ [])
    × ((n : ℕ) × (workers ≡ pos (suc n)) × IsKept (suc n) 0 e.service.pool)
    × Settles out.site.host out.arrive sock script (opened e.service.pool)
Opens out wasm script shim_path dir sock workers (err (wasi_failed x)) =
    out.instantiate_wasi ≡ err x
Opens out wasm script shim_path dir sock workers (err (compile_failed x)) =
    (out.instantiate_wasi ≡ ok tt) × (out.compile wasm ≡ err x)
Opens out wasm script shim_path dir sock workers (err (shim_unreadable path x)) =
    (out.instantiate_wasi ≡ ok tt)
    × ((m : ℕ) × (out.compile wasm ≡ ok m))
    × (path ≡ shim_path)
    × (out.read_file shim_path ≡ err x)
Opens out wasm script shim_path dir sock workers (err (pool_failed o)) =
    (out.instantiate_wasi ≡ ok tt)
    × ((m : ℕ) × (out.compile wasm ≡ ok m))
    × ((shim : Text) × (out.read_file shim_path ≡ ok shim))
    × OpensWell workers o
    × Settles out.site.host out.arrive sock script o

-- What a new pool is known to be.
IsKept-opened :
    (workers : ℤ) (p : Pool)
    → OpensWell workers (opened p)
    → p.stopped ≡ []
    → (n : ℕ) × (workers ≡ pos (suc n)) × IsKept (suc n) 0 p
IsKept-opened workers p (size, cap_is, open_, positive) none_stopped =
    let n = length p.idle - 1 in
    let e : length p.idle ≡ suc n = omega (arith, positive, cap_is) in
    (
      n,
      sym size ∙ ap pos e,
      record {
        capacity = cap_is ∙ e;
        is_open = open_;
        slots = omega (arith, e);
        none_leaks = omega (arith, e);
        ended = subst (All IsStopped) (sym none_stopped) tt;
      },
    )

module _ (out : Outside) (wasm : Bytes) (script shim_path dir sock : Text) (workers : ℤ) where
  with_workers-pool :
      (d : Dispatcher) (o : Opened) (e : Engine)
      → with_workers out d o ≡ ok e
      → o ≡ opened e.service.pool
  unfolding with_workers
  with_workers-pool d (opened p) e h = cc
  with_workers-pool d (bad_size n) e h = cc
  with_workers-pool d (not_all n x wks) e h = cc

  with_shim-pool :
      (m : ℕ) (r : Result Text Text) (e : Engine)
      → with_shim out m script shim_path dir sock workers r ≡ ok e
      → new_pool out.site.host out.arrive workers sock script ≡ opened e.service.pool
  unfolding with_shim
  with_shim-pool m (err x) e h = cc
  with_shim-pool m (ok shim) e h = with_workers-pool (new_dispatcher m shim dir) _ e h

  with_module-pool :
      (r : Result Text ℕ) (e : Engine)
      → with_module out script shim_path dir sock workers r ≡ ok e
      → new_pool out.site.host out.arrive workers sock script ≡ opened e.service.pool
  unfolding with_module
  with_module-pool (err x) e h = cc
  with_module-pool (ok m) e h = with_shim-pool m (out.read_file shim_path) e h

  with_wasi-pool :
      (r : Result Text (Unit {0})) (e : Engine)
      → with_wasi out wasm script shim_path dir sock workers r ≡ ok e
      → new_pool out.site.host out.arrive workers sock script ≡ opened e.service.pool
  unfolding with_wasi
  with_wasi-pool (err x) e h = cc
  with_wasi-pool (ok tt) e h = with_module-pool (out.compile wasm) e h

  -- The pool of a new engine, when as many start results arrive as were sent.
  pub new-IsKept :
      (e : Engine)
      → ((rs : List Started) → length (out.arrive rs) ≡ length rs)
      → new out wasm script shim_path dir sock workers ≡ ok e
      → (n : ℕ) × (workers ≡ pos (suc n)) × IsKept (suc n) 0 e.service.pool
  unfolding new
  new-IsKept e same made =
      let is = with_wasi-pool out.instantiate_wasi e made in
      IsKept-opened workers e.service.pool
        (subst (OpensWell workers) is
          (new_pool-OpensWell out.site.host out.arrive workers sock script same))
        (new_pool-stops_none out.site.host out.arrive workers sock script e.service.pool is)

  with_workers-Opens :
      (m : ℕ) (shim : Text) (o : Opened)
      → out.instantiate_wasi ≡ ok tt
      → out.compile wasm ≡ ok m
      → out.read_file shim_path ≡ ok shim
      → OpensWell workers o
      → Settles out.site.host out.arrive sock script o
      → Opens out wasm script shim_path dir sock workers
          (with_workers out (new_dispatcher m shim dir) o)
  unfolding with_workers new_dispatcher
  with_workers-Opens m shim (opened p) w c r well settled =
      (refl, w, c, r, refl, refl, IsKept-opened workers p well settled.2, settled)
  with_workers-Opens m shim (bad_size n) w c r well settled = (w, (m, c), (shim, r), well, settled)
  with_workers-Opens m shim (not_all n e wks) w c r well settled =
      (w, (m, c), (shim, r), well, settled)

  module _ (arrives : (rs : List Started) → Perm (out.arrive rs) rs) where
    with_shim-Opens :
        (m : ℕ) (r : Result Text Text)
        → out.instantiate_wasi ≡ ok tt
        → out.compile wasm ≡ ok m
        → out.read_file shim_path ≡ r
        → Opens out wasm script shim_path dir sock workers
            (with_shim out m script shim_path dir sock workers r)
    unfolding with_shim
    with_shim-Opens m (err e) w c r = (w, (m, c), refl, r)
    with_shim-Opens m (ok shim) w c r =
        with_workers-Opens m shim (new_pool out.site.host out.arrive workers sock script) w c r
          (new_pool-OpensWell out.site.host out.arrive workers sock script
            λ rs. length-Perm (arrives rs))
          (new_pool-Settles out.site.host out.arrive sock script workers arrives)

    with_module-Opens :
        (r : Result Text ℕ)
        → out.instantiate_wasi ≡ ok tt
        → out.compile wasm ≡ r
        → Opens out wasm script shim_path dir sock workers
            (with_module out script shim_path dir sock workers r)
    unfolding with_module
    with_module-Opens (err e) w c = (w, c)
    with_module-Opens (ok m) w c = with_shim-Opens m (out.read_file shim_path) w c refl

    with_wasi-Opens :
        (r : Result Text (Unit {0}))
        → out.instantiate_wasi ≡ r
        → Opens out wasm script shim_path dir sock workers
            (with_wasi out wasm script shim_path dir sock workers r)
    unfolding with_wasi
    with_wasi-Opens (err e) w = w
    with_wasi-Opens (ok tt) w = with_module-Opens (out.compile wasm) w refl

    -- Provided that the start results arrive in some order, each once: New returns an engine only
    -- after WASI, the compilation, the shim and the pool went well, with what they gave and an empty
    -- cache; no start has failed, the idle workers are all those that were started, as many as were
    -- asked for, and none is stopped. Otherwise its error is that of the first step that failed; when
    -- not all workers started, it is the first error to arrive, and the workers of the starts that
    -- went well, all of them, have been shut down.
    pub new-Opens :
        Opens out wasm script shim_path dir sock workers
          (new out wasm script shim_path dir sock workers)
    unfolding new
    new-Opens = with_wasi-Opens out.instantiate_wasi refl
