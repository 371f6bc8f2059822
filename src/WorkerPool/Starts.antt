-- ===== src/WorkerPool/Starts.antt =====
-- What NewPool makes of the starts of its workers: those that are up, and the errors.
use mathlib.Core.List.{filter_map, Perm}
use mathlib.Core.List.Perm
use chrysalis.Base.{
  ℕ, zero, suc, ◌≡◌, refl, sym, ap, subst, ◌⊎◌, inl, inr, List, [], ◌∷◌, map, Option, none, some,
  Text,
}
use chrysalis.Base.Int.{ℤ, pos, negsuc}
use chrysalis.Worker.{Worker, Started, up, failed, StartError, shutdown}
use chrysalis.WorkerPool.{
  Pool, Host, Opened, opened, bad_size, not_all, collect, spawn_all, fill, new_pool, empty_pool,
}
use chrysalis.WorkerPool.Opening.{spawn_all-keeps, spawn_all-stops_none}

unfoldable pub worker_of : Started → Option Worker
worker_of (up w) = some w
worker_of (failed e p c) = none

unfoldable pub error_of : Started → Option StartError
error_of (up w) = none
error_of (failed e p c) = some e

unfoldable pub first : List StartError → Option StartError
first [] = none
first (e ∷ es) = some e

collect-workers : (rs : List Started) → (collect rs).0 ≡ filter_map worker_of rs
unfolding collect worker_of filter_map
collect-workers [] = refl
collect-workers (up w ∷ rs) = ap (◌∷◌ w) (collect-workers rs)
collect-workers (failed e p c ∷ rs) = collect-workers rs

collect-error : (rs : List Started) → (collect rs).1 ≡ first (filter_map error_of rs)
unfolding collect error_of filter_map first
collect-error [] = refl
collect-error (up w ∷ rs) = collect-error rs
collect-error (failed e p c ∷ rs) = refl

module _ (host : Host) (arrive : List Started → List Started) (sock_path script : Text) where
  -- The starts of a pool of `n` workers, by their socket numbers.
  abbrev pub starts : ℕ → List Started
  starts n = (spawn_all host n (empty_pool n sock_path script)).1

  -- The workers that are up stand in the channel and none is stopped, when no start has failed;
  -- otherwise all of them are shut down and the error is the first that arrives.
  abbrev pub Settles : Opened → Type 0
  Settles (opened p) =
      Perm p.idle (filter_map worker_of (starts p.capacity))
      × (filter_map error_of (starts p.capacity) ≡ [])
      × (p.stopped ≡ [])
  Settles (bad_size n) = Unit {0}
  Settles (not_all n e wks) =
      Perm wks (map (shutdown host.codec) (filter_map worker_of (starts n)))
      × ((es : List StartError) × (filter_map error_of (arrive (starts n)) ≡ e ∷ es))

  first-cases :
      (es : List StartError)
      → ((first es ≡ none) × (es ≡ []))
        ⊎ ((e : StartError) × (r : List StartError) × (first es ≡ some e) × (es ≡ e ∷ r))
  unfolding first
  first-cases [] = inl (refl, refl)
  first-cases (e ∷ es) = inr (e, es, refl, refl)

  fill-Settles :
      (n : ℕ) (p : Pool) (r : List Worker × Option StartError)
      → Perm (arrive (starts n)) (starts n)
      → p.capacity ≡ n
      → p.stopped ≡ []
      → r.0 ≡ filter_map worker_of (arrive (starts n))
      → r.1 ≡ first (filter_map error_of (arrive (starts n)))
      → Settles (fill host n p r)
  unfolding fill
  fill-Settles n p (wks, none) arrives c clean ups errors =
      elim (first-cases (filter_map error_of (arrive (starts n)))) [
        | inr (e, r, is, _) ↦ absurd cc
        | inl (_, nothing) ↦ rw c (
          rw ups (Perm.filter_map worker_of arrives),
          sym (
              Perm.nil-eq (
                subst (λ l. Perm l (filter_map error_of (starts n))) nothing
                  (Perm.filter_map error_of arrives))),
          clean,
        )
      ]
  fill-Settles n p (wks, some e) arrives c clean ups errors =
      elim (first-cases (filter_map error_of (arrive (starts n)))) [
        | inl (is, _) ↦ absurd cc
        | inr (x, r, is, all) ↦
            (rw ups (Perm.map (shutdown host.codec) (Perm.filter_map worker_of arrives)), (r, cc))
      ]

  -- The results come out of the channel in any order.
  pub new_pool-Settles :
      (size : ℤ)
      → ((rs : List Started) → Perm (arrive rs) rs)
      → Settles (new_pool host arrive size sock_path script)
  unfolding new_pool empty_pool
  new_pool-Settles (negsuc n) arrives = tt
  new_pool-Settles (pos zero) arrives = tt
  new_pool-Settles (pos (suc n)) arrives =
      let p = empty_pool (suc n) sock_path script in
      let rs = starts (suc n) in
      fill-Settles (suc n) (spawn_all host (suc n) p).0 (collect (arrive rs)) (arrives rs)
        (spawn_all-keeps host (suc n) p).0 (spawn_all-stops_none host (suc n) p refl)
        (collect-workers (arrive rs)) (collect-error (arrive rs))
