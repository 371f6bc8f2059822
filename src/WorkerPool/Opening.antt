-- ===== src/WorkerPool/Opening.antt =====
-- How NewPool ends.
use chrysalis.Base.{
  ℕ, zero, suc, ◌≤◌, ◌≡◌, refl, sym, ap, ◌∙◌, ◌⊎◌, inl, inr, true, false, List, [], ◌∷◌, arith,
  length, map, All, Option, none, some, Text,
}
use chrysalis.Base.Int.{ℤ, pos, negsuc}
use chrysalis.Worker.{Worker, reaped, Started, up, failed, StartError, shutdown}
use chrysalis.Worker.Calls.{shutdown_ends}
use chrysalis.WorkerPool.{
  Pool, Host, Opened, opened, bad_size, not_all, collect, spawn, spawn_all, fill, new_pool,
  empty_pool,
}

-- A worker that was shut down.
abbrev pub IsStopped : Worker → Type 0
IsStopped w = (w.process ≡ reaped) × (w.conn.closed ≡ true)

-- A pool is opened with as many workers as were asked for; a size below 1 is refused; and if a
-- start fails, every worker that did start is shut down.
abbrev pub OpensWell : ℤ → Opened → Type 0
OpensWell size (opened p) =
    (pos (length p.idle) ≡ size)
    × (p.capacity ≡ length p.idle)
    × (p.closed ≡ false)
    × (1 ≤ p.capacity)
OpensWell size (bad_size n) = (n ≡ size) × ((n ≡ pos 0) ⊎ ((m : ℕ) × (n ≡ negsuc m)))
OpensWell size (not_all n e wks) = (pos n ≡ size) × All IsStopped wks

collect-all : (rs : List Started) → (collect rs).1 ≡ none → length (collect rs).0 ≡ length rs
unfolding collect
collect-all [] h = refl
collect-all (up w ∷ rs) h = ap suc (collect-all rs h)
collect-all (failed e p c ∷ rs) h = cc

module _ (host : Host) where
  length-spawn_all : (n : ℕ) (p : Pool) → length (spawn_all host n p).1 ≡ n
  unfolding spawn_all
  length-spawn_all zero p = refl
  length-spawn_all (suc n) p = ap suc (length-spawn_all n (spawn host p).0)

  pub spawn_all-keeps :
      (n : ℕ) (p : Pool)
      → ((spawn_all host n p).0.capacity ≡ p.capacity) × ((spawn_all host n p).0.closed ≡ p.closed)
  unfolding spawn_all spawn
  spawn_all-keeps zero p = (refl, refl)
  spawn_all-keeps (suc n) p = spawn_all-keeps n (spawn host p).0

  pub All-IsStopped : (wks : List Worker) → All IsStopped (map (shutdown host.codec) wks)
  All-IsStopped [] = tt
  All-IsStopped (w ∷ wks) = let e = shutdown_ends host.codec w in ((e.0, e.1), All-IsStopped wks)

  fill-OpensWell :
      (n : ℕ) (p : Pool) (r : List Worker × Option StartError)
      → p.capacity ≡ suc n
      → p.closed ≡ false
      → (r.1 ≡ none → length r.0 ≡ suc n)
      → OpensWell (pos (suc n)) (fill host (suc n) p r)
  unfolding fill
  fill-OpensWell n p (wks, none) c o h = (ap pos (h refl), c ∙ sym (h refl), o, omega (arith, c))
  fill-OpensWell n p (wks, some e) c o h = (refl, All-IsStopped wks)

  -- The results come out of the channel in any order, as many as went in.
  pub new_pool-OpensWell :
      (arrive : List Started → List Started) (size : ℤ) (sock_path script : Text)
      → ((rs : List Started) → length (arrive rs) ≡ length rs)
      → OpensWell size (new_pool host arrive size sock_path script)
  unfolding new_pool
  new_pool-OpensWell arrive (negsuc n) sock_path script h = (refl, inr (n, refl))
  new_pool-OpensWell arrive (pos zero) sock_path script h = (refl, inl refl)
  new_pool-OpensWell arrive (pos (suc n)) sock_path script h =
      let p = empty_pool (suc n) sock_path script in
      let rs = (spawn_all host (suc n) p).1 in
      let keeps = spawn_all-keeps (suc n) p in
      fill-OpensWell n (spawn_all host (suc n) p).0 (collect (arrive rs)) keeps.0 keeps.1
        (λ none_failed. collect-all (arrive rs) none_failed ∙ h rs ∙ length-spawn_all (suc n) p)

  fill-stops_none :
      (n : ℕ) (q : Pool) (r : List Worker × Option StartError) (p : Pool)
      → fill host n q r ≡ opened p
      → q.stopped ≡ []
      → p.stopped ≡ []
  unfolding fill
  fill-stops_none n q (wks, none) p e h = cc
  fill-stops_none n q (wks, some x) p e h = cc

  pub spawn_all-stops_none :
      (n : ℕ) (p : Pool) → p.stopped ≡ [] → (spawn_all host n p).0.stopped ≡ []
  unfolding spawn_all spawn
  spawn_all-stops_none zero p h = h
  spawn_all-stops_none (suc n) p h = spawn_all-stops_none n (spawn host p).0 h

  -- A new pool has stopped no worker.
  pub new_pool-stops_none :
      (arrive : List Started → List Started) (size : ℤ) (sock_path script : Text) (p : Pool)
      → new_pool host arrive size sock_path script ≡ opened p
      → p.stopped ≡ []
  unfolding new_pool empty_pool
  new_pool-stops_none arrive (negsuc n) sock_path script p e = cc
  new_pool-stops_none arrive (pos zero) sock_path script p e = cc
  new_pool-stops_none arrive (pos (suc n)) sock_path script p e =
      let q = empty_pool (suc n) sock_path script in
      fill-stops_none (suc n) (spawn_all host (suc n) q).0 _ p e
        (spawn_all-stops_none (suc n) q refl)
