-- ===== src/Dispatch/Files.antt =====
-- The files of shared memory over one dispatch.
use chrysalis.Base.{
  ℕ, ◌+◌, ◌^◌, ◌≤◌, ◌<◌, ◌≡◌, refl, List, [], ◌∷◌, length, arith, Text, text_eq, text_key, Option,
  none, some, Result, ok, err, Bool-cases, inl, inr,
}
use chrysalis.Base.Int.{ℤ, pos, to_uint32}
use chrysalis.Wire.{Bytes}
use chrysalis.Base64.{decode}
use chrysalis.Worker.Protocol.{Arg, kind_ndarray}
use chrysalis.Shm.{ShmBlock, ShmError, Shm, alloc, fill, get}
use chrysalis.Shm.Blocks.{Restores, alloc-Restores, alloc-handle, fill-Restores, fill-handle}
use chrysalis.Dispatch.{
  DispatchError, no_block, unknown_handle, located, stored, unpacked, resolve_arg, resolve_args,
  resolve_kwargs, proceed, Step,
}

-- FreeAll would still put all files back, and at most `k` handles are taken.
abbrev pub Keeps : List (Text × Bytes) → ℕ → Shm → Type 0
Keeps before k s = Restores before s × (s.mgr.next_h ≤ k)

located-fst :
    (e : DispatchError) (a : Arg) (h : ℤ) (s : Shm) (o : Option ShmBlock)
    → (located e a h s o).0 ≡ s
unfolding located
located-fst e a h s none = refl
located-fst e a h s (some b) = refl

module _ (before : List (Text × Bytes)) where
  stored-Keeps :
      (a : Arg) (raw : Bytes) (k : ℕ) (r : Shm × Result ShmError ℕ)
      → Keeps before k r.0
      → Keeps before k (stored a raw r).0
  unfolding stored
  stored-Keeps a raw k (s, err e) kept = kept
  stored-Keeps a raw k (s, ok h) (res, bound) =
      rw (located-fst no_block a (pos h) (fill h raw s) (get (fill h raw s).mgr h))
        (fill-Restores h raw before s res, omega (arith, bound, fill-handle h raw s))

  unpacked-Keeps :
      (a : Arg) (k : ℕ) (s : Shm) (o : Option Bytes)
      → Keeps before k s
      → k + 1 < 2 ^ 32
      → Keeps before (k + 1) (unpacked a s o).0
  unfolding unpacked
  unpacked-Keeps a k s none (res, bound) small = (res, omega arith)
  unpacked-Keeps a k s (some raw) (res, bound) small =
      stored-Keeps a raw (k + 1) (alloc (length raw) s) (
        alloc-Restores (length raw) before s res (omega arith),
        omega (arith, alloc-handle (length raw) s),
      )

  resolve_arg-Keeps :
      (a : Arg) (k : ℕ) (s : Shm)
      → Keeps before k s
      → k + 1 < 2 ^ 32
      → Keeps before (k + 1) (resolve_arg a s).0
  unfolding resolve_arg
  resolve_arg-Keeps a k s (res, bound) small = elim (Bool-cases (text_eq a.kind kind_ndarray)) [
    | inr other ↦ rw other (res, omega arith)
    | inl array ↦ elim (Bool-cases (text_eq a.b64 [])) [
      | inl empty ↦
          let h = a.shm_handle in
          rw (array, empty, located-fst (unknown_handle h) a h s (get s.mgr (to_uint32 h)))
            (res, omega arith)
      | inr full ↦ rw (array, full) (unpacked-Keeps a k s (decode a.b64) (res, bound) small)
    ]
  ]

  -- A block of steps keeps what each step keeps.
  pub proceed-Keeps :
      {A B : Type 0} (k m : ℕ) (p : Shm × Result DispatchError A) (f : A → Step B)
      → k ≤ m
      → Keeps before k p.0
      → ((a : A) (s : Shm) → Keeps before k s → Keeps before m (f a s).0)
      → Keeps before m (proceed p f).0
  proceed-Keeps k m (s, ok a) f le kept each = each a s kept
  proceed-Keeps k m (s, err e) f le (res, bound) each = (res, omega arith)

  pub resolve_args-Keeps :
      (args : List Arg) (k : ℕ) (s : Shm)
      → Keeps before k s
      → k + length args < 2 ^ 32
      → Keeps before (k + length args) (resolve_args args s).0
  unfolding resolve_args
  resolve_args-Keeps [] k s (res, bound) small = (res, omega arith)
  resolve_args-Keeps (a ∷ rest) k s kept small =
      let m = k + length (a ∷ rest) in
      proceed-Keeps (k + 1) m (resolve_arg a s) _ (omega arith)
        (resolve_arg-Keeps a k s kept (omega arith))
        λ b t h.
          proceed-Keeps m m (resolve_args rest t) _ (omega arith)
            (let (res, bound) = resolve_args-Keeps rest (k + 1) t h (omega arith) in
              (res, omega arith))
            λ bs u last. last

  pub resolve_kwargs-Keeps :
      (args : List (Text × Arg)) (k : ℕ) (s : Shm)
      → Keeps before k s
      → k + length args < 2 ^ 32
      → Keeps before (k + length args) (resolve_kwargs args s).0
  unfolding resolve_kwargs
  resolve_kwargs-Keeps [] k s (res, bound) small = (res, omega arith)
  resolve_kwargs-Keeps ((key, a) ∷ rest) k s kept small =
      let m = k + length ((key, a) ∷ rest) in
      proceed-Keeps (k + 1) m (resolve_arg a s) _ (omega arith)
        (resolve_arg-Keeps a k s kept (omega arith))
        λ b t h.
          proceed-Keeps m m (resolve_kwargs rest t) _ (omega arith)
            (let (res, bound) = resolve_kwargs-Keeps rest (k + 1) t h (omega arith) in
              (res, omega arith))
            λ bs u last. last
