-- ===== src/Dispatch/Concurrent.antt =====
-- Arrays on their way to a worker while other requests use the same shared memory.
use chrysalis.Base.{
  ℕ, ◌≡◌, ◌≢◌, refl, sym, ap, ◌∙◌, subst, true, List, [], ◌∷◌, ◌++◌, ◌==◌, ==_iff, any, length, All,
  text_eq, text_eq_refl, text_key, nat_key, some, lookup,
}
use chrysalis.Strings.Search.{Lacks}
use chrysalis.FilePath.{slash, join}
use chrysalis.Wire.{Bytes}
use chrysalis.Base64.{encode}
use chrysalis.Base64.RoundTrip.{IsByte}
use chrysalis.Worker.Protocol.{Arg, kind_ndarray}
use chrysalis.Shm.{System, dir, Shm, alloc, fill, shm_dir, shm_dir_at, path_of, get}
use chrysalis.Shm.Contents.{IsReady, Holds, next_path, next_block, alloc-fill}
use chrysalis.Shm.Blocks.{at_path, lookup-some}
use chrysalis.Shm.Sharing.{
  Shared, IsApart, Operation, allocates, copies, operate, act, acts, shm_of, no_blocks,
  acts-IsApart, no_blocks-IsApart, others_act,
}
use chrysalis.Dispatch.{resolve_arg}
use chrysalis.Dispatch.Arrays.{Delivers, resolve_arg-Delivers, resolve_arg-state}

same_number : (i : ℕ) → (i == i) ≡ true
same_number i = (==_iff i i).1 refl

shm_of-act : (g : Shared) (i : ℕ) (o : Operation) → shm_of (act g (i, o)) i ≡ operate o (shm_of g i)
unfolding act
shm_of-act g i o = rw (same_number i) refl

-- The two operations of an array that is sent inline.
abbrev pub sends : Shared → ℕ → Bytes → List (ℕ × Operation)
sends g i raw = (i, allocates (length raw)) ∷ (i, copies (g.mgrs i).next_h raw) ∷ []

shm_of-sends :
    (g : Shared) (i : ℕ) (raw : Bytes)
    → shm_of (acts g (sends g i raw)) i
      ≡ fill (g.mgrs i).next_h raw (alloc (length raw) (shm_of g i)).0
unfolding acts operate
shm_of-sends g i raw =
    shm_of-act (act g (i, allocates (length raw))) i (copies (g.mgrs i).next_h raw)
    ∙ ap (fill (g.mgrs i).next_h raw) (shm_of-act g i (allocates (length raw)))

acts-append : (g : Shared) (xs ys : List (ℕ × Operation)) → acts g (xs ++ ys) ≡ acts (acts g xs) ys
unfolding acts
acts-append g [] ys = refl
acts-append g (x ∷ xs) ys = acts-append (act g x) xs ys

same_shm_dir :
    (s t : System) → t.dev_shm ≡ s.dev_shm → t.temp_dir ≡ s.temp_dir → shm_dir t ≡ shm_dir s
unfolding shm_dir
same_shm_dir s t d e = ap (λ x. shm_dir_at x t.temp_dir) d ∙ ap (shm_dir_at s.dev_shm) e

-- A manager with the next block registered owns its file.
Holds-owns :
    (raw : Bytes) (s t : Shm)
    → Holds raw s t
    → any (at_path (shm_dir t.sys) (next_path s.sys)) t.mgr.blocks ≡ true
unfolding path_of get
Holds-owns raw s t holds =
    lookup-some (at_path (shm_dir t.sys) (next_path s.sys)) s.mgr.next_h
      (next_block (length raw) s.sys) t.mgr.blocks holds.registered
      (ap (λ d. text_eq (join d (next_block (length raw) s.sys).name) (next_path s.sys))
          (same_shm_dir s.sys t.sys holds.same_dev holds.same_temp)
        ∙ text_eq_refl (next_path s.sys))

-- What becomes of the array `a` of request `i`, after `later` operations too.
pub record Arrives (raw : Bytes) (a : Arg) (g : Shared) (i : ℕ) (later : List (ℕ × Operation))
    : Type 0 where
  pub delivered : Delivers raw a (next_path g.sys) (resolve_arg a (shm_of g i))
  pub by_operations : (resolve_arg a (shm_of g i)).0 ≡ shm_of (acts g (sends g i raw)) i
  pub arrives : lookup (next_path g.sys) (acts g (sends g i raw ++ later)).sys.files ≡ some raw

module _ (g : Shared) (i : ℕ) (x : ℕ) (xs : Bytes) (ready : IsReady g.sys) where
  sends-Holds : Holds (x ∷ xs) (shm_of g i) (shm_of (acts g (sends g i (x ∷ xs))) i)
  sends-Holds =
      let (t, went, holds) = alloc-fill x xs (shm_of g i) ready in
      subst (Holds (x ∷ xs) (shm_of g i))
        (sym (shm_of-sends g i (x ∷ xs) ∙ ap (λ r. fill (g.mgrs i).next_h (x ∷ xs) r.0) went)) holds

  others-leave :
      (later : List (ℕ × Operation))
      → IsApart g
      → All (λ a. i ≢ a.0) later
      → lookup (next_path g.sys) (acts g (sends g i (x ∷ xs) ++ later)).sys.files ≡ some (x ∷ xs)
  others-leave later apart others =
      let sent = acts g (sends g i (x ∷ xs)) in
      let own = Holds-owns (x ∷ xs) (shm_of g i) (shm_of sent i) sends-Holds in
      let (kept, _) =
        others_act sent later i (next_path g.sys) (acts-IsApart g (sends g i (x ∷ xs)) apart) own
          others in
      ap (λ u. lookup (next_path g.sys) u.sys.files) (acts-append g (sends g i (x ∷ xs)) later)
      ∙ kept
      ∙ sends-Holds.content

-- After any history of managers of requests, when /dev/shm is a directory and the next allocation
-- goes well: an array with the Base64 text of some bytes, not none, in request `i` becomes an argument
-- of the same shape and element type with the path of a file, by an allocation and a copy of the
-- manager of `i`; and whatever the managers of other requests do then, whichever of their allocations
-- fail, the file at that path holds exactly the bytes.
pub resolve_arg-Arrives :
    (sys : System) (history later : List (ℕ × Operation)) (i : ℕ) (a : Arg) (x : ℕ) (xs : Bytes)
    → a.kind ≡ kind_ndarray
    → a.b64 ≡ encode (x ∷ xs)
    → All IsByte (x ∷ xs)
    → (acts (no_blocks sys) history).sys.dev_shm ≡ dir
    → Lacks slash (acts (no_blocks sys) history).sys.pid_tag
    → IsReady (acts (no_blocks sys) history).sys
    → All (λ o. i ≢ o.0) later
    → Arrives (x ∷ xs) a (acts (no_blocks sys) history) i later
resolve_arg-Arrives sys history later i a x xs kind b64 bytes is_dir plain ready others =
    let g = acts (no_blocks sys) history in
    record {
      delivered = resolve_arg-Delivers a x xs (shm_of g i) kind b64 bytes is_dir plain ready;
      by_operations =
          resolve_arg-state a x xs (shm_of g i) kind b64 bytes ready
          ∙ sym (shm_of-sends g i (x ∷ xs));
      arrives =
          others-leave g i x xs ready later
            (acts-IsApart (no_blocks sys) history (no_blocks-IsApart sys)) others;
    }
