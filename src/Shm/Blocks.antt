-- ===== src/Shm/Blocks.antt =====
-- The files of blocks: what an allocation makes, and that freeing the blocks puts all files back.
use chrysalis.Base.{
  ℕ, ◌+◌, ◌^◌, ◌≤◌, ◌<◌, ◌≡◌, refl, sym, ◌∙◌, Bool, true, ◌||◌, List, [], ◌∷◌, ◌==◌, any,
  if◌then◌else◌, length, arith, Text, text_eq, text_eq_iff, Option, none, some, Result, ok, err,
  nat_key, text_key, lookup, insert, remove, lookup-insert, lookup-remove, Bool-cases, Option-cases,
  inl, inr,
}
use chrysalis.FilePath.{join}
use chrysalis.Wire.{Bytes}
use chrysalis.Shm.{
  System, AllocOutcome, allocates, open_fails, truncate_fails, mmap_fails, ShmBlock, ShmManager,
  ShmError, Shm, shm_dir, shm_name, next_counter, path_of, zeros, opened, exists, alloc_shm,
  register, alloc, free_shm, free_each, free_all, new_manager, pop_outcome, later_outcomes, fill,
  fill_found, copied, get,
}

-- The block's file is the one at the path.
abbrev pub at_path : Text → Text → ℕ × ShmBlock → Bool
at_path dir p (h, blk) = text_eq (join dir blk.name) p

pub lookup-free_each :
    (sys : System) (p : Text) (bs : List (ℕ × ShmBlock))
    → lookup p (free_each sys bs).files
      ≡ (if any (at_path (shm_dir sys) p) bs then none else lookup p sys.files)
unfolding free_each free_shm path_of shm_dir
lookup-free_each sys p [] = refl
lookup-free_each sys p ((h, blk) ∷ bs) = ground (
  arith,
  lookup-free_each (free_shm sys blk) p bs,
  lookup-remove (path_of sys blk.name) p sys.files,
)

-- What allocShm does to the files: nothing on an error, and one new file on success.
abbrev pub Fate : ℕ → System → System × Result ShmError Text → Type 0
Fate n sys (sys', err e) =
    ((p : Text) → lookup p sys'.files ≡ lookup p sys.files) × (shm_dir sys' ≡ shm_dir sys)
Fate n sys (sys', ok name) =
    (lookup (path_of sys name) sys.files ≡ none)
    × ((p : Text)
        → lookup p sys'.files
          ≡ (if text_eq (path_of sys name) p then some (zeros n) else lookup p sys.files))
    × (shm_dir sys' ≡ shm_dir sys)

-- A file that was made and removed again.
pub undone :
    (path p : Text) (b : Bytes) (fs : List (Text × Bytes))
    → lookup path fs ≡ none
    → lookup p (remove path (insert path b fs)) ≡ lookup p fs
undone path p b fs h =
    ground (
      arith,
      lookup-remove path p (insert path b fs),
      lookup-insert path p b fs,
      text_eq_iff path p,
    )

opened-Fate :
    (sys : System) (name : Text) (n : ℕ) (o : AllocOutcome)
    → lookup (path_of sys name) sys.files ≡ none
    → Fate n sys (opened sys name (path_of sys name) n o)
unfolding opened path_of shm_dir
opened-Fate sys name n (open_fails e) h = (λ p. refl, refl)
opened-Fate sys name n (truncate_fails e) h = (λ p. undone _ p [] sys.files h, refl)
opened-Fate sys name n (mmap_fails e) h = (λ p. undone _ p (zeros n) sys.files h, refl)
opened-Fate sys name n allocates h = elim (Bool-cases (n == 0)) [
  | inl z ↦ rw z (λ p. undone _ p [] sys.files h, refl)
  | inr z ↦ rw z (h, λ p. lookup-insert (path_of sys name) p (zeros n) sys.files, refl)
]

pub alloc_shm-Fate : (n : ℕ) (sys : System) → Fate n sys (alloc_shm n sys)
unfolding alloc_shm exists path_of shm_dir
alloc_shm-Fate n sys =
    let k = next_counter sys in
    let name = shm_name sys.pid_tag k in
    let next = record sys { shm_counter = k; outcomes = later_outcomes sys.outcomes } in
    elim (Option-cases (lookup (path_of sys name) sys.files)) [
      | inl e ↦ rw e (opened-Fate next name n (pop_outcome sys.outcomes) e)
      | inr (b, e) ↦ rw e (λ p. refl, refl)
    ]

-- Freeing the blocks would give the files `before`, and the next handle and those above are free.
pub record Restores (before : List (Text × Bytes)) (s : Shm) : Type 0 where
  pub files_back : (p : Text) → lookup p (free_all s).sys.files ≡ lookup p before
  pub unused : (h : ℕ) → s.mgr.next_h ≤ h → lookup h s.mgr.blocks ≡ none

any-insert :
    (q : ℕ × ShmBlock → Bool) (h : ℕ) (b : ShmBlock) (m : List (ℕ × ShmBlock))
    → lookup h m ≡ none
    → any q (insert h b m) ≡ (any q m || q (h, b))
unfolding lookup insert
any-insert q h b [] e = ground arith
any-insert q h b ((j, c) ∷ m) e = ground (arith, any-insert q h b m)

register-Restores :
    (n : ℕ) (before : List (Text × Bytes)) (s : Shm) (r : System × Result ShmError Text)
    → Restores before s
    → s.mgr.next_h + 1 < 2 ^ 32
    → Fate n s.sys r
    → Restores before (register n s.mgr r).0
unfolding register free_all path_of
register-Restores n before s (sys', err e) res bound (same, dir) = record {
  files_back = λ p.
      lookup-free_each sys' p s.mgr.blocks
      ∙ rw (dir, same p) (sym (lookup-free_each s.sys p s.mgr.blocks) ∙ res.files_back p);
  unused = res.unused;
}
register-Restores n before s (sys', ok name) res bound (fresh, same, dir) =
    let h = s.mgr.next_h in
    let blk : ShmBlock = record { name = name; size = n } in
    record {
      files_back = λ p. ground (
        arith,
        lookup-free_each sys' p (insert h blk s.mgr.blocks),
        lookup-free_each s.sys p s.mgr.blocks,
        res.files_back p,
        same p,
        dir,
        fresh,
        text_eq_iff (join (shm_dir s.sys) name) p,
        any-insert (at_path (shm_dir s.sys) p) h blk s.mgr.blocks (res.unused h (omega arith)),
      );
      unused = λ j above. ground (arith, lookup-insert h j blk s.mgr.blocks, res.unused j);
    }

pub alloc-Restores :
    (n : ℕ) (before : List (Text × Bytes)) (s : Shm)
    → Restores before s
    → s.mgr.next_h + 1 < 2 ^ 32
    → Restores before (alloc n s).0
unfolding alloc
alloc-Restores n before s res bound =
    register-Restores n before s _ res bound (alloc_shm-Fate n s.sys)

register-handle :
    (n : ℕ) (m : ShmManager) (r : System × Result ShmError Text)
    → (register n m r).0.mgr.next_h ≤ m.next_h + 1
unfolding register
register-handle n m (sys, err e) = omega arith
register-handle n m (sys, ok name) = omega arith

-- One allocation takes at most one handle.
pub alloc-handle : (n : ℕ) (s : Shm) → (alloc n s).0.mgr.next_h ≤ s.mgr.next_h + 1
unfolding alloc
alloc-handle n s = register-handle n s.mgr (alloc_shm n s.sys)

pub new_manager-Restores :
    (sys : System) → Restores sys.files (record { sys = sys; mgr = new_manager })
unfolding new_manager free_all free_each lookup
new_manager-Restores sys = record { files_back = λ p. refl; unused = λ h above. refl }

pub lookup-some {ℓ} :
    {V : Type ℓ} (q : ℕ × V → Bool) (h : ℕ) (v : V) (m : List (ℕ × V))
    → lookup h m ≡ some v
    → q (h, v) ≡ true
    → any q m ≡ true
unfolding lookup
lookup-some q h v [] e t = cc
lookup-some q h v ((j, w) ∷ m) e t = ground (arith, lookup-some q h v m)

fill_found-Restores :
    (h : ℕ) (raw : Bytes) (before : List (Text × Bytes)) (s : Shm) (o : Option ShmBlock)
    → get s.mgr h ≡ o
    → Restores before s
    → Restores before (fill_found raw s o)
unfolding fill_found get free_all path_of shm_dir
fill_found-Restores h raw before s none e res = res
fill_found-Restores h raw before s (some blk) e res =
    let path = join (shm_dir s.sys) blk.name in
    let content = copied raw (lookup path s.sys.files) in
    record {
      files_back = λ p. ground (
        arith,
        lookup-free_each (record s.sys { files = insert path content s.sys.files }) p s.mgr.blocks,
        lookup-free_each s.sys p s.mgr.blocks,
        res.files_back p,
        lookup-insert path p content s.sys.files,
        lookup-some (at_path (shm_dir s.sys) p) h blk s.mgr.blocks e,
      );
      unused = res.unused;
    }

pub fill-Restores :
    (h : ℕ) (raw : Bytes) (before : List (Text × Bytes)) (s : Shm)
    → Restores before s
    → Restores before (fill h raw s)
unfolding fill
fill-Restores h raw before s res = fill_found-Restores h raw before s _ refl res

fill_found-handle :
    (raw : Bytes) (s : Shm) (o : Option ShmBlock) → (fill_found raw s o).mgr.next_h ≡ s.mgr.next_h
unfolding fill_found
fill_found-handle raw s none = refl
fill_found-handle raw s (some blk) = refl

pub fill-handle : (h : ℕ) (raw : Bytes) (s : Shm) → (fill h raw s).mgr.next_h ≡ s.mgr.next_h
unfolding fill
fill-handle h raw s = fill_found-handle raw s (get s.mgr h)

-- What a user of a manager does before FreeAll: Alloc, and copy into a block.
pub data Use : Type 0 where
  allocate : ℕ → Use
  copy_to : ℕ → Bytes → Use

pub use_shm : Use → Shm → Shm
use_shm (allocate n) s = (alloc n s).0
use_shm (copy_to h raw) s = fill h raw s

unfoldable pub uses : List Use → Shm → Shm
uses [] s = s
uses (u ∷ us) s = uses us (use_shm u s)

uses-Restores :
    (us : List Use) (before : List (Text × Bytes)) (s : Shm)
    → Restores before s
    → s.mgr.next_h + length us < 2 ^ 32
    → Restores before (uses us s)
unfolding uses use_shm
uses-Restores [] before s res bound = res
uses-Restores (allocate n ∷ us) before s res bound =
    uses-Restores us before (alloc n s).0 (alloc-Restores n before s res (omega arith))
      (omega (arith, alloc-handle n s))
uses-Restores (copy_to h raw ∷ us) before s res bound =
    uses-Restores us before (fill h raw s) (fill-Restores h raw before s res)
      (omega (arith, fill-handle h raw s))

-- From a new manager, after fewer than 2^32 calls of Alloc and copies, whichever of the system calls
-- fail, FreeAll leaves every path with the file, or none, that it had before.
pub free_all-uses :
    (sys : System) (us : List Use)
    → length us < 2 ^ 32
    → (p : Text)
    → lookup p (free_all (uses us (record { sys = sys; mgr = new_manager }))).sys.files
      ≡ lookup p sys.files
unfolding new_manager
free_all-uses sys us bound =
    (uses-Restores us sys.files _ (new_manager-Restores sys) (omega (arith, bound))).files_back
