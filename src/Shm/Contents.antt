-- ===== src/Shm/Contents.antt =====
-- What a block holds after an allocation that went well and the copy into it.
use chrysalis.Base.{
  ℕ, suc, ◌+◌, ◌%◌, ◌^◌, ◌≡◌, refl, sym, subst, ap, ◌∙◌, ◌⊎◌, inl, inr, false, List, [], ◌∷◌, ◌==◌,
  length, arith, Text, text_key, nat_key, text_eq_refl, none, some, ok, lookup, insert,
  lookup-insert,
}
use chrysalis.Wire.{Bytes}
use chrysalis.Shm.{
  System, AllocOutcome, allocates, ShmBlock, Shm, shm_name, next_counter, path_of, shm_dir, zeros,
  opened, exists, pop_outcome, later_outcomes, alloc_shm, register, alloc, get, fill, fill_found,
  copied,
}

-- The name of the next block, and its file.
abbrev pub next_name : System → Text
next_name sys = shm_name sys.pid_tag (next_counter sys)

abbrev pub next_path : System → Text
next_path sys = path_of sys (next_name sys)

-- The next allocation goes well, whatever becomes of those after it.
abbrev pub NextGoesWell : System → Type 0
NextGoesWell sys =
    (sys.outcomes ≡ []) ⊎ ((later : List AllocOutcome) × (sys.outcomes ≡ allocates ∷ later))

-- It does, and its file is not there yet.
pub record IsReady (sys : System) : Type 0 where
  pub allocating : NextGoesWell sys
  pub file_new : lookup (next_path sys) sys.files ≡ none

pub copied-zeros : (raw : Bytes) → copied raw (some (zeros (length raw))) ≡ raw
unfolding copied zeros
copied-zeros [] = refl
copied-zeros (x ∷ raw) = ap (◌∷◌ x) (copied-zeros raw)

abbrev pub next_block : ℕ → System → ShmBlock
next_block n sys = record { name = next_name sys; size = n }

-- The state after the allocation, with `content` in the new file.
abbrev allocated : ℕ → Bytes → Shm → Shm
allocated n content s = record {
  sys = record s.sys {
    shm_counter = next_counter s.sys;
    outcomes = later_outcomes s.sys.outcomes;
    files = insert (next_path s.sys) content s.sys.files;
  };
  mgr = record {
    blocks = insert s.mgr.next_h (next_block n s.sys) s.mgr.blocks;
    next_h = (s.mgr.next_h + 1) % 2 ^ 32;
  };
}

not_zero : (n : ℕ) → (suc n == 0) ≡ false
not_zero n = ground arith

alloc-IsReady :
    (n : ℕ) (s : Shm)
    → IsReady s.sys
    → alloc (suc n) s ≡ (allocated (suc n) (zeros (suc n)) s, ok s.mgr.next_h)
unfolding alloc alloc_shm exists register pop_outcome opened
alloc-IsReady n s ready = elim ready.allocating [
  | inl none_left ↦ rw (ready.file_new, none_left, not_zero n) refl
  | inr (later, next_well) ↦ rw (ready.file_new, next_well, not_zero n) refl
]

get-allocated :
    (n : ℕ) (content : Bytes) (s : Shm)
    → get (allocated n content s).mgr s.mgr.next_h ≡ some (next_block n s.sys)
unfolding get
get-allocated n content s =
    lookup-insert s.mgr.next_h s.mgr.next_h (next_block n s.sys) s.mgr.blocks ∙ ground arith

fill-allocated :
    (raw : Bytes) (s : Shm)
    → fill s.mgr.next_h raw (allocated (length raw) (zeros (length raw)) s)
      ≡ record (allocated (length raw) (zeros (length raw)) s) {
        sys = record (allocated (length raw) (zeros (length raw)) s).sys {
          files =
              insert
                (next_path s.sys)
                raw
                (insert (next_path s.sys) (zeros (length raw)) s.sys.files);
        };
      }
unfolding fill fill_found path_of shm_dir
fill-allocated raw s =
    let n = length raw in
    let path = next_path s.sys in
    rw (
      get-allocated n (zeros n) s,
      lookup-insert path path (zeros n) s.sys.files,
      text_eq_refl path,
      copied-zeros raw,
    )

-- The block with its handle, after Alloc and the copy of `raw`.
pub record Holds (raw : Bytes) (s t : Shm) : Type 0 where
  pub registered : get t.mgr s.mgr.next_h ≡ some (next_block (length raw) s.sys)
  pub content : lookup (next_path s.sys) t.sys.files ≡ some raw
  pub same_dev : t.sys.dev_shm ≡ s.sys.dev_shm
  pub same_temp : t.sys.temp_dir ≡ s.sys.temp_dir

-- Alloc and the copy of bytes, not none, when the system is ready.
pub alloc-fill :
    (x : ℕ) (xs : Bytes) (s : Shm)
    → IsReady s.sys
    → (t : Shm) × (alloc (length (x ∷ xs)) s ≡ (t, ok s.mgr.next_h))
      × Holds (x ∷ xs) s (fill s.mgr.next_h (x ∷ xs) t)
unfolding get
alloc-fill x xs s ready =
    let raw = x ∷ xs in
    let n = length raw in
    let path = next_path s.sys in
    (
      allocated n (zeros n) s,
      alloc-IsReady (length xs) s ready,
      subst (Holds raw s) (sym (fill-allocated raw s)) (record {
        registered = get-allocated n (zeros n) s;
        content = lookup-insert path path raw _ ∙ rw (text_eq_refl path);
        same_dev = refl;
        same_temp = refl;
      }),
    )
