-- ===== src/Shm/Other.antt =====
-- internal/bridge/shm_other.go: blocks on systems other than Linux and macOS.
use chrysalis.Base.{
  ℕ, ◌≡◌, refl, [], if◌then◌else◌, Text, codes, text_key, none, some, Result, ok, err, lookup,
  insert, remove, lookup-insert, text_eq_refl, length, ◌∙◌, inl, inr, Option-cases,
}
use chrysalis.FilePath.{join}
use chrysalis.Shm.Blocks.{undone}
use chrysalis.Shm.Contents.{copied-zeros}
use chrysalis.Wire.{Bytes}
use chrysalis.Shm.{
  System, AllocOutcome, allocates, open_fails, truncate_fails, mmap_fails, ShmError, create_failed,
  truncate_failed, ShmBlock, next_counter, shm_name, zeros, exists, pop_outcome, later_outcomes,
  copied,
}

pub other_path : System → Text → Text
other_path sys name = join sys.temp_dir name

-- The file has its size, and the slice is memory of the process: there is no mapping to fail.
opened_other : System → Text → Text → ℕ → AllocOutcome → System × Result ShmError (Text × Bytes)
opened_other sys name path n (open_fails e) = (sys, err (create_failed e))
opened_other sys name path n (truncate_fails e) =
    (record sys { files = remove path (insert path [] sys.files) }, err (truncate_failed e))
opened_other sys name path n (mmap_fails e) =
    (record sys { files = insert path (zeros n) sys.files }, ok (name, zeros n))
opened_other sys name path n allocates =
    (record sys { files = insert path (zeros n) sys.files }, ok (name, zeros n))

unfoldable pub alloc_shm_other : ℕ → System → System × Result ShmError (Text × Bytes)
unfolding opened_other other_path pop_outcome later_outcomes
alloc_shm_other n sys =
    let k = next_counter sys in
    let name = shm_name sys.pid_tag k in
    let path = other_path sys name in
    let counted = record sys { shm_counter = k } in
    if exists (lookup path sys.files)
    then (counted, err (create_failed (codes "file exists")))
    else opened_other (record counted { outcomes = later_outcomes sys.outcomes }) name path n
        (pop_outcome sys.outcomes)

unfoldable pub free_shm_other : System → ShmBlock → System
unfolding other_path
free_shm_other sys blk = record sys { files = remove (other_path sys blk.name) sys.files }

-- On an error all files are as before. On success the slice takes the bytes, the file holds zeros,
-- and freeing the block puts all files back.
abbrev pub OtherFate : Bytes → System → System × Result ShmError (Text × Bytes) → Type 0
OtherFate raw sys (sys', err e) = (p : Text) → lookup p sys'.files ≡ lookup p sys.files
OtherFate raw sys (sys', ok (name, slice)) =
    (copied raw (some slice) ≡ raw)
    × (lookup (other_path sys name) sys'.files ≡ some (zeros (length raw)))
    × ((p : Text)
        → lookup p (free_shm_other sys' (record { name = name; size = length raw })).files
          ≡ lookup p sys.files)

made-Fate :
    (raw : Bytes) (sys : System) (name : Text)
    → lookup (other_path sys name) sys.files ≡ none
    → OtherFate raw sys (
      record sys { files = insert (other_path sys name) (zeros (length raw)) sys.files },
      ok (name, zeros (length raw)),
    )
unfolding free_shm_other
made-Fate raw sys name h =
    let path = other_path sys name in
    let zeroed = zeros (length raw) in
    (
      copied-zeros raw,
      lookup-insert path path zeroed sys.files ∙ rw (text_eq_refl path),
      λ p. undone path p zeroed sys.files h,
    )

opened_other-Fate :
    (raw : Bytes) (sys : System) (name : Text) (o : AllocOutcome)
    → lookup (other_path sys name) sys.files ≡ none
    → OtherFate raw sys (opened_other sys name (other_path sys name) (length raw) o)
unfolding opened_other
opened_other-Fate raw sys name (open_fails e) h = λ p. refl
opened_other-Fate raw sys name (truncate_fails e) h =
    λ p. undone (other_path sys name) p [] sys.files h
opened_other-Fate raw sys name (mmap_fails e) h = made-Fate raw sys name h
opened_other-Fate raw sys name allocates h = made-Fate raw sys name h

-- On these systems an allocation for some bytes that fails leaves all files as they were. One that
-- succeeds gives a slice that takes the bytes, while the file of that name, which the worker reads,
-- holds as many zeros; and freeing the block puts all files back.
pub alloc_shm_other-OtherFate :
    (raw : Bytes) (sys : System) → OtherFate raw sys (alloc_shm_other (length raw) sys)
unfolding alloc_shm_other exists
alloc_shm_other-OtherFate raw sys =
    let k = next_counter sys in
    let name = shm_name sys.pid_tag k in
    let next = record sys { shm_counter = k; outcomes = later_outcomes sys.outcomes } in
    elim (Option-cases (lookup (other_path sys name) sys.files)) [
      | inl e ↦ rw e (opened_other-Fate raw next name (pop_outcome sys.outcomes) e)
      | inr (b, e) ↦ rw e (λ p. refl)
    ]
