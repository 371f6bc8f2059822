-- ===== src/Shm.antt =====
-- internal/bridge/shm.go and shm_unix.go: blocks of shared memory, each a file of its own.
pub mod Paths
pub mod Blocks
pub mod Contents
pub mod Growing
pub mod Sharing
pub mod Names
pub mod Other
mod Tests
use mathlib.Core.List.{foldl}
use chrysalis.Base.{
  ℕ, zero, suc, ◌+◌, ◌%◌, ◌^◌, Bool, true, false, List, [], ◌∷◌, ◌++◌, ◌==◌, if◌then◌else◌, length,
  take, drop, Text, codes, Option, none, some, Result, ok, err, nat_key, text_key, lookup, insert,
  remove,
}
use chrysalis.Decimal.{show}
use chrysalis.FilePath.{join}
use chrysalis.Wire.{Bytes}

-- What Stat says of /dev/shm.
pub data DevShm : Type 0 where
  absent not_dir dir : DevShm

-- How the system calls of the next allocations go: all three well, or one fails.
pub data AllocOutcome : Type 0 where
  allocates : AllocOutcome
  open_fails truncate_fails mmap_fails : Text → AllocOutcome

-- The file system as far as shared memory goes, and the process-wide counter of names. `pid_tag` is
-- what shmPid returns. Once `outcomes` is used up, the calls go well.
pub record System : Type 0 where
  pub files : List (Text × Bytes)
  pub dev_shm : DevShm
  pub temp_dir : Text
  pub pid_tag : Text
  pub shm_counter : ℕ
  pub outcomes : List AllocOutcome

pub record ShmBlock : Type 0 where
  pub name : Text
  pub size : ℕ

pub record ShmManager : Type 0 where
  pub blocks : List (ℕ × ShmBlock)
  pub next_h : ℕ

unfoldable pub new_manager : ShmManager
new_manager = record { blocks = []; next_h = 0 }

-- The errors of allocShm with what they wrap.
pub data ShmError : Type 0 where
  create_failed truncate_failed mmap_failed : Text → ShmError

abbrev pub shm_dir_at : DevShm → Text → Text
shm_dir_at dir temp = codes "/dev/shm"
shm_dir_at not_dir temp = temp
shm_dir_at absent temp = temp

unfoldable pub shm_dir : System → Text
shm_dir sys = shm_dir_at sys.dev_shm sys.temp_dir

-- `shmCounter.Add(1)` on 64 bits, and the name that it gives.
unfoldable pub next_counter : System → ℕ
next_counter sys = (sys.shm_counter + 1) % 2 ^ 64

unfoldable pub shm_name : Text → ℕ → Text
shm_name tag n = codes "chr-" ++ (tag ++ (codes "-" ++ show n))

unfoldable pub path_of : System → Text → Text
path_of sys name = join (shm_dir sys) name

unfoldable pub zeros : ℕ → Bytes
zeros zero = []
zeros (suc n) = 0 ∷ zeros n

pop_outcome : List AllocOutcome → AllocOutcome
pop_outcome [] = allocates
pop_outcome (o ∷ os) = o

later_outcomes : List AllocOutcome → List AllocOutcome
later_outcomes [] = []
later_outcomes (o ∷ os) = os

-- The three system calls. A file that is there already is not opened (O_EXCL), an empty mapping is
-- refused, and after a failure the file is removed again.
opened : System → Text → Text → ℕ → AllocOutcome → System × Result ShmError Text
unfolding zeros
opened sys name path nbytes (open_fails e) = (sys, err (create_failed e))
opened sys name path nbytes (truncate_fails e) =
    (record sys { files = remove path (insert path [] sys.files) }, err (truncate_failed e))
opened sys name path nbytes (mmap_fails e) =
    (record sys { files = remove path (insert path (zeros nbytes) sys.files) }, err (mmap_failed e))
opened sys name path nbytes allocates =
    if nbytes == 0
    then (
      record sys { files = remove path (insert path [] sys.files) },
      err (mmap_failed (codes "invalid argument")),
    )
    else (record sys { files = insert path (zeros nbytes) sys.files }, ok name)

unfoldable pub exists : Option Bytes → Bool
exists none = false
exists (some b) = true

unfoldable pub alloc_shm : ℕ → System → System × Result ShmError Text
unfolding opened pop_outcome later_outcomes exists
alloc_shm nbytes sys =
    let n = next_counter sys in
    let name = shm_name sys.pid_tag n in
    let path = path_of sys name in
    let counted = record sys { shm_counter = n } in
    if exists (lookup path sys.files)
    then (counted, err (create_failed (codes "file exists")))
    else opened (record counted { outcomes = later_outcomes sys.outcomes }) name path nbytes
        (pop_outcome sys.outcomes)

-- Munmap, Close and Remove.
unfoldable pub free_shm : System → ShmBlock → System
free_shm sys blk = record sys { files = remove (path_of sys blk.name) sys.files }

-- The system and the manager of one dispatch.
pub record Shm : Type 0 where
  pub sys : System
  pub mgr : ShmManager

register : ℕ → ShmManager → System × Result ShmError Text → Shm × Result ShmError ℕ
register nbytes m (sys, err e) = (record { sys = sys; mgr = m }, err e)
register nbytes m (sys, ok name) = (
  record {
    sys = sys;
    mgr = record {
      blocks = insert m.next_h (record { name = name; size = nbytes }) m.blocks;
      next_h = (m.next_h + 1) % 2 ^ 32;
    };
  },
  ok m.next_h,
)

-- Alloc. The slice that it returns beside the handle is the content of the block's file.
unfoldable pub alloc : ℕ → Shm → Shm × Result ShmError ℕ
unfolding register
alloc nbytes s = register nbytes s.mgr (alloc_shm nbytes s.sys)

unfoldable pub get : ShmManager → ℕ → Option ShmBlock
get m h = lookup h m.blocks

-- The file under a block after `copy(slice, raw)`, from the content that it had.
unfoldable pub copied : Bytes → Option Bytes → Bytes
copied raw none = []
copied raw (some old) = take (length old) raw ++ drop (length raw) old

fill_found : Bytes → Shm → Option ShmBlock → Shm
unfolding copied
fill_found raw s none = s
fill_found raw s (some blk) =
    let path = path_of s.sys blk.name in
    record s {
      sys = record s.sys { files = insert path (copied raw (lookup path s.sys.files)) s.sys.files };
    }

-- `copy(slice, raw)` into the block with the handle `h`
unfoldable pub fill : ℕ → Bytes → Shm → Shm
unfolding fill_found
fill h raw s = fill_found raw s (get s.mgr h)

free_found : ℕ → Shm → Option ShmBlock → Shm
free_found h s none = s
free_found h s (some blk) = record {
  sys = free_shm s.sys blk;
  mgr = record s.mgr { blocks = remove h s.mgr.blocks };
}

unfoldable pub free : ℕ → Shm → Shm
unfolding free_found
free h s = free_found h s (get s.mgr h)

-- Frees a list of blocks; FreeAll goes through them in the order of a Go map, here in theirs.
unfoldable pub free_each : System → List (ℕ × ShmBlock) → System
free_each sys [] = sys
free_each sys ((h, blk) ∷ bs) = free_each (free_shm sys blk) bs

unfoldable pub free_all : Shm → Shm
unfolding free_each
free_all s = record { sys = free_each s.sys s.mgr.blocks; mgr = record s.mgr { blocks = [] } }
