-- ===== src/Shm/Tests.antt =====
-- Concrete runs of the managers of two requests, names of blocks, and a system without shared memory.
use chrysalis.Base.{
  ℕ, ◌≡◌, refl, List, [], ◌∷◌, arith, codes, text_eq, text_key, nat_key, lookup, insert, remove,
}
use chrysalis.Decimal.{show}
use chrysalis.FilePath.{join}
use chrysalis.Shm.{
  System, dir, absent, allocates, mmap_fails, shm_name, path_of, next_counter, new_manager, alloc,
  alloc_shm, shm_dir,
}
use chrysalis.Shm.Sharing.{Operation, operate, act, acts, no_blocks, Owns, others-keep_blocks}
use chrysalis.Shm.Names.{random_hex, shm_name_injective}
use chrysalis.Shm.Other.{OtherFate, alloc_shm_other, alloc_shm_other-OtherFate}

abbrev linux : System
linux = record {
  files = (codes "/dev/shm/other", 1 ∷ 2 ∷ []) ∷ [];
  dev_shm = dir;
  temp_dir = codes "/tmp";
  pid_tag = codes "7-a1b2c3";
  shm_counter = 41;
  outcomes = [];
}

-- Request 0 has a block of two bytes, and the mapping of the first block of request 1 fails.
abbrev two_requests : List (ℕ × Operation)
two_requests =
    (0, Operation.allocates 2) ∷ (1, Operation.allocates 1) ∷ (1, Operation.allocates 3) ∷ []

abbrev faulty : System
faulty = record linux { outcomes = allocates ∷ mmap_fails (codes "no memory") ∷ [] }

abbrev others : List (ℕ × Operation)
others =
    (1, Operation.copies 0 (5 ∷ 6 ∷ []))
    ∷ (1, Operation.frees_all)
    ∷ (2, Operation.allocates 4)
    ∷ []

owned : Owns (acts (no_blocks faulty) two_requests) 0 (codes "/dev/shm/chr-7-a1b2c3-42")
unfolding acts act operate alloc alloc_shm shm_dir shm_name path_of join show next_counter insert
    lookup text_eq new_manager remove
owned = refl

others-keep_blocks_example :
    (lookup
        (codes "/dev/shm/chr-7-a1b2c3-42")
        (acts (acts (no_blocks faulty) two_requests) others).sys.files
      ≡ lookup (codes "/dev/shm/chr-7-a1b2c3-42") (acts (no_blocks faulty) two_requests).sys.files)
    × Owns (acts (acts (no_blocks faulty) two_requests) others) 0 (codes "/dev/shm/chr-7-a1b2c3-42")
others-keep_blocks_example =
    others-keep_blocks faulty two_requests others 0 (codes "/dev/shm/chr-7-a1b2c3-42") owned
      (omega arith, (omega arith, (omega arith, tt)))

shm_name_injective_example :
    (◌≡◌ {A = ℕ} 12 12)
    × (random_hex 6 (161 ∷ 178 ∷ 195 ∷ []) ≡ random_hex 6 (161 ∷ 178 ∷ 195 ∷ []))
    × (◌≡◌ {A = ℕ} 7 7)
shm_name_injective_example =
    shm_name_injective 12 12 (161 ∷ 178 ∷ 195 ∷ []) (161 ∷ 178 ∷ 195 ∷ []) 7 7 refl

alloc_shm_other-OtherFate_example :
    OtherFate
      (5 ∷ 6 ∷ [])
      (record linux { dev_shm = absent })
      (alloc_shm_other 2 (record linux { dev_shm = absent }))
alloc_shm_other-OtherFate_example =
    alloc_shm_other-OtherFate (5 ∷ 6 ∷ []) (record linux { dev_shm = absent })
