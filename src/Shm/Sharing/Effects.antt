-- ===== src/Shm/Sharing/Effects.antt =====
-- What one operation of a manager does, path by path.
use chrysalis.Base.{
  ℕ, ◌≡◌, refl, ◌∙◌, Bool, true, false, List, [], ◌∷◌, any, ◌⊎◌, arith, Text, text_eq_iff, Option,
  none, some, Result, ok, err, lookup, insert, lookup-insert, text_key, nat_key,
}
use chrysalis.FilePath.{join}
use chrysalis.Wire.{Bytes}
use chrysalis.Shm.{
  System, Shm, ShmBlock, ShmError, ShmManager, exists, alloc, register, fill, fill_found, copied,
  get, free_all, free_each, free_shm, shm_dir, path_of,
}
use chrysalis.Shm.Blocks.{at_path, Fate, alloc_shm-Fate, lookup-free_each, lookup-some}

-- The manager has a block with its file at the path.
abbrev pub owns_in : Text → ShmManager → Text → Bool
owns_in dir m p = any (at_path dir p) m.blocks

abbrev pub owns : Shm → Text → Bool
owns s p = owns_in (shm_dir s.sys) s.mgr p

-- A path that the manager owns neither before nor after keeps its file; one that it comes to own had
-- none; and if all its blocks had files before, they have them after.
pub record Effect (s t : Shm) : Type 0 where
  pub same_dir : shm_dir t.sys ≡ shm_dir s.sys
  pub untouched :
      (p : Text) → owns s p ≡ false → owns t p ≡ false → lookup p t.sys.files ≡ lookup p s.sys.files
  pub fresh : (p : Text) → owns s p ≡ false → owns t p ≡ true → lookup p s.sys.files ≡ none
  pub backed :
      (p : Text)
      → (owns s p ≡ true → exists (lookup p s.sys.files) ≡ true)
      → owns t p ≡ true
      → exists (lookup p t.sys.files) ≡ true

any-insert_inv :
    (q : ℕ × ShmBlock → Bool) (h : ℕ) (b : ShmBlock) (m : List (ℕ × ShmBlock))
    → any q (insert h b m) ≡ true
    → (q (h, b) ≡ true) ⊎ (any q m ≡ true)
unfolding insert
any-insert_inv q h b [] e = ground arith
any-insert_inv q h b ((j, c) ∷ m) e = ground (arith, any-insert_inv q h b m)

any-insert_new :
    (q : ℕ × ShmBlock → Bool) (h : ℕ) (b : ShmBlock) (m : List (ℕ × ShmBlock))
    → q (h, b) ≡ true
    → any q (insert h b m) ≡ true
unfolding insert
any-insert_new q h b [] e = ground arith
any-insert_new q h b ((j, c) ∷ m) e = ground (arith, any-insert_new q h b m)

register-Effect :
    (n : ℕ) (s : Shm) (r : System × Result ShmError Text)
    → Fate n s.sys r
    → Effect s (register n s.mgr r).0
unfolding register exists path_of
register-Effect n s (sys', err e) (same, dir) = record {
  same_dir = dir;
  untouched = λ p a b. same p;
  fresh = λ p a b. cc (a, b, dir);
  backed = λ p old now. rw (same p) (old (rw dir at now));
}
register-Effect n s (sys', ok name) (free, same, dir) =
    let h = s.mgr.next_h in
    let blk : ShmBlock = record { name = name; size = n } in
    record {
      same_dir = dir;
      untouched = λ p a b.
          ground
            (arith, same p, dir, any-insert_new (at_path (shm_dir s.sys) p) h blk s.mgr.blocks);
      fresh = λ p a b. ground (
        arith,
        free,
        dir,
        text_eq_iff (join (shm_dir s.sys) name) p,
        any-insert_inv (at_path (shm_dir s.sys) p) h blk s.mgr.blocks,
      );
      backed = λ p old now.
          ground (
            arith,
            same p,
            dir,
            old,
            any-insert_inv (at_path (shm_dir s.sys) p) h blk s.mgr.blocks,
          );
    }

pub alloc-Effect : (n : ℕ) (s : Shm) → Effect s (alloc n s).0
unfolding alloc
alloc-Effect n s = register-Effect n s _ (alloc_shm-Fate n s.sys)

fill_found-Effect :
    (h : ℕ) (raw : Bytes) (s : Shm) (o : Option ShmBlock)
    → get s.mgr h ≡ o
    → Effect s (fill_found raw s o)
unfolding fill_found get path_of shm_dir exists
fill_found-Effect h raw s none e = record {
  same_dir = refl;
  untouched = λ p a b. refl;
  fresh = λ p a b. cc;
  backed = λ p old now. old now;
}
fill_found-Effect h raw s (some blk) e =
    let path = join (shm_dir s.sys) blk.name in
    let content = copied raw (lookup path s.sys.files) in
    record {
      same_dir = refl;
      untouched = λ p a b. ground (
        arith,
        lookup-insert path p content s.sys.files,
        lookup-some (at_path (shm_dir s.sys) p) h blk s.mgr.blocks e,
      );
      fresh = λ p a b. cc;
      backed = λ p old now. ground (arith, old, lookup-insert path p content s.sys.files);
    }

pub fill-Effect : (h : ℕ) (raw : Bytes) (s : Shm) → Effect s (fill h raw s)
unfolding fill
fill-Effect h raw s = fill_found-Effect h raw s _ refl

free_each-dir : (sys : System) (bs : List (ℕ × ShmBlock)) → shm_dir (free_each sys bs) ≡ shm_dir sys
unfolding free_each free_shm shm_dir
free_each-dir sys [] = refl
free_each-dir sys ((h, blk) ∷ bs) = free_each-dir (free_shm sys blk) bs

pub free_all-Effect : (s : Shm) → Effect s (free_all s)
unfolding free_all
free_all-Effect s = record {
  same_dir = free_each-dir s.sys s.mgr.blocks;
  untouched = λ p a b. lookup-free_each s.sys p s.mgr.blocks ∙ rw a;
  fresh = λ p a b. cc;
  backed = λ p old now. cc;
}
