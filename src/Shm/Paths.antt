-- ===== src/Shm/Paths.antt =====
-- Where the file of a block lies when /dev/shm is a directory.
use chrysalis.Base.{ℕ, ◌≡◌, refl, ◌++◌, arith, All-append, Text, codes, text_eq}
use chrysalis.Strings.Search.{Lacks}
use chrysalis.Decimal.{show}
use chrysalis.Decimal.Digits.{Lacks-show}
use chrysalis.FilePath.{slash, elements, render, clean, join}
use chrysalis.FilePath.Plain.{IsPlain, elements_of_Lacks, walk-IsPlain}
use chrysalis.Shm.{shm_name}

pub shm_name-IsPlain : (tag : Text) (n : ℕ) → Lacks slash tag → IsPlain (shm_name tag n)
unfolding shm_name text_eq
shm_name-IsPlain tag n h = record {
  no_slash =
      All-append _ (codes "chr-") _ (omega arith, (omega arith, (omega arith, (omega arith, tt))))
        (All-append _ tag _ h
          (All-append _ (codes "-") (show n) (omega arith, tt) (Lacks-show slash n (omega arith))));
  not_empty = refl;
  not_dot = refl;
  not_up = refl;
}

pub join-dev_shm :
    (name : Text) → IsPlain name → join (codes "/dev/shm") name ≡ codes "/dev/shm/" ++ name
unfolding join clean elements render
join-dev_shm name h = rw (elements_of_Lacks name h.no_slash, walk-IsPlain) refl
