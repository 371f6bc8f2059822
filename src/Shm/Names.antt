-- ===== src/Shm/Names.antt =====
-- The names of blocks: internal/bridge/shm.go, randomHex, shmPid and shmName.
use chrysalis.Base.{
  ℕ, zero, suc, ◌≡◌, ◌≢◌, sym, ap, ◌∙◌, [], ◌∷◌, ◌++◌, append_assoc, take, drop, ◌<◌, arith, Text,
  codes,
}
use chrysalis.Strings.{before, after}
use chrysalis.Strings.Search.{Lacks, before-append, after-append}
use chrysalis.Wire.{Bytes}
use chrysalis.Hex.{hex_digit, hex_encode}
use chrysalis.Decimal.{show, show_injective}
use chrysalis.Decimal.Digits.{Lacks-show}
use chrysalis.Shm.{shm_name}

-- `hex.EncodeToString(b)[:n]`, of bytes that rand.Read gave
unfoldable pub random_hex : ℕ → Bytes → Text
random_hex n random = take n (hex_encode random)

-- The tag of the process, from its number and three random bytes.
unfoldable pub shm_pid : ℕ → Bytes → Text
unfolding random_hex
shm_pid pid random = show pid ++ codes "-" ++ random_hex 6 random

hex_digit-ne : (n : ℕ) → hex_digit n ≢ b'-'
unfolding hex_digit
hex_digit-ne n = ground arith

Lacks-hex_encode : (bs : Bytes) → Lacks b'-' (hex_encode bs)
unfolding hex_encode
Lacks-hex_encode [] = tt
Lacks-hex_encode (b ∷ bs) = (hex_digit-ne _, (hex_digit-ne _, Lacks-hex_encode bs))

Lacks-take : (n : ℕ) (s : Text) → Lacks b'-' s → Lacks b'-' (take n s)
Lacks-take zero s h = tt
Lacks-take (suc n) [] h = tt
Lacks-take (suc n) (c ∷ s) (h, hs) = (h, Lacks-take n s hs)

Lacks-random_hex : (n : ℕ) (r : Bytes) → Lacks b'-' (random_hex n r)
unfolding random_hex
Lacks-random_hex n r = Lacks-take n (hex_encode r) (Lacks-hex_encode r)

-- What stands before the first dash, and after it.
parts_injective :
    (s t u v : Text)
    → Lacks b'-' s
    → Lacks b'-' t
    → s ++ b'-' ∷ u ≡ t ++ b'-' ∷ v
    → (s ≡ t) × (u ≡ v)
parts_injective s t u v hs ht e = (
  sym (before-append b'-' s u hs) ∙ ap (before b'-') e ∙ before-append b'-' t v ht,
  sym (after-append b'-' s u hs) ∙ ap (after b'-') e ∙ after-append b'-' t v ht,
)

name_parts : ℕ → Bytes → ℕ → Text
name_parts pid random n = show pid ++ b'-' ∷ (random_hex 6 random ++ b'-' ∷ show n)

shm_name-parts :
    (pid : ℕ) (random : Bytes) (n : ℕ)
    → shm_name (shm_pid pid random) n ≡ codes "chr-" ++ name_parts pid random n
unfolding shm_name shm_pid name_parts
shm_name-parts pid random n = simp append_assoc

-- Equal names come from the same process number, the same random digits and the same count.
pub shm_name_injective :
    (pid pid' : ℕ) (random random' : Bytes) (n n' : ℕ)
    → shm_name (shm_pid pid random) n ≡ shm_name (shm_pid pid' random') n'
    → (pid ≡ pid') × (random_hex 6 random ≡ random_hex 6 random') × (n ≡ n')
unfolding name_parts
shm_name_injective pid pid' random random' n n' e =
    let same : name_parts pid random n ≡ name_parts pid' random' n' =
      ap (drop 4) (sym (shm_name-parts pid random n) ∙ e ∙ shm_name-parts pid' random' n') in
    let dash_less : b'-' < b'0' = omega arith in
    let (pids, rest) =
      parts_injective (show pid) (show pid') _ _ (Lacks-show b'-' pid dash_less)
        (Lacks-show b'-' pid' dash_less) same in
    let (randoms, counts) =
      parts_injective (random_hex 6 random) (random_hex 6 random') _ _ (Lacks-random_hex 6 random)
        (Lacks-random_hex 6 random') rest in
    (show_injective pid pid' pids, randoms, show_injective n n' counts)
