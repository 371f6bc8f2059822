-- ===== src/Wire/Frames.antt =====
-- A frame is read back as it was written.
use chrysalis.Base.{
  ℕ, ◌%◌, ◌^◌, ◌≡◌, refl, ◌++◌, arith, length, length-append, take-length-append,
  drop-length-append, le→leb, ok,
}
use chrysalis.Wire.{Bytes, put_uint32, uint32, read_full}

pub uint32-put_uint32 : (n : ℕ) → uint32 (put_uint32 n) ≡ n % 2 ^ 32
unfolding uint32 put_uint32
uint32-put_uint32 n = omega arith

pub length-put_uint32 : (n : ℕ) → length (put_uint32 n) ≡ 4
unfolding put_uint32
length-put_uint32 n = refl

pub read_full-append : (s t : Bytes) → read_full (length s) (s ++ t) ≡ (ok s, t)
unfolding read_full
read_full-append s t = rw (
  le→leb (length s) (length (s ++ t)) (omega (arith, length-append {0} s t)),
  take-length-append s t,
  drop-length-append s t,
)

-- The header of a frame.
pub read_full-header :
    (n : ℕ) (t : Bytes) → read_full 4 (put_uint32 n ++ t) ≡ (ok (put_uint32 n), t)
unfolding put_uint32
read_full-header n t = read_full-append (put_uint32 n) t
