-- ===== src/Base64/RoundTrip.antt =====
-- Decoding gives back what was encoded.
use chrysalis.Base.{
  ℕ, ◌+◌, ◌*◌, ◌/◌, ◌%◌, ◌<◌, ◌≡◌, ◌≢◌, refl, false, [], ◌∷◌, ◌==◌, All, arith, Text, some,
}
use chrysalis.Wire.{Bytes}
use chrysalis.Base64.{
  pad, to_char, of_char, between, encode, first_byte, second_byte, third_byte, one_byte, two_bytes,
  three_bytes, padded, decode_groups, skip_breaks, decode,
}

of_char-to_char : (n : ℕ) → n < 64 → of_char (to_char n) ≡ some n
unfolding of_char to_char between
of_char-to_char n h = ground arith

-- A character of the alphabet is neither the padding nor a line break.
to_char-IsDigit : (n : ℕ) → (to_char n ≢ pad) × (to_char n ≢ b'\n') × (to_char n ≢ b'\r')
unfolding to_char
to_char-IsDigit n = ground arith

abbrev pub IsByte : ℕ → Type 0
IsByte b = b < 256

-- One test of a character of the alphabet.
to_char-tests :
    (n : ℕ)
    → ((to_char n == pad) ≡ false) × ((to_char n == b'\n') ≡ false) × ((to_char n == b'\r') ≡ false)
to_char-tests n = let (p, l, r) = to_char-IsDigit n in (ground arith, ground arith, ground arith)

skip-char : (n : ℕ) (s : Text) → skip_breaks (to_char n ∷ s) ≡ to_char n ∷ skip_breaks s
unfolding skip_breaks
skip-char n s = let (p, l, r) = to_char-tests n in rw (l, r)

skip-pad : (s : Text) → skip_breaks (pad ∷ s) ≡ pad ∷ skip_breaks s
unfolding skip_breaks
skip-pad s = refl

skip-end : skip_breaks [] ≡ []
unfolding skip_breaks
skip-end = refl

skip_breaks-encode : (bs : Bytes) → skip_breaks (encode bs) ≡ encode bs
unfolding encode
skip_breaks-encode [] = skip-end
skip_breaks-encode (a ∷ []) =
    rw (skip-char (a / 4), skip-char (a % 4 * 16), skip-pad, skip-pad, skip-end)
skip_breaks-encode (a ∷ b ∷ []) =
    rw (
      skip-char (a / 4),
      skip-char (a % 4 * 16 + b / 16),
      skip-char (b % 16 * 4),
      skip-pad,
      skip-end,
    )
skip_breaks-encode (a ∷ b ∷ c ∷ rest) = rw (
  skip-char (a / 4),
  skip-char (a % 4 * 16 + b / 16),
  skip-char (b % 16 * 4 + c / 64),
  skip-char (c % 64),
  skip_breaks-encode rest,
)

module _ (a b c : ℕ) (ha : a < 256) (hb : b < 256) (hc : c < 256) where
  three_back :
      (rest : Bytes)
      → three_bytes
          (of_char (to_char (a / 4)))
          (of_char (to_char (a % 4 * 16 + b / 16)))
          (of_char (to_char (b % 16 * 4 + c / 64)))
          (of_char (to_char (c % 64)))
          (some rest)
        ≡ some (a ∷ b ∷ c ∷ rest)
  unfolding three_bytes first_byte second_byte third_byte
  three_back rest =
      rw
        (
          of_char-to_char (a / 4) (omega arith),
          of_char-to_char (a % 4 * 16 + b / 16) (omega arith),
          of_char-to_char (b % 16 * 4 + c / 64) (omega arith),
          of_char-to_char (c % 64) (omega arith),
        )
        (ground arith)

  two_back :
      two_bytes
        (of_char (to_char (a / 4)))
        (of_char (to_char (a % 4 * 16 + b / 16)))
        (of_char (to_char (b % 16 * 4)))
      ≡ some (a ∷ b ∷ [])
  unfolding two_bytes first_byte second_byte
  two_back =
      rw
        (
          of_char-to_char (a / 4) (omega arith),
          of_char-to_char (a % 4 * 16 + b / 16) (omega arith),
          of_char-to_char (b % 16 * 4) (omega arith),
        )
        (ground arith)

  one_back : one_byte (of_char (to_char (a / 4))) (of_char (to_char (a % 4 * 16))) ≡ some (a ∷ [])
  unfolding one_byte first_byte
  one_back =
      rw (of_char-to_char (a / 4) (omega arith), of_char-to_char (a % 4 * 16) (omega arith))
        (ground arith)

decode_groups-encode : (bs : Bytes) → All IsByte bs → decode_groups (encode bs) ≡ some bs
unfolding encode decode_groups padded
decode_groups-encode [] h = refl
decode_groups-encode (a ∷ []) (ha, _) = one_back a 0 0 ha (omega arith) (omega arith)
decode_groups-encode (a ∷ b ∷ []) (ha, (hb, _)) =
    rw (to_char-tests (b % 16 * 4)).0 (two_back a b 0 ha hb (omega arith))
decode_groups-encode (a ∷ b ∷ c ∷ rest) (ha, (hb, (hc, h))) =
    rw ((to_char-tests (c % 64)).0, decode_groups-encode rest h) (three_back a b c ha hb hc rest)

-- What EncodeToString wrote, DecodeString reads back, for bytes below 256.
pub decode-encode : (bs : Bytes) → All IsByte bs → decode (encode bs) ≡ some bs
unfolding decode
decode-encode bs h = rw (skip_breaks-encode bs) (decode_groups-encode bs h)
