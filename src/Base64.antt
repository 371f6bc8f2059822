-- ===== src/Base64.antt =====
-- EncodeToString and DecodeString of Go's base64.StdEncoding, as internal/bridge/dispatcher.go uses
-- them: padded, line breaks skipped, the unused bits of the last character not looked at.
pub mod RoundTrip
use chrysalis.Base.{
  ℕ, ◌+◌, ◌-◌, ◌*◌, ◌/◌, ◌%◌, Bool, true, false, ◌||◌, List, [], ◌∷◌, ◌++◌, ◌==◌, ltb, leb,
  if◌then◌else◌, Text, Option, none, some,
}
use chrysalis.Wire.{Bytes}

abbrev pub pad : ℕ
pad = b'='

-- The alphabet: A to Z, a to z, 0 to 9, + and /.
unfoldable pub to_char : ℕ → ℕ
to_char n =
    if ltb n 26
    then b'A' + n
    else if ltb n 52
    then b'a' + (n - 26)
    else if ltb n 62
    then b'0' + (n - 52)
    else if n == 62
    then b'+'
    else b'/'

between : ℕ → ℕ → ℕ → Bool
between a b c = if leb a c then leb c b else false

unfoldable pub of_char : ℕ → Option ℕ
unfolding between
of_char c =
    if between b'A' b'Z' c
    then some (c - b'A')
    else if between b'a' b'z' c
    then some (c - b'a' + 26)
    else if between b'0' b'9' c
    then some (c - b'0' + 52)
    else if c == b'+'
    then some 62
    else if c == b'/'
    then some 63
    else none

unfoldable pub encode : Bytes → Text
unfolding to_char
encode [] = []
encode (a ∷ []) = to_char (a / 4) ∷ to_char (a % 4 * 16) ∷ pad ∷ pad ∷ []
encode (a ∷ b ∷ []) =
    to_char (a / 4) ∷ to_char (a % 4 * 16 + b / 16) ∷ to_char (b % 16 * 4) ∷ pad ∷ []
encode (a ∷ b ∷ c ∷ rest) =
    to_char (a / 4)
    ∷ to_char (a % 4 * 16 + b / 16)
    ∷ to_char (b % 16 * 4 + c / 64)
    ∷ to_char (c % 64)
    ∷ encode rest

first_byte : ℕ → ℕ → ℕ
first_byte w x = w * 4 + x / 16

second_byte : ℕ → ℕ → ℕ
second_byte x y = x % 16 * 16 + y / 4

third_byte : ℕ → ℕ → ℕ
third_byte y z = y % 4 * 64 + z

one_byte : Option ℕ → Option ℕ → Option Bytes
unfolding first_byte
one_byte (some w) (some x) = some (first_byte w x ∷ [])
one_byte _ _ = none

two_bytes : Option ℕ → Option ℕ → Option ℕ → Option Bytes
unfolding first_byte second_byte
two_bytes (some w) (some x) (some y) = some (first_byte w x ∷ second_byte x y ∷ [])
two_bytes _ _ _ = none

three_bytes : Option ℕ → Option ℕ → Option ℕ → Option ℕ → Option Bytes → Option Bytes
unfolding first_byte second_byte third_byte
three_bytes (some w) (some x) (some y) (some z) (some rest) =
    some (first_byte w x ∷ second_byte x y ∷ third_byte y z ∷ rest)
three_bytes _ _ _ _ _ = none

-- The last group of characters, which may be padded. Nothing may follow the padding.
padded : ℕ → ℕ → ℕ → Text → Option Bytes
unfolding one_byte two_bytes
padded a b c [] =
    if c == pad
    then one_byte (of_char a) (of_char b)
    else two_bytes (of_char a) (of_char b) (of_char c)
padded a b c (e ∷ rest) = none

unfoldable pub decode_groups : Text → Option Bytes
unfolding padded three_bytes
decode_groups [] = some []
decode_groups (a ∷ b ∷ c ∷ d ∷ rest) =
    let more = decode_groups rest in
    if d == pad
    then padded a b c rest
    else three_bytes (of_char a) (of_char b) (of_char c) (of_char d) more
decode_groups _ = none

unfoldable pub skip_breaks : Text → Text
skip_breaks [] = []
skip_breaks (c ∷ s) = if (c == b'\n') || (c == b'\r') then skip_breaks s else c ∷ skip_breaks s

unfoldable pub decode : Text → Option Bytes
unfolding decode_groups skip_breaks
decode s = decode_groups (skip_breaks s)
