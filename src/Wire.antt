-- ===== src/Wire.antt =====
-- Length-prefixed frames, as internal/worker/worker.go and internal/bridge/dispatcher.go read and
-- write them: four bytes of length, the highest first, then the body.
pub mod Frames
use chrysalis.Base.{
  ℕ, ◌+◌, ◌*◌, ◌/◌, ◌%◌, ◌^◌, Bool, true, false, List, [], ◌∷◌, ◌++◌, ◌==◌, leb, if◌then◌else◌,
  length, take, drop, Text, Result, ok, err,
}

abbrev pub Bytes : Type 0
Bytes = List ℕ

-- `binary.BigEndian.PutUint32(hdr, uint32(n))`
unfoldable pub put_uint32 : ℕ → Bytes
put_uint32 n = n / 2 ^ 24 % 256 ∷ n / 2 ^ 16 % 256 ∷ n / 2 ^ 8 % 256 ∷ n % 256 ∷ []

-- `binary.BigEndian.Uint32(hdr)`
unfoldable pub uint32 : Bytes → ℕ
uint32 (a ∷ b ∷ c ∷ d ∷ rest) = a * 2 ^ 24 + b * 2 ^ 16 + c * 2 ^ 8 + d
uint32 _ = 0

-- The errors of a reader or writer that the code tells apart, and the others by their text.
pub data IoError : Type 0 where
  eof : IoError
  unexpected_eof : IoError
  closed_pipe : IoError
  other : Text → IoError

-- `io.ReadFull` of n bytes: what it returns, and what is left to read. The stream holds all that
-- the other side will ever send.
unfoldable pub read_full : ℕ → Bytes → Result IoError Bytes × Bytes
read_full n s =
    if leb n (length s)
    then (ok (take n s), drop n s)
    else if length s == 0
    then (err eof, [])
    else (err unexpected_eof, [])

unfoldable pub frame : Bytes → Bytes
frame body = put_uint32 (length body) ++ body
