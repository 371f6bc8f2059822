-- ===== src/Dispatch/Bridge/Loop.antt =====
-- The loop over a stream of framed messages: it handles them one by one.
use mathlib.Core.List.{foldl}
use chrysalis.Base.{
  ℕ, zero, suc, ◌≡◌, ◌≤◌, ◌<◌, refl, ◌∙◌, false, List, [], ◌∷◌, ◌++◌, append_assoc, ◌==◌, le→leb,
  length, length-append, All, arith, ok,
}
use chrysalis.Wire.{Bytes, IoError, put_uint32, uint32, read_full, frame}
use chrysalis.Wire.Frames.{uint32-put_uint32, length-put_uint32, read_full-append, read_full-header}
use chrysalis.Filter.{Filter}
use chrysalis.Worker.Protocol.{Codec}
use chrysalis.Dispatch.{Serve}
use chrysalis.Dispatch.Bridge.{
  BridgeCodec, Session, no_header, max_request, handle_body, after_body, after_header, rounds,
  bridge,
}

-- The bodies that the loop takes: not empty, and at most 8 MiB.
pub record IsRequest (body : Bytes) : Type 0 where
  pub not_empty : 0 < length body
  pub fits : length body ≤ max_request

unfoldable pub frames : List Bytes → Bytes
frames [] = []
frames (b ∷ bs) = frame b ++ frames bs

uint32-request : (b : Bytes) → IsRequest b → uint32 (put_uint32 (length b)) ≡ length b
uint32-request b h = let fits = h.fits in omega (arith, uint32-put_uint32 (length b))

read_full-frame :
    (b rest : Bytes) → read_full 4 (frame b ++ rest) ≡ (ok (put_uint32 (length b)), b ++ rest)
unfolding frame
read_full-frame b rest =
    rw (append_assoc (put_uint32 (length b)) b rest) (read_full-header (length b) (b ++ rest))

length-frames : (bs : List Bytes) → length bs ≤ length (frames bs)
unfolding frames frame
length-frames [] = omega arith
length-frames (b ∷ bs) = omega (
  arith,
  length-frames bs,
  length-append (frame b) (frames bs),
  length-append (put_uint32 (length b)) b,
  length-put_uint32 (length b),
)

module _ (json : BridgeCodec) (codec : Codec) (serve : Serve) (f : Filter) where
  abbrev pub handle : Session → Bytes → Session
  handle t b = handle_body json codec serve f b t

  round-frame :
      (fuel : ℕ) (b rest : Bytes) (t : Session)
      → IsRequest b
      → rounds json codec serve f (suc fuel) (frame b ++ rest) t
        ≡ rounds json codec serve f fuel rest (handle t b)
  unfolding rounds after_header after_body
  round-frame fuel b rest t h =
      let n = length b in
      let positive : (n == 0) ≡ false = ground (arith, h.not_empty) in
      rw
        (
          read_full-frame b rest,
          uint32-request b h,
          positive,
          le→leb n max_request h.fits,
          read_full-append b rest,
        )
        refl

  rounds-frames :
      (bs : List Bytes) (fuel : ℕ) (t : Session)
      → All IsRequest bs
      → length bs < fuel
      → rounds json codec serve f fuel (frames bs) t ≡ (foldl handle t bs, no_header IoError.eof)
  unfolding rounds frames after_header read_full
  rounds-frames bs zero t h small = ground arith
  rounds-frames [] (suc fuel) t h small = refl
  rounds-frames (b ∷ bs) (suc fuel) t (h, hs) small =
      round-frame fuel b (frames bs) t h ∙ rounds-frames bs fuel (handle t b) hs (omega arith)

  -- On the frames of messages that are not empty and fit, the loop handles the messages one after the
  -- other, in order, and ends at the end of the stream.
  pub bridge-frames :
      (bs : List Bytes) (t : Session)
      → All IsRequest bs
      → bridge json codec serve f (frames bs) t ≡ (foldl handle t bs, no_header IoError.eof)
  unfolding bridge
  bridge-frames bs t h =
      rounds-frames bs (suc (length (frames bs))) t h (omega (arith, length-frames bs))
