-- ===== src/Dispatch/Bridge/Taken.antt =====
-- The loop over any stream: what it handles and where it stops.
use mathlib.Core.List.{foldl}
use chrysalis.Base.{
  ℕ, zero, suc, ◌≡◌, ◌≤◌, ◌<◌, refl, sym, ap, ◌+◌, ◌∙◌, List, [], ◌∷◌, ◌++◌, ◌==◌, leb, leb→le,
  length, length-drop, length-take, take-append-drop, take, drop, arith, ok, err, Bool-cases, inl,
  inr, ◌⊎◌,
}
use chrysalis.Wire.{Bytes, IoError, uint32, read_full}
use chrysalis.Filter.{Filter}
use chrysalis.Worker.Protocol.{Codec}
use chrysalis.Dispatch.{Serve}
use chrysalis.Dispatch.Bridge.{
  BridgeCodec, Session, Ending, no_header, no_body, end_mark, oversized, out_of_fuel, max_request,
  handle_body, after_body, after_header, rounds, bridge,
}
use chrysalis.Dispatch.Bridge.Loop.{IsRequest, handle}

-- A read ends well with the bytes that are there, or with an error and nothing left.
read_full-cases :
    (n : ℕ) (s : Bytes)
    → ((e : IoError) × (length s < n) × (read_full n s ≡ (err e, [])))
      ⊎ ((n ≤ length s) × (read_full n s ≡ (ok (take n s), drop n s)))
unfolding read_full
read_full-cases n s = elim (Bool-cases (leb n (length s))) [
  | inl enough ↦ inr (leb→le n (length s) enough, rw enough refl)
  | inr short ↦ elim (Bool-cases (length s == 0)) [
    | inl nothing ↦ inl (IoError.eof, ground arith, rw (short, nothing) refl)
    | inr few ↦ inl (IoError.unexpected_eof, ground arith, rw (short, few) refl)
  ]
]

-- The stream begins with framed messages, which the loop takes, and goes on with the rest.
pub data Splits : Bytes → List Bytes → Bytes → Type 0 where
  nothing : {s : Bytes} → Splits s [] s
  message :
      {s r : Bytes} {bs : List Bytes} (hdr b rest : Bytes)
      → s ≡ hdr ++ (b ++ rest)
      → length hdr ≡ 4
      → uint32 hdr ≡ length b
      → IsRequest b
      → Splits rest bs r
      → Splits s (b ∷ bs) r

-- Why the loop goes no further on a stream.
abbrev pub Stops : Bytes → Ending → Type 0
Stops s (no_header e) = length s < 4
Stops s end_mark = (4 ≤ length s) × (uint32 (take 4 s) ≡ 0)
Stops s (oversized n) = (4 ≤ length s) × (uint32 (take 4 s) ≡ n) × (max_request < n)
Stops s (no_body e) =
    (4 ≤ length s)
    × (0 < uint32 (take 4 s))
    × (uint32 (take 4 s) ≤ max_request)
    × (length s < 4 + uint32 (take 4 s))
Stops s out_of_fuel = ⊥

module _ (json : BridgeCodec) (codec : Codec) (serve : Serve) (f : Filter) where
  -- What the loop makes of a stream: it handles the messages at its beginning, one after the other,
  -- and stops for a reason that what follows them gives.
  pub record Handles (s : Bytes) (t : Session) (r : Session × Ending) : Type 0 where
    pub messages : List Bytes
    pub rest : Bytes
    pub splits : Splits s messages rest
    pub handled : r.0 ≡ foldl (handle json codec serve f) t messages
    pub stops : Stops rest r.1

  stopped : (s : Bytes) (t : Session) (e : Ending) → Stops s e → Handles s t (t, e)
  unfolding foldl
  stopped s t e h = record {
    messages = [];
    rest = s;
    splits = Splits.nothing;
    handled = refl;
    stops = h;
  }

  after_body-Handles :
      (again : Bytes → Session → Session × Ending) (s : Bytes) (t : Session)
      → 4 ≤ length s
      → 0 < uint32 (take 4 s)
      → uint32 (take 4 s) ≤ max_request
      → ((rest : Bytes) (u : Session) → length rest < length s → Handles rest u (again rest u))
      → Handles s t
          (after_body json codec serve f again (read_full (uint32 (take 4 s)) (drop 4 s)) t)
  unfolding after_body foldl
  after_body-Handles again s t enough positive fits goes =
      let n = uint32 (take 4 s) in
      let left = drop 4 s in
      let shorter = length-drop 4 s in
      elim (read_full-cases n left) [
        | inl (e, short, failed) ↦
            rw failed (stopped s t (no_body e) (enough, positive, fits, omega (arith, short)))
        | inr (all, got) ↦
            let b = take n left in
            let next_ = drop n left in
            let size : length b ≡ n = omega (arith, length-take n left) in
            let h =
              goes next_ (handle_body json codec serve f b t) (omega (arith, length-drop n left)) in
            rw got (record {
              messages = b ∷ h.messages;
              rest = h.rest;
              splits =
                  Splits.message (take 4 s) b next_
                    (sym (ap (λ x. take 4 s ++ x) (take-append-drop n left) ∙ take-append-drop 4 s))
                    (omega (arith, length-take 4 s)) (sym size)
                    (record { not_empty = omega arith; fits = omega arith }) h.splits;
              handled = h.handled;
              stops = h.stops;
            })
      ]

  after_header-Handles :
      (again : Bytes → Session → Session × Ending) (s : Bytes) (t : Session)
      → ((rest : Bytes) (u : Session) → length rest < length s → Handles rest u (again rest u))
      → Handles s t (after_header json codec serve f again (read_full 4 s) t)
  unfolding after_header
  after_header-Handles again s t goes = elim (read_full-cases 4 s) [
    | inl (e, short, failed) ↦ rw failed (stopped s t (no_header e) short)
    | inr (enough, got) ↦ rw got (
        let n = uint32 (take 4 s) in
        elim (Bool-cases (n == 0)) [
          | inl mark ↦ rw mark (stopped s t end_mark (enough, ground arith))
          | inr more ↦ elim (Bool-cases (leb n max_request)) [
            | inr large ↦ rw (more, large) (stopped s t (oversized n) (enough, refl, ground arith))
            | inl fits ↦
                rw (more, fits)
                  (after_body-Handles again s t enough (ground arith) (leb→le n max_request fits)
                    goes)
          ]
        ])
  ]

  rounds-Handles :
      (fuel : ℕ) (s : Bytes) (t : Session)
      → length s < fuel
      → Handles s t (rounds json codec serve f fuel s t)
  unfolding rounds
  rounds-Handles zero s t small = absurd (omega arith)
  rounds-Handles (suc fuel) s t small =
      after_header-Handles (rounds json codec serve f fuel) s t
        λ rest u less. rounds-Handles fuel rest u (omega arith)

  -- On every stream the loop ends: it handles the longest row of framed messages, not empty and of at
  -- most 8 MiB, that the stream begins with, in order, and stops at what follows, because there are
  -- not four bytes for a header, the header is zero or above the limit, or the body is cut short.
  pub bridge-Handles : (s : Bytes) (t : Session) → Handles s t (bridge json codec serve f s t)
  unfolding bridge
  bridge-Handles s t = rounds-Handles (suc (length s)) s t (omega arith)
