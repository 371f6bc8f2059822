-- ===== src/Dispatch/Bridge/Kept.antt =====
-- What all requests of one program leave in shared memory.
use mathlib.Core.List.{foldl}
use chrysalis.Base.{
  ◌+◌, ◌^◌, ◌<◌, ◌≡◌, refl, ap, ◌∙◌, ◌⊎◌, inl, inr, Bool-cases, List, [], ◌∷◌, ◌++◌, length, All,
  Text, text_key, Result, ok, err, lookup,
}
use chrysalis.Strings.{has_prefix}
use chrysalis.Wire.{Bytes}
use chrysalis.Filter.{Filter}
use chrysalis.Worker.Protocol.{Codec}
use chrysalis.Dispatch.{BridgeRequest, Serve}
use chrysalis.Dispatch.Outcomes.{LeavesAlone, HandsOver, dispatch_keeps_files}
use chrysalis.Dispatch.Bridge.{
  BridgeCodec, Session, send_bridge_response, answered, requested, captured, handle_body,
  stdout_prefix, bridge,
}
use chrysalis.Dispatch.Bridge.Loop.{IsRequest, frames, bridge-frames}

-- The JSON library gives no more arguments than a body of at most 8 MiB can hold.
abbrev pub FewArguments : BridgeCodec → Type 0
FewArguments json =
    (b : Bytes) (req : BridgeRequest)
    → IsRequest b
    → json.request b ≡ ok req
    → length req.args + length req.kwargs < 2 ^ 32

module _ (json : BridgeCodec) (codec : Codec) (serve : Serve) (f : Filter) (p : Text) where
  abbrev pub handles : Session → List Bytes → Session
  handles t bs = foldl (λ u b. handle_body json codec serve f b u) t bs

  abbrev pub SameFile : Session → Session → Type 0
  SameFile t u = lookup p u.world.system.files ≡ lookup p t.world.system.files

  -- The message asks for a call, and the worker, as it is then, hands over an array at the path.
  abbrev pub HandsAt : Session → Bytes → Type 0
  HandsAt t b =
      (req : BridgeRequest) × (json.request b ≡ ok req)
      × HandsOver codec serve p req.fn t.world.worker

  -- One of the messages does, after those before it.
  abbrev pub HandsAmong : Session → List Bytes → Type 0
  HandsAmong t bs =
      (before : List Bytes) × (b : Bytes) × (later : List Bytes) × (bs ≡ before ++ b ∷ later)
      × HandsAt (handles t before) b

  module _ (alone : LeavesAlone codec serve p) (few : FewArguments json) where
    requested_files :
        (b : Bytes) (t : Session) (r : Result Text BridgeRequest)
        → IsRequest b
        → json.request b ≡ r
        → SameFile t (requested json codec serve f t r) ⊎ HandsAt t b
    unfolding requested answered send_bridge_response
    requested_files b t (err e) fits is = inl refl
    requested_files b t (ok req) fits is =
        elim (dispatch_keeps_files codec serve f req t.world p alone (few b req fits is)) [
          | inl same ↦ inl same
          | inr hands ↦ inr (req, is, hands)
        ]

    captured_files :
        (b : Bytes) (t : Session) (r : Result Text Text)
        → IsRequest b
        → SameFile t (captured json codec serve f b t r) ⊎ HandsAt t b
    unfolding captured send_bridge_response
    captured_files b t (ok text) fits = inl refl
    captured_files b t (err e) fits = requested_files b t (json.request b) fits refl

    handle_body_files :
        (b : Bytes) (t : Session)
        → IsRequest b
        → SameFile t (handle_body json codec serve f b t) ⊎ HandsAt t b
    unfolding handle_body
    handle_body_files b t fits = elim (Bool-cases (has_prefix b stdout_prefix)) [
      | inl is ↦ rw is (captured_files b t (json.envelope b) fits)
      | inr not_ ↦ rw not_ (requested_files b t (json.request b) fits refl)
    ]

    handles_files :
        (bs : List Bytes) (t : Session)
        → All IsRequest bs
        → SameFile t (handles t bs) ⊎ HandsAmong t bs
    handles_files [] t fits = inl refl
    handles_files (b ∷ bs) t (fit, fits) =
        let u = handle_body json codec serve f b t in
        elim (handle_body_files b t fit) [
          | inr hands ↦ inr ([], b, bs, refl, hands)
          | inl same ↦ elim (handles_files bs u fits) [
            | inl still ↦ inl (still ∙ same)
            | inr (before, c, later, e, hands) ↦ inr (b ∷ before, c, later, ap (◌∷◌ b) e, hands)
          ]
        ]

    -- For a path that the Python worker leaves alone, when the JSON library gives fewer than 2^32
    -- arguments for a message: after all messages of a program, whatever becomes of them, the path
    -- has the file, or none, that it had before the first, unless at one of them the worker, as it is
    -- then, hands over an array under that very path.
    pub bridge_keeps_files :
        (bs : List Bytes) (t : Session)
        → All IsRequest bs
        → SameFile t (bridge json codec serve f (frames bs) t).0 ⊎ HandsAmong t bs
    bridge_keeps_files bs t fits =
        rw (bridge-frames json codec serve f bs t fits) (handles_files bs t fits)
