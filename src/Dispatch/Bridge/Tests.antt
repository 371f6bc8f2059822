-- ===== src/Dispatch/Bridge/Tests.antt =====
-- Runs of the loop of dispatcher.go on a few messages, and the theorems about it at them.
use mathlib.Core.List.{foldl}
use chrysalis.Base.{
  length, ◌+◌, Bool-cases, inr, ℕ, ◌≡◌, refl, ap, sym, ◌∙◌, Result, ◌⊎◌, inl, List, [], ◌∷◌, arith,
  Text, codes, text_eq, text_key, nat_key, ok, err, if◌then◌else◌,
}
use chrysalis.Wire.{Bytes, eof}
use chrysalis.Filter.{compile, allow_all}
use chrysalis.Dispatch.{BridgeRequest}
use chrysalis.Dispatch.Bridge.Kept.{FewArguments, SameFile, HandsAmong, bridge_keeps_files}
use chrysalis.Dispatch.Bridge.{BridgeCodec, Session, no_header, bridge, handle_body}
use chrysalis.Dispatch.Bridge.Loop.{frames, bridge-frames}
use chrysalis.Dispatch.Bridge.Taken.{Handles, bridge-Handles}
use chrysalis.Dispatch.Tests.{callable_codec, idle, world, request, deny_load}

-- A request is its function's name alone.
abbrev bridge_codec : BridgeCodec
bridge_codec = record {
  envelope = λ b. ok (codes "hello");
  request = λ b. if text_eq b (codes "?") then err (codes "bad") else ok (request b []);
  response = λ r. codes "r";
}

abbrev session : Session
session = record { world = world; answers = []; stdout = [] }

abbrev bodies : List Bytes
bodies = codes "numpy.load" ∷ codes "{\"__stdout__\": 1}" ∷ codes "?" ∷ []

bridge-frames_example :
    bridge bridge_codec callable_codec idle (compile (codes "t") deny_load) (frames bodies) session
    ≡ (
      foldl
          (λ t b. handle_body bridge_codec callable_codec idle (compile (codes "t") deny_load) b t)
          session
          bodies,
      no_header eof,
    )
bridge-frames_example =
    bridge-frames bridge_codec callable_codec idle (compile (codes "t") deny_load) bodies session (
      record { not_empty = omega arith; fits = omega arith },
      (
        record { not_empty = omega arith; fits = omega arith },
        (record { not_empty = omega arith; fits = omega arith }, tt),
      ),
    )

bridge-Handles_example :
    Handles bridge_codec callable_codec idle allow_all
      (0 ∷ 0 ∷ 0 ∷ 1 ∷ 7 ∷ 0 ∷ 0 ∷ 0 ∷ 9 ∷ 1 ∷ [])
      session
      (bridge bridge_codec callable_codec idle allow_all
        (0 ∷ 0 ∷ 0 ∷ 1 ∷ 7 ∷ 0 ∷ 0 ∷ 0 ∷ 9 ∷ 1 ∷ [])
        session)
bridge-Handles_example =
    bridge-Handles bridge_codec callable_codec idle allow_all
      (0 ∷ 0 ∷ 0 ∷ 1 ∷ 7 ∷ 0 ∷ 0 ∷ 0 ∷ 9 ∷ 1 ∷ []) session

-- How many arguments a decoded request has.
abbrev arguments : Result Text BridgeRequest → ℕ
arguments (ok req) = length req.args + length req.kwargs
arguments (err e) = 0

no_arguments : (b : Bytes) → arguments (bridge_codec.request b) ≡ 0
no_arguments b = elim (Bool-cases (text_eq b (codes "?"))) [
  | inl is ↦ rw is refl
  | inr not_ ↦ rw not_ (omega arith)
]

bridge_codec-FewArguments : FewArguments bridge_codec
bridge_codec-FewArguments b req fits is = omega (arith, sym (ap arguments is) ∙ no_arguments b)

bridge_keeps_files_example :
    SameFile bridge_codec callable_codec idle allow_all
      (codes "/dev/shm/other")
      session
      (bridge bridge_codec callable_codec idle allow_all (frames bodies) session).0
    ⊎ HandsAmong bridge_codec callable_codec idle allow_all (codes "/dev/shm/other") session bodies
bridge_keeps_files_example =
    bridge_keeps_files bridge_codec callable_codec idle allow_all (codes "/dev/shm/other")
      (λ args kwargs fs. refl) bridge_codec-FewArguments bodies session
      (
        record { not_empty = omega arith; fits = omega arith },
        (
          record { not_empty = omega arith; fits = omega arith },
          (record { not_empty = omega arith; fits = omega arith }, tt),
        ),
      )
