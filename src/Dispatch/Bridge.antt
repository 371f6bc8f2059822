-- ===== src/Dispatch/Bridge.antt =====
-- The loop of Run in internal/bridge/dispatcher.go that reads requests from the sandbox's standard
-- output and answers on its standard input, and sendBridgeResponse.
pub mod Loop
pub mod Taken
pub mod Kept
mod Tests
use chrysalis.Base.{
  ℕ, zero, suc, ◌+◌, ◌*◌, Bool, true, false, List, [], ◌∷◌, ◌++◌, ◌==◌, leb, if◌then◌else◌, length,
  Text, codes, Option, none, some, Result, ok, err,
}
use chrysalis.Strings.{has_prefix}
use chrysalis.Wire.{Bytes, IoError, put_uint32, uint32, read_full}
use chrysalis.Filter.{Filter}
use chrysalis.Worker.Protocol.{Codec}
use chrysalis.Dispatch.{BridgeRequest, BridgeResponse, bad_request, refusal, World, Serve, dispatch}

-- Package encoding/json at the three types of the bridge.
pub record BridgeCodec : Type 0 where
  pub envelope : Bytes → Result Text Text
  pub request : Bytes → Result Text BridgeRequest
  pub response : BridgeResponse → Bytes

-- What the loop changes: the world of dispatch, the answers written, and the captured output.
pub record Session : Type 0 where
  pub world : World
  pub answers : Bytes
  pub stdout : Text

-- Why the loop ended. `out_of_fuel` is the model's own.
pub data Ending : Type 0 where
  no_header : IoError → Ending
  end_mark : Ending
  oversized : ℕ → Ending
  no_body : IoError → Ending
  out_of_fuel : Ending

abbrev pub max_request : ℕ
max_request = 8 * 1024 * 1024

stdout_prefix : Bytes
stdout_prefix = codes "{\"__stdout__\""

module _ (json : BridgeCodec) where
  -- Both writes go to a pipe that takes all bytes; once the sandbox has gone their errors are
  -- dropped.
  unfoldable pub send_bridge_response : BridgeResponse → Session → Session
  send_bridge_response resp t =
      let body = json.response resp in
      record t { answers = t.answers ++ put_uint32 (length body) ++ body }

module _ (json : BridgeCodec) (codec : Codec) (serve : Serve) (f : Filter) where
  answered : Session → World × BridgeResponse → Session
  answered t (w, resp) = send_bridge_response json resp (record t { world = w })

  requested : Session → Result Text BridgeRequest → Session
  unfolding answered
  requested t (err e) = send_bridge_response json (refusal (bad_request e)) t
  requested t (ok req) = answered t (dispatch codec serve f req t.world)

  captured : Bytes → Session → Result Text Text → Session
  unfolding requested
  captured body t (ok text) =
      send_bridge_response json (record { value = none; error = none })
        (record t { stdout = t.stdout ++ text })
  captured body t (err e) = requested t (json.request body)

  -- One message of the sandbox.
  unfoldable pub handle_body : Bytes → Session → Session
  unfolding captured stdout_prefix
  handle_body body t =
      if has_prefix body stdout_prefix
      then captured body t (json.envelope body)
      else requested t (json.request body)

  -- `again` is the next round of the loop.
  after_body :
      (Bytes → Session → Session × Ending)
      → Result IoError Bytes × Bytes
      → Session
      → Session × Ending
  after_body again (err e, stream) t = (t, no_body e)
  after_body again (ok body, stream) t = again stream (handle_body body t)

  after_header :
      (Bytes → Session → Session × Ending)
      → Result IoError Bytes × Bytes
      → Session
      → Session × Ending
  unfolding after_body
  after_header again (err e, stream) t = (t, no_header e)
  after_header again (ok hdr, stream) t =
      let n = uint32 hdr in
      if n == 0
      then (t, end_mark)
      else if leb n max_request
      then after_body again (read_full n stream) t
      else (t, oversized n)

  rounds : ℕ → Bytes → Session → Session × Ending
  unfolding after_header
  rounds zero stream t = (t, out_of_fuel)
  rounds (suc fuel) stream t = after_header (rounds fuel) (read_full 4 stream) t

  -- A round reads four bytes or ends, so that the length of the stream is fuel enough.
  unfoldable pub bridge : Bytes → Session → Session × Ending
  unfolding rounds
  bridge stream t = rounds (suc (length stream)) stream t
