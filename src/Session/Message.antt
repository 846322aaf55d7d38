-- ===== src/Session/Message.antt =====
-- The messages of the session protocol (proto/session), and the values that handlers exchange
-- with the application (lib/session/handler.go). Texts and payloads are lists of bytes.
use mygosh.Base.{ℕ, Bool, Option, List, [], ◌∷◌}
use Prim.Native.Char.{code}
use Prim.Native.String.{String}

abbrev pub Bytes : Type 0
Bytes = List ℕ

-- The bytes of an ASCII text.
unfoldable pub bytes_of : String → Bytes
bytes_of String.[] = []
bytes_of (String.◌∷◌ c s) = code c ∷ bytes_of s

pub record ChannelOpen : Type 0 where
  pub channel_type : Bytes
  pub sender_channel_id : ℕ
  pub initial_window : ℕ
  pub max_packet_size : ℕ
  pub payload : Bytes

pub record ChannelOpenAccept : Type 0 where
  pub sender_channel_id : ℕ
  pub initial_window : ℕ
  pub max_packet_size : ℕ
  pub payload : Bytes

-- `ChannelOpenReject` and `OperationReject`
pub record Reject : Type 0 where
  pub code : Bytes
  pub message : Bytes
  pub payload : Bytes

-- The `oneof` of a result message; `unset` is its nil.
pub data OpenOutcome : Type 0 where
  success : ChannelOpenAccept → OpenOutcome
  reject : Reject → OpenOutcome
  unset : OpenOutcome

pub data OperationOutcome : Type 0 where
  success : Bytes → OperationOutcome
  reject : Reject → OperationOutcome
  unset : OperationOutcome

pub record ChannelOpenResult : Type 0 where
  pub recipient_channel_id : ℕ
  pub result : OpenOutcome

pub record ChannelData : Type 0 where
  pub recipient_channel_id : ℕ
  pub bytes : Bytes

pub record ChannelWindowAdjust : Type 0 where
  pub recipient_channel_id : ℕ
  pub bytes_to_add : ℕ

pub record ChannelRequest : Type 0 where
  pub recipient_channel_id : ℕ
  pub request_id : ℕ
  pub request_type : Bytes
  pub want_reply : Bool
  pub payload : Bytes

pub record ChannelResult : Type 0 where
  pub recipient_channel_id : ℕ
  pub request_id : ℕ
  pub result : OperationOutcome

pub record GlobalRequest : Type 0 where
  pub request_id : ℕ
  pub request_type : Bytes
  pub want_reply : Bool
  pub payload : Bytes

pub record GlobalResult : Type 0 where
  pub request_id : ℕ
  pub result : OperationOutcome

pub record Disconnect : Type 0 where
  pub code : Bytes
  pub message : Bytes

-- The `oneof` of an envelope. The messages are pointers, so each may be nil; the EOF and close
-- messages hold only the recipient's id, and a nil one reads as 0.
pub data Envelope : Type 0 where
  channel_open : Option ChannelOpen → Envelope
  channel_open_result : Option ChannelOpenResult → Envelope
  channel_data : Option ChannelData → Envelope
  channel_window_adjust : Option ChannelWindowAdjust → Envelope
  channel_eof : ℕ → Envelope
  channel_close : ℕ → Envelope
  channel_request : Option ChannelRequest → Envelope
  channel_result : Option ChannelResult → Envelope
  global_request : Option GlobalRequest → Envelope
  global_result : Option GlobalResult → Envelope
  disconnect : Option Disconnect → Envelope
  unsupported : Envelope

-- What the application is asked and answers. A handler is named by a number, 0 for
-- `rejectAllChannelHandler`; `normalizeChannelHandler` maps nil to it.
pub record OpenRequest : Type 0 where
  pub typ : Bytes
  pub payload : Bytes
  pub initial_window : ℕ
  pub max_packet_size : ℕ

pub record OpenDecision : Type 0 where
  pub accepted : Bool
  pub payload : Bytes
  pub code : Bytes
  pub message : Bytes
  pub handler : ℕ

pub record Request : Type 0 where
  pub typ : Bytes
  pub want_reply : Bool
  pub payload : Bytes

-- `ChannelResponse` and `GlobalResponse`
pub record Response : Type 0 where
  pub accepted : Bool
  pub payload : Bytes
  pub code : Bytes
  pub message : Bytes

-- The application's callbacks, and `proto.Size`, which are not code of this library.
pub record World : Type 0 where
  pub on_channel_open : OpenRequest → OpenDecision
  pub on_global_request : Request → Response
  pub on_channel_request : ℕ → Request → Response
  pub envelope_size : Envelope → ℕ
  pub open_size : ChannelOpen → ℕ
  pub global_request_size : GlobalRequest → ℕ
  pub channel_request_size : ChannelRequest → ℕ
