-- ===== src/Session/Error.antt =====
-- The errors of lib/session. An error built by `eris.New` or `eris.Errorf` has one constructor
-- for each text; `wrapped` is `eris.Wrap`, which `eris.Is` looks through.
use mygosh.Base.{ℕ, Bool, true, false}
use mygosh.Session.Message.{Bytes}

-- The texts of `protocolErrorf`.
pub data Violation : Type 0 where
  nil_message unsupported_frame invalid_request : Violation
  unknown_channel duplicate_open_result invalid_open_result open_payload_too_long : Violation
  empty_channel_data wrong_state packet_exceeded window_exceeded window_overflow : Violation
  duplicate_request_id duplicate_eof duplicate_close not_opened : Violation
  unknown_request invalid_result result_payload_too_long invalid_rejection : Violation
  duplicate_peer_id disappeared changed_state invalid_disconnect : Violation

pub data Err : Type 0 where
  session_not_active session_closed channel_closed channel_write_eof resource_limit : Err
  canceled nil_pointer : Err
  empty_data frame_too_large frame_above_packet : Err
  request_ids_exhausted request_limit channel_ids_exhausted : Err
  type_required type_too_long payload_too_long code_too_long message_too_long : Err
  outbound_exhausted envelope_required not_pending accounting_underflow : Err
  remote_disconnected : Err
  remote_disconnect : Bytes → Bytes → Err
  open_rejected : Bytes → Err
  wrapped : Err → Err
  protocol : Violation → Err
  external : ℕ → Err

-- `eris.Is(err, errResourceLimit)`
unfoldable pub is_resource_limit : Err → Bool
is_resource_limit resource_limit = true
is_resource_limit (wrapped e) = is_resource_limit e
is_resource_limit _ = false

-- `err.(*protocolError)`
unfoldable pub is_protocol : Err → Bool
is_protocol (protocol v) = true
is_protocol _ = false
