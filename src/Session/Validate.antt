-- ===== src/Session/Validate.antt =====
-- The bounds on texts and payloads (`validateTypeAndPayload`, `validateResponse`) and the default
-- rejection texts of lib/session/session.go.
use mygosh.Base.{ℕ, Bool, Option, none, some, length, ltb, ◌==◌, if◌then◌else◌, u32}
use mygosh.Session.Config.{Limits}
use mygosh.Session.Message.{Bytes, OpenDecision}
use mygosh.Session.Error.{
  Err, type_required, type_too_long, payload_too_long, code_too_long, message_too_long,
}

-- `uint32(len(b)) > limit`
abbrev pub too_long : Bytes → ℕ → Bool
too_long b limit = ltb limit (u32 (length b))

abbrev pub is_empty : Bytes → Bool
is_empty b = length b == 0

unfoldable pub validate_type_and_payload : Limits → Bytes → Bytes → Option Err
validate_type_and_payload l typ payload =
    if is_empty typ
    then some type_required
    else if too_long typ l.max_type_length
    then some type_too_long
    else if too_long payload l.max_control_payload
    then some payload_too_long
    else none

unfoldable pub validate_response : Limits → Bytes → Bytes → Bytes → Option Err
validate_response l code message payload =
    if too_long code l.max_code_length
    then some code_too_long
    else if too_long message l.max_message_length
    then some message_too_long
    else if too_long payload l.max_control_payload
    then some payload_too_long
    else none

unfoldable pub validate_decision : Limits → OpenDecision → Option Err
unfolding validate_response
validate_decision l decision = validate_response l decision.code decision.message decision.payload

-- `normalizeRejectCode` and `normalizeRejectMessage`
unfoldable pub normalize_reject : Bytes → Bytes → Bytes
normalize_reject text fallback = if is_empty text then fallback else text
