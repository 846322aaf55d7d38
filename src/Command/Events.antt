-- ===== src/Command/Events.antt =====
-- The frames besides stdin and start, both ways, of lib/command/codec.go.
use mygosh.Base.{ℕ, Bool, not, ◌&&◌, ◌||◌, some}
use mygosh.Base.Result.{Result, ok, fail, guard, ◌>>=◌}
use mygosh.Text.{Text, is_empty}
use mygosh.Bincoder.{Bytes}
use mygosh.Wire.{Codec}
use mygosh.Command.{
  CommandErr, accepted_with_details, no_exit_result, unsupported_frame, marshal_message,
  unmarshal_message,
}
use mygosh.Command.{ClientFrame, stdin_eof, window_change, WindowSize}
use mygosh.Command.{
  ServerFrame, start_result, stdout, stderr, exited, server_unset, Exit, status, signal,
  runtime_failure, exit_unset,
}
use mygosh.Command.Starting.{StartRequest, encode_start}

unfoldable pub encode_client_start : Codec ClientFrame → StartRequest → ℕ → Result CommandErr Bytes
encode_client_start codec r maximum = encode_start r >>= λ m. marshal_message codec (some m) maximum

unfoldable pub encode_client_stdin_eof : Codec ClientFrame → ℕ → Result CommandErr Bytes
encode_client_stdin_eof codec maximum = marshal_message codec (some stdin_eof) maximum

unfoldable pub encode_client_window_change :
    Codec ClientFrame → WindowSize → ℕ → Result CommandErr Bytes
encode_client_window_change codec size maximum =
    marshal_message codec (some (window_change size)) maximum

-- `ServerEvent`, with a constructor for each kind.
pub data ServerEvent : Type 0 where
  start_event : (accepted : Bool) → (code message : Text) → ServerEvent
  stdout_event : Bytes → ServerEvent
  stderr_event : Bytes → ServerEvent
  exit_event : Exit → ServerEvent

unfoldable pub event_of : ServerFrame → Result CommandErr ServerEvent
event_of (start_result accepted code message) =
    guard (accepted && (not (is_empty code) || not (is_empty message))) accepted_with_details
      (ok (start_event accepted code message))
event_of (stdout b) = ok (stdout_event b)
event_of (stderr b) = ok (stderr_event b)
event_of (exited (status n)) = ok (exit_event (status n))
event_of (exited (signal s)) = ok (exit_event (signal s))
event_of (exited (runtime_failure m)) = ok (exit_event (runtime_failure m))
event_of (exited exit_unset) = fail no_exit_result
event_of server_unset = fail unsupported_frame

unfoldable pub decode_server_event : Codec ServerFrame → Bytes → Result CommandErr ServerEvent
decode_server_event codec frame = unmarshal_message codec frame >>= event_of
