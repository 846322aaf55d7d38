-- ===== src/Command/Server.antt =====
-- lib/command/server.go: the start of a command, and its end.
use mygosh.Base.{
  ℕ, ◌-◌, ◌%◌, ◌^◌, Bool, true, false, not, Option, none, some, List, [], ◌∷◌, ◌++◌, ltb,
  if◌then◌else◌,
}
use mygosh.Base.Int.{ℤ, pos, negsuc}
use mygosh.Base.Result.{Result, ok, fail}
use mygosh.Text.{Text, text_of, is_empty}
use mygosh.Bincoder.{Bytes}
use mygosh.Wire.{Codec}
use mygosh.Command.{
  CommandErr, not_start, start_failed, no_process, connection_failed, marshal_message,
  unmarshal_message,
}
use mygosh.Command.{ClientFrame, start, stdin, stdin_eof, window_change, client_unset}
use mygosh.Command.{ServerFrame, start_result, exited, Exit, status, signal, runtime_failure}
use mygosh.Command.Starting.{StartRequest, decode_start}

-- `FrameConn`, as far as the server sends on it; `delivers` tells whether `SendFrame` returns no
-- error, by the messages before.
pub record Conn : Type 0 where
  pub codec : Codec ServerFrame
  pub max_send_frame_size : ℕ
  pub delivers : List ServerFrame → Bytes → Bool

-- `sendMessage`, with the messages handed to `SendFrame`.
unfoldable pub send_message :
    Conn → ServerFrame → List ServerFrame → Option CommandErr × List ServerFrame
send_message conn m sent = elim (marshal_message conn.codec (some m) conn.max_send_frame_size) [
  | fail e ↦ (some e, sent)
  | ok frame ↦ (if conn.delivers sent frame then none else some connection_failed, sent ++ (m ∷ []))
]

unfoldable pub start_result_of : Bool → ServerFrame
start_result_of accepted =
    if accepted
    then start_result true [] []
    else start_result false (text_of "start-rejected") (text_of "command could not be started")

-- `sendStartResult`
unfoldable pub send_start_result :
    Conn → Bool → List ServerFrame → Option CommandErr × List ServerFrame
send_start_result conn accepted sent = send_message conn (start_result_of accepted) sent

-- What `serve` has done before its loops: the messages, the calls of `Terminate`, and either the
-- error that it returns or the request whose process runs.
pub record Begun : Type 0 where
  pub sent : List ServerFrame
  pub terminated : ℕ
  pub outcome : Result CommandErr StartRequest

unfoldable pub refuse : Conn → CommandErr → Begun
refuse conn e = record {
  sent = (send_start_result conn false []).1;
  terminated = 0;
  outcome = fail e;
}

unfoldable pub accept_start : Conn → StartRequest → Begun
accept_start conn r =
    let (e, sent) = send_start_result conn true [] in
    elim e [
      | none ↦ record { sent = sent; terminated = 0; outcome = ok r }
      | some x ↦ record { sent = sent; terminated = 1; outcome = fail x }
    ]

-- `starter` is `Starter.Start`: an error, or whether there is a process.
unfoldable pub start_process : Conn → (StartRequest → Result CommandErr Bool) → StartRequest → Begun
start_process conn starter r = elim (starter r) [
  | fail e ↦ refuse conn start_failed
  | ok present ↦ if present then accept_start conn r else refuse conn no_process
]

unfoldable pub begin_message : Conn → (StartRequest → Result CommandErr Bool) → ClientFrame → Begun
begin_message conn starter (start s) = elim (decode_start s) [
  | fail e ↦ refuse conn e
  | ok r ↦ start_process conn starter r
]
begin_message conn starter (stdin b) = refuse conn not_start
begin_message conn starter stdin_eof = refuse conn not_start
begin_message conn starter (window_change size) = refuse conn not_start
begin_message conn starter client_unset = refuse conn not_start

-- The part of `serve` up to the acceptance; the frame is absent where `ReceiveFrame` fails.
unfoldable pub begin :
    Codec ClientFrame → Conn → (StartRequest → Result CommandErr Bool) → Option Bytes → Begun
begin codec conn starter none = record {
  sent = [];
  terminated = 0;
  outcome = fail connection_failed;
}
begin codec conn starter (some frame) = elim (unmarshal_message codec frame) [
  | fail e ↦ refuse conn e
  | ok m ↦ begin_message conn starter m
]

-- `ExitResult`
pub record ExitResult : Type 0 where
  pub status : ℤ
  pub signal : Text
  pub runtime_failure : Text

-- `int32(n)`: the low 32 bits, with a sign.
unfoldable pub int32 : ℤ → ℤ
int32 (pos n) = let m = n % 2 ^ 32 in if ltb m (2 ^ 31) then pos m else negsuc (2 ^ 32 - 1 - m)
int32 (negsuc n) = let m = n % 2 ^ 32 in if ltb m (2 ^ 31) then negsuc m else pos (2 ^ 32 - 1 - m)

-- The message of `sendExit`.
unfoldable pub exit_of : ExitResult → Exit
exit_of r =
    if not (is_empty r.runtime_failure)
    then runtime_failure r.runtime_failure
    else if not (is_empty r.signal)
    then signal r.signal
    else status (int32 r.status)

-- `genericRuntimeMessage`
unfoldable pub generic_runtime_message : Text
generic_runtime_message = text_of "command terminated because of a protocol or runtime failure"

-- The end of `serve`: the result that is reported, the message, and the error that is returned.
unfoldable pub reported : Option CommandErr → ExitResult → ExitResult
reported none r = r
reported (some e) r = record {
  status = pos 0;
  signal = [];
  runtime_failure = generic_runtime_message;
}

unfoldable pub finish :
    Conn → Option CommandErr → ExitResult → List ServerFrame → Option CommandErr × List ServerFrame
finish conn failure r sent =
    let (e, all) = send_message conn (exited (exit_of (reported failure r))) sent in
    (elim e [ some x ↦ some x | none ↦ failure ], all)
