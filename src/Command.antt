-- ===== src/Command.antt =====
-- lib/command: the protocol of one remote command, over frames. The protobuf codec and its
-- validation are parameters.
pub mod Events
pub mod Chunks
mod Search
pub mod Carried
pub mod Starting
pub mod Started
pub mod Input
pub mod Delivered
pub mod Server
pub mod Answered
pub mod Select
pub mod Faults
pub mod Clean
pub mod Ending
pub mod Ended
mod Tests
use mygosh.Base.{ℕ, Bool, Option, none, some, List, not, ◌&&◌, ◌==◌, length, ltb}
use mygosh.Base.Int.{ℤ}
use mygosh.Base.Result.{Result, ok, fail, guard, ◌>>=◌}
use mygosh.Text.{Text}
use mygosh.Bincoder.{Bytes}
use mygosh.Wire.{Codec}

-- The errors of the package, by the message they carry.
pub data CommandErr : Type 0 where
  message_required invalid_message unencodable empty_frame frame_too_large undecodable : CommandErr
  shell_with_command exec_without_command unsupported_kind no_start no_target nil_entry : CommandErr
  name_invalid value_nul duplicate_name cannot_carry : CommandErr
  accepted_with_details no_exit_result unsupported_frame : CommandErr
  duplicate_start stdin_after_eof duplicate_eof no_pty not_start : CommandErr
  unexpected_eof deadline_exceeded process_failed connection_failed start_failed no_process :
      CommandErr

-- `Start`'s target, environment entries and PTY, from proto/command/command.proto. A nil pointer is
-- an absent value.
pub data Target : Type 0 where
  shell : Target
  exec : Text → Target

pub record Pty : Type 0 where
  pub terminal : Text
  pub rows : ℕ  -- uint32
  pub columns : ℕ  -- uint32

pub record Start : Type 0 where
  pub protocol_version : ℕ  -- uint32
  pub target : Option Target
  pub pty : Option Pty
  pub environment : List (Option (Text × Text))

pub record WindowSize : Type 0 where
  pub rows : ℕ  -- uint32
  pub columns : ℕ  -- uint32

-- The `oneof` of a frame from the client; `client_unset` is its nil.
pub data ClientFrame : Type 0 where
  start : Option Start → ClientFrame
  stdin : Bytes → ClientFrame
  stdin_eof : ClientFrame
  window_change : WindowSize → ClientFrame
  client_unset : ClientFrame

-- The `oneof` of `Exit`.
pub data Exit : Type 0 where
  status : ℤ → Exit
  signal : Text → Exit
  runtime_failure : Text → Exit
  exit_unset : Exit

-- The `oneof` of a frame from the server.
pub data ServerFrame : Type 0 where
  start_result : (accepted : Bool) → (code message : Text) → ServerFrame
  stdout : Bytes → ServerFrame
  stderr : Bytes → ServerFrame
  exited : Exit → ServerFrame
  server_unset : ServerFrame

-- `marshalMessage`; a maximum of 0 is none.
unfoldable pub marshal_message {ℓ} : {P : Type ℓ} → Codec P → Option P → ℕ → Result CommandErr Bytes
marshal_message codec none maximum = fail message_required
marshal_message codec (some m) maximum =
    guard (not (codec.validate m)) invalid_message (elim (codec.marshal m) [
      | none ↦ fail unencodable
      | some frame ↦
          guard (length frame == 0) empty_frame
            (guard (not (maximum == 0) && ltb maximum (length frame)) frame_too_large (ok frame))
    ])

-- `unmarshalMessage` into a message that is there.
unfoldable pub unmarshal_message {ℓ} : {P : Type ℓ} → Codec P → Bytes → Result CommandErr P
unmarshal_message codec frame =
    guard (length frame == 0) empty_frame (elim (codec.unmarshal frame) [
      | none ↦ fail undecodable
      | some m ↦ guard (not (codec.validate m)) invalid_message (ok m)
    ])
