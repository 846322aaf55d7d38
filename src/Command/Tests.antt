-- ===== src/Command/Tests.antt =====
-- Concrete runs of lib/command.
use mygosh.Base.{
  ℕ, ◌≡◌, refl, subst, Bool, true, false, Option, none, some, List, [], ◌∷◌, ◌++◌, map, All, ◌==◌,
  length, if◌then◌else◌, arith,
}
use mygosh.Base.Int.{pos}
use mygosh.Base.Result.{ok}
use mygosh.Text.{
  Text, Distinct, trim_space, trim_left, trim_right, is_space, is_empty, contains, member, same,
}
use mygosh.Text.Pairs.{value_of, names_of}
use mygosh.Bincoder.{Bytes}
use mygosh.Wire.{Codec}
use mygosh.Wire.Delivery.{Codes}
use mygosh.Command.{
  ClientFrame, start, stdin, stdin_eof, window_change, client_unset, shell, marshal_message,
  connection_failed,
}
use mygosh.Command.Chunks.{
  search, longest, min, chunk_loop, chunked_frames, encode_client_stdin, effective_maximum,
}
use mygosh.Command.Input.{InputState, receive_input, written, orderly_none}
use mygosh.Command.Delivered.{
  IsOrderly, receive_input-IsOrderly, receive_input-encode_client_stdin, encode_client_stdin-total,
}
use mygosh.Command.Starting.{StartRequest, start_shell, start_of, encode_start, decode_start}
use mygosh.Command.Started.{IsSendable, start_part, received, decode_start-encode_start}
use mygosh.Command.Server.{ExitResult, Conn}
use mygosh.Command.Answered.{Answered}
use mygosh.Command.Select.{input_done, output_done, process_exited, drain_timeout, serving, steps}
use mygosh.Command.Ended.{Ended, GaveUp, first_exit, steps-Ended}
use mygosh.Command.Faults.{has_fault}
use mygosh.Command.Clean.{is_clean}

-- A codec for frames of input, with one byte before the data; the other frames have no encoding.
abbrev is_input : ClientFrame → Bool
is_input (start s) = false
is_input (stdin b) = if length b == 0 then false else true
is_input stdin_eof = false
is_input (window_change size) = false
is_input client_unset = false

abbrev encode_input : ClientFrame → Option Bytes
encode_input (start s) = none
encode_input (stdin b) = some (1 ∷ b)
encode_input stdin_eof = none
encode_input (window_change size) = none
encode_input client_unset = none

abbrev decode_input : Bytes → Option ClientFrame
decode_input [] = none
decode_input (x ∷ b) = some (stdin b)

abbrev input_codec : Codec ClientFrame
input_codec = record { validate = is_input; marshal = encode_input; unmarshal = decode_input }

decode-encode_input :
    (m : ClientFrame) (b : Bytes) → encode_input m ≡ some b → decode_input b ≡ some m
decode-encode_input (start s) b e = ground (arith, e)
decode-encode_input (stdin d) b e = subst (λ o. decoded o ≡ some (stdin d)) e refl
  where
    decoded : Option Bytes → Option ClientFrame
    decoded o = elim o [ none ↦ none | some x ↦ decode_input x ]
decode-encode_input stdin_eof b e = ground (arith, e)
decode-encode_input (window_change size) b e = ground (arith, e)
decode-encode_input client_unset b e = ground (arith, e)

has_bytes :
    (m : ClientFrame) (b : Bytes)
    → is_input m ≡ true
    → encode_input m ≡ some b
    → (length b == 0) ≡ false
has_bytes (start s) b v e = ground (arith, e)
has_bytes (stdin d) b v e = subst (λ o. empty o ≡ false) e (ground arith)
  where
    empty : Option Bytes → Bool
    empty o = elim o [ none ↦ true | some x ↦ length x == 0 ]
has_bytes stdin_eof b v e = ground (arith, e)
has_bytes (window_change size) b v e = ground (arith, e)
has_bytes client_unset b v e = ground (arith, e)

input_codec-Codes : Codes ClientFrame input_codec
input_codec-Codes = record { reads_back = decode-encode_input; has_bytes = has_bytes }

-- Frames of at most four bytes carry three bytes of input each.
abbrev frames : List Bytes
frames = (1 ∷ 5 ∷ 6 ∷ 7 ∷ []) ∷ (1 ∷ 8 ∷ 9 ∷ []) ∷ []

encoding : encode_client_stdin input_codec (5 ∷ 6 ∷ 7 ∷ 8 ∷ 9 ∷ []) 4 ≡ ok frames
unfolding encode_client_stdin chunked_frames chunk_loop longest search min marshal_message
encoding = refl

abbrev fresh : InputState
fresh = record { has_eof = false; calls = [] }

receive_input-encode_client_stdin_example :
    let r = receive_input input_codec (λ cs c. true) false (map some frames) fresh in
    (r.0 ≡ none) × (written r.1.calls ≡ written [] ++ (5 ∷ 6 ∷ 7 ∷ 8 ∷ 9 ∷ []))
receive_input-encode_client_stdin_example =
    receive_input-encode_client_stdin input_codec input_codec-Codes false 4 (5 ∷ 6 ∷ 7 ∷ 8 ∷ 9 ∷ [])
      frames fresh encoding refl

one_byte :
    (b : ℕ)
    → (frame : Bytes) × (marshal_message input_codec (some (stdin (b ∷ []))) (effective_maximum 4)
        ≡ ok frame)
unfolding marshal_message
one_byte b = (1 ∷ b ∷ [], refl)

encode_client_stdin-total_example :
    (fs : List Bytes) × (encode_client_stdin input_codec (5 ∷ 6 ∷ 7 ∷ 8 ∷ 9 ∷ []) 4 ≡ ok fs)
encode_client_stdin-total_example =
    encode_client_stdin-total input_codec 4 (5 ∷ 6 ∷ 7 ∷ 8 ∷ 9 ∷ []) one_byte

fresh-IsOrderly : IsOrderly false fresh
unfolding IsOrderly
fresh-IsOrderly = orderly_none

receive_input-IsOrderly_example :
    IsOrderly false
      (receive_input input_codec (λ cs c. true) false (some (1 ∷ 5 ∷ []) ∷ some [] ∷ []) fresh).1
receive_input-IsOrderly_example =
    receive_input-IsOrderly input_codec (λ cs c. true) false (some (1 ∷ 5 ∷ []) ∷ some [] ∷ [])
      fresh fresh-IsOrderly

-- A shell with two variables that are out of order.
abbrev request : StartRequest
request = record {
  kind = start_shell;
  command = 32 ∷ [];
  pty = none;
  environment = (66 ∷ [], 49 ∷ []) ∷ (65 ∷ [], 50 ∷ []) ∷ [];
}

encoded_start : encode_start request ≡ ok (start_of request shell)
unfolding encode_start trim_space trim_left trim_right is_space is_empty
encoded_start = refl

sendable : All (IsSendable request.environment) (names_of request.environment)
unfolding names_of value_of contains same
sendable = (record { named = refl; no_nul = refl }, (record { named = refl; no_nul = refl }, tt))

distinct : Distinct (names_of request.environment)
unfolding names_of Distinct member same
distinct = (refl, (refl, tt))

decode_start-encode_start_example :
    (decode_start (start_part (start_of request shell)) ≡ ok (received request))
    × ((name : Text)
        → value_of name (received request).environment ≡ value_of name request.environment)
decode_start-encode_start_example =
    decode_start-encode_start request (start_of request shell) encoded_start sendable distinct

abbrev exit_result : ExitResult
exit_result = record { status = pos 3; signal = []; runtime_failure = [] }

-- The reader of input fails, then the process exits and its output ends.
steps-Ended_example :
    let s =
      steps
        ((input_done (some connection_failed) ∷ [])
          ++ (process_exited exit_result ∷ ((output_done none ∷ []) ++ (drain_timeout ∷ []))))
        (serving false) in
    Ended (first_exit (input_done (some connection_failed) ∷ []) exit_result) s
    × GaveUp s
    × Unit {0}
unfolding has_fault is_clean
steps-Ended_example =
    steps-Ended false (input_done (some connection_failed) ∷ []) (output_done none ∷ []) exit_result

-- A codec that reads every frame as one start, and one whose frames have one byte.
abbrev first_start : ClientFrame
first_start =
    start
      (some (record { protocol_version = 1; target = some shell; pty = none; environment = [] }))

abbrev start_codec : Codec ClientFrame
start_codec = record {
  validate = λ m. true;
  marshal = λ m. none;
  unmarshal = λ b. some first_start;
}

abbrev conn : Conn
conn = record {
  codec = record { validate = λ m. true; marshal = λ m. some (1 ∷ []); unmarshal = λ b. none };
  max_send_frame_size = 16;
  delivers = λ sent frame. true;
}
