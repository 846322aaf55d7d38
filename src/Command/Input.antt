-- ===== src/Command/Input.antt =====
-- `receiveInput` of lib/command/server.go: the frames that the client sends to a running process.
use mygosh.Base.{
  ◌≡◌, Bool, true, false, not, Option, none, some, List, [], ◌∷◌, ◌++◌, if◌then◌else◌,
}
use mygosh.Base.Result.{ok, fail}
use mygosh.Bincoder.{Bytes}
use mygosh.Wire.{Codec}
use mygosh.Command.{
  CommandErr, duplicate_start, stdin_after_eof, duplicate_eof, no_pty, unsupported_frame,
  process_failed, connection_failed,
}
use mygosh.Command.{
  ClientFrame, start, stdin, stdin_eof, window_change, client_unset, WindowSize, unmarshal_message,
}

-- The calls of the running process.
pub data Call : Type 0 where
  write_stdin : Bytes → Call
  close_stdin : Call
  resize : WindowSize → Call

-- `has_eof` is `stdinEOF`; `calls` are the process's calls so far.
pub record InputState : Type 0 where
  pub has_eof : Bool
  pub calls : List Call

-- `accepts` is the process: whether a call returns no error, by the calls before it.

unfoldable pub do_call :
    (List Call → Call → Bool) → Call → InputState → Option CommandErr × InputState
do_call accepts c s = (
  if accepts s.calls c then none else some process_failed,
  record s { calls = s.calls ++ (c ∷ []) },
)

-- The cases of the switch.
unfoldable pub on_frame :
    (List Call → Call → Bool) → Bool → ClientFrame → InputState → Option CommandErr × InputState
on_frame accepts has_pty (start m) s = (some duplicate_start, s)
on_frame accepts has_pty (stdin b) s =
    if s.has_eof then (some stdin_after_eof, s) else do_call accepts (write_stdin b) s
on_frame accepts has_pty stdin_eof s =
    if s.has_eof
    then (some duplicate_eof, s)
    else do_call accepts close_stdin (record s { has_eof = true })
on_frame accepts has_pty (window_change size) s =
    if not has_pty then (some no_pty, s) else do_call accepts (resize size) s
on_frame accepts has_pty client_unset s = (some unsupported_frame, s)

-- The loop over what the connection hands out, an absent frame being its error. At the end of the
-- list the loop waits for more.
unfoldable pub receive_input :
    Codec ClientFrame
    → (List Call → Call → Bool)
    → Bool
    → List (Option Bytes)
    → InputState
    → Option CommandErr × InputState
receive_input codec accepts has_pty [] s = (none, s)
receive_input codec accepts has_pty (none ∷ frames) s = (some connection_failed, s)
receive_input codec accepts has_pty (some frame ∷ frames) s = elim (unmarshal_message codec frame) [
  | fail e ↦ (some e, s)
  | ok m ↦
      let (e, t) = on_frame accepts has_pty m s in
      elim e [ some x ↦ (some x, t) | none ↦ receive_input codec accepts has_pty frames t ]
]

-- Calls in order: nothing is written and nothing closed after the input was closed, and the size
-- changes only with a PTY. The index tells whether the input was closed.
pub data Orderly (has_pty : Bool) : List Call → Bool → Type 0 where
  orderly_none : Orderly has_pty [] false
  orderly_write :
      (cs : List Call) (b : Bytes)
      → Orderly has_pty cs false
      → Orderly has_pty (cs ++ (write_stdin b ∷ [])) false
  orderly_close :
      (cs : List Call) → Orderly has_pty cs false → Orderly has_pty (cs ++ (close_stdin ∷ [])) true
  orderly_resize :
      (cs : List Call) (size : WindowSize) (closed : Bool)
      → has_pty ≡ true
      → Orderly has_pty cs closed
      → Orderly has_pty (cs ++ (resize size ∷ [])) closed

-- What was written to the process.
unfoldable pub written : List Call → Bytes
written [] = []
written (write_stdin b ∷ cs) = b ++ written cs
written (close_stdin ∷ cs) = written cs
written (resize size ∷ cs) = written cs
