-- ===== src/Session/Flow.antt =====
-- Channel data and its flow control: `Send` and `Recv` of lib/session/channel.go,
-- `handleChannelData` and `handleChannelWindowAdjust` of lib/session/session.go.
pub mod Delivery
pub mod Link
pub mod Window
pub mod Sending
pub mod Ends
pub mod Failure
pub mod Releasing
pub mod Reading
pub mod EndOfFile
pub mod Tests
mod CallTests
mod StallTests
use mygosh.Base.{ℕ, ◌+◌, ◌-◌, Bool, true, false, not, ◌||◌, Option, none, some, List, [], ◌∷◌}
use mygosh.Base.{◌++◌, length, ltb, leb, if◌then◌else◌, u32, max_uint32}
use mygosh.Session.Message.{
  Bytes, World, ChannelData, ChannelWindowAdjust, channel_data, channel_window_adjust,
}
use mygosh.Session.Error.{
  Err, session_closed, channel_closed, channel_write_eof, empty_data, frame_too_large,
  frame_above_packet, wrapped, protocol, nil_message, empty_channel_data, wrong_state,
  packet_exceeded, window_exceeded, window_overflow,
}
use mygosh.Session.Channel.{
  Channel, ChannelState, local_eof, both_eof, closed, allows_requests, can_send_data,
  can_receive_data, read_eof,
}
use mygosh.Session.Validate.{is_empty}
use mygosh.Session.Registry.{find_channel}
use mygosh.Session.Budget.{reserve_queued, release_queued}
use mygosh.Session.Outbound.{send_envelope}
use mygosh.Session.Shutdown.{channel_cause, cancel_channel, shutdown}
use mygosh.Session.State.{
  Session, M, ◌>>=◌, ◌>>◌, pure, throw, done, get, modify, fail_if, catch, load, store,
}

-- `channelErrorLocked`
abbrev pub channel_error : Session → Channel → Option Err
channel_error s ch = elim ch.session_err [ some e ↦ some e | none ↦ channel_cause s ch ]

abbrev pub size_of : Bytes → ℕ
size_of frame = u32 (length frame)

-- What one call changes in the channel. The guards of the callers make `-` exact.
abbrev pub spend : ℕ → Channel → Channel
spend size ch = record ch { remote_window = ch.remote_window - size }

abbrev pub refund : ℕ → Channel → Channel
refund size ch = record ch {
  remote_window =
      if leb size (max_uint32 - ch.remote_window)
      then u32 (ch.remote_window + size)
      else ch.remote_window;
}

abbrev pub accept_frame : Bytes → Channel → Channel
accept_frame frame ch = record ch {
  local_window = ch.local_window - size_of frame;
  frames = ch.frames ++ (frame ∷ []);
}

abbrev pub credit : ℕ → Channel → Channel
credit size ch = record ch { remote_window = u32 (ch.remote_window + size) }

-- `Recv` gives the window back at once, and counts what the peer is to be told.
abbrev pub give_back : ℕ → Channel → Channel
give_back size ch = record ch {
  local_window = u32 (ch.local_window + size);
  pending_window_bytes = u32 (ch.pending_window_bytes + size);
}

unfoldable pub handle_channel_data : Option ChannelData → M (Unit {0})
handle_channel_data none = throw (protocol nil_message)
handle_channel_data (some msg) = do
  ch ← find_channel msg.recipient_channel_id
  fail_if (is_empty msg.bytes) (protocol empty_channel_data)
  fail_if (not (can_receive_data ch.state)) (protocol wrong_state)
  fail_if (ltb ch.max_local_packet (size_of msg.bytes)) (protocol packet_exceeded)
  fail_if (ltb ch.local_window (size_of msg.bytes)) (protocol window_exceeded)
  reserve_queued msg.recipient_channel_id 1 (size_of msg.bytes)
  store msg.recipient_channel_id (accept_frame msg.bytes)

unfoldable pub handle_channel_window_adjust : Option ChannelWindowAdjust → M (Unit {0})
handle_channel_window_adjust none = throw (protocol nil_message)
handle_channel_window_adjust (some msg) = do
  ch ← find_channel msg.recipient_channel_id
  fail_if (not (allows_requests ch.state)) (protocol wrong_state)
  fail_if (ltb (max_uint32 - ch.remote_window) msg.bytes_to_add) (protocol window_overflow)
  store msg.recipient_channel_id (credit msg.bytes_to_add)

-- One round of the loop of `Send`: the frame is handed to the writer, or the caller has to wait
-- for a change of the channel and try again.
pub data SendStep : Type 0 where
  sent must_wait : SendStep

abbrev pub is_write_eof : ChannelState → Bool
is_write_eof local_eof = true
is_write_eof both_eof = true
is_write_eof _ = false

abbrev pub throw_if_some : Option Err → M (Unit {0})
throw_if_some none = done
throw_if_some (some e) = throw e

-- One round of the loop of `Recv`.
pub data RecvStep : Type 0 where
  received : Bytes → RecvStep
  end_of_file wait_for_frame : RecvStep

-- `eris.Is(err, errSessionClosed)` and `eris.Is(err, errChannelClosed)`
unfoldable pub is_session_closed : Err → Bool
is_session_closed session_closed = true
is_session_closed (wrapped e) = is_session_closed e
is_session_closed _ = false

unfoldable pub is_channel_closed : Err → Bool
is_channel_closed channel_closed = true
is_channel_closed (wrapped e) = is_channel_closed e
is_channel_closed _ = false

abbrev pub is_closed : ChannelState → Bool
is_closed closed = true
is_closed _ = false

-- The error of a context that is done, where a closed one is the end of the file.
abbrev pub give_up : Option Err → M RecvStep
give_up none = pure wait_for_frame
give_up (some e) = if is_session_closed e || is_channel_closed e then pure end_of_file else throw e

abbrev pub session_error_or : Option Err → M RecvStep → M RecvStep
session_error_or none k = k
session_error_or (some e) k = if is_session_closed e then pure end_of_file else throw e

-- `Recv` with no frame queued.
unfoldable pub recv_empty : ℕ → Channel → M RecvStep
recv_empty id ch = do
  s ← get
  if read_eof ch.state
      then (if is_closed ch.state
          then (do cancel_channel id channel_closed; pure end_of_file)
          else pure end_of_file)
      else session_error_or ch.session_err (give_up (channel_error s ch))

-- A later failure of the write gives the window back too.
unfoldable pub send_undo : ℕ → Bytes → Err → M (Unit {0})
send_undo id frame e = store id (refund (size_of frame))

module _ (world : World) where
  unfoldable pub send_reserved : ℕ → ℕ → Bytes → M SendStep
  send_reserved id peer frame = do
    store id (spend (size_of frame))
    catch
        (send_envelope world
          (channel_data (some (record { recipient_channel_id = peer; bytes = frame }))))
        (λ e. do send_undo id frame e; throw e)
    pure sent

  unfoldable pub send : ℕ → Bytes → M SendStep
  send id frame = do
    fail_if (is_empty frame) empty_data
    fail_if (ltb max_uint32 (length frame)) frame_too_large
    ch ← load id
    s ← get
    throw_if_some (channel_error s ch)
    fail_if (not (can_send_data ch.state))
        (if is_write_eof ch.state then channel_write_eof else channel_closed)
    fail_if (ltb ch.max_remote_packet (length frame)) frame_above_packet
    if leb (size_of frame) ch.remote_window
        then send_reserved id ch.peer_id frame
        else pure must_wait

  -- The window adjustment that `Recv` sends; a failure of it ends the session.
  unfoldable pub send_adjust : ℕ → ℕ → M (Unit {0})
  send_adjust peer adjust =
      catch
        (send_envelope world (
          channel_window_adjust
            (some (record { recipient_channel_id = peer; bytes_to_add = adjust }))))
        (λ e. modify (shutdown world (some (wrapped e))))

  unfoldable pub recv_frame : ℕ → Bytes → List Bytes → M RecvStep
  recv_frame id frame rest = do
    store id λ ch. record ch { frames = rest }
    release_queued id 1 (length frame)
    store id (give_back (size_of frame))
    ch ← load id
    s ← get
    if leb s.config.window_adjust_threshold ch.pending_window_bytes
        then (do
          store id λ ch. record ch { pending_window_bytes = 0 }
          if ltb 0 ch.pending_window_bytes
              then send_adjust ch.peer_id ch.pending_window_bytes
              else done)
        else done
    pure (received frame)

  abbrev pub recv_from : ℕ → Channel → List Bytes → M RecvStep
  recv_from id ch [] = recv_empty id ch
  recv_from id ch (frame ∷ rest) = recv_frame id frame rest

  unfoldable pub recv : ℕ → M RecvStep
  recv id = do ch ← load id; recv_from id ch ch.frames
