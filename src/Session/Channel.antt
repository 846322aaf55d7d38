-- ===== src/Session/Channel.antt =====
-- The state that lib/session/channel.go keeps for one channel.
use mygosh.Base.{ℕ, Bool, true, false, Option, List}
use mygosh.Session.Message.{Bytes, ChannelRequest, Response}
use mygosh.Session.Error.{Err}

pub data ChannelState : Type 0 where
  opening open_ local_eof remote_eof both_eof closing closed failed : ChannelState

unfoldable pub allows_requests : ChannelState → Bool
allows_requests open_ = true
allows_requests local_eof = true
allows_requests remote_eof = true
allows_requests both_eof = true
allows_requests _ = false

unfoldable pub can_send_data : ChannelState → Bool
can_send_data open_ = true
can_send_data remote_eof = true
can_send_data _ = false

unfoldable pub can_receive_data : ChannelState → Bool
can_receive_data open_ = true
can_receive_data local_eof = true
can_receive_data _ = false

unfoldable pub read_eof : ChannelState → Bool
read_eof remote_eof = true
read_eof both_eof = true
read_eof closing = true
read_eof closed = true
read_eof _ = false

pub data Slot : Type 0 where
  no_slot pending_slot active_slot : Slot

-- `channelWaitResult`: what a waiter's buffered channel holds.
pub data WaitResult : Type 0 where
  answered : Response → WaitResult
  aborted : Err → WaitResult

-- `channelEvent`
pub data Event : Type 0 where
  request_event : ChannelRequest → ℕ → Event
  eof_event : Event
  close_event : Event

abbrev pub event_size : Event → ℕ
event_size (request_event m size) = size
event_size eof_event = 1
event_size close_event = 1

-- A waiter's Go channel is a name in `pending_requests` or `open_wait`; what was sent on it is
-- kept in `replies` and `open_replies`. `cause` is the cause that the channel's context was
-- cancelled with. `signalLocked` wakes the callers that wait in a loop and changes no datum.
pub record Channel : Type 0 where
  pub peer_id : ℕ
  pub typ : Bytes
  pub slot : Slot
  pub cause : Option Err
  pub state : ChannelState
  pub open_wait : Bool
  pub open_replies : List (Option Err)
  pub local_window : ℕ  -- uint32
  pub remote_window : ℕ  -- uint32
  pub max_local_packet : ℕ  -- uint32
  pub max_remote_packet : ℕ  -- uint32
  pub pending_window_bytes : ℕ  -- uint32
  pub next_request_id : ℕ  -- uint64
  pub pending_requests : List ℕ
  pub replies : List (ℕ × WaitResult)
  pub incoming_request_ids : List ℕ
  pub frames : List Bytes
  pub queued_frames : ℕ  -- uint32
  pub queued_bytes : ℕ  -- uint64
  pub session_err : Option Err
  pub handler : ℕ
  pub events : List Event
  pub worker : Bool
