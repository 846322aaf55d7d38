-- ===== src/Session/Lifecycle.antt =====
-- The end of a channel's directions and of a channel: `CloseWrite`, `Close`, the close timeout,
-- and what the peer's EOF and close do (lib/session/channel.go).
pub mod Closed
mod Tests
use mygosh.Base.{ℕ, Bool, true, false, Option, none, some, List, [], ◌∷◌, ◌++◌, length, leb}
use mygosh.Base.{if◌then◌else◌}
use mygosh.Session.Message.{World, channel_eof, channel_close}
use mygosh.Session.Error.{
  resource_limit, channel_closed, wrapped, protocol, wrong_state, duplicate_eof, duplicate_close,
  not_opened,
}
use mygosh.Session.Channel.{
  Channel, ChannelState, opening, open_, local_eof, remote_eof, both_eof, closing, closed, failed,
  Event, eof_event, close_event, event_size,
}
use mygosh.Session.Registry.{find_channel, remove_channel}
use mygosh.Session.Budget.{reserve_queued, release_queued, discard_queued}
use mygosh.Session.Outbound.{send_envelope, send_envelope_async}
use mygosh.Session.Shutdown.{cancel_channel, fail_pending_requests, channel_shutdown, shutdown}
use mygosh.Session.Flow.{channel_error, throw_if_some}
use mygosh.Session.State.{M, ◌>>=◌, ◌>>◌, throw, done, get, modify, catch, load, store}

abbrev pub set_state : ChannelState → Channel → Channel
set_state state ch = record ch { state = state }

-- The part of the enqueue methods after the budget is reserved: `ch.events` has room for as many
-- events as the channel may queue frames.
unfoldable pub push_event : ℕ → Event → M (Unit {0})
push_event id event = do
  s ← get
  ch ← load id
  if leb s.config.limits.max_queued_frames_per_channel (length ch.events)
      then (do release_queued id 1 (event_size event); throw resource_limit)
      else store id (λ ch. record ch { events = ch.events ++ (event ∷ []) })

unfoldable pub queue_event : ℕ → Event → M (Unit {0})
queue_event id event = do reserve_queued id 1 (event_size event); push_event id event

-- The state that `CloseWrite` and the peer's EOF lead to, where they are allowed.
unfoldable pub after_local_eof : ChannelState → Option ChannelState
after_local_eof open_ = some local_eof
after_local_eof remote_eof = some both_eof
after_local_eof _ = none

unfoldable pub after_remote_eof : ChannelState → Option ChannelState
after_remote_eof open_ = some remote_eof
after_remote_eof local_eof = some both_eof
after_remote_eof _ = none

abbrev pub is_eof_sent : ChannelState → Bool
is_eof_sent local_eof = true
is_eof_sent both_eof = true
is_eof_sent _ = false

abbrev pub is_eof_received : ChannelState → Bool
is_eof_received remote_eof = true
is_eof_received both_eof = true
is_eof_received _ = false

unfoldable pub remote_eof_from : ℕ → ChannelState → Option ChannelState → M (Unit {0})
remote_eof_from id state none =
    throw (protocol (if is_eof_received state then duplicate_eof else wrong_state))
remote_eof_from id state (some next) = do store id (set_state next); queue_event id eof_event

-- `enqueueChannelEOF`
unfoldable pub enqueue_channel_eof : ℕ → M (Unit {0})
enqueue_channel_eof id = do
  ch ← find_channel id
  remote_eof_from id ch.state (after_remote_eof ch.state)

-- A later failure of the write undoes the half close.
unfoldable pub close_write_undo : ℕ → ChannelState → M (Unit {0})
close_write_undo id previous =
    store id λ ch. if is_eof_sent ch.state then set_state previous ch else ch

-- The timer of `awaitCloseTimeout` fires.
unfoldable pub close_timeout_from : ℕ → ChannelState → M (Unit {0})
close_timeout_from id closing = do store id (set_state closed); remove_channel id
close_timeout_from id _ = done

unfoldable pub close_timeout : ℕ → M (Unit {0})
close_timeout id = do ch ← load id; close_timeout_from id ch.state

-- `handleRemoteClose`, after the application's `OnClose`.
abbrev pub cancel_if_drained : ℕ → List (List ℕ) → M (Unit {0})
cancel_if_drained id [] = cancel_channel id channel_closed
cancel_if_drained id (frame ∷ rest) = done

unfoldable pub handle_remote_close : ℕ → M (Unit {0})
handle_remote_close id = do
  fail_pending_requests id channel_closed
  ch ← load id
  cancel_if_drained id ch.frames

module _ (world : World) where
  unfoldable pub close_write_from : ℕ → Channel → Option ChannelState → M (Unit {0})
  close_write_from id ch none = if is_eof_sent ch.state then done else throw channel_closed
  close_write_from id ch (some next) = do
    store id (set_state next)
    catch (send_envelope world (channel_eof ch.peer_id))
        (λ e. do close_write_undo id ch.state; throw e)

  -- `CloseWrite`
  unfoldable pub close_write : ℕ → M (Unit {0})
  close_write id = do
    ch ← load id
    s ← get
    throw_if_some (channel_error s ch)
    close_write_from id ch (after_local_eof ch.state)

  -- The close that a channel in use sends. Its failure ends the session.
  unfoldable pub start_close : ℕ → ℕ → M (Unit {0})
  start_close id peer = do
    store id (set_state closing)
    discard_queued id
    fail_pending_requests id channel_closed
    cancel_channel id channel_closed
    catch (send_envelope_async world (channel_close peer))
        (λ e. do modify (shutdown world (some (wrapped e))); throw e)

  unfoldable pub close_from : ℕ → ℕ → ChannelState → M (Unit {0})
  close_from id peer closing = done
  close_from id peer closed = done
  close_from id peer failed = done
  close_from id peer opening = do
    store id (set_state failed)
    remove_channel id
    channel_shutdown id channel_closed
  close_from id peer open_ = start_close id peer
  close_from id peer local_eof = start_close id peer
  close_from id peer remote_eof = start_close id peer
  close_from id peer both_eof = start_close id peer

  -- `Close`
  unfoldable pub close : ℕ → M (Unit {0})
  close id = do ch ← load id; close_from id ch.peer_id ch.state

  -- The peer closes a channel in use: the close is acknowledged.
  unfoldable pub remote_close : ℕ → ℕ → M (Unit {0})
  remote_close id peer = do
    store id (set_state closed)
    queue_event id close_event
    catch (send_envelope_async world (channel_close peer)) (λ e. throw (wrapped e))
    remove_channel id

  unfoldable pub remote_close_from : ℕ → ℕ → ChannelState → M (Unit {0})
  remote_close_from id peer closing = do store id (set_state closed); remove_channel id
  remote_close_from id peer opening = throw (protocol not_opened)
  remote_close_from id peer closed = throw (protocol duplicate_close)
  remote_close_from id peer failed = throw (protocol duplicate_close)
  remote_close_from id peer open_ = remote_close id peer
  remote_close_from id peer local_eof = remote_close id peer
  remote_close_from id peer remote_eof = remote_close id peer
  remote_close_from id peer both_eof = remote_close id peer

  -- `enqueueChannelClose`
  unfoldable pub enqueue_channel_close : ℕ → M (Unit {0})
  enqueue_channel_close id = do ch ← find_channel id; remote_close_from id ch.peer_id ch.state
