-- ===== src/Session/Opening.antt =====
-- The opening of channels, from either side (lib/session/session.go).
pub mod Accepted
mod Tests
use mygosh.Base.{ℕ, Bool, true, false, not, ◌||◌, Option, none, some, [], ◌∷◌, ◌++◌, if◌then◌else◌}
use mygosh.Session.Message.{
  Bytes, bytes_of, World, ChannelOpen, ChannelOpenAccept, ChannelOpenResult, OpenOutcome,
  OpenDecision, channel_open, channel_open_result,
}
use mygosh.Session.Error.{
  Err, channel_closed, open_rejected, protocol, nil_message, invalid_request, disappeared,
  changed_state, duplicate_open_result, invalid_open_result, open_payload_too_long,
  invalid_rejection, is_resource_limit,
}
use mygosh.Session.Channel.{Channel, ChannelState, opening, open_, failed, no_slot}
use mygosh.Session.Config.{Config}
use mygosh.Session.Validate.{
  validate_type_and_payload, validate_response, validate_decision, normalize_reject, too_long,
}
use mygosh.Session.Registry.{
  reserve_local_channel_id, add_pending_channel, reserve_peer_channel_id, activate_channel,
  find_channel, lookup_channel_by_peer, remove_channel,
}
use mygosh.Session.Outbound.{
  ensure_active, send_envelope, send_envelope_after, send_channel_open_reject,
  send_channel_open_reject_async, enqueue_dispatch,
}
use mygosh.Session.Shutdown.{channel_shutdown}
use mygosh.Session.Flow.{throw_if_some}
use mygosh.Session.Lifecycle.{set_state, close}
use mygosh.Session.Requests.{violation_if}
use mygosh.Session.State.{
  Session, M, ◌>>=◌, ◌>>◌, pure, throw, done, get, modify, fail_if, catch, on_error, load, store,
  open_task, start_worker,
}

-- `newPendingChannel`: a channel that this side opens. Its windows stay 0 until it is accepted.
abbrev pub pending_channel : Bytes → ℕ → Channel
pending_channel typ handler = record {
  peer_id = 0;
  typ = typ;
  slot = no_slot;
  cause = none;
  state = opening;
  open_wait = true;
  open_replies = [];
  local_window = 0;
  remote_window = 0;
  max_local_packet = 0;
  max_remote_packet = 0;
  pending_window_bytes = 0;
  next_request_id = 0;
  pending_requests = [];
  replies = [];
  incoming_request_ids = [];
  frames = [];
  queued_frames = 0;
  queued_bytes = 0;
  session_err = none;
  handler = handler;
  events = [];
  worker = false;
}

-- `newIncomingChannel`
abbrev pub incoming_channel : Config → ChannelOpen → Channel
incoming_channel config msg =
    let fresh = pending_channel msg.channel_type 0 in
    record fresh {
      peer_id = msg.sender_channel_id;
      open_wait = false;
      local_window = config.initial_window;
      remote_window = msg.initial_window;
      max_local_packet = config.max_packet_size;
      max_remote_packet = msg.max_packet_size;
    }

abbrev pub allocate : ℕ → Channel → Session → Session
allocate id ch s = record s { heap = (id, ch) ∷ s.heap }

-- A channel is made and entered into the table.
unfoldable pub add_channel : ℕ → Channel → Option ℕ → M (Unit {0})
add_channel id ch peer = do modify (allocate id ch); add_pending_channel id peer

-- What an accepted open sets in the channel that this side opened.
abbrev pub accept_open : Config → ChannelOpenAccept → Channel → Channel
accept_open config accept ch = record ch {
  peer_id = accept.sender_channel_id;
  local_window = config.initial_window;
  remote_window = accept.initial_window;
  max_local_packet = config.max_packet_size;
  max_remote_packet = accept.max_packet_size;
  state = open_;
}

abbrev pub take_open_wait : Channel → Channel
take_open_wait ch = record ch { open_wait = false }

abbrev pub reply_open : Option Err → Channel → Channel
reply_open e ch = record ch { open_replies = ch.open_replies ++ (e ∷ []) }

-- `go ch.loop()`
abbrev pub start : Channel → Channel
start ch = record ch { worker = true }

abbrev pub is_opening : ChannelState → Bool
is_opening opening = true
is_opening _ = false

unfoldable pub open_result_from : ℕ → OpenOutcome → M (Unit {0})
open_result_from id (OpenOutcome.success accept) = do
  s ← get
  fail_if (too_long accept.payload s.config.limits.max_control_payload)
      (protocol open_payload_too_long)
  reserve_peer_channel_id accept.sender_channel_id id
  store id (accept_open s.config accept)
  activate_channel id
  store id start
  store id (reply_open none)
open_result_from id (OpenOutcome.reject r) = do
  s ← get
  violation_if (validate_response s.config.limits r.code r.message r.payload)
      (protocol invalid_rejection)
  store id (set_state failed)
  remove_channel id
  channel_shutdown id (open_rejected r.message)
  store id (reply_open (some (open_rejected r.message)))
open_result_from id OpenOutcome.unset = throw (protocol invalid_open_result)

unfoldable pub handle_channel_open_result : Option ChannelOpenResult → M (Unit {0})
handle_channel_open_result none = throw (protocol nil_message)
handle_channel_open_result (some msg) = do
  ch ← find_channel msg.recipient_channel_id
  fail_if (not (is_opening ch.state) || not ch.open_wait) (protocol duplicate_open_result)
  store msg.recipient_channel_id take_open_wait
  open_result_from msg.recipient_channel_id msg.result

-- A failure of the acceptance, at once or later, takes the channel back.
unfoldable pub accept_undo : ℕ → Err → M (Unit {0})
accept_undo id e = do remove_channel id; channel_shutdown id e

module _ (world : World) where
  -- `OpenChannelWithHandler` up to the point where the caller waits; it returns the channel's id.
  unfoldable pub open_channel : Bytes → Bytes → ℕ → M ℕ
  open_channel typ payload handler = do
    s ← get
    throw_if_some (validate_type_and_payload s.config.limits typ payload)
    ensure_active
    id ← reserve_local_channel_id
    add_channel id (pending_channel typ handler) none
    catch
        (send_envelope world (
          channel_open (
            some (record {
              channel_type = typ;
              sender_channel_id = id;
              initial_window = s.config.initial_window;
              max_packet_size = s.config.max_packet_size;
              payload = payload;
            }))))
        (λ e. do remove_channel id; channel_shutdown id e; throw e)
    pure id

  unfoldable pub abandon_from : ℕ → Err → ChannelState → M (Unit {0})
  abandon_from id e opening = do
    store id λ ch. set_state failed (take_open_wait ch)
    remove_channel id
    channel_shutdown id e
  abandon_from id e _ = catch (close world id) (λ _. done)

  -- `abandonOpen`: the caller of `OpenChannel` gives up.
  unfoldable pub abandon_open : ℕ → Err → M (Unit {0})
  abandon_open id e = do ch ← load id; abandon_from id e ch.state

  abbrev pub admission_failed : ChannelOpen → Err → M (Unit {0})
  admission_failed msg e =
      if is_resource_limit e
      then send_channel_open_reject_async world msg.sender_channel_id (bytes_of "resource-limit")
          (bytes_of "channel limit reached")
      else throw e

  abbrev pub open_dispatch_failed : ℕ → ChannelOpen → Err → M (Unit {0})
  open_dispatch_failed id msg e = do
    remove_channel id
    channel_shutdown id e
    if is_resource_limit e
        then send_channel_open_reject_async world msg.sender_channel_id (bytes_of "resource-limit")
            (bytes_of "channel queue limit reached")
        else throw e

  unfoldable pub enqueue_incoming_open : Option ChannelOpen → M (Unit {0})
  enqueue_incoming_open none = throw (protocol nil_message)
  enqueue_incoming_open (some msg) = do
    s ← get
    violation_if (validate_type_and_payload s.config.limits msg.channel_type msg.payload)
        (protocol invalid_request)
    id ← reserve_local_channel_id
    on_error (add_channel id (incoming_channel s.config msg) (some msg.sender_channel_id))
        (admission_failed msg)
        λ _.
          catch (enqueue_dispatch (open_task msg (world.open_size msg)))
            (open_dispatch_failed id msg)

  -- The application refuses.
  unfoldable pub refuse_open : ℕ → ChannelOpen → OpenDecision → M (Unit {0})
  refuse_open id msg decision = do
    remove_channel id
    channel_shutdown id channel_closed
    send_channel_open_reject world msg.sender_channel_id
        (normalize_reject decision.code (bytes_of "channel-open-rejected"))
        (normalize_reject decision.message (bytes_of "channel open rejected")) decision.payload

  -- The application accepts; the worker starts once the acceptance is written.
  unfoldable pub admit_open : ℕ → ChannelOpen → OpenDecision → M (Unit {0})
  admit_open id msg decision = do
    store id λ ch. record ch { handler = decision.handler }
    ch ← load id
    fail_if (not (is_opening ch.state)) (protocol changed_state)
    store id (set_state open_)
    activate_channel id
    s ← get
    catch
        (send_envelope_after world
          (channel_open_result (
            some (record {
              recipient_channel_id = msg.sender_channel_id;
              result = OpenOutcome.success (record {
                sender_channel_id = id;
                initial_window = s.config.initial_window;
                max_packet_size = s.config.max_packet_size;
                payload = decision.payload;
              });
            })))
          (start_worker id))
        (λ e. do accept_undo id e; throw e)

  unfoldable pub decide_open : ℕ → ChannelOpen → OpenDecision → M (Unit {0})
  decide_open id msg decision = do
    s ← get
    catch (throw_if_some (validate_decision s.config.limits decision))
        (λ e. do remove_channel id; channel_shutdown id e; throw e)
    if decision.accepted then admit_open id msg decision else refuse_open id msg decision

  abbrev pub handle_open_at : ChannelOpen → Option ℕ → M (Unit {0})
  handle_open_at msg none = throw (protocol disappeared)
  handle_open_at msg (some id) = decide_open id msg (
      world.on_channel_open (record {
        typ = msg.channel_type;
        payload = msg.payload;
        initial_window = msg.initial_window;
        max_packet_size = msg.max_packet_size;
      }))

  -- `handleChannelOpen` up to the point where the dispatcher waits for the writer.
  unfoldable pub handle_channel_open : ChannelOpen → M (Unit {0})
  handle_channel_open msg = do
    s ← get
    handle_open_at msg (lookup_channel_by_peer msg.sender_channel_id s)
