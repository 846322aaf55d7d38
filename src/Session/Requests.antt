-- ===== src/Session/Requests.antt =====
-- Channel requests and their replies: `SendRequest`, `enqueueChannelRequest`, `handleRequest` of
-- lib/session/channel.go and `handleChannelResult` of lib/session/session.go.
pub mod Answers
mod Tests
use mygosh.Base.{
  ℕ, ◌+◌, Bool, true, false, not, Option, none, some, List, [], ◌∷◌, ◌++◌, length, leb,
}
use mygosh.Base.{◌==◌, if◌then◌else◌, max_uint64}
use mygosh.Base.Maps.{member, delete}
use mygosh.Session.Message.{
  Bytes, bytes_of, World, ChannelRequest, ChannelResult, OperationOutcome, Response,
  channel_request, channel_result,
}
use mygosh.Session.Error.{
  Err, channel_closed, request_ids_exhausted, request_limit, protocol, nil_message, invalid_request,
  wrong_state, duplicate_request_id, unknown_request, invalid_result, result_payload_too_long,
  invalid_rejection, is_resource_limit,
}
use mygosh.Session.Channel.{
  Channel, allows_requests, Event, request_event, eof_event, close_event, event_size, WaitResult,
  answered,
}
use mygosh.Session.Validate.{
  validate_type_and_payload, validate_response, normalize_reject, too_long,
}
use mygosh.Session.Registry.{
  find_channel, reserve_pending_channel_request, release_pending_channel_request,
}
use mygosh.Session.Budget.{reserve_queued, release_queued}
use mygosh.Session.Outbound.{send_envelope, send_channel_reject_async}
use mygosh.Session.Flow.{channel_error, throw_if_some}
use mygosh.Session.Lifecycle.{push_event, handle_remote_close}
use mygosh.Session.State.{
  M, ◌>>=◌, ◌>>◌, pure, throw, done, get, fail_if, catch, on_error, load, store, finish_request,
}

-- A failed check of a message is a protocol error.
abbrev pub violation_if : Option Err → Err → M (Unit {0})
violation_if none e = done
violation_if (some _) e = throw e

-- `finishIncomingRequest`
unfoldable pub finish_incoming_request : ℕ → ℕ → Bool → M (Unit {0})
finish_incoming_request id request want_reply =
    if want_reply
    then store id
        (λ ch. record ch { incoming_request_ids = delete request ch.incoming_request_ids })
    else done

-- `removePendingRequest`: the waiter gives up, if it still waits.
unfoldable pub remove_pending_request : ℕ → ℕ → M (Unit {0})
remove_pending_request id request = do
  ch ← load id
  if member request ch.pending_requests
      then (do
        store id λ ch. record ch { pending_requests = delete request ch.pending_requests }
        release_pending_channel_request)
      else done

-- A reply is handed to its waiter.
abbrev pub deliver : ℕ → WaitResult → Channel → Channel
deliver request result ch = record ch { replies = ch.replies ++ ((request, result) ∷ []) }

abbrev pub success_response : Bytes → Response
success_response payload = record { accepted = true; payload = payload; code = []; message = [] }

unfoldable pub deliver_result : ℕ → ℕ → OperationOutcome → M (Unit {0})
deliver_result id request (OperationOutcome.success payload) = do
  s ← get
  fail_if (too_long payload s.config.limits.max_control_payload) (protocol result_payload_too_long)
  store id (deliver request (answered (success_response payload)))
deliver_result id request (OperationOutcome.reject r) = do
  s ← get
  violation_if (validate_response s.config.limits r.code r.message r.payload)
      (protocol invalid_rejection)
  store id (
      deliver request (
        answered
          (record { accepted = false; payload = r.payload; code = r.code; message = r.message })))
deliver_result id request OperationOutcome.unset = throw (protocol invalid_result)

-- The waiter of a reply is taken out of the table.
unfoldable pub take_waiter : ℕ → ℕ → M (Unit {0})
take_waiter id request = do
  ch ← load id
  fail_if (not (member request ch.pending_requests)) (protocol unknown_request)
  store id λ ch. record ch { pending_requests = delete request ch.pending_requests }
  release_pending_channel_request

unfoldable pub handle_channel_result : Option ChannelResult → M (Unit {0})
handle_channel_result none = throw (protocol nil_message)
handle_channel_result (some msg) = do
  _ ← find_channel msg.recipient_channel_id
  take_waiter msg.recipient_channel_id msg.request_id
  deliver_result msg.recipient_channel_id msg.request_id msg.result

-- What `handleRequest` answers with.
abbrev pub result_of : Response → Bytes → Bytes → OperationOutcome
result_of r code message =
    if r.accepted
    then OperationOutcome.success r.payload
    else OperationOutcome.reject (record {
      code = normalize_reject r.code code;
      message = normalize_reject r.message message;
      payload = r.payload;
    })

-- A waiter is installed if the caller wants a reply.
unfoldable pub install_waiter : ℕ → ℕ → Bool → M (Unit {0})
install_waiter id request want_reply =
    if want_reply
    then (do
      s ← get
      ch ← load id
      fail_if
          (leb s.config.limits.max_pending_channel_requests_per_channel
            (length ch.pending_requests))
          request_limit
      reserve_pending_channel_request
      store id λ ch. record ch { pending_requests = request ∷ ch.pending_requests })
    else done

unfoldable pub note_request_id : ℕ → Channel → ChannelRequest → M (Unit {0})
note_request_id id ch msg =
    if msg.want_reply
    then (do
      fail_if (member msg.request_id ch.incoming_request_ids) (protocol duplicate_request_id)
      store id λ ch. record ch { incoming_request_ids = msg.request_id ∷ ch.incoming_request_ids })
    else done

module _ (world : World) where
  -- `SendRequest` up to the point where the caller waits for the writer and the reply; it returns
  -- the id of the request. `remove_pending_request` is what follows a failure or a cancellation.
  unfoldable pub send_request : ℕ → Bytes → Bytes → Bool → M ℕ
  send_request id typ payload want_reply = do
    s ← get
    throw_if_some (validate_type_and_payload s.config.limits typ payload)
    ch ← load id
    throw_if_some (channel_error s ch)
    fail_if (not (allows_requests ch.state)) channel_closed
    fail_if (ch.next_request_id == max_uint64) request_ids_exhausted
    store id λ ch. record ch { next_request_id = ch.next_request_id + 1 }
    install_waiter id ch.next_request_id want_reply
    catch
        (send_envelope world (
          channel_request (
            some (record {
              recipient_channel_id = ch.peer_id;
              request_id = ch.next_request_id;
              request_type = typ;
              want_reply = want_reply;
              payload = payload;
            }))))
        (λ e. do if want_reply then remove_pending_request id ch.next_request_id else done; throw e)
    pure ch.next_request_id

  -- The rejection that a full queue gives, if the peer wants a reply.
  unfoldable pub reject_request : ℕ → ℕ → ℕ → M (Unit {0})
  reject_request id peer request =
      catch
        (send_channel_reject_async world peer request (bytes_of "resource-limit")
          (bytes_of "channel request queue limit reached") (finish_request id request))
        (λ e. do finish_incoming_request id request true; throw e)

  abbrev pub reserve_failed : ℕ → ℕ → ChannelRequest → Err → M (Unit {0})
  reserve_failed id peer msg e =
      if is_resource_limit e
      then (if msg.want_reply
          then reject_request id peer msg.request_id
          else (do finish_incoming_request id msg.request_id false; throw e))
      else (do finish_incoming_request id msg.request_id msg.want_reply; throw e)

  abbrev pub push_failed : ℕ → ℕ → ChannelRequest → Err → M (Unit {0})
  push_failed id peer msg e =
      if msg.want_reply then reject_request id peer msg.request_id else throw e

  unfoldable pub enqueue_channel_request : Option ChannelRequest → M (Unit {0})
  enqueue_channel_request none = throw (protocol nil_message)
  enqueue_channel_request (some msg) = do
    s ← get
    violation_if (validate_type_and_payload s.config.limits msg.request_type msg.payload)
        (protocol invalid_request)
    ch ← find_channel msg.recipient_channel_id
    let size = world.channel_request_size msg
    let id = msg.recipient_channel_id
    fail_if (not (allows_requests ch.state)) (protocol wrong_state)
    note_request_id id ch msg
    on_error (reserve_queued id 1 size) (reserve_failed id ch.peer_id msg)
        λ _. catch (push_event id (request_event msg size)) (push_failed id ch.peer_id msg)

  unfoldable pub reply_to_request : ChannelRequest → ℕ → Response → M (Unit {0})
  reply_to_request msg peer response = do
    s ← get
    throw_if_some
        (validate_response s.config.limits response.code response.message response.payload)
    send_envelope world (
        channel_result (
          some (record {
            recipient_channel_id = peer;
            request_id = msg.request_id;
            result =
                result_of response (bytes_of "channel-request-rejected")
                  (bytes_of "channel request rejected");
          })))

  -- `handleRequest` up to the point where the worker waits for the writer. The deferred
  -- `finishIncomingRequest` runs here on every error, and after the write otherwise; it does
  -- nothing where no reply is wanted.
  unfoldable pub handle_request : ℕ → ChannelRequest → M (Unit {0})
  handle_request id msg = do
    ch ← load id
    let response =
        world.on_channel_request ch.handler
          (record { typ = msg.request_type; want_reply = msg.want_reply; payload = msg.payload })
    catch (if msg.want_reply then reply_to_request msg ch.peer_id response else done)
        (λ e. do finish_incoming_request id msg.request_id msg.want_reply; throw e)

  unfoldable pub handle_event : ℕ → Event → M (Unit {0})
  handle_event id (request_event msg size) = handle_request id msg
  handle_event id eof_event = done
  handle_event id close_event = handle_remote_close id

  -- One round of the loop of a channel's worker that takes an event.
  unfoldable pub worker_step : ℕ → Event → List Event → M (Unit {0})
  worker_step id event rest = do
    store id λ ch. record ch { events = rest }
    release_queued id 1 (event_size event)
    handle_event id event
