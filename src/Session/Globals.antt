-- ===== src/Session/Globals.antt =====
-- Global requests and their replies (lib/session/session.go).
use mygosh.Base.{ℕ, ◌+◌, Bool, true, false, not, Option, none, some, [], ◌∷◌, ◌++◌, length, leb}
use mygosh.Base.{◌==◌, if◌then◌else◌, max_uint64}
use mygosh.Base.Maps.{member, delete}
use mygosh.Session.Message.{
  Bytes, bytes_of, World, GlobalRequest, GlobalResult, OperationOutcome, Response, global_request,
  global_result, Disconnect,
}
use mygosh.Session.Error.{
  Err, request_ids_exhausted, request_limit, protocol, nil_message, invalid_request,
  duplicate_request_id, unknown_request, invalid_result, result_payload_too_long, invalid_rejection,
  invalid_disconnect, is_resource_limit, remote_disconnected, remote_disconnect,
}
use mygosh.Session.Channel.{WaitResult, answered}
use mygosh.Session.Validate.{validate_type_and_payload, validate_response, too_long}
use mygosh.Session.Outbound.{
  ensure_active, send_envelope, send_global_reject_async, enqueue_dispatch,
}
use mygosh.Session.Flow.{throw_if_some}
use mygosh.Session.Requests.{violation_if, success_response, result_of}
use mygosh.Session.State.{
  Session, M, ◌>>=◌, ◌>>◌, pure, throw, done, get, modify, fail_if, catch, finish_global,
  global_task,
}

-- `finishIncomingGlobal`
unfoldable pub finish_incoming_global : ℕ → Bool → M (Unit {0})
finish_incoming_global request want_reply =
    if want_reply
    then modify
        (λ s. record s { incoming_global_requests = delete request s.incoming_global_requests })
    else done

-- `removeGlobalWaiter`
unfoldable pub remove_global_waiter : ℕ → M (Unit {0})
remove_global_waiter request =
    modify λ s. record s { pending_global = delete request s.pending_global }

abbrev pub deliver_global : ℕ → WaitResult → Session → Session
deliver_global request result s = record s {
  global_replies = s.global_replies ++ ((request, result) ∷ []);
}

unfoldable pub deliver_global_result : ℕ → OperationOutcome → M (Unit {0})
deliver_global_result request (OperationOutcome.success payload) = do
  s ← get
  fail_if (too_long payload s.config.limits.max_control_payload) (protocol result_payload_too_long)
  modify (deliver_global request (answered (success_response payload)))
deliver_global_result request (OperationOutcome.reject r) = do
  s ← get
  violation_if (validate_response s.config.limits r.code r.message r.payload)
      (protocol invalid_rejection)
  modify (
      deliver_global request (
        answered
          (record { accepted = false; payload = r.payload; code = r.code; message = r.message })))
deliver_global_result request OperationOutcome.unset = throw (protocol invalid_result)

unfoldable pub handle_global_result : Option GlobalResult → M (Unit {0})
handle_global_result none = throw (protocol nil_message)
handle_global_result (some msg) = do
  s ← get
  fail_if (not (member msg.request_id s.pending_global)) (protocol unknown_request)
  remove_global_waiter msg.request_id
  deliver_global_result msg.request_id msg.result

-- `handleDisconnect` always ends the session with an error.
unfoldable pub handle_disconnect : Option Disconnect → M (Unit {0})
handle_disconnect none = throw remote_disconnected
handle_disconnect (some msg) = do
  s ← get
  violation_if (validate_response s.config.limits msg.code msg.message [])
      (protocol invalid_disconnect)
  throw (remote_disconnect msg.code msg.message)

unfoldable pub install_global_waiter : ℕ → Bool → M (Unit {0})
install_global_waiter request want_reply =
    if want_reply
    then (do
      s ← get
      fail_if (leb s.config.limits.max_pending_global_requests (length s.pending_global))
          request_limit
      modify λ s. record s { pending_global = request ∷ s.pending_global })
    else done

unfoldable pub note_global_request : GlobalRequest → M (Unit {0})
note_global_request msg =
    if msg.want_reply
    then (do
      s ← get
      fail_if (member msg.request_id s.incoming_global_requests) (protocol duplicate_request_id)
      modify
          λ s. record s { incoming_global_requests = msg.request_id ∷ s.incoming_global_requests })
    else done

module _ (world : World) where
  -- `SendGlobalRequest` up to the point where the caller waits for the writer and the reply.
  unfoldable pub send_global_request : Bytes → Bytes → Bool → M ℕ
  send_global_request typ payload want_reply = do
    s ← get
    throw_if_some (validate_type_and_payload s.config.limits typ payload)
    ensure_active
    fail_if (s.next_global_request_id == max_uint64) request_ids_exhausted
    modify λ s. record s { next_global_request_id = s.next_global_request_id + 1 }
    install_global_waiter s.next_global_request_id want_reply
    catch
        (send_envelope world (
          global_request (
            some (record {
              request_id = s.next_global_request_id;
              request_type = typ;
              want_reply = want_reply;
              payload = payload;
            }))))
        (λ e. do
          if want_reply then remove_global_waiter s.next_global_request_id else done
          throw e)
    pure s.next_global_request_id

  unfoldable pub reject_global : ℕ → M (Unit {0})
  reject_global request =
      catch
        (send_global_reject_async world request (bytes_of "resource-limit")
          (bytes_of "global request queue limit reached") (finish_global request))
        (λ e. do finish_incoming_global request true; throw e)

  abbrev pub dispatch_failed : GlobalRequest → Err → M (Unit {0})
  dispatch_failed msg e =
      if is_resource_limit e
      then (if msg.want_reply
          then reject_global msg.request_id
          else (do finish_incoming_global msg.request_id false; throw e))
      else (do finish_incoming_global msg.request_id msg.want_reply; throw e)

  unfoldable pub enqueue_global_request : Option GlobalRequest → M (Unit {0})
  enqueue_global_request none = throw (protocol nil_message)
  enqueue_global_request (some msg) = do
    s ← get
    violation_if (validate_type_and_payload s.config.limits msg.request_type msg.payload)
        (protocol invalid_request)
    note_global_request msg
    catch (enqueue_dispatch (global_task msg (world.global_request_size msg))) (dispatch_failed msg)

  unfoldable pub reply_to_global : GlobalRequest → Response → M (Unit {0})
  reply_to_global msg response = do
    s ← get
    throw_if_some
        (validate_response s.config.limits response.code response.message response.payload)
    send_envelope world (
        global_result (
          some (record {
            request_id = msg.request_id;
            result =
                result_of response (bytes_of "global-request-rejected")
                  (bytes_of "global request rejected");
          })))

  -- `handleGlobalRequest` up to the point where the dispatcher waits for the writer, as for
  -- `handle_request`.
  unfoldable pub handle_global_request : GlobalRequest → M (Unit {0})
  handle_global_request msg =
      catch
        (if msg.want_reply
          then reply_to_global msg (
              world.on_global_request (record {
                typ = msg.request_type;
                want_reply = msg.want_reply;
                payload = msg.payload;
              }))
          else done)
        (λ e. do finish_incoming_global msg.request_id msg.want_reply; throw e)
