-- ===== src/Session/Preserve/Requests.antt =====
-- The methods on channel requests and global requests keep what the steps keep.
use mygosh.Base.{ℕ, refl, Bool, true, false, Option, none, some, List}
use mygosh.Session.Error.{Err}
use mygosh.Session.Message.{
  World, Bytes, ChannelRequest, ChannelResult, GlobalRequest, GlobalResult, Disconnect, Response,
  OperationOutcome,
}
use mygosh.Session.Channel.{Event, request_event, eof_event, close_event}
use mygosh.Session.State.{Session}
use mygosh.Session.State.Keep.{Keeps, keep_rules}
use mygosh.Session.Preserve.{Preserved}
use mygosh.Session.Preserve.Flow.{
  find_channel-Keeps, throw_if_some-Keeps, ensure_active-Keeps, send_envelope-Keeps,
  send_envelope_async_after-Keeps,
}
use mygosh.Session.Preserve.Lifecycle.{push_event-Keeps, handle_remote_close-Keeps}
use mygosh.Session.Outbound.{send_channel_reject_async, send_global_reject_async}
use mygosh.Session.Requests.{
  violation_if, finish_incoming_request, deliver_result, handle_channel_result, send_request,
  reject_request, reserve_failed, push_failed, note_request_id, enqueue_channel_request,
  reply_to_request, handle_request, handle_event, worker_step,
}
use mygosh.Session.Globals.{
  finish_incoming_global, remove_global_waiter, deliver_global_result, handle_global_result,
  handle_disconnect, install_global_waiter, send_global_request, note_global_request, reject_global,
  dispatch_failed, enqueue_global_request, reply_to_global, handle_global_request,
}

module _ {P : Session → Type 0} (p : Preserved P) where
  open p use {writes, globals, reserves, releases, defers, waits, forgets, takes}

  pub violation_if-Keeps : (bad : Option Err) (e : Err) → Keeps P (violation_if bad e)
  violation_if-Keeps none e = search keep_rules
  violation_if-Keeps (some x) e = search keep_rules

  pub finish_incoming_request-Keeps :
      (id request : ℕ) (want : Bool) → Keeps P (finish_incoming_request id request want)
  unfolding finish_incoming_request
  finish_incoming_request-Keeps id request want = search (keep_rules, writes)

  deliver_result-Keeps :
      (id request : ℕ) (result : OperationOutcome) → Keeps P (deliver_result id request result)
  unfolding deliver_result
  deliver_result-Keeps id request (OperationOutcome.success payload) =
      search (keep_rules, writes) depth 20
  deliver_result-Keeps id request (OperationOutcome.reject r) =
      search (keep_rules, writes, violation_if-Keeps) depth 20
  deliver_result-Keeps id request OperationOutcome.unset = search keep_rules

  pub handle_channel_result-Keeps :
      (msg : Option ChannelResult) → Keeps P (handle_channel_result msg)
  unfolding handle_channel_result
  handle_channel_result-Keeps none = search keep_rules
  handle_channel_result-Keeps (some msg) =
      search (keep_rules, find_channel-Keeps p, takes, deliver_result-Keeps) depth 20

  note_request_id-Keeps :
      (id : ℕ) (ch : _) (msg : ChannelRequest) → Keeps P (note_request_id id ch msg)
  unfolding note_request_id
  note_request_id-Keeps id ch msg = search (keep_rules, writes) depth 20

  pub finish_incoming_global-Keeps :
      (request : ℕ) (want : Bool) → Keeps P (finish_incoming_global request want)
  unfolding finish_incoming_global
  finish_incoming_global-Keeps request true = globals _ (λ s. refl)
  finish_incoming_global-Keeps request false = search keep_rules

  pub remove_global_waiter-Keeps : (request : ℕ) → Keeps P (remove_global_waiter request)
  unfolding remove_global_waiter
  remove_global_waiter-Keeps request = globals _ (λ s. refl)

  deliver_global_result-Keeps :
      (request : ℕ) (result : OperationOutcome) → Keeps P (deliver_global_result request result)
  unfolding deliver_global_result
  deliver_global_result-Keeps request (OperationOutcome.success payload) =
      search (keep_rules, globals) depth 20
  deliver_global_result-Keeps request (OperationOutcome.reject r) =
      search (keep_rules, globals, violation_if-Keeps) depth 20
  deliver_global_result-Keeps request OperationOutcome.unset = search keep_rules

  pub handle_global_result-Keeps : (msg : Option GlobalResult) → Keeps P (handle_global_result msg)
  unfolding handle_global_result
  handle_global_result-Keeps none = search keep_rules
  handle_global_result-Keeps (some msg) =
      search (keep_rules, remove_global_waiter-Keeps, deliver_global_result-Keeps) depth 20

  pub handle_disconnect-Keeps : (msg : Option Disconnect) → Keeps P (handle_disconnect msg)
  unfolding handle_disconnect
  handle_disconnect-Keeps none = search keep_rules
  handle_disconnect-Keeps (some msg) = search (keep_rules, violation_if-Keeps) depth 20

  install_global_waiter-Keeps :
      (request : ℕ) (want : Bool) → Keeps P (install_global_waiter request want)
  unfolding install_global_waiter
  install_global_waiter-Keeps request want = search (keep_rules, globals) depth 20

  note_global_request-Keeps : (msg : GlobalRequest) → Keeps P (note_global_request msg)
  unfolding note_global_request
  note_global_request-Keeps msg = search (keep_rules, globals) depth 20

  module _ (world : World) where
    pub send_request-Keeps :
        (id : ℕ) (typ payload : Bytes) (want : Bool)
        → Keeps P (send_request world id typ payload want)
    unfolding send_request
    send_request-Keeps id typ payload want =
        search
          (keep_rules, throw_if_some-Keeps p, writes, waits, send_envelope-Keeps p world, forgets)
          depth 30

    reject_request-Keeps : (id peer request : ℕ) → Keeps P (reject_request world id peer request)
    unfolding reject_request send_channel_reject_async
    reject_request-Keeps id peer request =
        search (keep_rules, send_envelope_async_after-Keeps p world, finish_incoming_request-Keeps)
          depth 20

    reserve_failed-Keeps :
        (id peer : ℕ) (msg : ChannelRequest) (e : Err)
        → Keeps P (reserve_failed world id peer msg e)
    reserve_failed-Keeps id peer msg e =
        search (keep_rules, reject_request-Keeps, finish_incoming_request-Keeps) depth 20

    push_failed-Keeps :
        (id peer : ℕ) (msg : ChannelRequest) (e : Err) → Keeps P (push_failed world id peer msg e)
    push_failed-Keeps id peer msg e = search (keep_rules, reject_request-Keeps)

    pub enqueue_channel_request-Keeps :
        (msg : Option ChannelRequest) → Keeps P (enqueue_channel_request world msg)
    unfolding enqueue_channel_request
    enqueue_channel_request-Keeps none = search keep_rules
    enqueue_channel_request-Keeps (some msg) =
        search
          (
            keep_rules,
            violation_if-Keeps,
            find_channel-Keeps p,
            note_request_id-Keeps,
            reserves,
            push_event-Keeps p,
            reserve_failed-Keeps,
            push_failed-Keeps,
          )
          depth 30

    reply_to_request-Keeps :
        (msg : ChannelRequest) (peer : ℕ) (response : Response)
        → Keeps P (reply_to_request world msg peer response)
    unfolding reply_to_request
    reply_to_request-Keeps msg peer response =
        search (keep_rules, throw_if_some-Keeps p, send_envelope-Keeps p world) depth 20

    handle_request-Keeps : (id : ℕ) (msg : ChannelRequest) → Keeps P (handle_request world id msg)
    unfolding handle_request
    handle_request-Keeps id msg =
        search (keep_rules, reply_to_request-Keeps, finish_incoming_request-Keeps) depth 20

    handle_event-Keeps : (id : ℕ) (event : Event) → Keeps P (handle_event world id event)
    unfolding handle_event
    handle_event-Keeps id (request_event msg size) = handle_request-Keeps id msg
    handle_event-Keeps id eof_event = search keep_rules
    handle_event-Keeps id close_event = handle_remote_close-Keeps p id

    pub worker_step-Keeps :
        (id : ℕ) (event : Event) (rest : List Event) → Keeps P (worker_step world id event rest)
    unfolding worker_step
    worker_step-Keeps id event rest =
        search (keep_rules, writes, releases, handle_event-Keeps) depth 20

    pub send_global_request-Keeps :
        (typ payload : Bytes) (want : Bool) → Keeps P (send_global_request world typ payload want)
    unfolding send_global_request
    send_global_request-Keeps typ payload want =
        search
          (
            keep_rules,
            throw_if_some-Keeps p,
            ensure_active-Keeps p,
            globals,
            install_global_waiter-Keeps,
            send_envelope-Keeps p world,
            remove_global_waiter-Keeps,
          )
          depth 30

    reject_global-Keeps : (request : ℕ) → Keeps P (reject_global world request)
    unfolding reject_global send_global_reject_async
    reject_global-Keeps request =
        search (keep_rules, send_envelope_async_after-Keeps p world, finish_incoming_global-Keeps)
          depth 20

    dispatch_failed-Keeps : (msg : GlobalRequest) (e : Err) → Keeps P (dispatch_failed world msg e)
    dispatch_failed-Keeps msg e =
        search (keep_rules, reject_global-Keeps, finish_incoming_global-Keeps) depth 20

    pub enqueue_global_request-Keeps :
        (msg : Option GlobalRequest) → Keeps P (enqueue_global_request world msg)
    unfolding enqueue_global_request
    enqueue_global_request-Keeps none = search keep_rules
    enqueue_global_request-Keeps (some msg) =
        search
          (keep_rules, violation_if-Keeps, note_global_request-Keeps, defers, dispatch_failed-Keeps)
          depth 20

    reply_to_global-Keeps :
        (msg : GlobalRequest) (response : Response) → Keeps P (reply_to_global world msg response)
    unfolding reply_to_global
    reply_to_global-Keeps msg response =
        search (keep_rules, throw_if_some-Keeps p, send_envelope-Keeps p world) depth 20

    pub handle_global_request-Keeps :
        (msg : GlobalRequest) → Keeps P (handle_global_request world msg)
    unfolding handle_global_request
    handle_global_request-Keeps msg =
        search (keep_rules, reply_to_global-Keeps, finish_incoming_global-Keeps) depth 20
