-- ===== src/Session/Preserve/Steps.antt =====
-- Every step of a session, and so every schedule, keeps what the elementary steps keep.
use mygosh.Base.{ℕ, ◌≡◌, refl, true, Option, none, some, List, [], ◌∷◌, if◌then◌else◌}
use mygosh.Base.Maps.{lookup}
use mygosh.Session.Error.{Err, canceled}
use mygosh.Session.Message.{
  World, Envelope, channel_open, channel_open_result, channel_data, channel_window_adjust,
  channel_eof, channel_close, channel_request, channel_result, global_request, global_result,
  disconnect, unsupported,
}
use mygosh.Session.Channel.{Channel, Event}
use mygosh.Session.State.{
  Session, Outcome, M, ok, err, final, Write, Task, open_task, global_task, After, nothing,
  finish_request, finish_global, start_worker,
}
use mygosh.Session.State.Keep.{Keeps, keep_either, keep_rules}
use mygosh.Session.Preserve.{Preserved}
use mygosh.Session.Preserve.Flow.{
  handle_channel_data-Keeps, handle_channel_window_adjust-Keeps, shutdown-Keeps, send-Keeps,
  send_undo-Keeps, recv-Keeps,
}
use mygosh.Session.Preserve.Lifecycle.{
  enqueue_channel_eof-Keeps, enqueue_channel_close-Keeps, close-Keeps, close_write-Keeps,
  close_write_undo-Keeps, close_timeout-Keeps,
}
use mygosh.Session.Preserve.Requests.{
  enqueue_channel_request-Keeps, handle_channel_result-Keeps, enqueue_global_request-Keeps,
  handle_global_result-Keeps, handle_disconnect-Keeps, handle_global_request-Keeps,
  worker_step-Keeps, send_request-Keeps, send_global_request-Keeps, remove_global_waiter-Keeps,
  finish_incoming_request-Keeps, finish_incoming_global-Keeps,
}
use mygosh.Session.Preserve.Opening.{
  enqueue_incoming_open-Keeps, handle_channel_open_result-Keeps, handle_channel_open-Keeps,
  open_channel-Keeps, abandon_open-Keeps, accept_undo-Keeps,
}
use mygosh.Session.Shutdown.{shutdown}
use mygosh.Session.Loops.{
  route_envelope, or_shutdown, receive, receive_eof, receive_failed_from, receive_failed, dispatch,
  dispatch_from, dispatch_step, run_after, is_queued, after_write, perform, control_from,
  outbound_from, write_control, write_outbound, events_from, channel_step_at, channel_step,
  shutdowns_from, run_shutdown, cancel_write,
}
use mygosh.Session.System.{
  Action, step, run, activate, close_session, receive_end, take_task, spawned_shutdown, parent_done,
  receive_error, receive_frame, take_control, take_outbound, take_event, cancel_queued, call_recv,
  call_close, call_close_write, close_timer, call_send, call_request, call_global, call_open,
  send_failed, close_write_failed, request_given_up, request_answered, global_given_up,
  global_answered, open_abandoned, acceptance_failed,
}

module _ {P : Session → Type 0} (p : Preserved P) (world : World) where
  open p use {
    writes, cancels, takes_task, takes_control, takes_outbound, takes_shutdown, abandons, starts,
    forgets,
  }

  route_envelope-Keeps : (frame : Envelope) → Keeps P (route_envelope world frame)
  unfolding route_envelope
  route_envelope-Keeps (channel_open msg) = enqueue_incoming_open-Keeps p world msg
  route_envelope-Keeps (channel_open_result msg) = handle_channel_open_result-Keeps p msg
  route_envelope-Keeps (channel_data msg) = handle_channel_data-Keeps p msg
  route_envelope-Keeps (channel_window_adjust msg) = handle_channel_window_adjust-Keeps p msg
  route_envelope-Keeps (channel_eof id) = enqueue_channel_eof-Keeps p id
  route_envelope-Keeps (channel_close id) = enqueue_channel_close-Keeps p world id
  route_envelope-Keeps (channel_request msg) = enqueue_channel_request-Keeps p world msg
  route_envelope-Keeps (channel_result msg) = handle_channel_result-Keeps p msg
  route_envelope-Keeps (global_request msg) = enqueue_global_request-Keeps p world msg
  route_envelope-Keeps (global_result msg) = handle_global_result-Keeps p msg
  route_envelope-Keeps (disconnect msg) = handle_disconnect-Keeps p msg
  route_envelope-Keeps unsupported = search keep_rules

  or_shutdown-Keeps :
      (m : M (Unit {0})) → Keeps P m → (s : Session) → P s → P (or_shutdown world m s)
  unfolding or_shutdown Keeps
  or_shutdown-Keeps m keeps s h = go (m s) (keeps s h)
    where
      go :
          (o : Outcome (Unit {0}))
          → P (final o)
          → P (elim o [ ok a t ↦ t | err e t ↦ shutdown world (some e) t ])
      go (ok a t) k = k
      go (err e t) k = shutdown-Keeps p world (some e) t k

  receive_failed-Keeps :
      (c : Option Err) (e : Err) (s : Session) → P s → P (receive_failed_from world c e s)
  receive_failed-Keeps none e s h = shutdown-Keeps p world _ s h
  receive_failed-Keeps (some c) e s h = shutdown-Keeps p world _ s h

  dispatch-Keeps : (task : Task) → Keeps P (dispatch world task)
  unfolding dispatch
  dispatch-Keeps (open_task msg size) = handle_channel_open-Keeps p world msg
  dispatch-Keeps (global_task msg size) = handle_global_request-Keeps p world msg

  dispatch_from-Keeps :
      (tasks : List Task) (s : Session)
      → s.dispatch_queue ≡ tasks
      → P s
      → P (dispatch_from world tasks s)
  dispatch_from-Keeps [] s e h = h
  dispatch_from-Keeps (task ∷ rest) s e h =
      or_shutdown-Keeps (dispatch world task) (dispatch-Keeps task) _ (takes_task task rest s e h)

  run_after-Keeps : (after : After) (e : Option Err) → Keeps P (run_after world after e)
  unfolding run_after
  run_after-Keeps nothing e = search keep_rules
  run_after-Keeps (finish_request id request) e = finish_incoming_request-Keeps p id request true
  run_after-Keeps (finish_global request) e = finish_incoming_global-Keeps p request true
  run_after-Keeps (start_worker id) none = search writes
  run_after-Keeps (start_worker id) (some e) = search keep_rules

  after_write-Keeps : (e : Option Err) (s : Session) → P s → P (after_write world e s)
  after_write-Keeps none s h = h
  after_write-Keeps (some e) s h = shutdown-Keeps p world _ s h

  -- `s` is the state that the release of the budget leaves.
  performed-Keeps :
      (msg : Write) (result : Option Err) (s : Session)
      → P s
      → P (
          if is_queued msg.state
          then after_write world result (final (run_after world msg.after result s))
          else final (run_after world msg.after (some canceled) s))
  unfolding Keeps
  performed-Keeps msg result s h =
      keep_either P (is_queued msg.state) _ _
        (after_write-Keeps result _ (run_after-Keeps msg.after result s h))
        (run_after-Keeps msg.after (some canceled) s h)

  control_from-Keeps :
      (msgs : List Write) (result : Option Err) (s : Session)
      → s.control_queue ≡ msgs
      → P s
      → P (control_from world msgs result s)
  unfolding perform
  control_from-Keeps [] result s e h = h
  control_from-Keeps (msg ∷ rest) result s e h =
      performed-Keeps msg result _ (takes_control msg rest s e h)

  outbound_from-Keeps :
      (msgs : List Write) (result : Option Err) (s : Session)
      → s.outbound_queue ≡ msgs
      → P s
      → P (outbound_from world msgs result s)
  unfolding perform
  outbound_from-Keeps [] result s e h = h
  outbound_from-Keeps (msg ∷ rest) result s e h =
      performed-Keeps msg result _ (takes_outbound msg rest s e h)

  events_from-Keeps :
      (id : ℕ) (events : List Event) (s : Session) → P s → P (events_from world id events s)
  events_from-Keeps id [] s h = h
  events_from-Keeps id (event ∷ rest) s h =
      or_shutdown-Keeps _ (worker_step-Keeps p world id event rest) s h

  channel_step-Keeps :
      (id : ℕ) (o : Option Channel) (s : Session) → P s → P (channel_step_at world id o s)
  channel_step-Keeps id none s h = h
  channel_step-Keeps id (some ch) s h =
      keep_either P ch.worker _ _ (events_from-Keeps id ch.events s h) h

  shutdowns_from-Keeps :
      (es : List Err) (s : Session) → s.shutdowns ≡ es → P s → P (shutdowns_from world es s)
  shutdowns_from-Keeps [] s q h = h
  shutdowns_from-Keeps (e ∷ rest) s q h = shutdown-Keeps p world _ _ (takes_shutdown e rest s q h)

  pub step-Keeps : (a : Action) (s : Session) → P s → P (step world a s)
  unfolding step Keeps receive receive_eof receive_failed channel_step dispatch_step write_control
      write_outbound run_shutdown cancel_write
  step-Keeps activate s h = starts s h
  step-Keeps close_session s h = shutdown-Keeps p world _ s h
  step-Keeps receive_end s h = shutdown-Keeps p world _ s h
  step-Keeps take_task s h = dispatch_from-Keeps s.dispatch_queue s refl h
  step-Keeps spawned_shutdown s h = shutdowns_from-Keeps s.shutdowns s refl h
  step-Keeps (parent_done e) s h = shutdown-Keeps p world _ _ (cancels _ s h)
  step-Keeps (receive_error e) s h = receive_failed-Keeps s.cause e s h
  step-Keeps (receive_frame frame) s h = or_shutdown-Keeps _ (route_envelope-Keeps frame) s h
  step-Keeps (take_control result) s h = control_from-Keeps s.control_queue result s refl h
  step-Keeps (take_outbound result) s h = outbound_from-Keeps s.outbound_queue result s refl h
  step-Keeps (take_event id) s h = channel_step-Keeps id (lookup id s.heap) s h
  step-Keeps (cancel_queued n) s h = abandons n s h
  step-Keeps (call_recv id) s h = recv-Keeps p world id s h
  step-Keeps (call_close id) s h = close-Keeps p world id s h
  step-Keeps (call_close_write id) s h = close_write-Keeps p world id s h
  step-Keeps (close_timer id) s h = close_timeout-Keeps p id s h
  step-Keeps (call_send id frame) s h = send-Keeps p world id frame s h
  step-Keeps (call_request id typ payload want) s h =
      send_request-Keeps p world id typ payload want s h
  step-Keeps (call_global typ payload want) s h =
      send_global_request-Keeps p world typ payload want s h
  step-Keeps (call_open typ payload handler) s h =
      open_channel-Keeps p world typ payload handler s h
  step-Keeps (send_failed id frame e) s h = send_undo-Keeps p id frame e s h
  step-Keeps (close_write_failed id state) s h = close_write_undo-Keeps p id state s h
  step-Keeps (request_given_up id request) s h = forgets id request s h
  step-Keeps (request_answered id request) s h = finish_incoming_request-Keeps p id request true s h
  step-Keeps (global_given_up request) s h = remove_global_waiter-Keeps p request s h
  step-Keeps (global_answered request) s h = finish_incoming_global-Keeps p request true s h
  step-Keeps (open_abandoned id e) s h = abandon_open-Keeps p world id e s h
  step-Keeps (acceptance_failed id e) s h = accept_undo-Keeps p id e s h

  pub run-Keeps : (actions : List Action) (s : Session) → P s → P (run world actions s)
  unfolding run
  run-Keeps [] s h = h
  run-Keeps (a ∷ rest) s h = run-Keeps rest (step world a s) (step-Keeps a s h)
