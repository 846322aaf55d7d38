-- ===== src/Session/Loops.antt =====
-- The session's three loops (lib/session/session.go), one round at a time: the receiver's routing
-- of an envelope, the dispatcher's of a task and the writer's of a queued write.
use mygosh.Base.{ℕ, Bool, true, false, Option, none, some, List, [], ◌∷◌, zero, suc, if◌then◌else◌}
use mygosh.Base.Maps.{lookup}
use mygosh.Session.Message.{
  World, Envelope, channel_open, channel_open_result, channel_data, channel_window_adjust,
  channel_eof, channel_close, channel_request, channel_result, global_request, global_result,
  disconnect, unsupported,
}
use mygosh.Session.Error.{Err, canceled, wrapped, protocol, unsupported_frame}
use mygosh.Session.Channel.{Channel, Event}
use mygosh.Session.Budget.{release_queue_budget}
use mygosh.Session.Outbound.{close_cause}
use mygosh.Session.Shutdown.{shutdown}
use mygosh.Session.Flow.{handle_channel_data, handle_channel_window_adjust}
use mygosh.Session.Lifecycle.{enqueue_channel_eof, enqueue_channel_close}
use mygosh.Session.Requests.{
  enqueue_channel_request, handle_channel_result, finish_incoming_request, worker_step,
}
use mygosh.Session.Globals.{
  enqueue_global_request, handle_global_result, handle_disconnect, handle_global_request,
  finish_incoming_global,
}
use mygosh.Session.Opening.{
  enqueue_incoming_open, handle_channel_open_result, handle_channel_open, start,
}
use mygosh.Session.State.{
  Session, final, ok, err, M, throw, done, store, Write, WriteState, write_queued, write_canceled,
  After, nothing, finish_request, finish_global, start_worker, Task, open_task, global_task,
  task_size,
}

abbrev pub is_queued : WriteState → Bool
is_queued write_queued = true
is_queued _ = false

module _ (world : World) where
  unfoldable pub route_envelope : Envelope → M (Unit {0})
  route_envelope (channel_open msg) = enqueue_incoming_open world msg
  route_envelope (channel_open_result msg) = handle_channel_open_result msg
  route_envelope (channel_data msg) = handle_channel_data msg
  route_envelope (channel_window_adjust msg) = handle_channel_window_adjust msg
  route_envelope (channel_eof id) = enqueue_channel_eof id
  route_envelope (channel_close id) = enqueue_channel_close world id
  route_envelope (channel_request msg) = enqueue_channel_request world msg
  route_envelope (channel_result msg) = handle_channel_result msg
  route_envelope (global_request msg) = enqueue_global_request world msg
  route_envelope (global_result msg) = handle_global_result msg
  route_envelope (disconnect msg) = handle_disconnect msg
  route_envelope unsupported = throw (protocol unsupported_frame)

  -- What a loop does with the error of a round: the session ends.
  unfoldable pub or_shutdown : M (Unit {0}) → Session → Session
  or_shutdown m s = elim (m s) [ ok a t ↦ t | err e t ↦ shutdown world (some e) t ]

  -- `receiverLoop`: an envelope arrives.
  unfoldable pub receive : Envelope → Session → Session
  receive frame = or_shutdown (route_envelope frame)

  -- `receiverLoop`: the connection ends, or a frame cannot be read.
  unfoldable pub receive_eof : Session → Session
  receive_eof = shutdown world none

  abbrev pub receive_failed_from : Option Err → Err → Session → Session
  receive_failed_from none e s = shutdown world (some (wrapped e)) s
  receive_failed_from (some c) e s = shutdown world (some (close_cause s)) s

  unfoldable pub receive_failed : Err → Session → Session
  receive_failed e s = receive_failed_from s.cause e s

  unfoldable pub dispatch : Task → M (Unit {0})
  dispatch (open_task msg size) = handle_channel_open world msg
  dispatch (global_task msg size) = handle_global_request world msg

  -- `dispatchLoop`: the first task, if there is one.
  abbrev pub dispatch_from : List Task → Session → Session
  dispatch_from [] s = s
  dispatch_from (task ∷ rest) s =
      or_shutdown (dispatch task)
        (final (release_queue_budget 1 (task_size task) (record s { dispatch_queue = rest })))

  unfoldable pub dispatch_step : Session → Session
  dispatch_step s = dispatch_from s.dispatch_queue s

  -- The `after` callback, with the error of the write.
  unfoldable pub run_after : After → Option Err → M (Unit {0})
  run_after nothing e = done
  run_after (finish_request id request) e = finish_incoming_request id request true
  run_after (finish_global request) e = finish_incoming_global request true
  run_after (start_worker id) none = store id start
  run_after (start_worker id) (some e) = done

  abbrev pub after_write : Option Err → Session → Session
  after_write none s = s
  after_write (some e) s = shutdown world (some (wrapped e)) s

  -- `writerLoop` with a write that it took from a queue; `result` is what `wire.SendProto` gives.
  -- A write that its caller has cancelled is skipped.
  unfoldable pub perform : Write → Option Err → Session → Session
  perform msg result s =
      let released = final (release_queue_budget 1 msg.size s) in
      if is_queued msg.state
      then after_write result (final (run_after msg.after result released))
      else final (run_after msg.after (some canceled) released)

  abbrev pub control_from : List Write → Option Err → Session → Session
  control_from [] result s = s
  control_from (msg ∷ rest) result s = perform msg result (record s { control_queue = rest })

  abbrev pub outbound_from : List Write → Option Err → Session → Session
  outbound_from [] result s = s
  outbound_from (msg ∷ rest) result s = perform msg result (record s { outbound_queue = rest })

  unfoldable pub write_control : Option Err → Session → Session
  write_control result s = control_from s.control_queue result s

  unfoldable pub write_outbound : Option Err → Session → Session
  write_outbound result s = outbound_from s.outbound_queue result s

  -- `loop` of a channel: the first event, if there is one.
  abbrev pub events_from : ℕ → List Event → Session → Session
  events_from id [] s = s
  events_from id (event ∷ rest) s = or_shutdown (worker_step world id event rest) s

  abbrev pub channel_step_at : ℕ → Option Channel → Session → Session
  channel_step_at id none s = s
  channel_step_at id (some ch) s = if ch.worker then events_from id ch.events s else s

  unfoldable pub channel_step : ℕ → Session → Session
  channel_step id s = channel_step_at id (lookup id s.heap) s

  -- `go s.shutdown(err)` of a full queue.
  abbrev pub shutdowns_from : List Err → Session → Session
  shutdowns_from [] s = s
  shutdowns_from (e ∷ rest) s = shutdown world (some e) (record s { shutdowns = rest })

  unfoldable pub run_shutdown : Session → Session
  run_shutdown s = shutdowns_from s.shutdowns s

-- A caller of `sendEnvelopeAfter` gives up on a write that the writer has not started.
unfoldable pub cancel_at : ℕ → List Write → List Write
cancel_at n [] = []
cancel_at zero (msg ∷ rest) =
    (if is_queued msg.state then record msg { state = write_canceled } else msg) ∷ rest
cancel_at (suc n) (msg ∷ rest) = msg ∷ cancel_at n rest

unfoldable pub cancel_write : ℕ → Session → Session
cancel_write n s = record s { outbound_queue = cancel_at n s.outbound_queue }
