-- ===== src/Session/System.antt =====
-- A session from `Prepare` and `Bind` on (lib/session/session.go), under any schedule: what its
-- goroutines, its callers, the peer and the clock do, in any order, one atomic step at a time.
use mygosh.Base.{ℕ, Bool, true, false, Option, none, some, List, [], ◌∷◌}
use mygosh.Session.Config.{Config, ConfigError, config_with_defaults, config_validate}
use mygosh.Session.Message.{Bytes, World, Envelope}
use mygosh.Session.Error.{Err, canceled}
use mygosh.Session.Channel.{ChannelState}
use mygosh.Session.Shutdown.{shutdown, first_cause}
use mygosh.Session.Flow.{send, send_undo, recv}
use mygosh.Session.Lifecycle.{close_write, close_write_undo, close, close_timeout}
use mygosh.Session.Requests.{send_request, remove_pending_request, finish_incoming_request}
use mygosh.Session.Globals.{send_global_request, remove_global_waiter, finish_incoming_global}
use mygosh.Session.Opening.{open_channel, abandon_open, accept_undo}
use mygosh.Session.Loops.{
  receive, receive_eof, receive_failed, dispatch_step, write_control, write_outbound, channel_step,
  run_shutdown, cancel_write,
}
use mygosh.Session.State.{Session, final}

-- `Prepare`: the error, or the configuration that the session runs with.
pub data Prepared : Type 0 where
  prepared : Config → Prepared
  invalid : ConfigError → Prepared

unfoldable pub prepare : Config → Prepared
prepare c = elim (config_validate c) [
  | none ↦ prepared (config_with_defaults c)
  | some e ↦ invalid e
]

-- `Bind`, under a parent context that is not done.
unfoldable pub bind : Config → Session
bind config = record {
  config = config;
  activated = false;
  cause = none;
  heap = [];
  next_local_channel_id = 0;
  channels = [];
  peer_channel_ids = [];
  active_channels = 0;
  pending_opens = 0;
  next_global_request_id = 0;
  pending_global = [];
  global_replies = [];
  incoming_global_requests = [];
  pending_channel_requests = 0;
  wait_err = none;
  close_err = none;
  closing = false;
  queued_frames = 0;
  queued_bytes = 0;
  queues_closed = false;
  dispatch_queue = [];
  control_queue = [];
  outbound_queue = [];
  shutdowns = [];
}

-- One step. The second group is what the methods do after they have waited: for the writer, for a
-- reply, or for a context.
pub data Action : Type 0 where
  activate close_session receive_end take_task spawned_shutdown : Action
  parent_done receive_error : Err → Action
  receive_frame : Envelope → Action
  take_control take_outbound : Option Err → Action
  take_event cancel_queued call_recv call_close call_close_write close_timer : ℕ → Action
  call_send : ℕ → Bytes → Action
  call_request : ℕ → Bytes → Bytes → Bool → Action
  call_global : Bytes → Bytes → Bool → Action
  call_open : Bytes → Bytes → ℕ → Action
  send_failed : ℕ → Bytes → Err → Action
  close_write_failed : ℕ → ChannelState → Action
  request_given_up request_answered : ℕ → ℕ → Action
  global_given_up global_answered : ℕ → Action
  open_abandoned acceptance_failed : ℕ → Err → Action

module _ (world : World) where
  unfoldable pub step : Action → Session → Session
  step activate s = record s { activated = true }
  step close_session s = shutdown world (some canceled) s
  step receive_end s = receive_eof world s
  step take_task s = dispatch_step world s
  step spawned_shutdown s = run_shutdown world s
  step (parent_done e) s = shutdown world (some e) (record s { cause = first_cause e s.cause })
  step (receive_error e) s = receive_failed world e s
  step (receive_frame frame) s = receive world frame s
  step (take_control result) s = write_control world result s
  step (take_outbound result) s = write_outbound world result s
  step (take_event id) s = channel_step world id s
  step (cancel_queued n) s = cancel_write n s
  step (call_recv id) s = final (recv world id s)
  step (call_close id) s = final (close world id s)
  step (call_close_write id) s = final (close_write world id s)
  step (close_timer id) s = final (close_timeout id s)
  step (call_send id frame) s = final (send world id frame s)
  step (call_request id typ payload want) s = final (send_request world id typ payload want s)
  step (call_global typ payload want) s = final (send_global_request world typ payload want s)
  step (call_open typ payload handler) s = final (open_channel world typ payload handler s)
  step (send_failed id frame e) s = final (send_undo id frame e s)
  step (close_write_failed id state) s = final (close_write_undo id state s)
  step (request_given_up id request) s = final (remove_pending_request id request s)
  step (request_answered id request) s = final (finish_incoming_request id request true s)
  step (global_given_up request) s = final (remove_global_waiter request s)
  step (global_answered request) s = final (finish_incoming_global request true s)
  step (open_abandoned id e) s = final (abandon_open world id e s)
  step (acceptance_failed id e) s = final (accept_undo id e s)

  unfoldable pub run : List Action → Session → Session
  run [] s = s
  run (a ∷ rest) s = run rest (step a s)
