-- ===== src/Session/Table/Tests.antt =====
-- The channel table after a short schedule (lib/session/session.go).
use mygosh.Base.{◌≡◌, refl, false}
use mygosh.Base.Maps.{lookup, update, member, delete}
use mygosh.Session.Config.{default_limits, limits_with_defaults, config_with_defaults}
use mygosh.Session.Message.{bytes_of}
use mygosh.Session.Error.{is_protocol}
use mygosh.Session.Channel.{can_receive_data}
use mygosh.Session.State.{on_channel, load}
use mygosh.Session.Budget.{reserve_queue_budget, release_queue_budget, reserve_queued}
use mygosh.Session.Registry.{
  reserve_local_channel_id, add_pending_channel, activate_channel, find_channel,
  lookup_channel_by_peer,
}
use mygosh.Session.Validate.{validate_type_and_payload, validate_response, validate_decision}
use mygosh.Session.Outbound.{
  ensure_active, push_write, enqueue_write, push_task, enqueue_dispatch, send_envelope_after,
}
use mygosh.Session.Shutdown.{announce, shutdown}
use mygosh.Session.Flow.{handle_channel_data}
use mygosh.Session.Opening.{
  add_channel, enqueue_incoming_open, admit_open, decide_open, handle_channel_open,
}
use mygosh.Session.Loops.{
  route_envelope, or_shutdown, receive, dispatch, dispatch_step, run_after, perform, write_outbound,
}
use mygosh.Session.System.{bind, step, run}
use mygosh.Session.Config.Tests.{zero_config-valid}
use mygosh.Session.Table.{CountsOf}
use mygosh.Session.Table.Invariant.{run-CountsOf}
use mygosh.Session.Sample.{zero_config, sample_world, sample_actions}

still_running :
    (run sample_world sample_actions (bind (config_with_defaults zero_config))).closing ≡ false
unfolding lookup update member delete default_limits limits_with_defaults config_with_defaults
    bytes_of is_protocol can_receive_data on_channel load reserve_queue_budget release_queue_budget
    reserve_queued reserve_local_channel_id add_pending_channel activate_channel find_channel
    lookup_channel_by_peer validate_type_and_payload validate_response validate_decision
    ensure_active push_write enqueue_write push_task enqueue_dispatch send_envelope_after announce
    shutdown handle_channel_data add_channel enqueue_incoming_open admit_open decide_open
    handle_channel_open route_envelope or_shutdown receive dispatch dispatch_step run_after perform
    write_outbound bind step run
still_running = refl

run-CountsOf_example :
    CountsOf (run sample_world sample_actions (bind (config_with_defaults zero_config)))
run-CountsOf_example =
    run-CountsOf sample_world zero_config sample_actions zero_config-valid still_running
