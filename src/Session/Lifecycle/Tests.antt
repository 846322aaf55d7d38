-- ===== src/Session/Lifecycle/Tests.antt =====
-- The end of a channel at concrete inputs (lib/session/channel.go).
use mygosh.Base.{◌≡◌, refl}
use mygosh.Base.Maps.{lookup, update, member, delete, delete_values}
use mygosh.Session.State.{Session, ok, final, load, on_channel}
use mygosh.Session.Budget.{reserve_queued, reserve_queue_budget}
use mygosh.Session.Registry.{find_channel, remove_channel}
use mygosh.Session.Outbound.{
  send_envelope_async, send_envelope_async_after, enqueue_write, push_write,
}
use mygosh.Session.Lifecycle.{
  push_event, queue_event, remote_close, remote_close_from, enqueue_channel_close,
}
use mygosh.Session.Lifecycle.Closed.{LeftTable, enqueue_channel_close-IsGone}
use mygosh.Session.Sample.{sample_world, sample_session}

abbrev after_close : Session
after_close = final (enqueue_channel_close sample_world 0 sample_session)

close-accepted : enqueue_channel_close sample_world 0 sample_session ≡ ok tt after_close
unfolding enqueue_channel_close find_channel load on_channel member lookup update remote_close_from
    remote_close queue_event push_event reserve_queued reserve_queue_budget send_envelope_async
    send_envelope_async_after enqueue_write push_write remove_channel delete delete_values
close-accepted = refl

enqueue_channel_close-IsGone_example : LeftTable sample_session.channels 0 after_close
enqueue_channel_close-IsGone_example =
    enqueue_channel_close-IsGone sample_world 0 sample_session after_close close-accepted
