-- ===== src/Session/Opening/Tests.antt =====
-- An accepted open at a concrete input (lib/session/session.go).
use mygosh.Base.{◌≡◌, refl, some, [], ◌∷◌}
use mygosh.Base.Maps.{lookup, update, member}
use mygosh.Session.Message.{ChannelOpenAccept, ChannelOpenResult, OpenOutcome}
use mygosh.Session.Channel.{Channel, pending_slot}
use mygosh.Session.State.{Session, ok, final, load, on_channel}
use mygosh.Session.Registry.{find_channel, reserve_peer_channel_id, activate_channel}
use mygosh.Session.Opening.{pending_channel, handle_channel_open_result, open_result_from}
use mygosh.Session.Opening.Accepted.{IsAccepted, handle_channel_open_result-accepts}
use mygosh.Session.Sample.{sample_session}

abbrev asking_channel : Channel
asking_channel = let fresh = pending_channel (115 ∷ []) 1 in record fresh { slot = pending_slot }

abbrev asking_session : Session
asking_session = record sample_session {
  heap = (0, asking_channel) ∷ [];
  peer_channel_ids = [];
  active_channels = 0;
  pending_opens = 1;
}

abbrev acceptance : ChannelOpenAccept
acceptance = record {
  sender_channel_id = 7;
  initial_window = 100;
  max_packet_size = 10;
  payload = [];
}

abbrev result : ChannelOpenResult
result = record { recipient_channel_id = 0; result = OpenOutcome.success acceptance }

abbrev opened_session : Session
opened_session = final (handle_channel_open_result (some result) asking_session)

acceptance-accepted : handle_channel_open_result (some result) asking_session ≡ ok tt opened_session
unfolding handle_channel_open_result find_channel load on_channel member lookup update
    open_result_from reserve_peer_channel_id activate_channel
acceptance-accepted = refl

handle_channel_open_result-accepts_example :
    (ch : Channel) × IsAccepted 0 acceptance asking_session opened_session ch
handle_channel_open_result-accepts_example =
    handle_channel_open_result-accepts 0 acceptance asking_session opened_session
      acceptance-accepted
