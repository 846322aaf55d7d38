-- ===== src/Session/Flow/CallTests.antt =====
-- The theorems on the calls of a channel at concrete inputs (lib/session/channel.go,
-- lib/session/session.go).
use mygosh.Session.Flow.{end_of_file, recv_empty}
use mygosh.Session.Flow.EndOfFile.{recv-end_of_file}
use mygosh.Session.Channel.{remote_eof, read_eof}
use mygosh.Base.{true, false, max_uint32, ◌+◌, ◌++◌, ◌≤◌, ◌≡◌, refl, some, [], ◌∷◌, arith}
use mygosh.Base.Maps.{lookup, update, member}
use mygosh.Session.Message.{ChannelWindowAdjust}
use mygosh.Session.Channel.{Channel, can_send_data, can_receive_data, allows_requests}
use mygosh.Session.State.{Session, final, ok, err, load, on_channel}
use mygosh.Session.Registry.{find_channel}
use mygosh.Session.Budget.{reserve_queue_budget}
use mygosh.Session.Flow.{spend, size_of, handle_channel_data, handle_channel_window_adjust}
use mygosh.Session.Flow.Link.{Link, LinkStep}
use mygosh.Session.Flow.Sending.{data_write}
use mygosh.Session.Flow.Ends.{IsSent, send-sends, send-LinkStep, handle_channel_data-LinkStep}
use mygosh.Session.Outbound.{
  send_envelope, send_envelope_after, ensure_active, enqueue_write, push_write,
}
use mygosh.Session.Message.{Bytes}
use mygosh.Session.Flow.{send, send_reserved, sent}
use mygosh.Session.Sample.{sample_world, sample_channel, sample_session, sample_data}
use mygosh.Session.Flow.Ends.{handle_channel_window_adjust-LinkStep}
use mygosh.Session.Flow.Reading.{recv-LinkStep}
use mygosh.Session.Flow.Releasing.{IsReleased, adjust_writes}
use mygosh.Session.Flow.Failure.{receive-refused_data, receive-refused_adjust}
use mygosh.Session.Flow.Tests.{
  delivered_session, opened_link, sent_link, read_link, waiting_session, told_session,
  sample_data-delivered, sample_adjust,
}
use mygosh.Session.Flow.{recv, recv_frame, received}
use mygosh.Session.Flow.Link.{told, read_frame}
use mygosh.Session.Budget.{release_queued, release_queue_budget}
use mygosh.Session.Error.{protocol, wrong_state, unknown_channel}
use mygosh.Session.Channel.{closing}
use mygosh.Session.Loops.{receive}
use mygosh.Session.Shutdown.{shutdown}
use mygosh.Session.Message.{channel_data, channel_window_adjust}

abbrev sample_frame : Bytes
sample_frame = 1 ∷ 2 ∷ 3 ∷ []

abbrev after_send : Session
after_send = final (send sample_world 0 sample_frame sample_session)

sample_frame-sent : send sample_world 0 sample_frame sample_session ≡ ok sent after_send
unfolding send send_reserved load on_channel can_send_data update lookup send_envelope
    send_envelope_after ensure_active enqueue_write push_write reserve_queue_budget
sample_frame-sent = refl

sample_channel-found : lookup 0 sample_session.heap ≡ some sample_channel
unfolding lookup
sample_channel-found = refl

send-sends_example :
    (ch : Channel) × IsSent sample_world 0 sample_frame sample_session after_send ch
send-sends_example =
    send-sends sample_world 0 sample_frame sample_session after_send sample_frame-sent

send-LinkStep_example :
    (ch : Channel) × (lookup 0 after_send.heap ≡ some ch)
    × (after_send.outbound_queue ≡ data_write sample_world sample_channel.peer_id sample_frame ∷ [])
    × LinkStep 60 opened_link (record opened_link { sender = ch; in_flight = sample_frame ∷ [] })
send-LinkStep_example =
    send-LinkStep sample_world 60 0 sample_frame sample_session after_send opened_link
      sample_channel-found sample_frame-sent

handle_channel_data-LinkStep_example :
    (ch : Channel) × (lookup 0 delivered_session.heap ≡ some ch)
    × (size_of sample_data.bytes ≤ sample_channel.local_window)
    × (ch.frames ≡ sample_data.bytes ∷ [])
    × LinkStep 60 sent_link (record sent_link { receiver = ch; in_flight = [] })
handle_channel_data-LinkStep_example =
    handle_channel_data-LinkStep 60 sample_data [] sample_session delivered_session sent_link
      sample_channel-found refl sample_data-delivered

abbrev adjust_three : ChannelWindowAdjust
adjust_three = record sample_adjust { bytes_to_add = 3 }

adjust_three-accepted :
    handle_channel_window_adjust (some adjust_three) waiting_session ≡ ok tt told_session
unfolding handle_channel_window_adjust find_channel load on_channel member lookup update
    allows_requests
adjust_three-accepted = refl

spent_channel-found : lookup 0 waiting_session.heap ≡ some (spend 3 sample_channel)
unfolding lookup
spent_channel-found = refl

handle_channel_window_adjust-LinkStep_example :
    (ch : Channel) × (lookup 0 told_session.heap ≡ some ch)
    × (ch.remote_window ≡ (spend 3 sample_channel).remote_window + 3)
    × (ch.remote_window ≤ max_uint32)
    × LinkStep 3 read_link (record read_link { sender = ch; credits = [] })
handle_channel_window_adjust-LinkStep_example =
    handle_channel_window_adjust-LinkStep 3 adjust_three [] waiting_session told_session read_link
      spent_channel-found refl (omega arith) adjust_three-accepted

-- The frame is read, and the peer is not told yet.
abbrev holding : Channel
holding = record sample_channel {
  local_window = 97;
  frames = sample_frame ∷ [];
  queued_frames = 1;
  queued_bytes = 3;
}

abbrev held_link : Link
held_link = record sent_link { receiver = holding; in_flight = [] }

abbrev after_recv : Session
after_recv = final (recv sample_world 0 delivered_session)

holding-found : lookup 0 delivered_session.heap ≡ some holding
unfolding lookup
holding-found = refl

sample_frame-received :
    recv sample_world 0 delivered_session ≡ ok (received sample_frame) after_recv
unfolding recv recv_frame load on_channel update lookup release_queued release_queue_budget
sample_frame-received = refl

after_recv-running : after_recv.closing ≡ false
unfolding recv recv_frame load on_channel update lookup release_queued release_queue_budget
after_recv-running = refl

recv-LinkStep_example :
    (received sample_frame ≡ received sample_frame)
    × ((ch : Channel) × (lookup 0 after_recv.heap ≡ some ch)
        × IsReleased 1 3 holding ch
        × (after_recv.outbound_queue
            ≡ []
              ++ adjust_writes sample_world holding.peer_id
                  (told 50 (read_frame sample_frame [] holding)))
        × LinkStep 50 held_link (record held_link {
          receiver = ch;
          credits = told 50 (read_frame sample_frame [] holding);
        }))
recv-LinkStep_example =
    recv-LinkStep sample_world 0 sample_frame [] delivered_session after_recv
      (received sample_frame) held_link holding-found refl sample_frame-received after_recv-running

-- No room is left for one more frame.
abbrev full_session : Session
full_session = record sample_session {
  queued_frames = sample_session.config.limits.max_queued_frames_total;
}

abbrev after_refusal : Session
after_refusal = final (send sample_world 0 sample_frame full_session)

abbrev closing_session : Session
closing_session = record sample_session {
  heap = (0, record sample_channel { state = closing }) ∷ [];
}

closing_session-refuses :
    handle_channel_data (some sample_data) closing_session
    ≡ err (protocol wrong_state) closing_session
unfolding handle_channel_data find_channel load on_channel member lookup can_receive_data
closing_session-refuses = refl

-- Data that the peer sent before it learned that this side closed the channel.
receive-refused_data_example :
    (receive sample_world (channel_data (some sample_data)) closing_session
      ≡ shutdown sample_world (some (protocol wrong_state)) closing_session)
    × ((receive sample_world (channel_data (some sample_data)) closing_session).closing ≡ true)
receive-refused_data_example =
    receive-refused_data sample_world (some sample_data) closing_session closing_session
      (protocol wrong_state) closing_session-refuses

-- An adjustment for a channel that the session does not have.
abbrev lost_adjust : ChannelWindowAdjust
lost_adjust = record sample_adjust { recipient_channel_id = 9 }

lost_adjust-refused :
    handle_channel_window_adjust (some lost_adjust) sample_session
    ≡ err (protocol unknown_channel) sample_session
unfolding handle_channel_window_adjust find_channel load on_channel member lookup
lost_adjust-refused = refl

receive-refused_adjust_example :
    (receive sample_world (channel_window_adjust (some lost_adjust)) sample_session
      ≡ shutdown sample_world (some (protocol unknown_channel)) sample_session)
    × ((receive sample_world (channel_window_adjust (some lost_adjust)) sample_session).closing
        ≡ true)
receive-refused_adjust_example =
    receive-refused_adjust sample_world (some lost_adjust) sample_session sample_session
      (protocol unknown_channel) lost_adjust-refused

abbrev drained_session : Session
drained_session = record sample_session {
  heap = (0, record sample_channel { state = remote_eof }) ∷ [];
}

end-reported : recv sample_world 0 drained_session ≡ ok end_of_file drained_session
unfolding recv recv_empty load on_channel lookup read_eof
end-reported = refl

recv-end_of_file_example :
    (ch : Channel) × (lookup 0 drained_session.heap ≡ some ch) × (ch.frames ≡ [])
recv-end_of_file_example =
    recv-end_of_file sample_world 0 drained_session drained_session end-reported
