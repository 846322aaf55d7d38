-- ===== src/Session/Flow/Tests.antt =====
-- The theorems on data and flow control at concrete inputs (lib/session/channel.go,
-- lib/session/session.go).
use mygosh.Base.{ℕ, ◌≤◌, ◌≡◌, refl, some, [], ◌∷◌, arith}
use mygosh.Base.Maps.{lookup, update, member}
use mygosh.Session.Message.{ChannelWindowAdjust}
use mygosh.Session.Channel.{Channel, can_receive_data, allows_requests}
use mygosh.Session.State.{Session, ok, ◌>>◌, store, load, on_channel}
use mygosh.Session.Registry.{find_channel}
use mygosh.Session.Budget.{reserve_queued, reserve_queue_budget}
use mygosh.Session.Flow.{
  accept_frame, credit, spend, handle_channel_data, handle_channel_window_adjust,
}
use mygosh.Session.Flow.Delivery.{IsDelivered, handle_channel_data-delivers}
use mygosh.Session.Flow.Link.{
  Link, LinkSteps, stays, then_step, sends, arrives, reads, credited, IsOpened, IsSameFlow,
}
use mygosh.Session.Flow.Window.{arrival-admitted, credit-admitted, drained-window}
use mygosh.Session.Sample.{sample_channel, sample_session, sample_data}

abbrev pub sample_adjust : ChannelWindowAdjust
sample_adjust = record { recipient_channel_id = 0; bytes_to_add = 60 }

abbrev pub delivered_session : Session
delivered_session = record sample_session {
  heap =
      (
        0,
        record sample_channel {
          local_window = 97;
          frames = (1 ∷ 2 ∷ 3 ∷ []) ∷ [];
          queued_frames = 1;
          queued_bytes = 3;
        },
      )
      ∷ [];
  queued_frames = 1;
  queued_bytes = 3;
}

pub sample_data-delivered :
    handle_channel_data (some sample_data) sample_session ≡ ok tt delivered_session
unfolding handle_channel_data find_channel load on_channel reserve_queued reserve_queue_budget
    member lookup update can_receive_data
sample_data-delivered = refl

handle_channel_data-delivers_example :
    (ch : Channel) × IsDelivered sample_data sample_session delivered_session ch
handle_channel_data-delivers_example =
    handle_channel_data-delivers sample_data sample_session delivered_session sample_data-delivered

-- A link with windows of 100 bytes and a threshold of 60.
abbrev pub opened_link : Link
opened_link = record {
  sender = sample_channel;
  receiver = sample_channel;
  in_flight = [];
  credits = [];
}

opened_link-IsOpened : IsOpened 100 opened_link
opened_link-IsOpened = record {
  sender_window = refl;
  receiver_window = refl;
  none_in_flight = refl;
  none_queued = refl;
  none_pending = refl;
  no_credits = refl;
}

same : (ch : Channel) → IsSameFlow ch ch
same ch = record { remote_window = refl; local_window = refl; pending = refl; frames = refl }

abbrev pub sent_link : Link
sent_link = record opened_link {
  sender = spend 3 sample_channel;
  in_flight = (1 ∷ 2 ∷ 3 ∷ []) ∷ [];
}

sent_link-reached : (threshold : ℕ) → LinkSteps threshold opened_link sent_link
sent_link-reached threshold =
    then_step opened_link opened_link sent_link (stays opened_link)
      (sends opened_link (1 ∷ 2 ∷ 3 ∷ []) (spend 3 sample_channel) (omega arith) (same _))

arrival-admitted_example :
    handle_channel_data (some sample_data) sample_session
    ≡ (reserve_queued 0 1 3 >> store 0 (accept_frame (1 ∷ 2 ∷ 3 ∷ []))) sample_session
unfolding member lookup can_receive_data
arrival-admitted_example =
    arrival-admitted 100 60 opened_link sent_link sample_session sample_data [] (omega arith)
      (omega arith) opened_link-IsOpened (sent_link-reached 60) refl refl refl refl refl refl

-- With a threshold of 3 bytes, the frame is read at once and its bytes are credited.
abbrev arrived_link : Link
arrived_link = record sent_link {
  receiver = accept_frame (1 ∷ 2 ∷ 3 ∷ []) sample_channel;
  in_flight = [];
}

abbrev pub read_link : Link
read_link = record sent_link { receiver = sample_channel; in_flight = []; credits = 3 ∷ [] }

read_link-reached : LinkSteps 3 opened_link read_link
read_link-reached =
    then_step opened_link arrived_link read_link
      (then_step opened_link sent_link arrived_link (sent_link-reached 3) (
        arrives sent_link (1 ∷ 2 ∷ 3 ∷ []) [] (accept_frame (1 ∷ 2 ∷ 3 ∷ []) sample_channel) refl
          (same _)))
      (reads arrived_link (1 ∷ 2 ∷ 3 ∷ []) [] sample_channel refl (same sample_channel))

abbrev pub waiting_session : Session
waiting_session = record sample_session { heap = (0, spend 3 sample_channel) ∷ [] }

abbrev pub told_session : Session
told_session = record sample_session { heap = (0, credit 3 (spend 3 sample_channel)) ∷ [] }

credit-admitted_example :
    handle_channel_window_adjust (some (record sample_adjust { bytes_to_add = 3 })) waiting_session
    ≡ ok tt told_session
unfolding member lookup update allows_requests
credit-admitted_example =
    credit-admitted 100 3 opened_link read_link waiting_session
      (record sample_adjust { bytes_to_add = 3 }) [] (omega arith) (omega arith)
      opened_link-IsOpened read_link-reached refl refl refl refl

abbrev credited_link : Link
credited_link = record read_link { sender = sample_channel; credits = [] }

drained-window_example : 98 ≤ credited_link.sender.remote_window
drained-window_example =
    drained-window 100 3 98 opened_link credited_link (omega arith) (omega arith) (omega arith)
      opened_link-IsOpened
      (then_step opened_link read_link credited_link read_link-reached
        (credited read_link 3 [] sample_channel refl (same sample_channel)))
      refl refl refl
