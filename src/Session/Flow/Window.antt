-- ===== src/Session/Flow/Window.antt =====
-- What the flow control of a channel promises: a sender that obeys `Send` (lib/session/channel.go)
-- never breaks a rule of `handleChannelData` or `handleChannelWindowAdjust`
-- (lib/session/session.go), and it is never left without window.
use mygosh.Base.{ℕ, ◌+◌, ◌<◌, ◌≤◌, ◌≡◌, ap, List, [], ◌∷◌, arith, ◌^◌, true, false, some}
use mygosh.Base.{sum_by, ltb, max_uint32}
use mygosh.Base.Maps.{lookup, member, update}
use mygosh.Session.Message.{Bytes, ChannelData, ChannelWindowAdjust}
use mygosh.Session.Channel.{can_receive_data, allows_requests}
use mygosh.Session.State.{Session, ok, ◌>>◌, store}
use mygosh.Session.Validate.{is_empty}
use mygosh.Session.Budget.{reserve_queued}
use mygosh.Session.Flow.{
  size_of, accept_frame, credit, handle_channel_data, handle_channel_window_adjust,
}
use mygosh.Session.Flow.Delivery.{handle_channel_data-admits, handle_channel_window_adjust-admits}
use mygosh.Session.Flow.Link.{Link, LinkSteps, IsOpened, LinkSteps-Conserved}

-- Between a sender that obeys `Send` and a receiver, under any schedule from the opening of the
-- channel on: the next data on the wire is not refused by the receiver for its window. If its size
-- is within the packet size and the channel can still receive, the handler goes on to reserve room
-- in the queue and enters the data.
pub arrival-admitted :
    (window threshold : ℕ) (opened l : Link) (s : Session) (msg : ChannelData) (rest : List Bytes)
    → window < 2 ^ 32
    → 0 < threshold
    → IsOpened window opened
    → LinkSteps threshold opened l
    → l.in_flight ≡ msg.bytes ∷ rest
    → member msg.recipient_channel_id s.channels ≡ true
    → lookup msg.recipient_channel_id s.heap ≡ some l.receiver
    → is_empty msg.bytes ≡ false
    → can_receive_data l.receiver.state ≡ true
    → ltb l.receiver.max_local_packet (size_of msg.bytes) ≡ false
    → handle_channel_data (some msg) s
      ≡ (reserve_queued msg.recipient_channel_id 1 (size_of msg.bytes)
            >> store msg.recipient_channel_id (accept_frame msg.bytes))
          s
arrival-admitted window threshold opened l s msg rest small positive o steps e registered found full
      readable packet =
    let h = LinkSteps-Conserved window threshold opened l small positive o steps in
    let first = ap (sum_by size_of) e in
    let fits : size_of msg.bytes ≤ l.receiver.local_window = omega (arith, h, first) in
    handle_channel_data-admits msg s l.receiver registered found full readable packet
      (ground (arith, fits))

-- Between such two sessions, the next window adjustment on the wire never overflows the sender's
-- window: the handler adds it to the window of the channel, if that is still in use.
pub credit-admitted :
    (window threshold : ℕ) (opened l : Link) (s : Session) (msg : ChannelWindowAdjust)
    (rest : List ℕ)
    → window < 2 ^ 32
    → 0 < threshold
    → IsOpened window opened
    → LinkSteps threshold opened l
    → l.credits ≡ msg.bytes_to_add ∷ rest
    → member msg.recipient_channel_id s.channels ≡ true
    → lookup msg.recipient_channel_id s.heap ≡ some l.sender
    → allows_requests l.sender.state ≡ true
    → handle_channel_window_adjust (some msg) s
      ≡ ok tt (record s { heap = update msg.recipient_channel_id (credit msg.bytes_to_add) s.heap })
credit-admitted window threshold opened l s msg rest small positive o steps e registered found
      usable =
    let h = LinkSteps-Conserved window threshold opened l small positive o steps in
    let first = ap (sum_by λ n. n) e in
    let fits : l.sender.remote_window + msg.bytes_to_add ≤ max_uint32 =
      omega (arith, h, first, small) in
    handle_channel_window_adjust-admits msg s l.sender registered found usable
      (ground (arith, fits))

-- Once everything sent between such two sessions has been read and every adjustment has arrived,
-- the sender has a window for one more packet of any size up to `packet`, if the threshold and the
-- packet size together are at most one more than the window.
pub drained-window :
    (window threshold packet : ℕ) (opened l : Link)
    → window < 2 ^ 32
    → 0 < threshold
    → threshold + packet ≤ window + 1
    → IsOpened window opened
    → LinkSteps threshold opened l
    → l.in_flight ≡ []
    → l.receiver.frames ≡ []
    → l.credits ≡ []
    → packet ≤ l.sender.remote_window
drained-window window threshold packet opened l small positive room o steps none_sent none_read
      none_told =
    let h = LinkSteps-Conserved window threshold opened l small positive o steps in
    let a = ap (sum_by size_of) none_sent in
    let b = ap (sum_by size_of) none_read in
    let c = ap (sum_by λ n. n) none_told in omega (arith, h, a, b, c, room)
