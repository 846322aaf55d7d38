-- ===== src/Session/Flow/Delivery.antt =====
-- What `handleChannelData` and `handleChannelWindowAdjust` (lib/session/session.go) do with a
-- message from the peer, accepted or refused.
use mygosh.Base.{
  ◌∙◌, not, false, ◌-◌, ltb, max_uint32, ℕ, ◌+◌, ◌<◌, ◌≤◌, ◌≡◌, [], ◌∷◌, ◌++◌, refl, sym, ap, true,
  Option, none, some, arith,
}
use mygosh.Base.{length, u32, u64, ltb, not}
use mygosh.Base.Maps.{lookup, update, member, lookup-update_self}
use mygosh.Session.Message.{ChannelData, ChannelWindowAdjust}
use mygosh.Session.Channel.{Channel, allows_requests, can_receive_data}
use mygosh.Session.State.{◌>>◌, store, final, Session, ok, on_channel}
use mygosh.Session.State.Invert.{
  IsAtomic, atomic_rules, bind-ok, find-ok, guard-ok, find-passes, guard-passes,
}
use mygosh.Session.Budget.{reserve_queued, reserve_queue_budget}
use mygosh.Session.State.{on_channel}
use mygosh.Session.Flow.{
  credit, handle_channel_data, handle_channel_window_adjust, size_of, accept_frame,
}
use mygosh.Session.Validate.{is_empty}

pub reserve_queued-IsAtomic : (id frames bytes : ℕ) → IsAtomic (reserve_queued id frames bytes)
unfolding IsAtomic reserve_queued reserve_queue_budget on_channel
reserve_queued-IsAtomic id frames bytes s t e h = ground arith

-- The handlers change nothing when they fail.
pub handle_channel_data-IsAtomic : (msg : Option ChannelData) → IsAtomic (handle_channel_data msg)
unfolding handle_channel_data
handle_channel_data-IsAtomic none = search (atomic_rules)
handle_channel_data-IsAtomic (some msg) = search (atomic_rules, reserve_queued-IsAtomic) depth 20

pub handle_channel_window_adjust-IsAtomic :
    (msg : Option ChannelWindowAdjust) → IsAtomic (handle_channel_window_adjust msg)
unfolding handle_channel_window_adjust
handle_channel_window_adjust-IsAtomic none = search (atomic_rules)
handle_channel_window_adjust-IsAtomic (some msg) = search (atomic_rules) depth 20

-- What a reservation for one channel does.
abbrev pub counted : ℕ → ℕ → Channel → Channel
counted frames bytes ch = record ch {
  queued_frames = u32 (ch.queued_frames + frames);
  queued_bytes = u64 (ch.queued_bytes + bytes);
}

pub reserve_queued-ok :
    (id frames bytes : ℕ) (s t : Session) (a : Unit {0})
    → reserve_queued id frames bytes s ≡ ok a t
    → t ≡ record s {
      heap = update id (counted frames bytes) s.heap;
      queued_frames = u32 (s.queued_frames + frames);
      queued_bytes = u64 (s.queued_bytes + bytes);
    }
unfolding reserve_queued reserve_queue_budget on_channel
reserve_queued-ok id frames bytes s t a h = ground arith

-- A reservation and the write that follows it, together.
reserve_then_store :
    (id frames bytes : ℕ) (f : Channel → Channel) (s t : Session) (ch : Channel)
    → lookup id s.heap ≡ some ch
    → (reserve_queued id frames bytes >> store id f) s ≡ ok tt t
    → (lookup id t.heap ≡ some (f (counted frames bytes ch)))
      × (t.queued_frames ≡ u32 (s.queued_frames + frames))
      × (t.queued_bytes ≡ u64 (s.queued_bytes + bytes))
reserve_then_store id frames bytes f s t ch here h =
    let (u, r, reserved, stored) = bind-ok (reserve_queued id frames bytes) _ s t tt h in
    let next = reserve_queued-ok id frames bytes s r u reserved in
    let kept = lookup-update_self id (counted frames bytes) ch s.heap here in
    let after = lookup-update_self id f _ _ kept in
    let last : t ≡ record r { heap = update id f r.heap } = sym (ap final stored) in
    (rw (last, next) after, rw (last, next) refl, rw (last, next) refl)

-- The data `msg` is delivered to the channel `ch`.
pub record IsDelivered (msg : ChannelData) (s t : Session) (ch : Channel) : Type 0 where
  pub registered : member msg.recipient_channel_id s.channels ≡ true
  pub found : lookup msg.recipient_channel_id s.heap ≡ some ch
  pub readable : can_receive_data ch.state ≡ true
  pub not_empty : 0 < length msg.bytes
  pub packet_fits : size_of msg.bytes ≤ ch.max_local_packet
  pub window_fits : size_of msg.bytes ≤ ch.local_window
  pub queued :
      lookup msg.recipient_channel_id t.heap
      ≡ some (record ch {
        frames = ch.frames ++ (msg.bytes ∷ []);
        local_window = ch.local_window - size_of msg.bytes;
        queued_frames = u32 (ch.queued_frames + 1);
        queued_bytes = u64 (ch.queued_bytes + size_of msg.bytes);
      })
  pub frames_counted : t.queued_frames ≡ u32 (s.queued_frames + 1)
  pub bytes_counted : t.queued_bytes ≡ u64 (s.queued_bytes + size_of msg.bytes)

-- Data is accepted only for a registered channel that can still receive, if it is not empty and
-- within the packet size and the window; then it stands last in that channel's queue, the window
-- is smaller by its size, and it is counted in the channel and in the session.
pub handle_channel_data-delivers :
    (msg : ChannelData) (s t : Session)
    → handle_channel_data (some msg) s ≡ ok tt t
    → (ch : Channel) × IsDelivered msg s t ch
unfolding handle_channel_data
handle_channel_data-delivers msg s t h =
    let id = msg.recipient_channel_id in
    let (ch, registered, here, rest) = find-ok id _ s t tt h in
    let (not_empty, rest) = guard-ok (is_empty msg.bytes) _ _ s t tt rest in
    let (readable, rest) = guard-ok (not (can_receive_data ch.state)) _ _ s t tt rest in
    let (packet, rest) = guard-ok (ltb ch.max_local_packet (size_of msg.bytes)) _ _ s t tt rest in
    let (window, rest) = guard-ok (ltb ch.local_window (size_of msg.bytes)) _ _ s t tt rest in
    let (queued, frames, bytes) =
      reserve_then_store id 1 (size_of msg.bytes) (accept_frame msg.bytes) s t ch here rest in
    (
      ch,
      record {
        registered = registered;
        found = here;
        readable = ground arith;
        not_empty = ground arith;
        packet_fits = ground arith;
        window_fits = ground arith;
        queued = queued;
        frames_counted = frames;
        bytes_counted = bytes;
      },
    )

-- Past its checks, the handler reserves room in the queue and enters the data.
pub handle_channel_data-admits :
    (msg : ChannelData) (s : Session) (ch : Channel)
    → member msg.recipient_channel_id s.channels ≡ true
    → lookup msg.recipient_channel_id s.heap ≡ some ch
    → is_empty msg.bytes ≡ false
    → can_receive_data ch.state ≡ true
    → ltb ch.max_local_packet (size_of msg.bytes) ≡ false
    → ltb ch.local_window (size_of msg.bytes) ≡ false
    → handle_channel_data (some msg) s
      ≡ (reserve_queued msg.recipient_channel_id 1 (size_of msg.bytes)
            >> store msg.recipient_channel_id (accept_frame msg.bytes))
          s
unfolding handle_channel_data
handle_channel_data-admits msg s ch registered found full readable packet window =
    find-passes msg.recipient_channel_id _ s ch registered found
    ∙ guard-passes (is_empty msg.bytes) _ _ s full
    ∙ guard-passes (not (can_receive_data ch.state)) _ _ s (ap not readable)
    ∙ guard-passes (ltb ch.max_local_packet (size_of msg.bytes)) _ _ s packet
    ∙ guard-passes (ltb ch.local_window (size_of msg.bytes)) _ _ s window

pub handle_channel_window_adjust-admits :
    (msg : ChannelWindowAdjust) (s : Session) (ch : Channel)
    → member msg.recipient_channel_id s.channels ≡ true
    → lookup msg.recipient_channel_id s.heap ≡ some ch
    → allows_requests ch.state ≡ true
    → ltb (max_uint32 - ch.remote_window) msg.bytes_to_add ≡ false
    → handle_channel_window_adjust (some msg) s
      ≡ ok tt (record s { heap = update msg.recipient_channel_id (credit msg.bytes_to_add) s.heap })
unfolding handle_channel_window_adjust
handle_channel_window_adjust-admits msg s ch registered found usable fits =
    find-passes msg.recipient_channel_id _ s ch registered found
    ∙ guard-passes (not (allows_requests ch.state)) _ _ s (ap not usable)
    ∙ guard-passes (ltb (max_uint32 - ch.remote_window) msg.bytes_to_add) _ _ s fits
