-- ===== src/Session/Flow/Ends.antt =====
-- The calls of the two sessions as steps of the link between them: `Send`
-- (lib/session/channel.go), `handleChannelData` and `handleChannelWindowAdjust`
-- (lib/session/session.go).
use mygosh.Base.{
  ◌-◌, ◌+◌, ℕ, ◌≡◌, ◌≤◌, refl, ap, sym, ◌∙◌, Bool, true, false, Option, none, some, List, [], ◌∷◌,
  ◌++◌, arith,
}
use mygosh.Base.{subst, max_uint32, ltb, leb, not, length, if◌then◌else◌}
use mygosh.Base.Maps.{lookup, update, lookup-update_self}
use mygosh.Session.Message.{Bytes, World, Envelope, ChannelData}
use mygosh.Session.Error.{Err}
use mygosh.Session.Channel.{Channel, can_send_data}
use mygosh.Session.State.{Session, M, ok, final, ◌>>◌, pure, catch, Write, nothing}
use mygosh.Session.State.Keep.{Keeps}
use mygosh.Session.State.Invert.{find-ok, bind-ok, guard-ok, load_then-ok, catch-ok}
use mygosh.Session.Budget.{reserve_queue_budget, release_queue_budget}
use mygosh.Session.Outbound.{
  write_of, close_cause, ensure_active, throw_if_done, enqueue_write, push_write,
  send_envelope_after, send_envelope,
}
use mygosh.Session.Message.{ChannelWindowAdjust}
use mygosh.Session.Flow.{credit, handle_channel_window_adjust}
use mygosh.Session.Channel.{allows_requests}
use mygosh.Session.Validate.{is_empty}
use mygosh.Session.Flow.{
  SendStep, sent, must_wait, size_of, spend, send, send_reserved, send_undo, throw_if_some,
  handle_channel_data, accept_frame, channel_error,
}
use mygosh.Session.Flow.Delivery.{counted, handle_channel_data-delivers}
use mygosh.Session.Flow.Link.{credited, Link, LinkStep, sends, arrives}
use mygosh.Session.Flow.Sending.{data_write, send_envelope-heap}

throw_if_some-ok {κ} :
    {B : Type κ} (o : Option Err) (k : M B) (s t : Session) (b : B)
    → (throw_if_some o >> k) s ≡ ok b t
    → k s ≡ ok b t
throw_if_some-ok none k s t b h = h
throw_if_some-ok (some e) k s t b h = grind arith

-- What a call of `sendEnvelope` without an error leaves in the queue to the writer.
ensure_active-same : (s t : Session) (a : Unit {0}) → ensure_active s ≡ ok a t → t ≡ s
unfolding ensure_active
ensure_active-same s t a h =
    let (_, rest) = guard-ok (not s.activated) _ _ s t a h in passes s.cause rest
  where
    passes : (c : Option Err) → throw_if_done c (close_cause s) s ≡ ok a t → t ≡ s
    passes none r = sym (ap final r)
    passes (some e) r = grind arith

reserve_queue_budget-outbound :
    (frames bytes : ℕ) (s t : Session) (a : Unit {0})
    → reserve_queue_budget frames bytes s ≡ ok a t
    → t.outbound_queue ≡ s.outbound_queue
unfolding reserve_queue_budget
reserve_queue_budget-outbound frames bytes s t a h = ground arith

push_write-outbound :
    (msg : Write) (s t : Session) (a : Unit {0})
    → push_write msg false s ≡ ok a t
    → t.outbound_queue ≡ s.outbound_queue ++ (msg ∷ [])
unfolding push_write release_queue_budget
push_write-outbound msg s t a h = ground arith

pub send_envelope-outbound :
    (world : World) (frame : Envelope) (s t : Session) (a : Unit {0})
    → send_envelope world frame s ≡ ok a t
    → t.outbound_queue ≡ s.outbound_queue ++ (write_of world frame nothing true ∷ [])
unfolding send_envelope send_envelope_after enqueue_write
send_envelope-outbound world frame s t a h =
    let msg = write_of world frame nothing true in
    let (b, s1, active, h) = bind-ok ensure_active _ s t a h in
    let (c, s2, reserved, h) = bind-ok (reserve_queue_budget 1 msg.size) _ s1 t a h in
    let before : s2.outbound_queue ≡ s.outbound_queue =
      reserve_queue_budget-outbound 1 msg.size s1 s2 c reserved
      ∙ ap (λ (x : Session). x.outbound_queue) (ensure_active-same s s1 b active) in
    push_write-outbound msg s2 t a h ∙ ap (λ q. q ++ (msg ∷ [])) before

-- A queued frame has left the window and is the last to be written, and nothing else of any channel changed.
send_reserved-heap :
    (world : World) (id peer : ℕ) (frame : Bytes) (s t : Session) (step : SendStep)
    → send_reserved world id peer frame s ≡ ok step t
    → (t.heap ≡ update id (spend (size_of frame)) s.heap)
      × (t.outbound_queue ≡ s.outbound_queue ++ (data_write world peer frame ∷ []))
unfolding send_reserved Keeps
send_reserved-heap world id peer frame s t step h =
    let s1 : Session = record s { heap = update id (spend (size_of frame)) s.heap } in
    let (u, r, written, rest) = bind-ok (catch (send_envelope world _) _) _ s1 t step h in
    let went = catch-ok (send_envelope world _) (send_undo id frame) s1 r u written in
    let kept = send_envelope-heap s1.heap world _ s1 refl in
    let here : r.heap ≡ s1.heap = ap (λ o. (final o).heap) (sym went) ∙ kept in
    (
      ap (λ o. (final o).heap) (sym rest) ∙ here,
      ap (λ o. (final o).outbound_queue) (sym rest) ∙ send_envelope-outbound world _ s1 r u went,
    )

-- What a `Send` that hands its frame to the writer has checked and done.
pub record IsSent (world : World) (id : ℕ) (frame : Bytes) (s t : Session) (ch : Channel)
    : Type 0 where
  pub found : lookup id s.heap ≡ some ch
  pub not_empty : is_empty frame ≡ false
  pub sendable : can_send_data ch.state ≡ true
  pub no_error : channel_error s ch ≡ none
  pub packet_fits : length frame ≤ ch.max_remote_packet
  pub window_fits : size_of frame ≤ ch.remote_window
  pub written : t.outbound_queue ≡ s.outbound_queue ++ (data_write world ch.peer_id frame ∷ [])
  pub spent : lookup id t.heap ≡ some (spend (size_of frame) ch)

throw_if_some-none {κ} :
    {B : Type κ} (o : Option Err) (k : M B) (s t : Session) (b : B)
    → (throw_if_some o >> k) s ≡ ok b t
    → o ≡ none
throw_if_some-none none k s t b h = refl
throw_if_some-none (some e) k s t b h = grind arith

-- The branch of `send` that does not wait.
not_waiting :
    (fits : Bool) (m : M SendStep) (s t : Session)
    → (if fits then m else pure must_wait) s ≡ ok sent t
    → (fits ≡ true) × (m s ≡ ok sent t)
not_waiting true m s t h = (refl, h)
not_waiting false m s t h = grind arith

pub send-sends :
    (world : World) (id : ℕ) (frame : Bytes) (s t : Session)
    → send world id frame s ≡ ok sent t
    → (ch : Channel) × IsSent world id frame s t ch
unfolding send
send-sends world id frame s t h =
    let (not_empty, rest) = guard-ok (is_empty frame) _ _ s t sent h in
    let (small, rest) = guard-ok (ltb max_uint32 (length frame)) _ _ s t sent rest in
    let (ch, here, rest) = load_then-ok id _ s t sent rest in
    let no_error = throw_if_some-none (channel_error s ch) _ s t sent rest in
    let rest = throw_if_some-ok (channel_error s ch) _ s t sent rest in
    let (sendable, rest) = guard-ok (not (can_send_data ch.state)) _ _ s t sent rest in
    let (packet, rest) = guard-ok (ltb ch.max_remote_packet (length frame)) _ _ s t sent rest in
    let (fits, rest) = not_waiting (leb (size_of frame) ch.remote_window) _ s t rest in
    let went = send_reserved-heap world id ch.peer_id frame s t sent rest in
    (
      ch,
      record {
        found = here;
        not_empty = not_empty;
        sendable = ground arith;
        no_error = no_error;
        packet_fits = ground arith;
        window_fits = ground arith;
        written = went.1;
        spent =
            ap (lookup id) went.0 ∙ lookup-update_self id (spend (size_of frame)) ch s.heap here;
      },
    )

pub same_channel : {A : Type 0} (a b : A) (o : Option A) → o ≡ some a → o ≡ some b → a ≡ b
same_channel a b o h k = grind arith

-- A `Send` that hands its frame to the writer is a step of every link whose sender is the channel:
-- what the step puts on the wire is the message that then stands last in the queue to the writer,
-- under the peer's id.
pub send-LinkStep :
    (world : World) (threshold id : ℕ) (frame : Bytes) (s t : Session) (l : Link)
    → lookup id s.heap ≡ some l.sender
    → send world id frame s ≡ ok sent t
    → (ch : Channel) × (lookup id t.heap ≡ some ch)
      × (t.outbound_queue ≡ s.outbound_queue ++ (data_write world l.sender.peer_id frame ∷ []))
      × LinkStep threshold l (record l { sender = ch; in_flight = l.in_flight ++ (frame ∷ []) })
send-LinkStep world threshold id frame s t l found h =
    let (ch, went) = send-sends world id frame s t h in
    let here : ch ≡ l.sender = same_channel ch l.sender _ went.found found in
    let fits : size_of frame ≤ l.sender.remote_window =
      subst (λ (c : Channel). size_of frame ≤ c.remote_window) here went.window_fits in
    (
      spend (size_of frame) l.sender,
      subst (λ (c : Channel). lookup id t.heap ≡ some (spend (size_of frame) c)) here went.spent,
      subst
          (λ (c : Channel).
            t.outbound_queue ≡ s.outbound_queue ++ (data_write world c.peer_id frame ∷ []))
          here went.written,
      sends l frame _ fits
          (record { remote_window = refl; local_window = refl; pending = refl; frames = refl }),
    )

-- Data that `handleChannelData` accepts is a step of every link whose receiver is the channel and
-- whose next data on the wire it is: within the receiver's window, and put behind all the data that
-- the receiver has not read.
pub handle_channel_data-LinkStep :
    (threshold : ℕ) (msg : ChannelData) (rest : List Bytes) (s t : Session) (l : Link)
    → lookup msg.recipient_channel_id s.heap ≡ some l.receiver
    → l.in_flight ≡ msg.bytes ∷ rest
    → handle_channel_data (some msg) s ≡ ok tt t
    → (ch : Channel) × (lookup msg.recipient_channel_id t.heap ≡ some ch)
      × (size_of msg.bytes ≤ l.receiver.local_window)
      × (ch.frames ≡ l.receiver.frames ++ (msg.bytes ∷ []))
      × LinkStep threshold l (record l { receiver = ch; in_flight = rest })
handle_channel_data-LinkStep threshold msg rest s t l found e h =
    let (ch, went) = handle_channel_data-delivers msg s t h in
    let here : ch ≡ l.receiver = same_channel ch l.receiver _ went.found found in
    let next : Channel → Channel = λ c. accept_frame msg.bytes (counted 1 (size_of msg.bytes) c) in
    (
      next l.receiver,
      subst (λ (c : Channel). lookup msg.recipient_channel_id t.heap ≡ some (next c)) here
          went.queued,
      subst (λ (c : Channel). size_of msg.bytes ≤ c.local_window) here went.window_fits,
      refl,
      arrives l msg.bytes rest _ e
          (record { remote_window = refl; local_window = refl; pending = refl; frames = refl }),
    )

room_left :
    (window added : ℕ)
    → window ≤ max_uint32
    → ltb (max_uint32 - window) added ≡ false
    → window + added ≤ max_uint32
room_left window added small fits = ground arith

-- A window adjustment that `handleChannelWindowAdjust` accepts is a step of every link whose
-- sender is the channel and whose next adjustment on the wire it is, if the sender's window is a
-- 32-bit number: the window is larger by just that number, and a 32-bit number as before.
pub handle_channel_window_adjust-LinkStep :
    (threshold : ℕ) (msg : ChannelWindowAdjust) (rest : List ℕ) (s t : Session) (l : Link)
    → lookup msg.recipient_channel_id s.heap ≡ some l.sender
    → l.credits ≡ msg.bytes_to_add ∷ rest
    → l.sender.remote_window ≤ max_uint32
    → handle_channel_window_adjust (some msg) s ≡ ok tt t
    → (ch : Channel) × (lookup msg.recipient_channel_id t.heap ≡ some ch)
      × (ch.remote_window ≡ l.sender.remote_window + msg.bytes_to_add)
      × (ch.remote_window ≤ max_uint32)
      × LinkStep threshold l (record l { sender = ch; credits = rest })
unfolding handle_channel_window_adjust
handle_channel_window_adjust-LinkStep threshold msg rest s t l found e small h =
    let id = msg.recipient_channel_id in
    let (ch, registered, here, h) = find-ok id _ s t tt h in
    let (usable, h) = guard-ok (not (allows_requests ch.state)) _ _ s t tt h in
    let (fits, h) = guard-ok (ltb (max_uint32 - ch.remote_window) msg.bytes_to_add) _ _ s t tt h in
    let same : ch ≡ l.sender = same_channel ch l.sender _ here found in
    let room : l.sender.remote_window + msg.bytes_to_add ≤ max_uint32 =
      subst (λ (c : Channel). c.remote_window + msg.bytes_to_add ≤ max_uint32) same
        (room_left ch.remote_window msg.bytes_to_add
          (subst (λ (c : Channel). c.remote_window ≤ max_uint32) (sym same) small) fits) in
    let after : t ≡ record s { heap = update id (credit msg.bytes_to_add) s.heap } =
      sym (ap final h) in
    (
      credit msg.bytes_to_add l.sender,
      ap (λ (x : Session). lookup id x.heap) after
          ∙ lookup-update_self id (credit msg.bytes_to_add) l.sender s.heap found,
      omega (arith, room),
      omega (arith, room),
      credited l msg.bytes_to_add rest _ e
          (record { remote_window = refl; local_window = refl; pending = refl; frames = refl }),
    )
