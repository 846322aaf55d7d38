-- ===== src/Session/Opening/Accepted.antt =====
-- The peer accepts a channel that this side opens: `handleChannelOpenResult` of
-- lib/session/session.go.
use mygosh.Base.{
  Bool, ℕ, ◌+◌, ◌-◌, ◌≡◌, refl, ap, sym, ◌∙◌, not, ◌||◌, true, false, none, some, [], ◌∷◌, ◌++◌,
  arith, u32,
}
use mygosh.Base.Maps.{lookup, update, lookup-update_self}
use mygosh.Session.Message.{ChannelOpenAccept, OpenOutcome}
use mygosh.Session.Channel.{Channel, open_, active_slot}
use mygosh.Session.State.{Session, ok, final, on_channel}
use mygosh.Session.State.Invert.{bind-ok, find-ok, guard-ok}
use mygosh.Session.Validate.{too_long}
use mygosh.Session.Registry.{reserve_peer_channel_id, activate_channel}
use mygosh.Session.Opening.{
  handle_channel_open_result, open_result_from, take_open_wait, accept_open, start, reply_open,
  is_opening,
}

reserve_peer-ok :
    (peer id : ℕ) (s t : Session) (a : Unit {0})
    → reserve_peer_channel_id peer id s ≡ ok a t
    → (lookup peer s.peer_channel_ids ≡ none)
      × (t ≡ record s { peer_channel_ids = (peer, id) ∷ s.peer_channel_ids })
unfolding reserve_peer_channel_id
reserve_peer-ok peer id s t a h = ground arith

abbrev pub occupy : Channel → Channel
occupy ch = record ch { slot = active_slot }

activate-ok :
    (id : ℕ) (s t : Session) (a : Unit {0})
    → activate_channel id s ≡ ok a t
    → t ≡ record s {
      pending_opens = s.pending_opens - 1;
      active_channels = u32 (s.active_channels + 1);
      heap = update id occupy s.heap;
    }
unfolding activate_channel on_channel
activate-ok id s t a h = ground arith

both_true : (a b : Bool) → not a || not b ≡ false → (a ≡ true) × (b ≡ true)
both_true true true h = (refl, refl)
both_true true false h = cc
both_true false b h = cc

-- The channel `ch` is open, and its caller is told.
pub record IsAccepted (id : ℕ) (accept : ChannelOpenAccept) (s t : Session) (ch : Channel)
    : Type 0 where
  pub found : lookup id s.heap ≡ some ch
  pub was_opening : is_opening ch.state ≡ true
  pub was_awaited : ch.open_wait ≡ true
  pub peer_new : lookup accept.sender_channel_id s.peer_channel_ids ≡ none
  pub opened :
      lookup id t.heap
      ≡ some (record ch {
        state = open_;
        peer_id = accept.sender_channel_id;
        local_window = s.config.initial_window;
        max_local_packet = s.config.max_packet_size;
        remote_window = accept.initial_window;
        max_remote_packet = accept.max_packet_size;
        open_wait = false;
        open_replies = ch.open_replies ++ (none ∷ []);
        slot = active_slot;
        worker = true;
      })
  pub peer_known : t.peer_channel_ids ≡ (accept.sender_channel_id, id) ∷ s.peer_channel_ids
  pub pending_opens : t.pending_opens ≡ s.pending_opens - 1
  pub active_channels : t.active_channels ≡ u32 (s.active_channels + 1)

-- An acceptance that is accepted is for a channel that this side is opening and whose caller still
-- waits, under a peer's id that no channel has; then the channel is open with the windows and
-- packet sizes of both sides, its worker runs, its caller is told once, the peer's id is entered,
-- and one pending open has become an active channel.
pub handle_channel_open_result-accepts :
    (id : ℕ) (accept : ChannelOpenAccept) (s t : Session)
    → handle_channel_open_result
        (some (record { recipient_channel_id = id; result = OpenOutcome.success accept }))
        s
      ≡ ok tt t
    → (ch : Channel) × IsAccepted id accept s t ch
unfolding handle_channel_open_result open_result_from
handle_channel_open_result-accepts id accept s t h =
    let (ch, registered, found, h) = find-ok id _ s t tt h in
    let (awaited, h) = guard-ok (not (is_opening ch.state) || not ch.open_wait) _ _ s t tt h in
    let s1 : Session = record s { heap = update id take_open_wait s.heap } in
    let (fits, h) =
      guard-ok (too_long accept.payload s.config.limits.max_control_payload) _ _ s1 t tt h in
    let (a, s2, reserved, h) =
      bind-ok (reserve_peer_channel_id accept.sender_channel_id id) _ s1 t tt h in
    let (new, next2) = reserve_peer-ok accept.sender_channel_id id s1 s2 a reserved in
    let s3 : Session = record s2 { heap = update id (accept_open s.config accept) s2.heap } in
    let (b, s4, activated, h) = bind-ok (activate_channel id) _ s3 t tt h in
    let next4 = activate-ok id s3 s4 b activated in
    let last : t ≡ record s4 { heap = update id (reply_open none) (update id start s4.heap) } =
      sym (ap final h) in
    let accepted : Channel → Channel = accept_open s.config accept in
    let heap2 : s2.heap ≡ s1.heap = ap (λ (x : Session). x.heap) next2 in
    let heap4 : s4.heap ≡ update id occupy (update id accepted s1.heap) =
      ap (λ (x : Session). x.heap) next4
      ∙ ap (λ m. update id occupy (update id accepted m)) heap2 in
    let l1 = lookup-update_self id take_open_wait ch s.heap found in
    let l2 = lookup-update_self id accepted _ _ l1 in
    let l3 = lookup-update_self id occupy _ _ l2 in
    let l4 = lookup-update_self id start _ _ l3 in
    let l5 = lookup-update_self id (reply_open none) _ _ l4 in
    let (was_opening, was_awaited) = both_true (is_opening ch.state) ch.open_wait awaited in
    (
      ch,
      record {
        found = found;
        was_opening = was_opening;
        was_awaited = was_awaited;
        peer_new = new;
        opened =
            ap (λ (x : Session). lookup id x.heap) last
            ∙ ap (λ m. lookup id (update id (reply_open none) (update id start m))) heap4
            ∙ l5;
        peer_known =
            ap (λ (x : Session). x.peer_channel_ids) last
            ∙ ap (λ (x : Session). x.peer_channel_ids) next4
            ∙ ap (λ (x : Session). x.peer_channel_ids) next2;
        pending_opens =
            ap (λ (x : Session). x.pending_opens) last
            ∙ ap (λ (x : Session). x.pending_opens) next4
            ∙ ap (λ (x : Session). x.pending_opens - 1) next2;
        active_channels =
            ap (λ (x : Session). x.active_channels) last
            ∙ ap (λ (x : Session). x.active_channels) next4
            ∙ ap (λ (x : Session). u32 (x.active_channels + 1)) next2;
      },
    )
