-- ===== src/Session/Lifecycle/Closed.antt =====
-- What the peer's close does: `enqueueChannelClose` of lib/session/channel.go.
use mygosh.Base.{
  ◌++◌, [], ℕ, ◌≡◌, refl, ap, sym, ◌∙◌, subst, true, some, List, ◌∷◌, arith, leb, length,
}
use mygosh.Base.Maps.{lookup, update, member, delete, lookup-update_self}
use mygosh.Session.Message.{World, Envelope, channel_close}
use mygosh.Session.Error.{wrapped}
use mygosh.Session.Channel.{
  Channel, ChannelState, opening, open_, local_eof, remote_eof, both_eof, closing, closed, failed,
  Event, no_slot, close_event,
}
use mygosh.Session.State.{
  Session, M, Outcome, ok, err, final, throw, store, on_channel, Write, catch,
}
use mygosh.Session.State.Keep.{Keeps, keep_rules, keep_branch, keep_channel, Outcome-cases}
use mygosh.Session.State.Invert.{IsAtomic, bind-ok, find-ok}
use mygosh.Session.Budget.{
  no_frames, no_bytes, reserve_queued, reserve_queue_budget, release_queued, release_queue_budget,
}
use mygosh.Session.Registry.{remove_channel}
use mygosh.Session.Outbound.{
  send_envelope_async, send_envelope_async_after, enqueue_write, push_write, capacity,
}
use mygosh.Session.Flow.Delivery.{reserve_queued-ok, reserve_queued-IsAtomic}
use mygosh.Session.Shutdown.Stages.{HasAt, has-update}
use mygosh.Session.Lifecycle.{
  set_state, push_event, queue_event, remote_close, remote_close_from, enqueue_channel_close,
}

abbrev Closed : Channel → Type 0
Closed ch = ch.state ≡ closed

-- The channel is closed, and the table is `ids`.
abbrev ClosedIn : List ℕ → ℕ → Session → Type 0
ClosedIn ids id s = HasAt Closed id s × (s.channels ≡ ids)

module _ (ids : List ℕ) (id : ℕ) where
  store-ClosedIn :
      (j : ℕ) (f : Channel → Channel)
      → ((ch : Channel) → (f ch).state ≡ ch.state)
      → Keeps (ClosedIn ids id) (store j f)
  unfolding Keeps
  store-ClosedIn j f same s h = (has-update Closed j id f s (λ ch q. same ch ∙ q) h.0, h.1)

  reserve_queued-ClosedIn :
      (j frames bytes : ℕ) → Keeps (ClosedIn ids id) (reserve_queued j frames bytes)
  unfolding Keeps IsAtomic
  reserve_queued-ClosedIn j frames bytes s h =
      Outcome-cases (λ o. ClosedIn ids id (final o)) (reserve_queued j frames bytes s)
        (λ a t q.
          subst (ClosedIn ids id) (sym (reserve_queued-ok j frames bytes s t a q))
            (has-update Closed j id _ s (λ ch x. x) h.0, h.1))
        (λ e t q. subst (ClosedIn ids id) (sym (reserve_queued-IsAtomic j frames bytes s t e q)) h)

  release_queued-ClosedIn :
      (j frames bytes : ℕ) → Keeps (ClosedIn ids id) (release_queued j frames bytes)
  unfolding Keeps release_queued release_queue_budget
  release_queued-ClosedIn j frames bytes s h =
      keep_channel (ClosedIn ids id) j s _ h
        λ ch e. (has-update Closed j id _ s (λ ch x. x) h.0, h.1)

  queue_event-ClosedIn : (j : ℕ) (event : Event) → Keeps (ClosedIn ids id) (queue_event j event)
  unfolding queue_event push_event
  queue_event-ClosedIn j event =
      search (keep_rules, reserve_queued-ClosedIn, release_queued-ClosedIn, push-ClosedIn) depth 30
    where
      push-ClosedIn :
          Keeps (ClosedIn ids id) (store j λ ch. record ch { events = ch.events ++ (event ∷ []) })
      push-ClosedIn = store-ClosedIn j _ (λ ch. refl)

  reserve_queue_budget-ClosedIn :
      (frames bytes : ℕ) → Keeps (ClosedIn ids id) (reserve_queue_budget frames bytes)
  unfolding Keeps reserve_queue_budget
  reserve_queue_budget-ClosedIn frames bytes s h =
      keep_branch (ClosedIn ids id)
        (no_frames s.config.limits.max_queued_frames_total s.queued_frames frames) _ _ h
        (keep_branch (ClosedIn ids id)
          (no_bytes s.config.limits.max_queued_bytes_total s.queued_bytes bytes) _ _ h h)

  push_write-ClosedIn : (msg : Write) → Keeps (ClosedIn ids id) (push_write msg true)
  unfolding Keeps push_write release_queue_budget
  push_write-ClosedIn msg s h =
      keep_branch (ClosedIn ids id) s.queues_closed _ _ h
        (keep_branch (ClosedIn ids id) (leb (capacity s) (length s.control_queue)) _ _ h h)

  send_envelope_async-ClosedIn :
      (world : World) (frame : Envelope) → Keeps (ClosedIn ids id) (send_envelope_async world frame)
  unfolding send_envelope_async send_envelope_async_after enqueue_write
  send_envelope_async-ClosedIn world frame =
      search (keep_rules, reserve_queue_budget-ClosedIn, push_write-ClosedIn) depth 20

remove_channel-known :
    (id : ℕ) (s : Session) (ch : Channel)
    → member id s.channels ≡ true
    → lookup id s.heap ≡ some ch
    → ((final (remove_channel id s)).heap ≡ update id (λ ch. record ch { slot = no_slot }) s.heap)
      × ((final (remove_channel id s)).channels ≡ delete id s.channels)
unfolding remove_channel on_channel
remove_channel-known id s ch registered found = (ground arith, ground arith)

-- Closed, and no place in the table is counted for it.
abbrev pub IsGone : Channel → Type 0
IsGone ch = (ch.state ≡ closed) × (ch.slot ≡ no_slot)

-- The channel `id` has left the table, which was `ids`.
abbrev pub LeftTable : List ℕ → ℕ → Session → Type 0
LeftTable ids id s = HasAt IsGone id s × (s.channels ≡ delete id ids)

remove_channel-IsGone :
    (ids : List ℕ) (id : ℕ) (s : Session)
    → member id ids ≡ true
    → ClosedIn ids id s
    → LeftTable ids id (final (remove_channel id s))
remove_channel-IsGone ids id s registered ((ch, found, q), same) =
    let here : member id s.channels ≡ true = ap (member id) same ∙ registered in
    let (heap, table) = remove_channel-known id s ch here found in
    (
      (
        record ch { slot = no_slot },
        ap (lookup id) heap ∙ lookup-update_self id _ ch s.heap found,
        (q, refl),
      ),
      table ∙ ap (delete id) same,
    )

kept-ok {ℓ} :
    {A : Type ℓ} (P : Session → Type 0) (m : M A) (s t : Session) (a : A)
    → Keeps P m
    → P s
    → m s ≡ ok a t
    → P t
unfolding Keeps
kept-ok {A} P m s t a kept h e = subst (λ (o : Outcome A). P (final o)) e (kept s h)

abbrev set_closed : ℕ → Session → Session
set_closed id s = record s { heap = update id (set_state closed) s.heap }

set_closed-ClosedIn :
    (id : ℕ) (s : Session) (ch : Channel)
    → lookup id s.heap ≡ some ch
    → ClosedIn s.channels id (set_closed id s)
set_closed-ClosedIn id s ch found =
    ((set_state closed ch, lookup-update_self id (set_state closed) ch s.heap found, refl), refl)

-- The peer closes a channel in use.
remote_close-IsGone :
    (world : World) (id peer : ℕ) (s t : Session) (ch : Channel)
    → member id s.channels ≡ true
    → lookup id s.heap ≡ some ch
    → remote_close world id peer s ≡ ok tt t
    → LeftTable s.channels id t
unfolding remote_close
remote_close-IsGone world id peer s t ch registered found h =
    let start = set_closed-ClosedIn id s ch found in
    let (a, s1, queued, h) = bind-ok (queue_event id close_event) _ (set_closed id s) t tt h in
    let k1 =
      kept-ok (ClosedIn s.channels id) _ _ s1 a (queue_event-ClosedIn s.channels id id close_event)
        start queued in
    let (b, s2, acknowledged, h) =
      bind-ok (catch (send_envelope_async world (channel_close peer)) (λ e. throw (wrapped e))) _ s1
        t tt h in
    let sending =
      catch_throw-ok (send_envelope_async world (channel_close peer)) s1 s2 b acknowledged in
    let k2 =
      kept-ok (ClosedIn s.channels id) _ s1 s2 b
        (send_envelope_async-ClosedIn s.channels id world (channel_close peer)) k1 sending in
    subst (λ o. LeftTable s.channels id (final o)) h
      (remove_channel-IsGone s.channels id s2 registered k2)
  where
    catch_throw-ok :
        (m : M (Unit {0})) (s t : Session) (a : Unit {0})
        → catch m (λ e. throw (wrapped e)) s ≡ ok a t
        → m s ≡ ok a t
    catch_throw-ok m s t a r = go (m s) refl r
      where
        go :
            (o : Outcome (Unit {0}))
            → m s ≡ o
            → elim o [ ok b u ↦ ok b u | err e u ↦ err (wrapped e) u ] ≡ ok a t
            → m s ≡ ok a t
        go (ok b u) e q = e ∙ q
        go (err e u) _ q = grind arith

remote_close_from-IsGone :
    (world : World) (id peer : ℕ) (state : ChannelState) (s t : Session) (ch : Channel)
    → member id s.channels ≡ true
    → lookup id s.heap ≡ some ch
    → remote_close_from world id peer state s ≡ ok tt t
    → LeftTable s.channels id t
unfolding remote_close_from
remote_close_from-IsGone world id peer closing s t ch registered found h =
    subst (λ o. LeftTable s.channels id (final o)) h
      (remove_channel-IsGone s.channels id (set_closed id s) registered
        (set_closed-ClosedIn id s ch found))
remote_close_from-IsGone world id peer opening s t ch registered found h = grind arith
remote_close_from-IsGone world id peer closed s t ch registered found h = grind arith
remote_close_from-IsGone world id peer failed s t ch registered found h = grind arith
remote_close_from-IsGone world id peer open_ s t ch registered found h =
    remote_close-IsGone world id peer s t ch registered found h
remote_close_from-IsGone world id peer local_eof s t ch registered found h =
    remote_close-IsGone world id peer s t ch registered found h
remote_close_from-IsGone world id peer remote_eof s t ch registered found h =
    remote_close-IsGone world id peer s t ch registered found h
remote_close_from-IsGone world id peer both_eof s t ch registered found h =
    remote_close-IsGone world id peer s t ch registered found h

-- A close of the peer that is accepted, be it the first or the answer to a close of this side,
-- leaves the channel closed and without a slot, and its id alone has left the table.
pub enqueue_channel_close-IsGone :
    (world : World) (id : ℕ) (s t : Session)
    → enqueue_channel_close world id s ≡ ok tt t
    → LeftTable s.channels id t
unfolding enqueue_channel_close
enqueue_channel_close-IsGone world id s t h =
    let (ch, registered, found, h) = find-ok id _ s t tt h in
    remote_close_from-IsGone world id ch.peer_id ch.state s t ch registered found h
