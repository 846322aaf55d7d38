-- ===== src/Session/Table/Methods.antt =====
-- The elementary steps on channels keep the counters of the channel table right.
use mygosh.Base.{
  ap, subst, sym, ◌≤◌, if◌then◌else◌, ℕ, ◌+◌, ◌-◌, ◌≡◌, refl, arith, true, false, Option, none,
  some, ◌∷◌, length, ◌==◌, u32,
}
use mygosh.Base.Maps.{lookup, member, update, le-sum_by}
use mygosh.Session.Error.{Err}
use mygosh.Session.Channel.{Channel, Slot, no_slot, pending_slot, active_slot}
use mygosh.Session.State.{Session, final}
use mygosh.Session.State.Keep.{Outcome-cases, Keeps, keep_if, keep_branch, keep_channel, keep_cases}
use mygosh.Session.State.Invert.{IsAtomic}
use mygosh.Session.Budget.{reserve_queued, release_queued, release_queue_budget, discard_queued}
use mygosh.Session.Registry.{
  add_pending_channel, activate_channel, remove_channel, table_full, is_some, is_pending, is_active,
  install,
}
use mygosh.Session.Shutdown.{fail_pending_requests}
use mygosh.Session.Opening.{allocate, add_channel}
use mygosh.Session.Preserve.{IsFresh}
use mygosh.Session.Flow.Delivery.{reserve_queued-ok, reserve_queued-IsAtomic}
use mygosh.Session.Table.{
  CountsOf, Counted, Counts-update, Counts-touch, pending_of, active_of, waiting_of, one_if,
}

-- A channel that was just made holds no place and awaits nothing.
fresh-pending : (ch : Channel) → IsFresh ch → pending_of ch ≡ 0
fresh-pending ch fresh = ap (λ (x : Slot). one_if (is_pending x)) fresh.2

fresh-active : (ch : Channel) → IsFresh ch → active_of ch ≡ 0
fresh-active ch fresh = ap (λ (x : Slot). one_if (is_active x)) fresh.2

fresh-waiting : (ch : Channel) → IsFresh ch → waiting_of ch ≡ 0
fresh-waiting ch fresh = ap (length {A = ℕ}) fresh.3

allocate-CountsOf :
    (id : ℕ) (ch : Channel) (s : Session) → IsFresh ch → CountsOf s → CountsOf (allocate id ch s)
allocate-CountsOf id ch s fresh h = record {
  pending_counted = omega (arith, h, fresh-pending ch fresh);
  active_counted = omega (arith, h, fresh-active ch fresh);
  waiting_counted = omega (arith, h, fresh-waiting ch fresh);
  pending_capped = h.pending_capped;
  channels_capped = h.channels_capped;
  waiting_capped = h.waiting_capped;
  shares = (omega (arith, fresh-waiting ch fresh), h.shares);
  channels_small = h.channels_small;
  waiting_small = h.waiting_small;
}

lookup-allocate :
    (id : ℕ) (ch : Channel) (s : Session) → lookup id (allocate id ch s).heap ≡ some ch
unfolding lookup
lookup-allocate id ch s = ground arith

-- There is room in the table.
has_room :
    (s : Session)
    → CountsOf s
    → table_full s ≡ false
    → (s.pending_opens + 1 ≤ s.config.limits.max_pending_opens)
      × (s.active_channels + (s.pending_opens + 1) ≤ s.config.limits.max_channels)
has_room s h room = ground (arith, h)

install-CountsOf :
    (id : ℕ) (ch : Channel) (s : Session)
    → IsFresh ch
    → table_full s ≡ false
    → CountsOf s
    → CountsOf (install id (allocate id ch s))
install-CountsOf id ch s fresh room h =
    let (opens, channels) = has_room s h room in
    let exact : u32 (s.pending_opens + 1) ≡ s.pending_opens + 1 = omega (arith, h, channels) in
    let start : CountsOf (allocate id ch s) = allocate-CountsOf id ch s fresh h in
    Counts-update s.config.limits ((id, ch) ∷ s.heap) id (λ ch. record ch { slot = pending_slot })
      ch s.pending_opens s.active_channels s.pending_channel_requests _ _ _
      (lookup-allocate id ch s) start (omega (arith, exact, fresh-pending ch fresh))
      (omega (arith, fresh-active ch fresh)) refl (omega (arith, exact, opens))
      (omega (arith, exact, channels)) h.waiting_capped (λ few. few)

pub add_channel-Counted :
    (id : ℕ) (ch : Channel) (peer : Option ℕ) → IsFresh ch → Keeps Counted (add_channel id ch peer)
unfolding Keeps add_channel add_pending_channel
add_channel-Counted id ch none fresh s h =
    keep_if Counted (table_full s) _ (allocate id ch s) _
      (λ running. allocate-CountsOf id ch s fresh (h running))
      λ room running. install-CountsOf id ch s fresh room (h running)
add_channel-Counted id ch (some peer) fresh s h =
    let start : Counted (allocate id ch s) =
      λ running. allocate-CountsOf id ch s fresh (h running) in
    keep_if Counted (table_full s) _ (allocate id ch s) _ start λ room.
      keep_if Counted (is_some (lookup peer s.peer_channel_ids)) _ (allocate id ch s) _ start
        λ _ running. install-CountsOf id ch s fresh room (h running)

activate-CountsOf :
    (id : ℕ) (ch : Channel) (s : Session)
    → lookup id s.heap ≡ some ch
    → is_pending ch.slot ≡ true
    → (s.pending_opens == 0) ≡ false
    → CountsOf s
    → CountsOf (record s {
      pending_opens = s.pending_opens - 1;
      active_channels = u32 (s.active_channels + 1);
      heap = update id (λ ch. record ch { slot = active_slot }) s.heap;
    })
activate-CountsOf id ch s e pending some_pending h =
    Counts-update _ s.heap id _ ch _ _ _ _ _ _ e h (ground arith) (ground (arith, h)) refl
      (omega (arith, h)) (ground (arith, h)) h.waiting_capped (λ few. few)

pub activate_channel-Counted : (id : ℕ) → Keeps Counted (activate_channel id)
unfolding Keeps activate_channel
activate_channel-Counted id s h = keep_channel Counted id s _ h λ ch e.
    keep_cases Counted (is_pending ch.slot) _ _
      (λ pending.
        keep_if Counted (s.pending_opens == 0) _ s _ h
          λ some_pending running. activate-CountsOf id ch s e pending some_pending (h running))
      λ _. h

remove-CountsOf :
    (id : ℕ) (ch : Channel) (s : Session)
    → lookup id s.heap ≡ some ch
    → CountsOf s
    → CountsOf (record s {
      pending_opens = if is_pending ch.slot then s.pending_opens - 1 else s.pending_opens;
      active_channels = if is_active ch.slot then s.active_channels - 1 else s.active_channels;
      heap = update id (λ ch. record ch { slot = no_slot }) s.heap;
    })
remove-CountsOf id ch s e h =
    let some_pending = le-sum_by pending_of id ch s.heap e in
    let some_active = le-sum_by active_of id ch s.heap e in
    Counts-update _ s.heap id _ ch s.pending_opens s.active_channels s.pending_channel_requests _ _
      _ e h (ground (arith, h)) (ground (arith, h)) refl (ground (arith, h)) (ground (arith, h))
      h.waiting_capped (λ few. few)

pub remove_channel-Counted : (id : ℕ) → Keeps Counted (remove_channel id)
unfolding Keeps remove_channel
remove_channel-Counted id s h =
    keep_branch Counted (member id s.channels) _ _
      (keep_channel Counted id s _ h λ ch e running. remove-CountsOf id ch s e (h running)) h

pub fail_pending_requests-Counted : (id : ℕ) (e : Err) → Keeps Counted (fail_pending_requests id e)
unfolding Keeps fail_pending_requests
fail_pending_requests-Counted id e s h = keep_channel Counted id s _ h λ ch q running.
    let c : CountsOf s = h running in
    let some_waiting = le-sum_by waiting_of id ch s.heap q in
    Counts-update _ s.heap id _ ch s.pending_opens s.active_channels s.pending_channel_requests _ _
      _ q c refl refl (omega (arith, c, some_waiting)) c.pending_capped c.channels_capped
      (omega (arith, c)) (λ few. omega arith)

pub reserve_queued-Counted : (id frames bytes : ℕ) → Keeps Counted (reserve_queued id frames bytes)
unfolding Keeps IsAtomic
reserve_queued-Counted id frames bytes s h =
    Outcome-cases (λ o. Counted (final o)) (reserve_queued id frames bytes s)
      (λ a t q.
        subst Counted (sym (reserve_queued-ok id frames bytes s t a q))
          λ running. Counts-touch id _ s (λ ch. (refl, refl)) (h running))
      (λ e t q. subst Counted (sym (reserve_queued-IsAtomic id frames bytes s t e q)) h)

pub release_queued-Counted : (id frames bytes : ℕ) → Keeps Counted (release_queued id frames bytes)
unfolding Keeps release_queued release_queue_budget
release_queued-Counted id frames bytes s h =
    keep_channel Counted id s _ h
      λ ch q running. Counts-touch id _ s (λ ch. (refl, refl)) (h running)

pub discard_queued-Counted : (id : ℕ) → Keeps Counted (discard_queued id)
unfolding Keeps discard_queued release_queue_budget
discard_queued-Counted id s h =
    keep_channel Counted id s _ h
      λ ch q running. Counts-touch id _ s (λ ch. (refl, refl)) (h running)
