-- ===== src/Session/Table.antt =====
-- The channel table of lib/session/session.go: its counters are what the table holds, and no limit
-- on channels, opens or requests is passed.
pub mod Methods
pub mod Waiters
pub mod Invariant
mod Tests
use mygosh.Base.{
  All, ap, ℕ, ◌+◌, ◌≤◌, ◌<◌, ◌≡◌, ◌^◌, refl, List, length, sum_by, arith, true, false, Bool,
  if◌then◌else◌, some, Bool-cases, inl, inr,
}
use mygosh.Base.Maps.{
  lookup, update, sum_by-update, sum_by-update_same, le-sum_by, All-update, All-update_at,
  All-lookup,
}
use mygosh.Session.Config.{Limits}
use mygosh.Session.Channel.{Channel, Slot, no_slot, pending_slot, active_slot}
use mygosh.Session.State.{Session, store, final}
use mygosh.Session.Registry.{is_pending, is_active}

abbrev pub one_if : Bool → ℕ
one_if b = if b then 1 else 0

abbrev pub pending_of : Channel → ℕ
pending_of ch = one_if (is_pending ch.slot)

abbrev pub active_of : Channel → ℕ
active_of ch = one_if (is_active ch.slot)

abbrev pub waiting_of : Channel → ℕ
waiting_of ch = length ch.pending_requests

abbrev pub HasFew : Limits → Channel → Type 0
HasFew l ch = waiting_of ch ≤ l.max_pending_channel_requests_per_channel

-- Until the session ends, the counters are what the channels say, and within the limits.
pub record Counts (l : Limits) (heap : List (ℕ × Channel)) (pending active waiting : ℕ)
    : Type 0 where
  pub pending_counted : pending ≡ sum_by (λ e. pending_of e.1) heap
  pub active_counted : active ≡ sum_by (λ e. active_of e.1) heap
  pub waiting_counted : waiting ≡ sum_by (λ e. waiting_of e.1) heap
  pub pending_capped : pending ≤ l.max_pending_opens
  pub channels_capped : active + pending ≤ l.max_channels
  pub waiting_capped : waiting ≤ l.max_pending_channel_requests
  pub shares : All (λ e. HasFew l e.1) heap
  pub channels_small : l.max_channels < 2 ^ 31
  pub waiting_small : l.max_pending_channel_requests < 2 ^ 31

abbrev pub CountsOf : Session → Type 0
CountsOf s =
    Counts s.config.limits s.heap s.pending_opens s.active_channels s.pending_channel_requests

-- The whole invariant: the end of a session clears the table and its counters at once.
abbrev pub Counted : Session → Type 0
Counted s = s.closing ≡ false → CountsOf s

-- One channel and the counters change together.
pub Counts-update :
    (l : Limits) (heap : List (ℕ × Channel)) (id : ℕ) (f : Channel → Channel) (ch : Channel)
    (p a w p' a' w' : ℕ)
    → lookup id heap ≡ some ch
    → Counts l heap p a w
    → p' + pending_of ch ≡ p + pending_of (f ch)
    → a' + active_of ch ≡ a + active_of (f ch)
    → w' + waiting_of ch ≡ w + waiting_of (f ch)
    → p' ≤ l.max_pending_opens
    → a' + p' ≤ l.max_channels
    → w' ≤ l.max_pending_channel_requests
    → (HasFew l ch → HasFew l (f ch))
    → Counts l (update id f heap) p' a' w'
Counts-update l heap id f ch p a w p' a' w' e h hp ha hw cp ca cw few = record {
  pending_counted = omega (arith, hp, h, sum_by-update pending_of id f ch heap e);
  active_counted = omega (arith, ha, h, sum_by-update active_of id f ch heap e);
  waiting_counted = omega (arith, hw, h, sum_by-update waiting_of id f ch heap e);
  pending_capped = cp;
  channels_capped = ca;
  waiting_capped = cw;
  shares =
      All-update_at (HasFew l) id f ch heap e h.shares
        (few (All-lookup (HasFew l) id ch heap h.shares e));
  channels_small = h.channels_small;
  waiting_small = h.waiting_small;
}

-- A write that leaves the slot and the waiters of a channel alone.
pub Counts-touch :
    (id : ℕ) (f : Channel → Channel) (s : Session)
    → ((ch : Channel) → ((f ch).slot ≡ ch.slot) × ((f ch).pending_requests ≡ ch.pending_requests))
    → CountsOf s
    → CountsOf (record s { heap = update id f s.heap })
Counts-touch id f s same h = record {
  pending_counted =
      rw
        (sum_by-update_same pending_of id f s.heap
          λ ch. ap (λ (x : Slot). one_if (is_pending x)) (same ch).0)
        h.pending_counted;
  active_counted =
      rw
        (sum_by-update_same active_of id f s.heap
          λ ch. ap (λ (x : Slot). one_if (is_active x)) (same ch).0)
        h.active_counted;
  waiting_counted =
      rw (sum_by-update_same waiting_of id f s.heap λ ch. ap (length {A = ℕ}) (same ch).1)
        h.waiting_counted;
  pending_capped = h.pending_capped;
  channels_capped = h.channels_capped;
  waiting_capped = h.waiting_capped;
  shares =
      All-update (HasFew s.config.limits) id f s.heap h.shares
        (λ ch w. rw (ap (length {A = ℕ}) (same ch).1) w);
  channels_small = h.channels_small;
  waiting_small = h.waiting_small;
}
