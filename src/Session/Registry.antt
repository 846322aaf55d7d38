-- ===== src/Session/Registry.antt =====
-- The channel table of lib/session/session.go: local and peer ids, pending and active channels,
-- and the count of requests that wait for a reply.
use mygosh.Base.{ℕ, ◌+◌, ◌-◌, Bool, true, false, ◌||◌, Option, none, some, ◌∷◌, leb, ◌==◌}
use mygosh.Base.{if◌then◌else◌, u32, max_uint64}
use mygosh.Base.Maps.{lookup, update, member, delete, delete_values}
use mygosh.Session.Error.{
  resource_limit, channel_ids_exhausted, protocol, duplicate_peer_id, not_pending,
  accounting_underflow, request_limit, unknown_channel,
}
use mygosh.Session.Channel.{Channel, Slot, no_slot, pending_slot, active_slot}
use mygosh.Session.State.{Session, ok, err, M, load, on_channel}

unfoldable pub reserve_local_channel_id : M ℕ
reserve_local_channel_id s =
    if s.next_local_channel_id == max_uint64
    then err channel_ids_exhausted s
    else ok s.next_local_channel_id
        (record s { next_local_channel_id = s.next_local_channel_id + 1 })

-- `_, exists := m[key]`
abbrev pub is_some {ℓ} : {A : Type ℓ} → Option A → Bool
is_some none = false
is_some (some a) = true

-- No slot is left for one more opening channel.
abbrev pub table_full : Session → Bool
table_full s =
    leb s.config.limits.max_pending_opens s.pending_opens
    || leb s.config.limits.max_channels (u32 (s.active_channels + s.pending_opens))

-- The rest of `addPendingChannel`, behind its checks.
abbrev pub install : ℕ → Session → Session
install id s = record s {
  heap = update id (λ ch. record ch { slot = pending_slot }) s.heap;
  channels = id ∷ s.channels;
  pending_opens = u32 (s.pending_opens + 1);
}

-- `addPendingChannel`, for a channel that the heap holds under `id`.
unfoldable pub add_pending_channel : ℕ → Option ℕ → M (Unit {0})
add_pending_channel id none s = if table_full s then err resource_limit s else ok tt (install id s)
add_pending_channel id (some peer) s =
    if table_full s
    then err resource_limit s
    else if is_some (lookup peer s.peer_channel_ids)
    then err (protocol duplicate_peer_id) s
    else ok tt (install id (record s { peer_channel_ids = (peer, id) ∷ s.peer_channel_ids }))

unfoldable pub reserve_peer_channel_id : ℕ → ℕ → M (Unit {0})
reserve_peer_channel_id peer id s =
    if is_some (lookup peer s.peer_channel_ids)
    then err (protocol duplicate_peer_id) s
    else ok tt (record s { peer_channel_ids = (peer, id) ∷ s.peer_channel_ids })

abbrev pub is_pending : Slot → Bool
is_pending pending_slot = true
is_pending _ = false

abbrev pub is_active : Slot → Bool
is_active active_slot = true
is_active _ = false

unfoldable pub activate_channel : ℕ → M (Unit {0})
activate_channel id s = on_channel id s λ ch.
    if is_pending ch.slot
    then (if s.pending_opens == 0
        then err accounting_underflow s
        else ok tt (record s {
          pending_opens = s.pending_opens - 1;
          active_channels = u32 (s.active_channels + 1);
          heap = update id (λ ch. record ch { slot = active_slot }) s.heap;
        }))
    else err not_pending s

-- `lookupChannel` with the protocol error that its callers give for an unknown id.
unfoldable pub find_channel : ℕ → M Channel
find_channel id s = if member id s.channels then load id s else err (protocol unknown_channel) s

-- `lookupChannelByPeer`, as the channel's local id.
unfoldable pub lookup_channel_by_peer : ℕ → Session → Option ℕ
lookup_channel_by_peer peer s = elim (lookup peer s.peer_channel_ids) [
  | none ↦ none
  | some id ↦ if member id s.channels then some id else none
]

unfoldable pub remove_channel : ℕ → M (Unit {0})
remove_channel id s =
    if member id s.channels
    then on_channel id s (λ ch. ok tt (record s {
      channels = delete id s.channels;
      peer_channel_ids = delete_values id s.peer_channel_ids;
      pending_opens = if is_pending ch.slot then s.pending_opens - 1 else s.pending_opens;
      active_channels = if is_active ch.slot then s.active_channels - 1 else s.active_channels;
      heap = update id (λ ch. record ch { slot = no_slot }) s.heap;
    }))
    else ok tt s

unfoldable pub reserve_pending_channel_request : M (Unit {0})
reserve_pending_channel_request s =
    if leb s.config.limits.max_pending_channel_requests s.pending_channel_requests
    then err request_limit s
    else ok tt (record s { pending_channel_requests = u32 (s.pending_channel_requests + 1) })

-- `if s.pendingChannelRequests > 0 { s.pendingChannelRequests-- }`
unfoldable pub release_pending_channel_request : M (Unit {0})
release_pending_channel_request s =
    ok tt (record s { pending_channel_requests = s.pending_channel_requests - 1 })
