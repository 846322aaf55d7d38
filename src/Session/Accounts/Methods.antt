-- ===== src/Session/Accounts/Methods.antt =====
-- The elementary steps on the channel table keep the accounting invariant.
use mygosh.Base.{ℕ, ◌≡◌, refl, arith, Bool, Option, none, some, leb, ◌==◌, max_uint64}
use mygosh.Base.Maps.{lookup, member, update, sum_by-update_same, All-update}
use mygosh.Session.Error.{Err}
use mygosh.Session.Channel.{Channel}
use mygosh.Session.State.{Session, store, modify}
use mygosh.Session.State.Keep.{Keeps, Keeps-bind, keep_rules, keep_if, keep_branch, keep_channel}
use mygosh.Session.Accounts.{Balanced, WithinShare}
use mygosh.Session.Registry.{
  reserve_local_channel_id, add_pending_channel, reserve_peer_channel_id, activate_channel,
  remove_channel, table_full, is_some, is_pending, reserve_pending_channel_request,
  release_pending_channel_request,
}
use mygosh.Session.Shutdown.{fail_pending_requests}
use mygosh.Session.Requests.{install_waiter, remove_pending_request, take_waiter}
use mygosh.Session.Opening.{allocate, add_channel}
use mygosh.Session.Preserve.{IsFresh}

-- A write to a channel that leaves its share alone.
abbrev pub KeepsShare : (Channel → Channel) → Type 0
KeepsShare f =
    (ch : Channel)
    → ((f ch).queued_frames ≡ ch.queued_frames) × ((f ch).queued_bytes ≡ ch.queued_bytes)

touch :
    (id : ℕ) (f : Channel → Channel) (s : Session)
    → KeepsShare f
    → Balanced s
    → Balanced (record s { heap = update id f s.heap })
touch id f s same h = record {
  limits = h.limits;
  frames_counted =
      rw (sum_by-update_same (λ c. c.queued_frames) id f s.heap (λ ch. (same ch).0))
        h.frames_counted;
  bytes_counted =
      rw (sum_by-update_same (λ c. c.queued_bytes) id f s.heap (λ ch. (same ch).1)) h.bytes_counted;
  frames_capped = h.frames_capped;
  bytes_capped = h.bytes_capped;
  shares =
      All-update (WithinShare s.config.limits) id f s.heap h.shares
        (λ ch w. (rw (same ch).0 w.0, rw (same ch).1 w.1));
}

pub store-Balanced : (id : ℕ) (f : Channel → Channel) → KeepsShare f → Keeps Balanced (store id f)
unfolding Keeps
store-Balanced id f same s h = touch id f s same h

allocate-Balanced : (id : ℕ) (ch : Channel) → IsFresh ch → Keeps Balanced (modify (allocate id ch))
unfolding Keeps
allocate-Balanced id ch fresh s h = record {
  limits = h.limits;
  frames_counted = omega arith;
  bytes_counted = omega arith;
  frames_capped = h.frames_capped;
  bytes_capped = h.bytes_capped;
  shares = (omega arith, h.shares);
}

add_pending_channel-Balanced :
    (id : ℕ) (peer : Option ℕ) → Keeps Balanced (add_pending_channel id peer)
unfolding Keeps add_pending_channel
add_pending_channel-Balanced id none s h =
    keep_if Balanced (table_full s) _ s _ h λ _. touch id _ s (λ ch. (refl, refl)) h
add_pending_channel-Balanced id (some peer) s h = keep_if Balanced (table_full s) _ s _ h λ _.
    keep_if Balanced (is_some (lookup peer s.peer_channel_ids)) _ s _ h
      λ _. touch id _ s (λ ch. (refl, refl)) h

pub add_channel-Balanced :
    (id : ℕ) (ch : Channel) (peer : Option ℕ) → IsFresh ch → Keeps Balanced (add_channel id ch peer)
unfolding add_channel
add_channel-Balanced id ch peer fresh =
    Keeps-bind Balanced _ _ (allocate-Balanced id ch fresh)
      (λ _. add_pending_channel-Balanced id peer)

pub activate_channel-Balanced : (id : ℕ) → Keeps Balanced (activate_channel id)
unfolding Keeps activate_channel
activate_channel-Balanced id s h = keep_channel Balanced id s _ h λ ch e.
    keep_branch Balanced (is_pending ch.slot) _ _
      (keep_if Balanced (s.pending_opens == 0) _ s _ h λ _. touch id _ s (λ ch. (refl, refl)) h) h

pub remove_channel-Balanced : (id : ℕ) → Keeps Balanced (remove_channel id)
unfolding Keeps remove_channel
remove_channel-Balanced id s h =
    keep_branch Balanced (member id s.channels) _ _
      (keep_channel Balanced id s _ h λ ch e. touch id _ s (λ ch. (refl, refl)) h) h

pub fail_pending_requests-Balanced :
    (id : ℕ) (e : Err) → Keeps Balanced (fail_pending_requests id e)
unfolding Keeps fail_pending_requests
fail_pending_requests-Balanced id e s h =
    keep_channel Balanced id s _ h λ ch q. touch id _ s (λ ch. (refl, refl)) h

pub numbers-Balanced : Keeps Balanced reserve_local_channel_id
unfolding Keeps reserve_local_channel_id
numbers-Balanced s h = keep_if Balanced (s.next_local_channel_id == max_uint64) _ s _ h λ _. h

pub peers-Balanced : (peer id : ℕ) → Keeps Balanced (reserve_peer_channel_id peer id)
unfolding Keeps reserve_peer_channel_id
peers-Balanced peer id s h =
    keep_if Balanced (is_some (lookup peer s.peer_channel_ids)) _ s _ h λ _. h

reserve_request-Balanced : Keeps Balanced reserve_pending_channel_request
unfolding Keeps reserve_pending_channel_request
reserve_request-Balanced s h =
    keep_if Balanced (leb s.config.limits.max_pending_channel_requests s.pending_channel_requests) _
      s _ h λ _. h

release_request-Balanced : Keeps Balanced release_pending_channel_request
unfolding Keeps release_pending_channel_request
release_request-Balanced s h = h

pub install_waiter-Balanced :
    (id request : ℕ) (want : Bool) → Keeps Balanced (install_waiter id request want)
unfolding install_waiter
install_waiter-Balanced id request want =
    search (keep_rules, reserve_request-Balanced, store-Balanced) depth 20

pub remove_pending_request-Balanced :
    (id request : ℕ) → Keeps Balanced (remove_pending_request id request)
unfolding remove_pending_request
remove_pending_request-Balanced id request =
    search (keep_rules, release_request-Balanced, store-Balanced) depth 20

pub take_waiter-Balanced : (id request : ℕ) → Keeps Balanced (take_waiter id request)
unfolding take_waiter
take_waiter-Balanced id request =
    search (keep_rules, release_request-Balanced, store-Balanced) depth 20
