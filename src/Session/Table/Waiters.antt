-- ===== src/Session/Table/Waiters.antt =====
-- The steps on requests, on the queues and on the ids keep the counters of the table right.
use mygosh.Base.{
  subst, sym, ◌≤◌, ℕ, ◌+◌, ◌-◌, ◌≡◌, refl, arith, Bool, true, false, some, ◌∷◌, length, leb, ◌==◌,
  u32,
}
use mygosh.Base.{max_uint64, not}
use mygosh.Base.Maps.{lookup, member, update, delete, length-delete, le-sum_by}
use mygosh.Session.Channel.{Channel}
use mygosh.Session.State.{Write, Task, Session, ok, store}
use mygosh.Session.State.Keep.{
  keep_load, keep_guard, keep_rules, Keeps, keep_branch, keep_cases_at, keep_then,
}
use mygosh.Session.State.Invert.{IsAtomic}
use mygosh.Session.Budget.{no_frames, no_bytes, reserve_queue_budget, release_queue_budget}
use mygosh.Session.Registry.{
  reserve_local_channel_id, reserve_peer_channel_id, is_some, reserve_pending_channel_request,
  release_pending_channel_request,
}
use mygosh.Session.Outbound.{push_write, enqueue_write, push_task, enqueue_dispatch, capacity}
use mygosh.Session.Requests.{install_waiter, remove_pending_request, take_waiter}
use mygosh.Session.Table.{CountsOf, Counted, Counts-update, Counts-touch, waiting_of}

-- A waiter more, within the limit, and a waiter less.
more_waiting :
    (id request : ℕ) (ch : Channel) (s : Session)
    → lookup id s.heap ≡ some ch
    → leb s.config.limits.max_pending_channel_requests s.pending_channel_requests ≡ false
    → leb s.config.limits.max_pending_channel_requests_per_channel (length ch.pending_requests)
      ≡ false
    → CountsOf s
    → CountsOf (record s {
      pending_channel_requests = u32 (s.pending_channel_requests + 1);
      heap =
          update id (λ ch. record ch { pending_requests = request ∷ ch.pending_requests }) s.heap;
    })
more_waiting id request ch s e room room_here h =
    let below : s.pending_channel_requests + 1 ≤ s.config.limits.max_pending_channel_requests =
      ground (arith, room) in
    let exact : u32 (s.pending_channel_requests + 1) ≡ s.pending_channel_requests + 1 =
      omega (arith, h, below) in
    Counts-update _ s.heap id _ ch s.pending_opens s.active_channels s.pending_channel_requests _ _
      _ e h refl refl (omega (arith, exact)) h.pending_capped h.channels_capped
      (omega (arith, exact, below)) (λ few. ground (arith, room_here))

less_waiting :
    (id request : ℕ) (ch : Channel) (s : Session)
    → lookup id s.heap ≡ some ch
    → member request ch.pending_requests ≡ true
    → CountsOf s
    → CountsOf (record s {
      pending_channel_requests = s.pending_channel_requests - 1;
      heap =
          update id
            (λ ch. record ch { pending_requests = delete request ch.pending_requests })
            s.heap;
    })
less_waiting id request ch s e waits h =
    let some_waiting = le-sum_by waiting_of id ch s.heap e in
    let fewer = length-delete request ch.pending_requests waits in
    Counts-update _ s.heap id _ ch s.pending_opens s.active_channels s.pending_channel_requests _ _
      _ e h refl refl (omega (arith, fewer, some_waiting, h)) h.pending_capped h.channels_capped
      (omega (arith, h)) (λ few. omega (arith, fewer, few))

pub store-Counted :
    (id : ℕ) (f : Channel → Channel)
    → ((ch : Channel) → ((f ch).slot ≡ ch.slot) × ((f ch).pending_requests ≡ ch.pending_requests))
    → Keeps Counted (store id f)
unfolding Keeps
store-Counted id f same s h running = Counts-touch id f s same (h running)

reserve_request-ok :
    (s t : Session) (a : Unit {0})
    → reserve_pending_channel_request s ≡ ok a t
    → (leb s.config.limits.max_pending_channel_requests s.pending_channel_requests ≡ false)
      × (t ≡ record s { pending_channel_requests = u32 (s.pending_channel_requests + 1) })
unfolding reserve_pending_channel_request
reserve_request-ok s t a h = ground arith

reserve_request-IsAtomic : IsAtomic reserve_pending_channel_request
unfolding reserve_pending_channel_request IsAtomic
reserve_request-IsAtomic s t e h = ground arith

pub install_waiter-Counted :
    (id request : ℕ) (want : Bool) → Keeps Counted (install_waiter id request want)
unfolding Keeps install_waiter IsAtomic
install_waiter-Counted id request false s h = h
install_waiter-Counted id request true s h = keep_load Counted id _ s h λ ch e.
    keep_guard Counted
      (leb s.config.limits.max_pending_channel_requests_per_channel (length ch.pending_requests)) _
      _ s h
      λ room_here.
        keep_then Counted reserve_pending_channel_request _ s
          (λ x t q. subst Counted (sym (reserve_request-IsAtomic s t x q)) h)
          λ a t q.
            let (room, next) = reserve_request-ok s t a q in
            subst
              (λ u. Counted (record u {
                heap =
                    update id (λ ch. record ch { pending_requests = request ∷ ch.pending_requests })
                      u.heap;
              }))
              (sym next) (λ running. more_waiting id request ch s e room room_here (h running))

pub remove_pending_request-Counted :
    (id request : ℕ) → Keeps Counted (remove_pending_request id request)
unfolding Keeps remove_pending_request release_pending_channel_request
remove_pending_request-Counted id request s h = keep_load Counted id _ s h λ ch e.
    keep_cases_at Counted (member request ch.pending_requests) _ _ s
      (λ waits running. less_waiting id request ch s e waits (h running)) λ _. h

true_of_not : (b : Bool) → not b ≡ false → b ≡ true
true_of_not true h = refl
true_of_not false h = sym h

pub take_waiter-Counted : (id request : ℕ) → Keeps Counted (take_waiter id request)
unfolding Keeps take_waiter release_pending_channel_request
take_waiter-Counted id request s h = keep_load Counted id _ s h λ ch e.
    keep_guard Counted (not (member request ch.pending_requests)) _ _ s h
      λ waits running. less_waiting id request ch s e (true_of_not _ waits) (h running)

reserve_queue_budget-Counted :
    (frames bytes : ℕ) → Keeps Counted (reserve_queue_budget frames bytes)
unfolding Keeps reserve_queue_budget
reserve_queue_budget-Counted frames bytes s h =
    keep_branch Counted (no_frames s.config.limits.max_queued_frames_total s.queued_frames frames) _
      _ h
      (keep_branch Counted (no_bytes s.config.limits.max_queued_bytes_total s.queued_bytes bytes) _
        _ h h)

push_write-Counted : (msg : Write) (control : Bool) → Keeps Counted (push_write msg control)
unfolding Keeps push_write release_queue_budget
push_write-Counted msg true s h =
    keep_branch Counted s.queues_closed _ _ h
      (keep_branch Counted (leb (capacity s) (length s.control_queue)) _ _ h h)
push_write-Counted msg false s h =
    keep_branch Counted s.queues_closed _ _ h
      (keep_branch Counted (leb (capacity s) (length s.outbound_queue)) _ _ h h)

push_task-Counted : (task : Task) → Keeps Counted (push_task task)
unfolding Keeps push_task release_queue_budget
push_task-Counted task s h =
    keep_branch Counted (leb (capacity s) (length s.dispatch_queue)) _ _ h h

pub enqueue_write-Counted :
    (msg : Write) (control : Bool) → Keeps Counted (enqueue_write msg control)
unfolding enqueue_write
enqueue_write-Counted msg control =
    search (keep_rules, reserve_queue_budget-Counted, push_write-Counted) depth 20

pub enqueue_dispatch-Counted : (task : Task) → Keeps Counted (enqueue_dispatch task)
unfolding enqueue_dispatch
enqueue_dispatch-Counted task =
    search (keep_rules, reserve_queue_budget-Counted, push_task-Counted) depth 20

pub numbers-Counted : Keeps Counted reserve_local_channel_id
unfolding Keeps reserve_local_channel_id
numbers-Counted s h = keep_branch Counted (s.next_local_channel_id == max_uint64) _ _ h h

pub peers-Counted : (peer id : ℕ) → Keeps Counted (reserve_peer_channel_id peer id)
unfolding Keeps reserve_peer_channel_id
peers-Counted peer id s h = keep_branch Counted (is_some (lookup peer s.peer_channel_ids)) _ _ h h
