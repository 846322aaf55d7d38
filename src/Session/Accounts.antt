-- ===== src/Session/Accounts.antt =====
-- The accounting invariant: what the session counts as queued is what its channels count and its
-- three queues hold, and no share passes its limit.
pub mod Methods
pub mod Queues
pub mod Invariant
pub mod Capacity
mod Tests
use mygosh.Base.{
  ℕ, ◌+◌, ◌≤◌, ◌<◌, ◌≡◌, some, List, All, length, sum_by, arith, ◌^◌, u32, u64, false,
}
use mygosh.Base.Maps.{lookup, update, sum_by-update, le-sum_by, All-update_at, All-lookup}
use mygosh.Session.Config.{Limits}
use mygosh.Session.Config.Valid.{LimitsValid}
use mygosh.Session.Error.{Err}
use mygosh.Session.Channel.{Channel}
use mygosh.Session.State.{Session, Write, Task, task_size, final, ok, err}
use mygosh.Session.State.Keep.{keep_channel, keep_if, keep_then}
use mygosh.Session.Budget.{
  no_frames, no_bytes, reserve_queue_budget, release_queue_budget, reserve_queued,
}
use mygosh.Session.Budget.{release_queued, discard_queued}

abbrev pub Heap : Type 0
Heap = List (ℕ × Channel)

-- What the channels count as queued, and what the queues hold.
abbrev pub held_frames : Heap → List Task → List Write → List Write → ℕ
held_frames heap tasks control outbound =
    sum_by (λ e. e.1.queued_frames) heap + length tasks + length control + length outbound

abbrev pub held_bytes : Heap → List Task → List Write → List Write → ℕ
held_bytes heap tasks control outbound =
    sum_by (λ e. e.1.queued_bytes) heap
    + sum_by task_size tasks
    + sum_by (λ w. w.size) control
    + sum_by (λ w. w.size) outbound

abbrev pub WithinShare : Limits → Channel → Type 0
WithinShare l ch =
    (ch.queued_frames ≤ l.max_queued_frames_per_channel)
    × (ch.queued_bytes ≤ l.max_queued_bytes_per_channel)

-- `frames` and `bytes` are reserved for a message that stands in no queue yet.
pub record Ledger (frames bytes : ℕ) (l : Limits) (queued_frames queued_bytes : ℕ) (heap : Heap)
    (tasks : List Task) (control outbound : List Write) : Type 0 where
  pub limits : LimitsValid l
  pub frames_counted : queued_frames ≡ held_frames heap tasks control outbound + frames
  pub bytes_counted : queued_bytes ≡ held_bytes heap tasks control outbound + bytes
  pub frames_capped : queued_frames ≤ l.max_queued_frames_total
  pub bytes_capped : queued_bytes ≤ l.max_queued_bytes_total
  pub shares : All (λ e. WithinShare l e.1) heap

abbrev pub Owes : ℕ → ℕ → Session → Type 0
Owes frames bytes s =
    Ledger frames bytes s.config.limits s.queued_frames s.queued_bytes s.heap s.dispatch_queue
      s.control_queue s.outbound_queue

abbrev pub Balanced : Session → Type 0
Balanced = Owes 0 0

-- One channel and the totals change together.
Owes-update :
    (s : Session) (id : ℕ) (f : Channel → Channel) (ch : Channel) (frames bytes m n : ℕ)
    → lookup id s.heap ≡ some ch
    → Owes frames bytes s
    → m + ch.queued_frames ≡ s.queued_frames + (f ch).queued_frames
    → n + ch.queued_bytes ≡ s.queued_bytes + (f ch).queued_bytes
    → m ≤ s.config.limits.max_queued_frames_total
    → n ≤ s.config.limits.max_queued_bytes_total
    → WithinShare s.config.limits (f ch)
    → Owes frames bytes
        (record s { heap = update id f s.heap; queued_frames = m; queued_bytes = n })
Owes-update s id f ch frames bytes m n e h hm hn cm cn share = record {
  limits = h.limits;
  frames_counted = omega (arith, sum_by-update (λ (c : Channel). c.queued_frames) id f ch s.heap e);
  bytes_counted = omega (arith, sum_by-update (λ (c : Channel). c.queued_bytes) id f ch s.heap e);
  frames_capped = cm;
  bytes_capped = cn;
  shares = All-update_at (WithinShare s.config.limits) id f ch s.heap e h.shares share;
}

pub reserve_queue_budget-full :
    (frames bytes : ℕ) (s : Session) {e : Err} {t : Session}
    → reserve_queue_budget frames bytes s ≡ err e t
    → t ≡ s
unfolding reserve_queue_budget
reserve_queue_budget-full frames bytes s h = ground arith

-- A granted reservation adds to the totals and passes no limit.
pub record Granted (frames bytes : ℕ) (s t : Session) : Type 0 where
  pub frames_fit : s.queued_frames + frames ≤ s.config.limits.max_queued_frames_total
  pub bytes_fit : s.queued_bytes + bytes ≤ s.config.limits.max_queued_bytes_total
  pub next :
      t
      ≡ record s { queued_frames = s.queued_frames + frames; queued_bytes = s.queued_bytes + bytes }

pub reserve_queue_budget-Granted :
    (frames bytes m n : ℕ) (s : Session) {a : Unit {0}} {t : Session}
    → Owes m n s
    → reserve_queue_budget frames bytes s ≡ ok a t
    → Granted frames bytes s t
unfolding reserve_queue_budget
reserve_queue_budget-Granted frames bytes m n s h e = record {
  frames_fit = ground arith;
  bytes_fit = ground arith;
  next = ground arith;
}

room_frames :
    (limit queued frames : ℕ)
    → queued ≤ limit
    → limit < 2 ^ 32
    → no_frames limit queued frames ≡ false
    → (queued + frames ≤ limit) × (u32 (queued + frames) ≡ queued + frames)
room_frames limit queued frames h k e = ground arith

room_bytes :
    (limit queued bytes : ℕ)
    → queued ≤ limit
    → limit < 2 ^ 64
    → no_bytes limit queued bytes ≡ false
    → (queued + bytes ≤ limit) × (u64 (queued + bytes) ≡ queued + bytes)
room_bytes limit queued bytes h k e = ground arith

pub reserve_queued-Balanced :
    (id frames bytes : ℕ) (s : Session)
    → Balanced s
    → Balanced (final (reserve_queued id frames bytes s))
unfolding reserve_queued
reserve_queued-Balanced id frames bytes s h = keep_channel Balanced id s _ h λ ch e.
    let share : WithinShare s.config.limits ch =
      All-lookup (WithinShare s.config.limits) id ch s.heap h.shares e in
    let l = s.config.limits in
    keep_if Balanced (no_frames l.max_queued_frames_per_channel ch.queued_frames frames) _ s _ h
      λ frames_left.
        let (frames_fit, frames_exact) =
          room_frames _ ch.queued_frames frames share.0 (omega (arith, h.limits)) frames_left in
        keep_if Balanced (no_bytes l.max_queued_bytes_per_channel ch.queued_bytes bytes) _ s _ h
          λ bytes_left.
            let (bytes_fit, bytes_exact) =
              room_bytes _ ch.queued_bytes bytes share.1 (omega (arith, h.limits)) bytes_left in
            keep_then Balanced (reserve_queue_budget frames bytes) _ s
              (λ x t q. rw (reserve_queue_budget-full frames bytes s q) h)
              λ a t q.
                let g = reserve_queue_budget-Granted frames bytes 0 0 s h q in
                rw g.next (
                  Owes-update s id _ ch 0 0 _ _ e h (omega (arith, frames_exact))
                    (omega (arith, bytes_exact)) g.frames_fit g.bytes_fit
                    (omega (arith, frames_exact, bytes_exact, frames_fit, bytes_fit)))

-- A release within what is counted is exact.
pub release_queued-Balanced :
    (id frames bytes : ℕ) (s : Session)
    → Balanced s
    → Balanced (final (release_queued id frames bytes s))
unfolding release_queued release_queue_budget
release_queued-Balanced id frames bytes s h = keep_channel Balanced id s _ h λ ch e.
    let share : WithinShare s.config.limits ch =
      All-lookup (WithinShare s.config.limits) id ch s.heap h.shares e in
    let some_frames = le-sum_by (λ (c : Channel). c.queued_frames) id ch s.heap e in
    let some_bytes = le-sum_by (λ (c : Channel). c.queued_bytes) id ch s.heap e in
    Owes-update s id _ ch 0 0 _ _ e h (ground arith) (ground arith) (ground arith) (ground arith)
      (ground arith)

pub discard_queued-Balanced :
    (id : ℕ) (s : Session) → Balanced s → Balanced (final (discard_queued id s))
unfolding discard_queued release_queue_budget
discard_queued-Balanced id s h = keep_channel Balanced id s _ h λ ch e.
    let some_frames = le-sum_by (λ (c : Channel). c.queued_frames) id ch s.heap e in
    let some_bytes = le-sum_by (λ (c : Channel). c.queued_bytes) id ch s.heap e in
    Owes-update s id _ ch 0 0 _ _ e h (ground arith) (ground arith) (ground arith) (ground arith)
      (ground arith)
