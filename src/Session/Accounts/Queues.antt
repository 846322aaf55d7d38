-- ===== src/Session/Accounts/Queues.antt =====
-- The three queues and the accounting invariant: a message is reserved for, queued, and released
-- when it is taken.
use mygosh.Base.{ℕ, suc, ◌≡◌, refl, arith, Bool, List, [], ◌∷◌, ◌++◌, length, sum_by}
use mygosh.Base.{sum_by-append, length-append, leb, ap, zero, if◌then◌else◌}
use mygosh.Session.Error.{outbound_exhausted}
use mygosh.Session.State.{Session, final, Write, Task, task_size, ok}
use mygosh.Session.State.Keep.{Keeps, keep_branch, keep_then}
use mygosh.Session.Accounts.{
  Owes, Balanced, reserve_queue_budget-full, reserve_queue_budget-Granted,
}
use mygosh.Session.Budget.{reserve_queue_budget, release_queue_budget}
use mygosh.Session.Outbound.{push_write, enqueue_write, push_task, enqueue_dispatch, capacity}
use mygosh.Session.Loops.{cancel_at}

-- A reservation that is given back, or turned into an entry of a queue, is settled.
pub release-settles :
    (frames bytes : ℕ) (s : Session)
    → Owes frames bytes s
    → Balanced (final (release_queue_budget frames bytes s))
unfolding release_queue_budget
release-settles frames bytes s h = record {
  limits = h.limits;
  frames_counted = ground arith;
  bytes_counted = ground arith;
  frames_capped = ground arith;
  bytes_capped = ground arith;
  shares = h.shares;
}

append_control-settles :
    (msg : Write) (s : Session)
    → Owes 1 msg.size s
    → Balanced (record s { control_queue = s.control_queue ++ (msg ∷ []) })
append_control-settles msg s h = record {
  limits = h.limits;
  frames_counted = omega (arith, length-append s.control_queue (msg ∷ []));
  bytes_counted = omega (arith, sum_by-append (λ (w : Write). w.size) s.control_queue (msg ∷ []));
  frames_capped = h.frames_capped;
  bytes_capped = h.bytes_capped;
  shares = h.shares;
}

append_outbound-settles :
    (msg : Write) (s : Session)
    → Owes 1 msg.size s
    → Balanced (record s { outbound_queue = s.outbound_queue ++ (msg ∷ []) })
append_outbound-settles msg s h = record {
  limits = h.limits;
  frames_counted = omega (arith, length-append s.outbound_queue (msg ∷ []));
  bytes_counted = omega (arith, sum_by-append (λ (w : Write). w.size) s.outbound_queue (msg ∷ []));
  frames_capped = h.frames_capped;
  bytes_capped = h.bytes_capped;
  shares = h.shares;
}

append_task-settles :
    (task : Task) (s : Session)
    → Owes 1 (task_size task) s
    → Balanced (record s { dispatch_queue = s.dispatch_queue ++ (task ∷ []) })
append_task-settles task s h = record {
  limits = h.limits;
  frames_counted = omega (arith, length-append s.dispatch_queue (task ∷ []));
  bytes_counted = omega (arith, sum_by-append task_size s.dispatch_queue (task ∷ []));
  frames_capped = h.frames_capped;
  bytes_capped = h.bytes_capped;
  shares = h.shares;
}

pub Owes-reserve :
    (frames bytes : ℕ) (s : Session) {a : Unit {0}} {t : Session}
    → Balanced s
    → reserve_queue_budget frames bytes s ≡ ok a t
    → Owes frames bytes t
Owes-reserve frames bytes s h e =
    let g = reserve_queue_budget-Granted frames bytes 0 0 s h e in
    rw g.next (record {
      limits = h.limits;
      frames_counted = omega arith;
      bytes_counted = omega arith;
      frames_capped = g.frames_fit;
      bytes_capped = g.bytes_fit;
      shares = h.shares;
    })

push_write-settles :
    (msg : Write) (control : Bool) (s : Session)
    → Owes 1 msg.size s
    → Balanced (final (push_write msg control s))
unfolding push_write release_queue_budget
push_write-settles msg control s h =
    keep_branch Balanced s.queues_closed _ _ (release-settles 1 msg.size s h) (
      keep_branch Balanced
        (leb (capacity s) (length (if control then s.control_queue else s.outbound_queue))) _ _
        (release-settles 1 msg.size (record s { shutdowns = outbound_exhausted ∷ s.shutdowns }) h)
        (keep_branch Balanced control _ _ (append_control-settles msg s h)
          (append_outbound-settles msg s h)))

pub enqueue_write-Balanced :
    (msg : Write) (control : Bool) → Keeps Balanced (enqueue_write msg control)
unfolding Keeps enqueue_write
enqueue_write-Balanced msg control s h =
    keep_then Balanced (reserve_queue_budget 1 msg.size) _ s
      (λ e t q. rw (reserve_queue_budget-full 1 msg.size s q) h)
      (λ a t q. push_write-settles msg control t (Owes-reserve 1 msg.size s h q))

push_task-settles :
    (task : Task) (s : Session) → Owes 1 (task_size task) s → Balanced (final (push_task task s))
unfolding push_task release_queue_budget
push_task-settles task s h =
    keep_branch Balanced (leb (capacity s) (length s.dispatch_queue)) _ _
      (release-settles 1 (task_size task) s h) (append_task-settles task s h)

pub enqueue_dispatch-Balanced : (task : Task) → Keeps Balanced (enqueue_dispatch task)
unfolding Keeps enqueue_dispatch
enqueue_dispatch-Balanced task s h =
    keep_then Balanced (reserve_queue_budget 1 (task_size task)) _ s
      (λ e t q. rw (reserve_queue_budget-full 1 (task_size task) s q) h)
      (λ a t q. push_task-settles task t (Owes-reserve 1 (task_size task) s h q))

-- What is taken from a queue is owed until its budget is released.
pub take_task-Balanced :
    (task : Task) (rest : List Task) (s : Session)
    → s.dispatch_queue ≡ task ∷ rest
    → Balanced s
    → Balanced
        (final (release_queue_budget 1 (task_size task) (record s { dispatch_queue = rest })))
take_task-Balanced task rest s e h = release-settles 1 (task_size task) _ (record {
  limits = h.limits;
  frames_counted = omega (arith, ap (λ (q : List Task). length q) e);
  bytes_counted = omega (arith, ap (λ (q : List Task). sum_by task_size q) e);
  frames_capped = h.frames_capped;
  bytes_capped = h.bytes_capped;
  shares = h.shares;
})

pub take_control-Balanced :
    (msg : Write) (rest : List Write) (s : Session)
    → s.control_queue ≡ msg ∷ rest
    → Balanced s
    → Balanced (final (release_queue_budget 1 msg.size (record s { control_queue = rest })))
take_control-Balanced msg rest s e h = release-settles 1 msg.size _ (record {
  limits = h.limits;
  frames_counted = omega (arith, ap (λ (q : List Write). length q) e);
  bytes_counted = omega (arith, ap (λ (q : List Write). sum_by (λ w. w.size) q) e);
  frames_capped = h.frames_capped;
  bytes_capped = h.bytes_capped;
  shares = h.shares;
})

pub take_outbound-Balanced :
    (msg : Write) (rest : List Write) (s : Session)
    → s.outbound_queue ≡ msg ∷ rest
    → Balanced s
    → Balanced (final (release_queue_budget 1 msg.size (record s { outbound_queue = rest })))
take_outbound-Balanced msg rest s e h = release-settles 1 msg.size _ (record {
  limits = h.limits;
  frames_counted = omega (arith, ap (λ (q : List Write). length q) e);
  bytes_counted = omega (arith, ap (λ (q : List Write). sum_by (λ w. w.size) q) e);
  frames_capped = h.frames_capped;
  bytes_capped = h.bytes_capped;
  shares = h.shares;
})

-- A cancelled write keeps its place and its size.
cancel_at-length : (n : ℕ) (q : List Write) → length (cancel_at n q) ≡ length q
unfolding cancel_at
cancel_at-length n [] = refl
cancel_at-length zero (msg ∷ rest) = refl
cancel_at-length (suc n) (msg ∷ rest) = ap suc (cancel_at-length n rest)

cancel_at-size :
    (n : ℕ) (q : List Write) → sum_by (λ w. w.size) (cancel_at n q) ≡ sum_by (λ w. w.size) q
unfolding cancel_at
cancel_at-size n [] = refl
cancel_at-size zero (msg ∷ rest) = ground arith
cancel_at-size (suc n) (msg ∷ rest) = omega (arith, cancel_at-size n rest)

pub cancel-Balanced :
    (n : ℕ) (s : Session)
    → Balanced s
    → Balanced (record s { outbound_queue = cancel_at n s.outbound_queue })
cancel-Balanced n s h = record {
  limits = h.limits;
  frames_counted = omega (arith, cancel_at-length n s.outbound_queue);
  bytes_counted = omega (arith, cancel_at-size n s.outbound_queue);
  frames_capped = h.frames_capped;
  bytes_capped = h.bytes_capped;
  shares = h.shares;
}
