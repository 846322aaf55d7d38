-- ===== src/Session/Accounts/Capacity.antt =====
-- The queues of lib/session/session.go are as long as the budget allows frames, so a message that
-- has its budget always finds room: `enqueueWrite` never has to end the session.
use mygosh.Base.{
  ap, ◌∙◌, subst, ℕ, ◌≡◌, refl, arith, Bool, true, false, Option, none, some, List, [], ◌∷◌, ◌++◌,
  if◌then◌else◌,
}
use mygosh.Session.Config.{Config, config_validate, config_with_defaults}
use mygosh.Session.Error.{Err}
use mygosh.Session.Message.{World}
use mygosh.Session.State.{
  M, ◌>>◌, throw, Session, Outcome, ok, err, final, Write, Task, task_size, store, on_channel,
}
use mygosh.Session.State.Keep.{Keeps, keep_then, keep_rules}
use mygosh.Session.Budget.{
  reserve_queue_budget, release_queue_budget, reserve_queued, release_queued, discard_queued,
}
use mygosh.Session.Registry.{
  reserve_local_channel_id, add_pending_channel, reserve_peer_channel_id, activate_channel,
  remove_channel, reserve_pending_channel_request, release_pending_channel_request,
}
use mygosh.Session.Outbound.{close_cause, push_write, enqueue_write, push_task, enqueue_dispatch}
use mygosh.Session.Shutdown.{fail_pending_requests}
use mygosh.Session.Requests.{install_waiter, remove_pending_request, take_waiter}
use mygosh.Session.Opening.{add_channel, allocate}
use mygosh.Session.Channel.{Channel}
use mygosh.Session.System.{Action, run, bind}
use mygosh.Session.Accounts.{Owes, Balanced, reserve_queue_budget-full}
use mygosh.Session.Accounts.Queues.{Owes-reserve}
use mygosh.Session.Accounts.Invariant.{Balanced-Preserved, run-Balanced}
use mygosh.Session.Preserve.{Preserved}
use mygosh.Session.Preserve.Steps.{run-Keeps}

-- No goroutine was started to end the session for a full queue.
abbrev pub NoneExhausted : Session → Type 0
NoneExhausted s = s.shutdowns ≡ []

abbrev Roomy : Session → Type 0
Roomy s = Balanced s × NoneExhausted s

reserve_queue_budget-NoneExhausted :
    (frames bytes : ℕ) → Keeps NoneExhausted (reserve_queue_budget frames bytes)
unfolding Keeps reserve_queue_budget
reserve_queue_budget-NoneExhausted frames bytes s h = ground arith

reserve_queued-NoneExhausted :
    (id frames bytes : ℕ) → Keeps NoneExhausted (reserve_queued id frames bytes)
unfolding Keeps reserve_queued reserve_queue_budget on_channel
reserve_queued-NoneExhausted id frames bytes s h = ground arith

release_queued-NoneExhausted :
    (id frames bytes : ℕ) → Keeps NoneExhausted (release_queued id frames bytes)
unfolding Keeps release_queued release_queue_budget on_channel
release_queued-NoneExhausted id frames bytes s h = ground arith

discard_queued-NoneExhausted : (id : ℕ) → Keeps NoneExhausted (discard_queued id)
unfolding Keeps discard_queued release_queue_budget on_channel
discard_queued-NoneExhausted id s h = ground arith

numbers-NoneExhausted : Keeps NoneExhausted reserve_local_channel_id
unfolding Keeps reserve_local_channel_id
numbers-NoneExhausted s h = ground arith

add_pending_channel-NoneExhausted :
    (id : ℕ) (peer : Option ℕ) → Keeps NoneExhausted (add_pending_channel id peer)
unfolding Keeps add_pending_channel
add_pending_channel-NoneExhausted id none s h = ground arith
add_pending_channel-NoneExhausted id (some p) s h = ground arith

peers-NoneExhausted : (peer id : ℕ) → Keeps NoneExhausted (reserve_peer_channel_id peer id)
unfolding Keeps reserve_peer_channel_id
peers-NoneExhausted peer id s h = ground arith

activate_channel-NoneExhausted : (id : ℕ) → Keeps NoneExhausted (activate_channel id)
unfolding Keeps activate_channel on_channel
activate_channel-NoneExhausted id s h = ground arith

remove_channel-NoneExhausted : (id : ℕ) → Keeps NoneExhausted (remove_channel id)
unfolding Keeps remove_channel on_channel
remove_channel-NoneExhausted id s h = ground arith

fail_pending_requests-NoneExhausted :
    (id : ℕ) (e : Err) → Keeps NoneExhausted (fail_pending_requests id e)
unfolding Keeps fail_pending_requests on_channel
fail_pending_requests-NoneExhausted id e s h = ground arith

push_task-NoneExhausted : (task : Task) → Keeps NoneExhausted (push_task task)
unfolding Keeps push_task release_queue_budget
push_task-NoneExhausted task s h = ground arith

requests-NoneExhausted : Keeps NoneExhausted reserve_pending_channel_request
unfolding Keeps reserve_pending_channel_request
requests-NoneExhausted s h = ground arith

answers-NoneExhausted : Keeps NoneExhausted release_pending_channel_request
unfolding Keeps release_pending_channel_request
answers-NoneExhausted s h = h

-- A message for which a frame is reserved finds room in its queue.
push_write-NoneExhausted :
    (msg : Write) (control : Bool) (s : Session)
    → Owes 1 msg.size s
    → NoneExhausted s
    → NoneExhausted (final (push_write msg control s))
unfolding push_write release_queue_budget
push_write-NoneExhausted msg true s owes h = ground arith
push_write-NoneExhausted msg false s owes h = ground arith

enqueue_write-NoneExhausted :
    (msg : Write) (control : Bool) (s : Session)
    → Balanced s
    → NoneExhausted s
    → NoneExhausted (final (enqueue_write msg control s))
unfolding enqueue_write Keeps
enqueue_write-NoneExhausted msg control s h none_yet =
    keep_then NoneExhausted (reserve_queue_budget 1 msg.size) _ s
      (λ e t q. rw (reserve_queue_budget-full 1 msg.size s q) none_yet)
      λ a t q.
        push_write-NoneExhausted msg control t (Owes-reserve 1 msg.size s h q)
          (kept_by (reserve_queue_budget-NoneExhausted 1 msg.size s none_yet) q)
  where
    kept_by :
        {o : Outcome (Unit {0})} {a : Unit {0}} {t : Session}
        → NoneExhausted (final o)
        → o ≡ ok a t
        → NoneExhausted t
    kept_by {o} {a} {t} n q = subst (λ (r : Outcome (Unit {0})). NoneExhausted (final r)) q n

adds-NoneExhausted :
    (id : ℕ) (ch : Channel) (peer : Option ℕ) → Keeps NoneExhausted (add_channel id ch peer)
unfolding Keeps add_channel
adds-NoneExhausted id ch peer s h = add_pending_channel-NoneExhausted id peer (allocate id ch s) h

defers-NoneExhausted : (task : Task) → Keeps NoneExhausted (enqueue_dispatch task)
unfolding enqueue_dispatch
defers-NoneExhausted task =
    search (keep_rules, reserve_queue_budget-NoneExhausted, push_task-NoneExhausted) depth 20

store-NoneExhausted : (id : ℕ) (f : Channel → Channel) → Keeps NoneExhausted (store id f)
unfolding Keeps
store-NoneExhausted id f s h = h

waits-NoneExhausted : (id n : ℕ) (want : Bool) → Keeps NoneExhausted (install_waiter id n want)
unfolding install_waiter
waits-NoneExhausted id n want =
    search (keep_rules, requests-NoneExhausted, store-NoneExhausted) depth 20

forgets-NoneExhausted : (id n : ℕ) → Keeps NoneExhausted (remove_pending_request id n)
unfolding remove_pending_request
forgets-NoneExhausted id n =
    search (keep_rules, answers-NoneExhausted, store-NoneExhausted) depth 20

takes-NoneExhausted : (id n : ℕ) → Keeps NoneExhausted (take_waiter id n)
unfolding take_waiter
takes-NoneExhausted id n = search (keep_rules, answers-NoneExhausted, store-NoneExhausted) depth 20

abbrev base : Preserved Balanced
base = Balanced-Preserved

Roomy-Preserved : Preserved Roomy
unfolding Keeps release_queue_budget
Roomy-Preserved = record {
  writes = λ id f silent s h. (base.writes id f silent s h.0, h.1);
  globals =
      λ f only s h. (base.globals f only s h.0, ap (λ (u : Session). u.shutdowns) (only s) ∙ h.1);
  reserves = λ id n b s h. (base.reserves id n b s h.0, reserve_queued-NoneExhausted id n b s h.1);
  releases = λ id n b s h. (base.releases id n b s h.0, release_queued-NoneExhausted id n b s h.1);
  discards = λ id s h. (base.discards id s h.0, discard_queued-NoneExhausted id s h.1);
  numbers = λ s h. (base.numbers s h.0, numbers-NoneExhausted s h.1);
  adds = λ id ch peer fresh s h.
      (base.adds id ch peer fresh s h.0, adds-NoneExhausted id ch peer s h.1);
  peers = λ p id s h. (base.peers p id s h.0, peers-NoneExhausted p id s h.1);
  activates = λ id s h. (base.activates id s h.0, activate_channel-NoneExhausted id s h.1);
  removes = λ id s h. (base.removes id s h.0, remove_channel-NoneExhausted id s h.1);
  enqueues = λ msg control s h.
      (base.enqueues msg control s h.0, enqueue_write-NoneExhausted msg control s h.0 h.1);
  defers = λ task s h. (base.defers task s h.0, defers-NoneExhausted task s h.1);
  fails = λ id e s h. (base.fails id e s h.0, fail_pending_requests-NoneExhausted id e s h.1);
  waits = λ id n want s h. (base.waits id n want s h.0, waits-NoneExhausted id n want s h.1);
  forgets = λ id n s h. (base.forgets id n s h.0, forgets-NoneExhausted id n s h.1);
  takes = λ id n s h. (base.takes id n s h.0, takes-NoneExhausted id n s h.1);
  detaches = λ e close s h. (base.detaches e close s h.0, h.1);
  cancels = λ c s h. (base.cancels c s h.0, h.1);
  finishes = λ replies s h. (base.finishes replies s h.0, h.1);
  takes_task = λ task rest s e h. (base.takes_task task rest s e h.0, h.1);
  takes_control = λ msg rest s e h. (base.takes_control msg rest s e h.0, h.1);
  takes_outbound = λ msg rest s e h. (base.takes_outbound msg rest s e h.0, h.1);
  takes_shutdown = λ e rest s q h. grind arith;
  abandons = λ n s h. (base.abandons n s h.0, h.1);
  starts = λ s h. (base.starts s h.0, h.1);
}

-- Entering a message without a test for room: a task, and a write unless the queues are closed.
abbrev pub append_task : Task → M (Unit {0})
append_task task s = ok tt (record s { dispatch_queue = s.dispatch_queue ++ (task ∷ []) })

abbrev pub append_write : Write → Bool → M (Unit {0})
append_write msg control s =
    if s.queues_closed
    then (release_queue_budget 1 msg.size >> throw (close_cause s)) s
    else if control
    then ok tt (record s { control_queue = s.control_queue ++ (msg ∷ []) })
    else ok tt (record s { outbound_queue = s.outbound_queue ++ (msg ∷ []) })

push_task-roomy :
    (task : Task) (s : Session) → Owes 1 (task_size task) s → push_task task s ≡ append_task task s
unfolding push_task release_queue_budget
push_task-roomy task s owes = ground arith

push_write-roomy :
    (msg : Write) (control : Bool) (s : Session)
    → Owes 1 msg.size s
    → push_write msg control s ≡ append_write msg control s
unfolding push_write release_queue_budget
push_write-roomy msg true s owes = ground arith
push_write-roomy msg false s owes = ground arith

-- After a reservation that is granted, two methods that agree there.
after_reserve :
    (size : ℕ) (k l : M (Unit {0})) (s : Session)
    → Balanced s
    → ((u : Session) → Owes 1 size u → k u ≡ l u)
    → (reserve_queue_budget 1 size >> k) s ≡ (reserve_queue_budget 1 size >> l) s
after_reserve size k l s h same = go (reserve_queue_budget 1 size s) refl
  where
    go :
        (o : Outcome (Unit {0}))
        → reserve_queue_budget 1 size s ≡ o
        → elim o as (λ x. Outcome (Unit {0})) [ ok a u ↦ k u | err e u ↦ err e u ]
          ≡ elim o [ ok a u ↦ l u | err e u ↦ err e u ]
    go (ok a u) q = same u (Owes-reserve 1 size s h q)
    go (err e u) q = refl

-- In `s` each of the three queues has room for every message whose budget is granted.
pub record HasRoom (s : Session) : Type 0 where
  pub none_exhausted : NoneExhausted s
  pub tasks :
      (task : Task)
      → enqueue_dispatch task s ≡ (reserve_queue_budget 1 (task_size task) >> append_task task) s
  pub writes :
      (msg : Write) (control : Bool)
      → enqueue_write msg control s
        ≡ (reserve_queue_budget 1 msg.size >> append_write msg control) s

run-NoneExhausted :
    (world : World) (c : Config) (actions : List Action)
    → config_validate c ≡ none
    → NoneExhausted (run world actions (bind (config_with_defaults c)))
unfolding bind run
run-NoneExhausted world c actions valid =
    let start : Roomy (bind (config_with_defaults c)) = (run-Balanced world c [] valid, refl) in
    (run-Keeps Roomy-Preserved world actions _ start).1

-- For every configuration that `Validate` accepts and every sequence of steps, none of the three
-- queues is ever full when a message with its budget is put into it: to dispatch a task, or to
-- write a message to either queue, does what it would do without its test for a full queue; and no
-- goroutine is ever started to end the session for an exhausted outbound queue.
pub run-HasRoom :
    (world : World) (c : Config) (actions : List Action)
    → config_validate c ≡ none
    → HasRoom (run world actions (bind (config_with_defaults c)))
unfolding enqueue_dispatch enqueue_write
run-HasRoom world c actions valid =
    let s = run world actions (bind (config_with_defaults c)) in
    let h : Balanced s = run-Balanced world c actions valid in
    record {
      none_exhausted = run-NoneExhausted world c actions valid;
      tasks = λ task.
          after_reserve (task_size task) (push_task task) (append_task task) s h
            (push_task-roomy task);
      writes = λ msg control.
          after_reserve msg.size (push_write msg control) (append_write msg control) s h
            (push_write-roomy msg control);
    }
