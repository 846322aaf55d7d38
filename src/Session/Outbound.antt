-- ===== src/Session/Outbound.antt =====
-- The queues of lib/session/session.go: what is written to the peer, what is dispatched to the
-- application, and the causes that an ended session gives.
use mygosh.Base.{ℕ, Bool, true, false, not, Option, none, some, [], ◌∷◌, ◌++◌, leb, if◌then◌else◌}
use mygosh.Base.{length}
use mygosh.Session.Message.{Envelope, World, OpenOutcome, OperationOutcome, Bytes}
use mygosh.Session.Message.{channel_open_result, channel_result, global_result}
use mygosh.Session.Error.{Err, session_not_active, resource_limit, canceled, outbound_exhausted}
use mygosh.Session.Budget.{reserve_queue_budget, release_queue_budget}
use mygosh.Session.State.{
  Session, ok, M, ◌>>=◌, ◌>>◌, throw, done, get, fail_if, Write, After, nothing, Task, task_size,
  write_queued,
}

-- `closeCause`
unfoldable pub close_cause : Session → Err
close_cause s = elim s.close_err [
  | some e ↦ e
  | none ↦ elim s.cause [ some e ↦ e | none ↦ canceled ]
]

-- `case <-s.Context().Done(): return s.closeCause()`
abbrev pub throw_if_done : Option Err → Err → M (Unit {0})
throw_if_done none e = done
throw_if_done (some _) e = throw e

unfoldable pub ensure_active : M (Unit {0})
ensure_active = do
  s ← get
  fail_if (not s.activated) session_not_active
  throw_if_done s.cause (close_cause s)

-- The capacity that `Bind` gives each queue.
abbrev pub capacity : Session → ℕ
capacity s = s.config.limits.max_queued_frames_total

-- The part of `enqueueWrite` under `queueMu`, after the budget is reserved. A full queue starts
-- `go s.shutdown(err)`.
unfoldable pub push_write : Write → Bool → M (Unit {0})
push_write msg control s =
    if s.queues_closed
    then (release_queue_budget 1 msg.size >> throw (close_cause s)) s
    else if leb (capacity s) (length (if control then s.control_queue else s.outbound_queue))
    then (release_queue_budget 1 msg.size >> throw outbound_exhausted)
        (record s { shutdowns = outbound_exhausted ∷ s.shutdowns })
    else if control
    then ok tt (record s { control_queue = s.control_queue ++ (msg ∷ []) })
    else ok tt (record s { outbound_queue = s.outbound_queue ++ (msg ∷ []) })

unfoldable pub enqueue_write : Write → Bool → M (Unit {0})
enqueue_write msg control = do reserve_queue_budget 1 msg.size; push_write msg control

-- The part of `enqueueDispatch` after the budget is reserved.
unfoldable pub push_task : Task → M (Unit {0})
push_task task s =
    if leb (capacity s) (length s.dispatch_queue)
    then (release_queue_budget 1 (task_size task) >> throw resource_limit) s
    else ok tt (record s { dispatch_queue = s.dispatch_queue ++ (task ∷ []) })

unfoldable pub enqueue_dispatch : Task → M (Unit {0})
enqueue_dispatch task = do reserve_queue_budget 1 (task_size task); push_task task

module _ (world : World) where
  abbrev pub write_of : Envelope → After → Bool → Write
  write_of frame after waiter = record {
    envelope = frame;
    size = world.envelope_size frame;
    after = after;
    waiter = waiter;
    state = write_queued;
  }

  -- `sendEnvelopeAfter` up to the point where the caller waits for the writer.
  unfoldable pub send_envelope_after : Envelope → After → M (Unit {0})
  send_envelope_after frame after = do
    ensure_active
    enqueue_write (write_of frame after true) false

  unfoldable pub send_envelope : Envelope → M (Unit {0})
  send_envelope frame = send_envelope_after frame nothing

  -- `sendEnvelopeAsyncAfter` and `sendEnvelopeAsync`, which are called with `control` set.
  unfoldable pub send_envelope_async_after : Envelope → After → M (Unit {0})
  send_envelope_async_after frame after = enqueue_write (write_of frame after false) true

  unfoldable pub send_envelope_async : Envelope → M (Unit {0})
  send_envelope_async frame = send_envelope_async_after frame nothing

  unfoldable pub send_channel_open_reject_async : ℕ → Bytes → Bytes → M (Unit {0})
  send_channel_open_reject_async peer code message = send_envelope_async (
      channel_open_result (
        some (record {
          recipient_channel_id = peer;
          result = OpenOutcome.reject (record { code = code; message = message; payload = [] });
        })))

  unfoldable pub send_channel_open_reject : ℕ → Bytes → Bytes → Bytes → M (Unit {0})
  send_channel_open_reject peer code message payload = send_envelope (
      channel_open_result (
        some (record {
          recipient_channel_id = peer;
          result =
              OpenOutcome.reject (record { code = code; message = message; payload = payload });
        })))

  unfoldable pub send_channel_reject_async : ℕ → ℕ → Bytes → Bytes → After → M (Unit {0})
  send_channel_reject_async peer request code message after =
      send_envelope_async_after
        (channel_result (
          some (record {
            recipient_channel_id = peer;
            request_id = request;
            result =
                OperationOutcome.reject (record { code = code; message = message; payload = [] });
          })))
        after

  unfoldable pub send_global_reject_async : ℕ → Bytes → Bytes → After → M (Unit {0})
  send_global_reject_async request code message after =
      send_envelope_async_after
        (global_result (
          some (record {
            request_id = request;
            result =
                OperationOutcome.reject (record { code = code; message = message; payload = [] });
          })))
        after
