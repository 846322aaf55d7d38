-- ===== src/Session/Preserve.antt =====
-- What it takes for a predicate on the session to survive every method: it survives the steps
-- that change the tables and the accounts, each with the lock that protects it held. The children
-- derive the methods of lib/session from these steps, for any such predicate.
pub mod Flow
pub mod Lifecycle
pub mod Requests
pub mod Opening
pub mod Steps
use mygosh.Base.{ℕ, ◌≡◌, Bool, true, Option, List, [], ◌∷◌}
use mygosh.Session.Error.{Err}
use mygosh.Session.Channel.{Channel, no_slot, WaitResult}
use mygosh.Session.State.{Session, final, modify, store, Write, Task, task_size}
use mygosh.Session.State.Keep.{Keeps}
use mygosh.Session.Budget.{reserve_queued, release_queued, discard_queued, release_queue_budget}
use mygosh.Session.Registry.{
  reserve_local_channel_id, reserve_peer_channel_id, activate_channel, remove_channel,
}
use mygosh.Session.Outbound.{enqueue_write, enqueue_dispatch}
use mygosh.Session.Shutdown.{fail_pending_requests, detach}
use mygosh.Session.Requests.{install_waiter, remove_pending_request, take_waiter}
use mygosh.Session.Opening.{add_channel}
use mygosh.Session.Loops.{cancel_at}

-- A write to a channel that leaves its accounts alone.
abbrev pub IsSilent : (Channel → Channel) → Type 0
IsSilent f =
    (ch : Channel)
    → ((f ch).queued_frames ≡ ch.queued_frames)
      × ((f ch).queued_bytes ≡ ch.queued_bytes)
      × ((f ch).slot ≡ ch.slot)
      × ((f ch).pending_requests ≡ ch.pending_requests)

-- A write to the session that changes the table of global requests alone.
abbrev pub IsGlobal : (Session → Session) → Type 0
IsGlobal f =
    (s : Session)
    → f s ≡ record s {
      next_global_request_id = (f s).next_global_request_id;
      pending_global = (f s).pending_global;
      global_replies = (f s).global_replies;
      incoming_global_requests = (f s).incoming_global_requests;
    }

-- A channel that was just made.
abbrev pub IsFresh : Channel → Type 0
IsFresh ch =
    (ch.queued_frames ≡ 0)
    × (ch.queued_bytes ≡ 0)
    × (ch.slot ≡ no_slot)
    × (ch.pending_requests ≡ [])

pub record Preserved (P : Session → Type 0) : Type 0 where
  pub writes : (id : ℕ) (f : Channel → Channel) → IsSilent f → Keeps P (store id f)
  pub globals : (f : Session → Session) → IsGlobal f → Keeps P (modify f)
  pub reserves : (id frames bytes : ℕ) → Keeps P (reserve_queued id frames bytes)
  pub releases : (id frames bytes : ℕ) → Keeps P (release_queued id frames bytes)
  pub discards : (id : ℕ) → Keeps P (discard_queued id)
  pub numbers : Keeps P reserve_local_channel_id
  pub adds :
      (id : ℕ) (ch : Channel) (peer : Option ℕ) → IsFresh ch → Keeps P (add_channel id ch peer)
  pub peers : (peer id : ℕ) → Keeps P (reserve_peer_channel_id peer id)
  pub activates : (id : ℕ) → Keeps P (activate_channel id)
  pub removes : (id : ℕ) → Keeps P (remove_channel id)
  pub enqueues : (msg : Write) (control : Bool) → Keeps P (enqueue_write msg control)
  pub defers : (task : Task) → Keeps P (enqueue_dispatch task)
  pub fails : (id : ℕ) (e : Err) → Keeps P (fail_pending_requests id e)
  pub waits : (id request : ℕ) (want : Bool) → Keeps P (install_waiter id request want)
  pub forgets : (id request : ℕ) → Keeps P (remove_pending_request id request)
  pub takes : (id request : ℕ) → Keeps P (take_waiter id request)
  pub detaches : (e : Option Err) (close : Err) (s : Session) → P s → P (detach e close s)
  pub cancels : (c : Option Err) (s : Session) → P s → P (record s { cause = c })
  pub finishes :
      (replies : List (ℕ × WaitResult)) (s : Session)
      → P s
      → P (record s { global_replies = replies; queues_closed = true })
  pub takes_task :
      (task : Task) (rest : List Task) (s : Session)
      → s.dispatch_queue ≡ task ∷ rest
      → P s
      → P (final (release_queue_budget 1 (task_size task) (record s { dispatch_queue = rest })))
  pub takes_control :
      (msg : Write) (rest : List Write) (s : Session)
      → s.control_queue ≡ msg ∷ rest
      → P s
      → P (final (release_queue_budget 1 msg.size (record s { control_queue = rest })))
  pub takes_outbound :
      (msg : Write) (rest : List Write) (s : Session)
      → s.outbound_queue ≡ msg ∷ rest
      → P s
      → P (final (release_queue_budget 1 msg.size (record s { outbound_queue = rest })))
  pub takes_shutdown :
      (e : Err) (rest : List Err) (s : Session)
      → s.shutdowns ≡ e ∷ rest
      → P s
      → P (record s { shutdowns = rest })
  pub abandons :
      (n : ℕ) (s : Session) → P s → P (record s { outbound_queue = cancel_at n s.outbound_queue })
  pub starts : (s : Session) → P s → P (record s { activated = true })
