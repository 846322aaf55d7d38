-- ===== src/Session/State.antt =====
-- The state of lib/session/session.go, and the monad that its methods are written in: a method
-- returns a result or an error, and in both cases the state that it leaves behind.
pub mod Keep
pub mod Invert
use mygosh.Base.{ℕ, Bool, Option, none, some, List, if◌then◌else◌}
use mygosh.Base.Maps.{lookup, update}
use mygosh.Session.Config.{Config}
use mygosh.Session.Message.{ChannelOpen, GlobalRequest, Envelope}
use mygosh.Session.Error.{Err, nil_pointer}
use mygosh.Session.Channel.{Channel, WaitResult}

pub data WriteState : Type 0 where
  write_queued write_started write_canceled write_done : WriteState

-- The `after` callback of a queued write.
pub data After : Type 0 where
  nothing : After
  finish_request : ℕ → ℕ → After
  finish_global : ℕ → After
  start_worker : ℕ → After

-- `outboundWrite`; `waiter` tells whether a caller waits for the result.
pub record Write : Type 0 where
  pub envelope : Envelope
  pub size : ℕ
  pub after : After
  pub waiter : Bool
  pub state : WriteState

-- `dispatchTask`, each with the encoded size of its message.
pub data Task : Type 0 where
  open_task : ChannelOpen → ℕ → Task
  global_task : GlobalRequest → ℕ → Task

abbrev pub task_size : Task → ℕ
task_size (open_task m size) = size
task_size (global_task m size) = size

-- `heap` holds every channel that was made, by its local id;
-- `channels` is the key set of the map `s.channels`, whose value at a key is the heap's entry.
-- `cause` is the cause that the session's context was cancelled with. `shutdowns` are the
-- goroutines `go s.shutdown(err)` that were started.
pub record Session : Type 0 where
  pub config : Config
  pub activated : Bool
  pub cause : Option Err
  pub heap : List (ℕ × Channel)
  pub next_local_channel_id : ℕ  -- uint64
  pub channels : List ℕ
  pub peer_channel_ids : List (ℕ × ℕ)
  pub active_channels : ℕ  -- uint32
  pub pending_opens : ℕ  -- uint32
  pub next_global_request_id : ℕ  -- uint64
  pub pending_global : List ℕ
  pub global_replies : List (ℕ × WaitResult)
  pub incoming_global_requests : List ℕ
  pub pending_channel_requests : ℕ  -- uint32
  pub wait_err : Option Err
  pub close_err : Option Err
  pub closing : Bool
  pub queued_frames : ℕ  -- uint32
  pub queued_bytes : ℕ  -- uint64
  pub queues_closed : Bool
  pub dispatch_queue : List Task
  pub control_queue : List Write
  pub outbound_queue : List Write
  pub shutdowns : List Err

pub data Outcome {ℓ} (A : Type ℓ) : Type ℓ where
  ok : A → Session → Outcome A
  err : Err → Session → Outcome A

-- The state that a method leaves behind.
abbrev pub final {ℓ} : {A : Type ℓ} → Outcome A → Session
final (ok a s) = s
final (err e s) = s

abbrev pub M {ℓ} : Type ℓ → Type ℓ
M A = Session → Outcome A

abbrev pub pure {ℓ} : {A : Type ℓ} → A → M A
pure a s = ok a s

abbrev pub throw {ℓ} : {A : Type ℓ} → Err → M A
throw e s = err e s

abbrev pub done : M (Unit {0})
done s = ok tt s

infixl 5 ◌>>=◌ ◌>>◌
abbrev pub ◌>>=◌ {ℓ κ} : {A : Type ℓ} {B : Type κ} → M A → (A → M B) → M B
◌>>=◌ m f s = elim (m s) [ ok a t ↦ f a t | err e t ↦ err e t ]

abbrev pub ◌>>◌ {ℓ} : {B : Type ℓ} → M (Unit {0}) → M B → M B
m >> k = m >>= λ _. k

abbrev pub get : M Session
get s = ok s s

abbrev pub modify : (Session → Session) → M (Unit {0})
modify f s = ok tt (f s)

-- `if bad { return error }`
abbrev pub fail_if : Bool → Err → M (Unit {0})
fail_if bad e s = if bad then err e s else ok tt s

-- `if err := m(); err != nil { handler; return }` in the form that hands on the error.
abbrev pub catch {ℓ} : {A : Type ℓ} → M A → (Err → M A) → M A
catch m h s = elim (m s) [ ok a t ↦ ok a t | err e t ↦ h e t ]

-- `if err := m(); err != nil { return h(err) }` before the rest of a method.
abbrev pub on_error {ℓ κ} : {A : Type ℓ} {B : Type κ} → M A → (Err → M B) → (A → M B) → M B
on_error m h k s = elim (m s) [ ok a t ↦ k a t | err e t ↦ h e t ]

-- A read through `*Channel`, and a write to its fields.
unfoldable pub on_channel {ℓ} : {A : Type ℓ} → ℕ → Session → (Channel → Outcome A) → Outcome A
on_channel id s k = elim (lookup id s.heap) [ none ↦ err nil_pointer s | some ch ↦ k ch ]

unfoldable pub load : ℕ → M Channel
unfolding on_channel
load id s = on_channel id s λ ch. ok ch s

abbrev pub store : ℕ → (Channel → Channel) → M (Unit {0})
store id f s = ok tt (record s { heap = update id f s.heap })
