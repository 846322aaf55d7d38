-- ===== src/Session/Flow/Sending.antt =====
-- What `sendEnvelope` (lib/session/session.go) leaves of the channels and in the queue to the writer.
use mygosh.Base.{ℕ, ◌≡◌, Bool, true, Option, none, some, List, arith}
use mygosh.Session.Message.{Bytes, World, Envelope, channel_data}
use mygosh.Session.Error.{Err}
use mygosh.Session.Channel.{Channel}
use mygosh.Session.State.{Session, Write, nothing}
use mygosh.Session.State.Keep.{Keeps, keep_rules}
use mygosh.Session.Budget.{reserve_queue_budget, release_queue_budget}
use mygosh.Session.Outbound.{
  write_of, ensure_active, throw_if_done, enqueue_write, push_write, send_envelope_after,
  send_envelope,
}

-- A frame to the writer, as the peer is to read it.
abbrev pub data_write : World → ℕ → Bytes → Write
data_write world peer frame =
    write_of world (channel_data (some (record { recipient_channel_id = peer; bytes = frame })))
      nothing true

abbrev HeapIs : List (ℕ × Channel) → Session → Type 0
HeapIs h s = s.heap ≡ h

module _ (h : List (ℕ × Channel)) where
  reserve_queue_budget-heap :
      (frames bytes : ℕ) → Keeps (HeapIs h) (reserve_queue_budget frames bytes)
  unfolding Keeps reserve_queue_budget
  reserve_queue_budget-heap frames bytes s e = ground arith

  push_write-heap : (msg : Write) (control : Bool) → Keeps (HeapIs h) (push_write msg control)
  unfolding Keeps push_write release_queue_budget
  push_write-heap msg control s e = ground arith

  throw_if_done-heap : (c : Option Err) (e : Err) → Keeps (HeapIs h) (throw_if_done c e)
  unfolding Keeps
  throw_if_done-heap none e s q = q
  throw_if_done-heap (some c) e s q = q

  pub send_envelope-heap :
      (world : World) (frame : Envelope) → Keeps (HeapIs h) (send_envelope world frame)
  unfolding send_envelope send_envelope_after ensure_active enqueue_write
  send_envelope-heap world frame =
      search (keep_rules, reserve_queue_budget-heap, push_write-heap, throw_if_done-heap) depth 20
