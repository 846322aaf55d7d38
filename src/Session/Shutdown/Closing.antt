-- ===== src/Session/Shutdown/Closing.antt =====
-- Once `shutdown` of lib/session/session.go has run, the session is closing.
use mygosh.Base.{ℕ, ◌≡◌, refl, true, Option, none, some, List, [], ◌∷◌, leb, length}
use mygosh.Session.Message.{World, Envelope}
use mygosh.Session.Error.{Err, is_protocol}
use mygosh.Session.Channel.{Channel}
use mygosh.Session.State.{Session, final, store, Write}
use mygosh.Session.State.Keep.{
  Keeps, keep_rules, keep_channel, keep_branch, keep_either, keep_either_case,
}
use mygosh.Session.Budget.{
  no_frames, no_bytes, discard_queued, release_queue_budget, reserve_queue_budget,
}
use mygosh.Session.Outbound.{
  send_envelope_async, send_envelope_async_after, enqueue_write, push_write, capacity,
}
use mygosh.Session.Shutdown.{
  cancel_channel, fail_pending_requests, channel_shutdown, shutdown_channels, shutdown, announce,
}

abbrev pub IsClosing : Session → Type 0
IsClosing s = s.closing ≡ true

store-IsClosing : (id : ℕ) (f : Channel → Channel) → Keeps IsClosing (store id f)
unfolding Keeps
store-IsClosing id f s h = h

discard_queued-IsClosing : (id : ℕ) → Keeps IsClosing (discard_queued id)
unfolding Keeps discard_queued release_queue_budget
discard_queued-IsClosing id s h = keep_channel IsClosing id s _ h λ ch e. h

fail_pending_requests-IsClosing : (id : ℕ) (e : Err) → Keeps IsClosing (fail_pending_requests id e)
unfolding Keeps fail_pending_requests
fail_pending_requests-IsClosing id e s h = keep_channel IsClosing id s _ h λ ch q. h

cancel_channel-IsClosing : (id : ℕ) (e : Err) → Keeps IsClosing (cancel_channel id e)
unfolding Keeps cancel_channel
cancel_channel-IsClosing id e s h = h

channel_shutdown-IsClosing : (id : ℕ) (e : Err) → Keeps IsClosing (channel_shutdown id e)
unfolding channel_shutdown
channel_shutdown-IsClosing id e =
    search
      (
        keep_rules, store-IsClosing, discard_queued-IsClosing, fail_pending_requests-IsClosing,
        cancel_channel-IsClosing,
      )
      depth 20

shutdown_channels-IsClosing :
    (ids : List ℕ) (e : Err) (s : Session) → IsClosing s → IsClosing (shutdown_channels ids e s)
unfolding shutdown_channels Keeps
shutdown_channels-IsClosing [] e s h = h
shutdown_channels-IsClosing (id ∷ ids) e s h =
    shutdown_channels-IsClosing ids e _ (channel_shutdown-IsClosing id e s h)

reserve_queue_budget-IsClosing :
    (frames bytes : ℕ) → Keeps IsClosing (reserve_queue_budget frames bytes)
unfolding Keeps reserve_queue_budget
reserve_queue_budget-IsClosing frames bytes s h =
    keep_branch IsClosing (no_frames s.config.limits.max_queued_frames_total s.queued_frames frames)
      _ _ h
      (keep_branch IsClosing (no_bytes s.config.limits.max_queued_bytes_total s.queued_bytes bytes)
        _ _ h h)

push_write-IsClosing : (msg : Write) → Keeps IsClosing (push_write msg true)
unfolding Keeps push_write release_queue_budget
push_write-IsClosing msg s h =
    keep_branch IsClosing s.queues_closed _ _ h
      (keep_branch IsClosing (leb (capacity s) (length s.control_queue)) _ _ h h)

send_envelope_async-IsClosing :
    (world : World) (frame : Envelope) → Keeps IsClosing (send_envelope_async world frame)
unfolding send_envelope_async send_envelope_async_after enqueue_write
send_envelope_async-IsClosing world frame =
    search (keep_rules, reserve_queue_budget-IsClosing, push_write-IsClosing) depth 20

announce-IsClosing :
    (world : World) (e : Option Err) (s : Session) → IsClosing s → IsClosing (announce world e s)
unfolding announce Keeps
announce-IsClosing world none s h = h
announce-IsClosing world (some e) s h =
    keep_either IsClosing (is_protocol e) (final (send_envelope_async world _ s)) s
      (send_envelope_async-IsClosing world _ s h) h

pub shutdown-IsClosing :
    (world : World) (e : Option Err) (s : Session) → IsClosing (shutdown world e s)
unfolding shutdown
shutdown-IsClosing world e s =
    keep_either_case IsClosing s.closing s _ (λ h. h)
      (shutdown_channels-IsClosing s.channels _ _ (announce-IsClosing world e _ refl))
