-- ===== src/Session/Shutdown.antt =====
-- The end of a channel (`failPendingRequestsLocked`, `shutdown` of lib/session/channel.go) and of
-- the session (`shutdown` of lib/session/session.go).
pub mod Stages
pub mod Ended
pub mod Closing
mod Tests
use mygosh.Base.{ℕ, true, false, Option, none, some, List, [], ◌∷◌, ◌++◌, ◌-◌, map, length}
use mygosh.Base.{if◌then◌else◌}
use mygosh.Session.Message.{World, disconnect, bytes_of}
use mygosh.Session.Error.{Err, session_closed, is_protocol}
use mygosh.Session.Channel.{Channel, ChannelState, closed, failed, aborted}
use mygosh.Session.Budget.{discard_queued}
use mygosh.Session.Outbound.{send_envelope_async}
use mygosh.Session.State.{Session, final, M, ◌>>=◌, ◌>>◌, get, on_channel, store}

-- `context.Cause(ch.ctx)`: the channel's own cause, or the one it takes over from the session.
abbrev pub channel_cause : Session → Channel → Option Err
channel_cause s ch = elim ch.cause [ some e ↦ some e | none ↦ s.cause ]

-- `ch.cancel(err)`: only the first cause of a context counts.
unfoldable pub cancel_channel : ℕ → Err → M (Unit {0})
cancel_channel id e = do
  s ← get
  store id
      λ ch. record ch { cause = elim (channel_cause s ch) [ none ↦ some e | some c ↦ ch.cause ] }

unfoldable pub fail_pending_requests : ℕ → Err → M (Unit {0})
fail_pending_requests id e s = on_channel id s λ ch.
    store id
      (λ ch. record ch {
        replies = ch.replies ++ map (λ request. (request, aborted e)) ch.pending_requests;
        pending_requests = [];
      })
      (record s {
        pending_channel_requests = s.pending_channel_requests - length ch.pending_requests;
      })

abbrev pub fail_state : ChannelState → ChannelState
fail_state closed = closed
fail_state _ = failed

-- The first writes of `shutdown`, and what it sends to a caller that waits for the open result.
abbrev pub mark_failed : Err → Channel → Channel
mark_failed e ch = record ch {
  session_err = elim ch.session_err [ none ↦ some e | some c ↦ some c ];
  state = fail_state ch.state;
}

abbrev pub answer_open : Option Err → Channel → Channel
answer_open e ch = record ch {
  open_replies = if ch.open_wait then ch.open_replies ++ (e ∷ []) else ch.open_replies;
  open_wait = false;
}

unfoldable pub channel_shutdown : ℕ → Err → M (Unit {0})
channel_shutdown id e = do
  store id (mark_failed e)
  discard_queued id
  fail_pending_requests id e
  store id (answer_open (some e))
  cancel_channel id e

unfoldable pub shutdown_channels : List ℕ → Err → Session → Session
shutdown_channels [] e s = s
shutdown_channels (id ∷ ids) e s = shutdown_channels ids e (final (channel_shutdown id e s))

-- What `shutdown` does under `mu`.
abbrev pub detach : Option Err → Err → Session → Session
detach e close s = record s {
  wait_err = e;
  close_err = some close;
  closing = true;
  pending_global = [];
  incoming_global_requests = [];
  channels = [];
  peer_channel_ids = [];
  active_channels = 0;
  pending_opens = 0;
  pending_channel_requests = 0;
}

abbrev pub first_cause : Err → Option Err → Option Err
first_cause e none = some e
first_cause e (some c) = some c

module _ (world : World) where
  -- The generic disconnect that follows a protocol error.
  unfoldable pub announce : Option Err → Session → Session
  announce none s = s
  announce (some e) s =
      if is_protocol e
      then final (
          send_envelope_async world
            (disconnect (
              some
                (record { code = bytes_of "protocol-error"; message = bytes_of "protocol error" })))
            s)
      else s

  -- Runs once. `none` is a clean end by the peer. The goroutine that closes the connection and
  -- waits for the workers is not modelled.
  unfoldable pub shutdown : Option Err → Session → Session
  shutdown e s =
      let close : Err = elim e [ none ↦ session_closed | some x ↦ x ] in
      let told = announce e (detach e close s) in
      let cancelled = record told { cause = first_cause close told.cause } in
      let failed_all = shutdown_channels s.channels close cancelled in
      if s.closing then s else record failed_all {
        global_replies =
            failed_all.global_replies ++ map (λ request. (request, aborted close)) s.pending_global;
        queues_closed = true;
      }
