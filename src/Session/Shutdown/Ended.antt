-- ===== src/Session/Shutdown/Ended.antt =====
-- What `shutdown` of lib/session/session.go leaves behind: every channel of the table has ended.
use mygosh.Base.{
  length, ℕ, ◌≡◌, refl, sym, subst, true, false, Option, none, some, List, [], ◌∷◌, arith, ◌==◌,
  ==_iff,
}
use mygosh.Base.{leb, Bool-cases, inl, inr}
use mygosh.Base.Maps.{lookup, member}
use mygosh.Session.Message.{World, Envelope}
use mygosh.Session.Error.{Err, is_protocol}
use mygosh.Session.Channel.{Channel}
use mygosh.Session.State.{Write, Session, final, store}
use mygosh.Session.State.Keep.{keep_either, Keeps, Keeps-bind, keep_channel, keep_branch}
use mygosh.Session.Budget.{
  no_frames, no_bytes, discard_queued, release_queue_budget, reserve_queue_budget,
}
use mygosh.Session.Outbound.{
  send_envelope_async, send_envelope_async_after, enqueue_write, push_write, capacity,
}
use mygosh.Session.Shutdown.{
  mark_failed, answer_open, cancel_channel, fail_pending_requests, channel_shutdown,
  shutdown_channels, shutdown, announce,
}
use mygosh.Session.Shutdown.Stages.{
  IsEnded, HasAt, has-update, fail_waiters, fail_state-is_ended, keeps_error, channel_shutdown-ends,
}

-- What every stage of a shutdown keeps, of any channel.
record IsStable (Q : Channel → Type 0) : Type 0 where
  marks : (e : Err) (ch : Channel) → Q ch → Q (mark_failed e ch)
  empties :
      (ch : Channel) → Q ch → Q (record ch { queued_frames = 0; queued_bytes = 0; frames = [] })
  fails : (e : Err) (ch : Channel) → Q ch → Q (fail_waiters e ch)
  answers : (e : Err) (ch : Channel) → Q ch → Q (answer_open (some e) ch)
  cancels : (c : Option Err) (ch : Channel) → Q ch → Q (record ch { cause = c })

IsEnded-IsStable : IsStable IsEnded
IsEnded-IsStable = record {
  marks = λ e ch q. record {
    stopped = fail_state-is_ended ch.state;
    no_frames = q.no_frames;
    none_queued = q.none_queued;
    none_waiting = q.none_waiting;
    none_opening = q.none_opening;
    reported = keeps_error e ch.session_err;
  };
  empties = λ ch q. record {
    stopped = q.stopped;
    no_frames = refl;
    none_queued = refl;
    none_waiting = q.none_waiting;
    none_opening = q.none_opening;
    reported = q.reported;
  };
  fails = λ e ch q. record {
    stopped = q.stopped;
    no_frames = q.no_frames;
    none_queued = q.none_queued;
    none_waiting = refl;
    none_opening = q.none_opening;
    reported = q.reported;
  };
  answers = λ e ch q. record {
    stopped = q.stopped;
    no_frames = q.no_frames;
    none_queued = q.none_queued;
    none_waiting = q.none_waiting;
    none_opening = refl;
    reported = q.reported;
  };
  cancels = λ c ch q. record {
    stopped = q.stopped;
    no_frames = q.no_frames;
    none_queued = q.none_queued;
    none_waiting = q.none_waiting;
    none_opening = q.none_opening;
    reported = q.reported;
  };
}

present-IsStable : IsStable (λ ch. Unit {0})
present-IsStable = record {
  marks = λ e ch q. q;
  empties = λ ch q. q;
  fails = λ e ch q. q;
  answers = λ e ch q. q;
  cancels = λ c ch q. q;
}

module _ (Q : Channel → Type 0) (stable : IsStable Q) (id : ℕ) where
  store-HasAt :
      (j : ℕ) (f : Channel → Channel)
      → ((ch : Channel) → Q ch → Q (f ch))
      → Keeps (HasAt Q id) (store j f)
  unfolding Keeps
  store-HasAt j f step s q = has-update Q j id f s step q

  discard_queued-HasAt : (j : ℕ) → Keeps (HasAt Q id) (discard_queued j)
  unfolding Keeps discard_queued release_queue_budget
  discard_queued-HasAt j s q =
      keep_channel (HasAt Q id) j s _ q λ ch e. has-update Q j id _ s stable.empties q

  fail_pending_requests-HasAt : (j : ℕ) (e : Err) → Keeps (HasAt Q id) (fail_pending_requests j e)
  unfolding Keeps fail_pending_requests
  fail_pending_requests-HasAt j e s q =
      keep_channel (HasAt Q id) j s _ q λ ch found. has-update Q j id _ s (stable.fails e) q

  cancel_channel-HasAt : (j : ℕ) (e : Err) → Keeps (HasAt Q id) (cancel_channel j e)
  unfolding Keeps cancel_channel
  cancel_channel-HasAt j e s q = has-update Q j id _ s (λ ch. stable.cancels _ ch) q

  channel_shutdown-HasAt : (j : ℕ) (e : Err) → Keeps (HasAt Q id) (channel_shutdown j e)
  unfolding channel_shutdown
  channel_shutdown-HasAt j e = Keeps-bind (HasAt Q id) _ _ (store-HasAt j _ (stable.marks e)) λ _.
      Keeps-bind (HasAt Q id) _ _ (discard_queued-HasAt j) λ _.
        Keeps-bind (HasAt Q id) _ _ (fail_pending_requests-HasAt j e) λ _.
          Keeps-bind (HasAt Q id) _ _ (store-HasAt j _ (stable.answers e))
            λ _. cancel_channel-HasAt j e

  shutdown_channels-HasAt :
      (ids : List ℕ) (e : Err) (s : Session) → HasAt Q id s → HasAt Q id (shutdown_channels ids e s)
  unfolding shutdown_channels Keeps
  shutdown_channels-HasAt [] e s q = q
  shutdown_channels-HasAt (j ∷ ids) e s q =
      shutdown_channels-HasAt ids e _ (channel_shutdown-HasAt j e s q)

channel_shutdown-here :
    (id j : ℕ) (e : Err) (s : Session)
    → j ≡ id
    → HasAt (λ ch. Unit {0}) id s
    → HasAt IsEnded id (final (channel_shutdown j e s))
channel_shutdown-here id j e s same q =
    let (t, went, ended) = channel_shutdown-ends id e s q in
    subst (λ k. HasAt IsEnded id (final (channel_shutdown k e s))) (sym same)
      (subst (λ o. HasAt IsEnded id (final o)) (sym went) ended)

shutdown_channels-ends :
    (id : ℕ) (ids : List ℕ) (e : Err) (s : Session)
    → member id ids ≡ true
    → HasAt (λ ch. Unit {0}) id s
    → HasAt IsEnded id (shutdown_channels ids e s)
unfolding shutdown_channels member Keeps
shutdown_channels-ends id [] e s h q = cc
shutdown_channels-ends id (j ∷ ids) e s h q = elim (Bool-cases (j == id)) [
  | inl same ↦
      shutdown_channels-HasAt IsEnded IsEnded-IsStable id ids e _
        (channel_shutdown-here id j e s ((==_iff j id).0 same) q)
  | inr other ↦
      shutdown_channels-ends id ids e _ (ground (arith, other))
        (channel_shutdown-HasAt _ present-IsStable id j e s q)
]

-- The disconnect that is announced changes no channel.
reserve_queue_budget-HasAt :
    (Q : Channel → Type 0) (id frames bytes : ℕ)
    → Keeps (HasAt Q id) (reserve_queue_budget frames bytes)
unfolding Keeps reserve_queue_budget
reserve_queue_budget-HasAt Q id frames bytes s q =
    keep_branch (HasAt Q id)
      (no_frames s.config.limits.max_queued_frames_total s.queued_frames frames) _ _ q
      (keep_branch (HasAt Q id)
        (no_bytes s.config.limits.max_queued_bytes_total s.queued_bytes bytes) _ _ q q)

push_write-HasAt :
    (Q : Channel → Type 0) (id : ℕ) (msg : Write) → Keeps (HasAt Q id) (push_write msg true)
unfolding Keeps push_write release_queue_budget
push_write-HasAt Q id msg s q =
    keep_branch (HasAt Q id) s.queues_closed _ _ q
      (keep_branch (HasAt Q id) (leb (capacity s) (length s.control_queue)) _ _ q q)

send_envelope_async-HasAt :
    (world : World) (Q : Channel → Type 0) (id : ℕ) (frame : Envelope)
    → Keeps (HasAt Q id) (send_envelope_async world frame)
unfolding send_envelope_async send_envelope_async_after enqueue_write
send_envelope_async-HasAt world Q id frame =
    Keeps-bind (HasAt Q id) _ _ (reserve_queue_budget-HasAt Q id 1 _) λ _. push_write-HasAt Q id _

announce-HasAt :
    (world : World) (Q : Channel → Type 0) (id : ℕ) (e : Option Err) (s : Session)
    → HasAt Q id s
    → HasAt Q id (announce world e s)
unfolding announce Keeps
announce-HasAt world Q id none s q = q
announce-HasAt world Q id (some e) s q =
    keep_either (HasAt Q id) (is_protocol e) (final (send_envelope_async world _ s)) s
      (send_envelope_async-HasAt world Q id _ s q) q

-- When a session that was running ends, for whatever reason, every channel of its table is closed
-- or failed, holds no frames, counts none as queued, has no caller that waits for a reply or for
-- its opening, and has an error for the callers to come.
pub shutdown-ends :
    (world : World) (e : Option Err) (s : Session) (id : ℕ) (ch : Channel)
    → s.closing ≡ false
    → member id s.channels ≡ true
    → lookup id s.heap ≡ some ch
    → HasAt IsEnded id (shutdown world e s)
unfolding shutdown
shutdown-ends world e s id ch running registered found = rw running (
    shutdown_channels-ends id s.channels _ _ registered
      (announce-HasAt world (λ ch. Unit {0}) id e _ (ch, found, tt)))
