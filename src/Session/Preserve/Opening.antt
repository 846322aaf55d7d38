-- ===== src/Session/Preserve/Opening.antt =====
-- The methods that open channels keep what the steps keep.
use mygosh.Base.{ℕ, Option, none, some}
use mygosh.Session.Error.{Err}
use mygosh.Session.Message.{World, Bytes, ChannelOpen, ChannelOpenResult, OpenOutcome, OpenDecision}
use mygosh.Session.Channel.{ChannelState, opening}
use mygosh.Session.State.{Session}
use mygosh.Session.State.Keep.{Keeps, keep_rules}
use mygosh.Session.Preserve.{Preserved}
use mygosh.Session.Preserve.Flow.{
  find_channel-Keeps, throw_if_some-Keeps, ensure_active-Keeps, channel_shutdown-Keeps,
  send_envelope-Keeps, send_envelope_after-Keeps, send_envelope_async-Keeps,
}
use mygosh.Session.Preserve.Lifecycle.{close-Keeps}
use mygosh.Session.Preserve.Requests.{violation_if-Keeps}
use mygosh.Session.Outbound.{send_channel_open_reject, send_channel_open_reject_async}
use mygosh.Session.Opening.{
  open_result_from, handle_channel_open_result, open_channel, abandon_from, abandon_open,
  admission_failed, open_dispatch_failed, enqueue_incoming_open, refuse_open, accept_undo,
  admit_open, decide_open, handle_open_at, handle_channel_open,
}

module _ {P : Session → Type 0} (p : Preserved P) where
  open p use {writes, numbers, adds, peers, activates, removes, defers}

  open_result_from-Keeps : (id : ℕ) (result : OpenOutcome) → Keeps P (open_result_from id result)
  unfolding open_result_from
  open_result_from-Keeps id (OpenOutcome.success accept) =
      search (keep_rules, writes, peers, activates) depth 30
  open_result_from-Keeps id (OpenOutcome.reject r) =
      search (keep_rules, writes, removes, violation_if-Keeps p, channel_shutdown-Keeps p) depth 30
  open_result_from-Keeps id OpenOutcome.unset = search keep_rules

  pub handle_channel_open_result-Keeps :
      (msg : Option ChannelOpenResult) → Keeps P (handle_channel_open_result msg)
  unfolding handle_channel_open_result
  handle_channel_open_result-Keeps none = search keep_rules
  handle_channel_open_result-Keeps (some msg) =
      search (keep_rules, find_channel-Keeps p, writes, open_result_from-Keeps) depth 20

  pub accept_undo-Keeps : (id : ℕ) (e : Err) → Keeps P (accept_undo id e)
  unfolding accept_undo
  accept_undo-Keeps id e = search (keep_rules, removes, channel_shutdown-Keeps p)

  module _ (world : World) where
    pub open_channel-Keeps :
        (typ payload : Bytes) (handler : ℕ) → Keeps P (open_channel world typ payload handler)
    unfolding open_channel
    open_channel-Keeps typ payload handler =
        search
          (
            keep_rules,
            throw_if_some-Keeps p,
            ensure_active-Keeps p,
            numbers,
            adds,
            send_envelope-Keeps p world,
            removes,
            channel_shutdown-Keeps p,
          )
          depth 30

    abandon_from-Keeps :
        (id : ℕ) (e : Err) (state : ChannelState) → Keeps P (abandon_from world id e state)
    unfolding abandon_from
    abandon_from-Keeps id e opening =
        search (keep_rules, writes, removes, channel_shutdown-Keeps p) depth 20
    abandon_from-Keeps id e _ = search (keep_rules, close-Keeps p world)

    pub abandon_open-Keeps : (id : ℕ) (e : Err) → Keeps P (abandon_open world id e)
    unfolding abandon_open
    abandon_open-Keeps id e = search (keep_rules, abandon_from-Keeps)

    reject_open-Keeps :
        (peer : ℕ) (code message : Bytes)
        → Keeps P (send_channel_open_reject_async world peer code message)
    unfolding send_channel_open_reject_async
    reject_open-Keeps peer code message = send_envelope_async-Keeps p world _

    admission_failed-Keeps : (msg : ChannelOpen) (e : Err) → Keeps P (admission_failed world msg e)
    admission_failed-Keeps msg e = search (keep_rules, reject_open-Keeps)

    open_dispatch_failed-Keeps :
        (id : ℕ) (msg : ChannelOpen) (e : Err) → Keeps P (open_dispatch_failed world id msg e)
    open_dispatch_failed-Keeps id msg e =
        search (keep_rules, removes, channel_shutdown-Keeps p, reject_open-Keeps) depth 20

    pub enqueue_incoming_open-Keeps :
        (msg : Option ChannelOpen) → Keeps P (enqueue_incoming_open world msg)
    unfolding enqueue_incoming_open
    enqueue_incoming_open-Keeps none = search keep_rules
    enqueue_incoming_open-Keeps (some msg) =
        search
          (
            keep_rules,
            violation_if-Keeps p,
            numbers,
            adds,
            admission_failed-Keeps,
            defers,
            open_dispatch_failed-Keeps,
          )
          depth 30

    refuse_open-Keeps :
        (id : ℕ) (msg : ChannelOpen) (decision : OpenDecision)
        → Keeps P (refuse_open world id msg decision)
    unfolding refuse_open send_channel_open_reject
    refuse_open-Keeps id msg decision =
        search (keep_rules, removes, channel_shutdown-Keeps p, send_envelope-Keeps p world) depth 20

    admit_open-Keeps :
        (id : ℕ) (msg : ChannelOpen) (decision : OpenDecision)
        → Keeps P (admit_open world id msg decision)
    unfolding admit_open
    admit_open-Keeps id msg decision =
        search (keep_rules, writes, activates, send_envelope_after-Keeps p world, accept_undo-Keeps)
          depth 30

    decide_open-Keeps :
        (id : ℕ) (msg : ChannelOpen) (decision : OpenDecision)
        → Keeps P (decide_open world id msg decision)
    unfolding decide_open
    decide_open-Keeps id msg decision =
        search
          (
            keep_rules,
            throw_if_some-Keeps p,
            removes,
            channel_shutdown-Keeps p,
            admit_open-Keeps,
            refuse_open-Keeps,
          )
          depth 20

    handle_open_at-Keeps :
        (msg : ChannelOpen) (at : Option ℕ) → Keeps P (handle_open_at world msg at)
    handle_open_at-Keeps msg none = search keep_rules
    handle_open_at-Keeps msg (some id) = decide_open-Keeps id msg _

    pub handle_channel_open-Keeps : (msg : ChannelOpen) → Keeps P (handle_channel_open world msg)
    unfolding handle_channel_open
    handle_channel_open-Keeps msg = search (keep_rules, handle_open_at-Keeps)
