-- ===== src/Session/Flow/Failure.antt =====
-- A `Send` that fails (lib/session/channel.go), and data and window adjustments that are refused
-- (lib/session/session.go).
use mygosh.Base.{◌≡◌, ap, ◌∙◌, Bool, true, false, Option, some, arith, if◌then◌else◌}
use mygosh.Session.Message.{
  World, ChannelData, ChannelWindowAdjust, channel_data, channel_window_adjust,
}
use mygosh.Session.Error.{Err}
use mygosh.Session.Channel.{Channel}
use mygosh.Session.State.{Session, M, ok, err, pure}
use mygosh.Session.State.Invert.{IsAtomic}
use mygosh.Session.Shutdown.{shutdown}
use mygosh.Session.Shutdown.Closing.{shutdown-IsClosing}
use mygosh.Session.Flow.{SendStep, must_wait, handle_channel_data, handle_channel_window_adjust}
use mygosh.Session.Flow.Delivery.{
  handle_channel_data-IsAtomic, handle_channel_window_adjust-IsAtomic,
}
use mygosh.Session.Loops.{receive, route_envelope, or_shutdown}

module _ (P : Session → Type 0) where
  fits-err :
      (fits : Bool) (m : M SendStep) (s t : Session) (e : Err)
      → (m s ≡ err e t → P t)
      → (if fits then m else pure must_wait) s ≡ err e t
      → P t
  fits-err true m s t e next q = next q
  fits-err false m s t e next q = absurd (grind arith)

-- Data that is refused, for any reason, shuts the session down with that error, and has no other
-- effect: what is shut down is the session as it was before the data arrived.
pub receive-refused_data :
    (world : World) (msg : Option ChannelData) (s t : Session) (e : Err)
    → handle_channel_data msg s ≡ err e t
    → (receive world (channel_data msg) s ≡ shutdown world (some e) s)
      × ((receive world (channel_data msg) s).closing ≡ true)
unfolding receive route_envelope or_shutdown IsAtomic
receive-refused_data world msg s t e h =
    let same : t ≡ s = handle_channel_data-IsAtomic msg s t e h in
    let ends : receive world (channel_data msg) s ≡ shutdown world (some e) s =
      ap (λ o. elim o as (λ x. Session) [ ok a t ↦ t | err e t ↦ shutdown world (some e) t ]) h
      ∙ ap (shutdown world (some e)) same in
    (ends, ap (λ (x : Session). x.closing) ends ∙ shutdown-IsClosing world (some e) s)

-- A window adjustment that is refused, for any reason, shuts the session down with that error, and
-- has no other effect: what is shut down is the session as it was before the adjustment arrived.
pub receive-refused_adjust :
    (world : World) (msg : Option ChannelWindowAdjust) (s t : Session) (e : Err)
    → handle_channel_window_adjust msg s ≡ err e t
    → (receive world (channel_window_adjust msg) s ≡ shutdown world (some e) s)
      × ((receive world (channel_window_adjust msg) s).closing ≡ true)
unfolding receive route_envelope or_shutdown IsAtomic
receive-refused_adjust world msg s t e h =
    let same : t ≡ s = handle_channel_window_adjust-IsAtomic msg s t e h in
    let ends : receive world (channel_window_adjust msg) s ≡ shutdown world (some e) s =
      ap (λ o. elim o as (λ x. Session) [ ok a t ↦ t | err e t ↦ shutdown world (some e) t ]) h
      ∙ ap (shutdown world (some e)) same in
    (ends, ap (λ (x : Session). x.closing) ends ∙ shutdown-IsClosing world (some e) s)
