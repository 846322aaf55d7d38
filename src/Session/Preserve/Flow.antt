-- ===== src/Session/Preserve/Flow.antt =====
-- The methods on channel data, and the shutdowns that they may start, keep what the steps keep.
use mygosh.Base.{ℕ, Option, none, some, List, [], ◌∷◌, Bool-cases, inl, inr}
use mygosh.Base.Maps.{member}
use mygosh.Session.Error.{Err, is_protocol}
use mygosh.Session.Message.{World, Bytes, ChannelData, ChannelWindowAdjust, Envelope}
use mygosh.Session.Channel.{Channel}
use mygosh.Session.State.{Session, M, final, After}
use mygosh.Session.State.Keep.{Keeps, Keeps-load, keep_either, keep_rules}
use mygosh.Session.Preserve.{Preserved}
use mygosh.Session.Registry.{find_channel}
use mygosh.Session.Outbound.{
  ensure_active, throw_if_done, send_envelope_after, send_envelope, send_envelope_async_after,
  send_envelope_async,
}
use mygosh.Session.Shutdown.{
  cancel_channel, channel_shutdown, shutdown_channels, announce, shutdown,
}
use mygosh.Session.Flow.{
  handle_channel_data, handle_channel_window_adjust, throw_if_some, send, send_undo, send_reserved,
  send_adjust, recv, recv_frame, recv_empty, session_error_or, give_up, recv_from, RecvStep,
}

module _ {P : Session → Type 0} (p : Preserved P) where
  open p use {writes, reserves, releases, discards, enqueues, fails, detaches, cancels, finishes}

  pub find_channel-Keeps : (id : ℕ) → Keeps P (find_channel id)
  unfolding find_channel Keeps
  find_channel-Keeps id s h = elim (Bool-cases (member id s.channels)) [
    | inl e ↦ rw (e, final) (unfold Keeps in Keeps-load P id s h)
    | inr e ↦ rw (e, final) h
  ]

  pub throw_if_some-Keeps : (e : Option Err) → Keeps P (throw_if_some e)
  throw_if_some-Keeps none = search keep_rules
  throw_if_some-Keeps (some e) = search keep_rules

  pub handle_channel_data-Keeps : (msg : Option ChannelData) → Keeps P (handle_channel_data msg)
  unfolding handle_channel_data
  handle_channel_data-Keeps none = search keep_rules
  handle_channel_data-Keeps (some msg) =
      search (keep_rules, find_channel-Keeps, reserves, writes) depth 20

  pub handle_channel_window_adjust-Keeps :
      (msg : Option ChannelWindowAdjust) → Keeps P (handle_channel_window_adjust msg)
  unfolding handle_channel_window_adjust
  handle_channel_window_adjust-Keeps none = search keep_rules
  handle_channel_window_adjust-Keeps (some msg) =
      search (keep_rules, find_channel-Keeps, writes) depth 20

  throw_if_done-Keeps : (c : Option Err) (e : Err) → Keeps P (throw_if_done c e)
  throw_if_done-Keeps none e = search keep_rules
  throw_if_done-Keeps (some c) e = search keep_rules

  pub ensure_active-Keeps : Keeps P ensure_active
  unfolding ensure_active
  ensure_active-Keeps = search (keep_rules, throw_if_done-Keeps) depth 20

  pub cancel_channel-Keeps : (id : ℕ) (e : Err) → Keeps P (cancel_channel id e)
  unfolding cancel_channel
  cancel_channel-Keeps id e = search (keep_rules, writes) depth 20

  pub channel_shutdown-Keeps : (id : ℕ) (e : Err) → Keeps P (channel_shutdown id e)
  unfolding channel_shutdown
  channel_shutdown-Keeps id e =
      search (keep_rules, writes, discards, fails, cancel_channel-Keeps) depth 20

  pub send_undo-Keeps : (id : ℕ) (frame : Bytes) (e : Err) → Keeps P (send_undo id frame e)
  unfolding send_undo
  send_undo-Keeps id frame e = search writes

  module _ (world : World) where
    pub send_envelope_after-Keeps :
        (frame : Envelope) (after : After) → Keeps P (send_envelope_after world frame after)
    unfolding send_envelope_after
    send_envelope_after-Keeps frame after = search (keep_rules, ensure_active-Keeps, enqueues)

    pub send_envelope-Keeps : (frame : Envelope) → Keeps P (send_envelope world frame)
    unfolding send_envelope
    send_envelope-Keeps frame = send_envelope_after-Keeps frame _

    pub send_envelope_async_after-Keeps :
        (frame : Envelope) (after : After) → Keeps P (send_envelope_async_after world frame after)
    unfolding send_envelope_async_after
    send_envelope_async_after-Keeps frame after = enqueues _ _

    pub send_envelope_async-Keeps : (frame : Envelope) → Keeps P (send_envelope_async world frame)
    unfolding send_envelope_async
    send_envelope_async-Keeps frame = send_envelope_async_after-Keeps frame _

    announce-Keeps : (e : Option Err) (s : Session) → P s → P (announce world e s)
    unfolding announce
    announce-Keeps none s h = h
    announce-Keeps (some e) s h =
        keep_either P (is_protocol e) _ _ (unfold Keeps in send_envelope_async-Keeps _ s h) h

    shutdown_channels-Keeps :
        (ids : List ℕ) (e : Err) (s : Session) → P s → P (shutdown_channels ids e s)
    unfolding shutdown_channels
    shutdown_channels-Keeps [] e s h = h
    shutdown_channels-Keeps (id ∷ ids) e s h =
        shutdown_channels-Keeps ids e _ (unfold Keeps in channel_shutdown-Keeps id e s h)

    pub shutdown-Keeps : (e : Option Err) (s : Session) → P s → P (shutdown world e s)
    unfolding shutdown
    shutdown-Keeps e s h = keep_either P s.closing _ _ h (
        finishes _ _
          (shutdown_channels-Keeps _ _ _ (cancels _ _ (announce-Keeps e _ (detaches e _ s h)))))

    send_reserved-Keeps :
        (id peer : ℕ) (frame : Bytes) → Keeps P (send_reserved world id peer frame)
    unfolding send_reserved
    send_reserved-Keeps id peer frame =
        search (keep_rules, writes, send_envelope-Keeps, send_undo-Keeps) depth 20

    pub send-Keeps : (id : ℕ) (frame : Bytes) → Keeps P (send world id frame)
    unfolding send
    send-Keeps id frame = search (keep_rules, throw_if_some-Keeps, send_reserved-Keeps) depth 20

    send_adjust-Keeps : (peer adjust : ℕ) → Keeps P (send_adjust world peer adjust)
    unfolding send_adjust
    send_adjust-Keeps peer adjust =
        search (keep_rules, send_envelope-Keeps, shutdown-Keeps) depth 20

    recv_frame-Keeps :
        (id : ℕ) (frame : Bytes) (rest : List Bytes) → Keeps P (recv_frame world id frame rest)
    unfolding recv_frame
    recv_frame-Keeps id frame rest =
        search (keep_rules, writes, releases, send_adjust-Keeps) depth 20

    give_up-Keeps : (e : Option Err) → Keeps P (give_up e)
    give_up-Keeps none = search keep_rules
    give_up-Keeps (some e) = search keep_rules

    session_error_or-Keeps :
        (e : Option Err) (m : M RecvStep) → Keeps P m → Keeps P (session_error_or e m)
    session_error_or-Keeps none m h = h
    session_error_or-Keeps (some e) m h = search keep_rules

    recv_empty-Keeps : (id : ℕ) (ch : Channel) → Keeps P (recv_empty id ch)
    unfolding recv_empty
    recv_empty-Keeps id ch =
        search (keep_rules, session_error_or-Keeps, give_up-Keeps, cancel_channel-Keeps) depth 20

    recv_from-Keeps :
        (id : ℕ) (ch : Channel) (frames : List Bytes) → Keeps P (recv_from world id ch frames)
    recv_from-Keeps id ch [] = recv_empty-Keeps id ch
    recv_from-Keeps id ch (frame ∷ rest) = recv_frame-Keeps id frame rest

    pub recv-Keeps : (id : ℕ) → Keeps P (recv world id)
    unfolding recv
    recv-Keeps id = search (keep_rules, recv_from-Keeps) depth 20
