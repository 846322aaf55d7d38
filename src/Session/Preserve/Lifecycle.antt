-- ===== src/Session/Preserve/Lifecycle.antt =====
-- The methods that end a channel, or a direction of it, keep what the steps keep.
use mygosh.Base.{ℕ, arith, Option, none, some, List, [], ◌∷◌}
use mygosh.Session.Message.{World}
use mygosh.Session.Channel.{Channel, ChannelState, opening, closing, closed, failed, Event}
use mygosh.Session.State.{Session}
use mygosh.Session.State.Keep.{Keeps, keep_rules}
use mygosh.Session.Preserve.{Preserved}
use mygosh.Session.Preserve.Flow.{
  find_channel-Keeps, throw_if_some-Keeps, cancel_channel-Keeps, channel_shutdown-Keeps,
  send_envelope-Keeps, send_envelope_async-Keeps, shutdown-Keeps,
}
use mygosh.Session.Lifecycle.{
  push_event, queue_event, remote_eof_from, enqueue_channel_eof, close_write, close_write_undo,
  close_write_from, start_close, close_from, close, close_timeout_from, close_timeout, remote_close,
  remote_close_from, enqueue_channel_close, cancel_if_drained, handle_remote_close,
}

module _ {P : Session → Type 0} (p : Preserved P) where
  open p use {writes, reserves, releases, discards, fails, removes}

  pub push_event-Keeps : (id : ℕ) (event : Event) → Keeps P (push_event id event)
  unfolding push_event
  push_event-Keeps id event = search (keep_rules, writes, releases) depth 20

  queue_event-Keeps : (id : ℕ) (event : Event) → Keeps P (queue_event id event)
  unfolding queue_event
  queue_event-Keeps id event = search (keep_rules, reserves, push_event-Keeps)

  remote_eof_from-Keeps :
      (id : ℕ) (state : ChannelState) (next : Option ChannelState)
      → Keeps P (remote_eof_from id state next)
  unfolding remote_eof_from
  remote_eof_from-Keeps id state none = search keep_rules
  remote_eof_from-Keeps id state (some next) =
      search (keep_rules, writes, queue_event-Keeps) depth 20

  pub enqueue_channel_eof-Keeps : (id : ℕ) → Keeps P (enqueue_channel_eof id)
  unfolding enqueue_channel_eof
  enqueue_channel_eof-Keeps id =
      search (keep_rules, find_channel-Keeps p, remote_eof_from-Keeps) depth 20

  pub close_write_undo-Keeps :
      (id : ℕ) (previous : ChannelState) → Keeps P (close_write_undo id previous)
  unfolding close_write_undo
  close_write_undo-Keeps id previous = writes id _ (λ ch. ground arith)

  close_timeout_from-Keeps : (id : ℕ) (state : ChannelState) → Keeps P (close_timeout_from id state)
  unfolding close_timeout_from
  close_timeout_from-Keeps id closing = search (keep_rules, writes, removes)
  close_timeout_from-Keeps id _ = search keep_rules

  pub close_timeout-Keeps : (id : ℕ) → Keeps P (close_timeout id)
  unfolding close_timeout
  close_timeout-Keeps id = search (keep_rules, close_timeout_from-Keeps)

  cancel_if_drained-Keeps :
      (id : ℕ) (frames : List (List ℕ)) → Keeps P (cancel_if_drained id frames)
  cancel_if_drained-Keeps id [] = search (cancel_channel-Keeps p)
  cancel_if_drained-Keeps id (frame ∷ rest) = search keep_rules

  pub handle_remote_close-Keeps : (id : ℕ) → Keeps P (handle_remote_close id)
  unfolding handle_remote_close
  handle_remote_close-Keeps id = search (keep_rules, fails, cancel_if_drained-Keeps) depth 20

  module _ (world : World) where
    close_write_from-Keeps :
        (id : ℕ) (ch : Channel) (next : Option ChannelState)
        → Keeps P (close_write_from world id ch next)
    unfolding close_write_from
    close_write_from-Keeps id ch none = search keep_rules
    close_write_from-Keeps id ch (some next) =
        search (keep_rules, writes, send_envelope-Keeps p world, close_write_undo-Keeps) depth 20

    pub close_write-Keeps : (id : ℕ) → Keeps P (close_write world id)
    unfolding close_write
    close_write-Keeps id =
        search (keep_rules, throw_if_some-Keeps p, close_write_from-Keeps) depth 20

    start_close-Keeps : (id peer : ℕ) → Keeps P (start_close world id peer)
    unfolding start_close
    start_close-Keeps id peer =
        search
          (
            keep_rules,
            writes,
            discards,
            fails,
            cancel_channel-Keeps p,
            send_envelope_async-Keeps p world,
            shutdown-Keeps p world,
          )
          depth 20

    close_from-Keeps :
        (id peer : ℕ) (state : ChannelState) → Keeps P (close_from world id peer state)
    unfolding close_from
    close_from-Keeps id peer closing = search keep_rules
    close_from-Keeps id peer closed = search keep_rules
    close_from-Keeps id peer failed = search keep_rules
    close_from-Keeps id peer opening =
        search (keep_rules, writes, removes, channel_shutdown-Keeps p) depth 20
    close_from-Keeps id peer _ = start_close-Keeps id peer

    pub close-Keeps : (id : ℕ) → Keeps P (close world id)
    unfolding close
    close-Keeps id = search (keep_rules, close_from-Keeps)

    remote_close-Keeps : (id peer : ℕ) → Keeps P (remote_close world id peer)
    unfolding remote_close
    remote_close-Keeps id peer =
        search (keep_rules, writes, queue_event-Keeps, send_envelope_async-Keeps p world, removes)
          depth 20

    remote_close_from-Keeps :
        (id peer : ℕ) (state : ChannelState) → Keeps P (remote_close_from world id peer state)
    unfolding remote_close_from
    remote_close_from-Keeps id peer closing = search (keep_rules, writes, removes)
    remote_close_from-Keeps id peer opening = search keep_rules
    remote_close_from-Keeps id peer closed = search keep_rules
    remote_close_from-Keeps id peer failed = search keep_rules
    remote_close_from-Keeps id peer _ = remote_close-Keeps id peer

    pub enqueue_channel_close-Keeps : (id : ℕ) → Keeps P (enqueue_channel_close world id)
    unfolding enqueue_channel_close
    enqueue_channel_close-Keeps id =
        search (keep_rules, find_channel-Keeps p, remote_close_from-Keeps)
