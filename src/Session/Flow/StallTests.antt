-- ===== src/Session/Flow/StallTests.antt =====
-- A configuration that `Validate` of lib/session/config.go accepts, with which the flow control of
-- a channel comes to rest: the window, the packet size and the threshold are all 16384.
use mygosh.Base.{◌≡◌, refl, [], ◌∷◌, arith}
use mygosh.Session.Channel.{Channel}
use mygosh.Session.Flow.{spend, accept_frame}
use mygosh.Session.Flow.Link.{
  Link, LinkSteps, stays, then_step, sends, arrives, reads, IsSameFlow, read_frame,
}
use mygosh.Session.Sample.{sample_channel}

abbrev tight_channel : Channel
tight_channel = record sample_channel { local_window = 16_384; remote_window = 16_384 }

abbrev tight_link : Link
tight_link = record {
  sender = tight_channel;
  receiver = tight_channel;
  in_flight = [];
  credits = [];
}

same_flow : (ch : Channel) → IsSameFlow ch ch
same_flow ch = record { remote_window = refl; local_window = refl; pending = refl; frames = refl }

-- One byte is sent and read. Nothing is on the wire, and the sender has 16383 bytes of window.
abbrev rested_link : Link
rested_link = record tight_link {
  sender = spend 1 tight_channel;
  receiver = read_frame (7 ∷ []) [] (accept_frame (7 ∷ []) tight_channel);
}

abbrev sent_byte : Link
sent_byte = record tight_link { sender = spend 1 tight_channel; in_flight = (7 ∷ []) ∷ [] }

abbrev arrived_byte : Link
arrived_byte = record tight_link {
  sender = spend 1 tight_channel;
  receiver = accept_frame (7 ∷ []) tight_channel;
}

rests : LinkSteps 16_384 tight_link rested_link
rests =
    then_step tight_link arrived_byte rested_link
      (then_step tight_link sent_byte arrived_byte
        (then_step tight_link tight_link sent_byte (stays tight_link) (
          sends tight_link (7 ∷ []) (spend 1 tight_channel) (omega arith)
            (same_flow (spend 1 tight_channel))))
        (arrives sent_byte (7 ∷ []) [] (accept_frame (7 ∷ []) tight_channel) refl
          (same_flow (accept_frame (7 ∷ []) tight_channel))))
      (reads arrived_byte (7 ∷ []) [] rested_link.receiver refl (same_flow rested_link.receiver))

window_left : rested_link.sender.remote_window ≡ 16_383
window_left = refl
