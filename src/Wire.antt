-- ===== src/Wire.antt =====
-- lib/wire: protobuf messages over a framer. protovalidate and the protobuf codec are parameters.
pub mod Delivery
mod Tests
use mygosh.Base.{
  ℕ, Option, none, some, Bool, true, false, not, List, [], length, ◌==◌, if◌then◌else◌,
}
use mygosh.Bincoder.{Bytes}
use mygosh.Bincoder.Stream.{Written}
use mygosh.Transport.{Transport, Received, frame, error, Err, send_frame, receive_frame}

-- `Framer`, in the form of framer.go: complete frames in both directions, on a state `F`.
pub record Framer {ℓ} (F : Type ℓ) : Type ℓ where
  pub send : Bytes → F → Option Err × F
  pub receive : F → Received Bytes × F

-- A transport is a framer: `var _ wire.FramedConn = (*Transport)(nil)`.
unfoldable pub transport_framer {ℓ κ} :
    {W : Type ℓ} {S : Type κ}
    → (W → Bytes → Written W)
    → (encrypt decrypt : S → Bytes → Option Bytes × S) → Framer (Transport W S)
transport_framer write encrypt decrypt = record {
  send = send_frame write encrypt;
  receive = receive_frame decrypt;
}

pub data WireErr : Type 0 where
  nil_framer nil_message invalid encode empty decode : WireErr
  framer : Err → WireErr

-- `protovalidate.Validate`, `proto.Marshal` and `proto.Unmarshal` of one message type.
pub record Codec {ℓ} (P : Type ℓ) : Type ℓ where
  pub validate : P → Bool
  pub marshal : P → Option Bytes
  pub unmarshal : Bytes → Option P

pub data Reply {ℓ} (P : Type ℓ) : Type ℓ where
  message : P → Reply P
  failure : WireErr → Reply P

-- The decoding of a frame.
unfoldable pub decode_packet {ℓ} : {P : Type ℓ} → Codec P → Bytes → Reply P
decode_packet codec packet =
    if length packet == 0 then failure empty else elim (codec.unmarshal packet) [
      | none ↦ failure decode
      | some m ↦ if not (codec.validate m) then failure invalid else message m
    ]

module _ {ℓ κ} {F : Type ℓ} {P : Type κ} (f : Framer F) (codec : Codec P) where
  -- The sending of an encoded message.
  unfoldable pub send_packet : Option Bytes → F → Option WireErr × F
  send_packet none s = (some encode, s)
  send_packet (some packet) s =
      let (e, t) = f.send packet s in (elim e [ some x ↦ some (framer x) | none ↦ none ], t)

  -- The `framer` is absent where it is nil, and so is the `message`.
  unfoldable pub send_proto : Option F → Option P → Option WireErr × Option F
  send_proto none m = (some nil_framer, none)
  send_proto (some s) none = (some nil_message, some s)
  send_proto (some s) (some m) =
      if not (codec.validate m)
      then (some invalid, some s)
      else let (e, t) = send_packet (codec.marshal m) s in (e, some t)

  -- `target` tells whether the message to fill is there.
  unfoldable pub receive_proto : Option F → Bool → Reply P × Option F
  receive_proto none target = (failure nil_framer, none)
  receive_proto (some s) false = (failure nil_message, some s)
  receive_proto (some s) true =
      let (r, t) = f.receive s in
      (elim r [ error e ↦ failure (framer e) | frame packet ↦ decode_packet codec packet ], some t)
