-- ===== src/Wire/Delivery.antt =====
-- A message sent by lib/wire/proto.go over a transport, and received by the peer.
use mygosh.Base.{
  Option, none, some, inl, inr, Bool, true, false, not, Bool-cases, ◌++◌, length, ◌==◌,
}
use mygosh.Base.{◌≡◌, refl, ap, subst, ◌∙◌, if◌then◌else◌, arith}
use mygosh.Bincoder.{Bytes}
use mygosh.Bincoder.Stream.{Written}
use mygosh.Bincoder.Writing.{Honest}
use mygosh.Bincoder.Framing.{framed}
use mygosh.Transport.{Transport, Received, frame, error, Err, send_frame}
use mygosh.Transport.Frames.{Opens, send_frame-Sends, receive_frame-Sends}
use mygosh.Wire.{
  Framer, Codec, transport_framer, send_proto, receive_proto, send_packet, decode_packet,
}
use mygosh.Wire.{WireErr, Reply, message, failure, framer, invalid}

-- The codec reads back what it wrote, and a valid message has a byte or more.
pub record Codes {ℓ} (P : Type ℓ) (codec : Codec P) : Type ℓ where
  pub reads_back : (m : P) (b : Bytes) → codec.marshal m ≡ some b → codec.unmarshal b ≡ some m
  pub has_bytes :
      (m : P) (b : Bytes)
      → codec.validate m ≡ true
      → codec.marshal m ≡ some b
      → (length b == 0) ≡ false

module _ {ℓ κ η} {W : Type ℓ} {S : Type κ} {P : Type η} (write : W → Bytes → Written W)
    (sent : W → Bytes) (encrypt decrypt : S → Bytes → Option Bytes × S) (codec : Codec P)
    (honest : Honest W write sent) (opens : Opens S encrypt decrypt) (codes : Codes P codec) where
  abbrev framing : Framer (Transport W S)
  framing = transport_framer write encrypt decrypt

  -- A send without an error: the message is valid, and its encoding went out as one frame.
  send_proto-ok :
      (m : P) (t u : Transport W S)
      → send_proto framing codec (some t) (some m) ≡ (none, some u)
      → (codec.validate m ≡ true)
        × ((b : Bytes) × (codec.marshal m ≡ some b) × (send_frame write encrypt b t ≡ (none, u)))
  unfolding send_proto send_packet transport_framer
  send_proto-ok m t u h = elim (Bool-cases (codec.validate m)) [
    | inr e ↦ ground (arith, subst (λ b. checked b ≡ (none, some u)) e h)
    | inl e ↦ (e, packed (codec.marshal m) refl (subst (λ b. checked b ≡ (none, some u)) e h))
  ]
    where
      paired : Option WireErr × Transport W S → Option WireErr × Option (Transport W S)
      paired r = (r.0, some r.1)

      checked : Bool → Option WireErr × Option (Transport W S)
      checked b =
          if not b
          then (some invalid, some t)
          else paired (send_packet framing codec (codec.marshal m) t)

      on_framer :
          (r : Option Err × Transport W S)
          → paired (elim r.0 [ some x ↦ some (framer x) | none ↦ none ], r.1) ≡ (none, some u)
          → r ≡ (none, u)
      on_framer (some x, w) k = ground (arith, k)
      on_framer (none, w) k = ground (arith, k)

      packed :
          (o : Option Bytes)
          → codec.marshal m ≡ o
          → paired (send_packet framing codec o t) ≡ (none, some u)
          → (b : Bytes) × (codec.marshal m ≡ some b) × (send_frame write encrypt b t ≡ (none, u))
      packed none e k = ground (arith, k)
      packed (some b) e k = (b, e, on_framer (send_frame write encrypt b t) k)

  decode_packet-marshal :
      (m : P) (b : Bytes)
      → codec.validate m ≡ true
      → codec.marshal m ≡ some b
      → decode_packet codec b ≡ message m
  unfolding decode_packet
  decode_packet-marshal m b v e = rw (codes.has_bytes m b v e, codes.reads_back m b e, v) refl

  -- Let the receiver's `rx` be the sender's `tx`. A message that `SendProto` sent without an error
  -- is the message that `ReceiveProto` returns to the peer, who then is in step with the sender.
  pub receive_proto-send_proto :
      (m : P) (t u v : Transport W S) (rest : Bytes)
      → v.rx ≡ t.tx
      → send_proto framing codec (some t) (some m) ≡ (none, some u)
      → (received : Bytes) × (sent u.conn ≡ sent t.conn ++ received)
        × (receive_proto framing codec (some (record v { incoming = received ++ rest })) true
            ≡ (message m, some (record v { incoming = rest; rx = u.tx })))
  unfolding receive_proto transport_framer
  receive_proto-send_proto m t u v rest k h =
      let (valid, encoded) = send_proto-ok m t u h in
      let (b, e, sending) = encoded in
      let n = send_frame-Sends write sent encrypt decrypt honest opens b t u sending in
      let reading = receive_frame-Sends write sent encrypt decrypt honest opens b t u v n rest k in
      (
        framed n.sealed,
        n.on_wire,
        ap take_packet reading
            ∙ ap (λ r. (r, some (record v { incoming = rest; rx = u.tx })))
                (decode_packet-marshal m b valid e),
      )
    where
      take_packet : Received Bytes × Transport W S → Reply P × Option (Transport W S)
      take_packet r = (
        elim r.0 [ error e ↦ failure (framer e) | frame packet ↦ decode_packet codec packet ],
        some r.1,
      )
