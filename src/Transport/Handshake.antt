-- ===== src/Transport/Handshake.antt =====
-- The handshake loop of lib/transport/transport.go, and the turns that it takes.
use mygosh.Base.{ℕ, zero, suc, ◌+◌, ◌%◌, Option, none, some, []}
use mygosh.Base.{Bool, ◌==◌, length, if◌then◌else◌}
use mygosh.Bincoder.{Bytes}
use mygosh.Bincoder.Stream.{Written}
use mygosh.Transport.{Transport, frame, error, Err, handshake_error, no_binding, no_fuel}
use mygosh.Transport.{set_cipher_states, recv_chunk, send_chunk}

-- What `WriteMessage` returns: the message, the two cipher states once the handshake is over,
-- and the next handshake state.
pub record Spoken {ℓ κ} (H : Type ℓ) (S : Type κ) : Type (ℓ ⊔ κ) where
  pub message : Bytes
  pub first : Option S
  pub second : Option S
  pub next : H

-- What `ReadMessage` returns, less the message's payload, which the code drops.
pub record Heard {ℓ κ} (H : Type ℓ) (S : Type κ) : Type (ℓ ⊔ κ) where
  pub first : Option S
  pub second : Option S
  pub next : H

-- noise.HandshakeState; a method returns nothing where it returns an error.
pub record Noise {ℓ κ} (H : Type ℓ) (S : Type κ) : Type (ℓ ⊔ κ) where
  pub write_message : H → Option (Spoken H S)
  pub read_message : H → Bytes → Option (Heard H S)
  pub channel_binding : H → Bytes

-- `shouldWrite`
unfoldable pub should_write : Bool → ℕ
should_write initiator = if initiator then 0 else 1

unfoldable pub is_writing : Bool → ℕ → Bool
unfolding should_write
is_writing initiator msg_seq = msg_seq % 2 == should_write initiator

-- The two branches of a round go on or break in the same way.
unfoldable pub after_message {ℓ κ η} :
    {W : Type ℓ} {S : Type κ} {H : Type η}
    → Noise H S
    → Bool
    → Option S
    → Option S
    → H
    → Transport W S
    → Option Err × Transport W S
    → Option Err × Transport W S
after_message noise initiator (some first) (some second) state t rest =
    let u = set_cipher_states first second initiator t in
    (none, record u { channel_binding = noise.channel_binding state })
after_message noise initiator _ _ state t rest = rest

-- The end of `handshake`: a finished handshake must have a channel binding.
unfoldable pub require_binding {ℓ κ} :
    {W : Type ℓ} {S : Type κ} → Option Err × Transport W S → Option Err × Transport W S
require_binding (some e, t) = (some e, t)
require_binding (none, t) =
    if length t.channel_binding == 0 then (some no_binding, t) else (none, t)

module _ {ℓ κ η} {W : Type ℓ} {S : Type κ} {H : Type η} (write : W → Bytes → Written W)
    (noise : Noise H S) (initiator : Bool) where
  -- The two kinds of rounds; `k` is the rest of the loop.
  unfoldable pub write_turn :
      H
      → Transport W S
      → (H → Transport W S → Option Err × Transport W S)
      → Option Err × Transport W S
  write_turn state t k = elim (noise.write_message state) [
    | none ↦ (some handshake_error, t)
    | some m ↦
        let (e, u) = send_chunk write m.message t in
        elim e [
          | some x ↦ (some x, u)
          | none ↦ after_message noise initiator m.first m.second m.next u (k m.next u)
        ]
  ]

  unfoldable pub read_turn :
      H
      → Transport W S
      → (H → Transport W S → Option Err × Transport W S)
      → Option Err × Transport W S
  read_turn state t k =
      let (chunk, u) = recv_chunk t in
      elim chunk [
        | error e ↦ (some e, u)
        | frame b ↦ elim (noise.read_message state b) [
          | none ↦ (some handshake_error, u)
          | some m ↦ after_message noise initiator m.first m.second m.next u (k m.next u)
        ]
      ]

  -- The loop over `msg_seq`, which only a finished handshake, or an error, ends.
  unfoldable pub handshake_loop : ℕ → ℕ → H → Transport W S → Option Err × Transport W S
  handshake_loop zero msg_seq state t = (some no_fuel, t)
  handshake_loop (suc fuel) msg_seq state t =
      if is_writing initiator msg_seq
      then write_turn state t (λ h u. handshake_loop fuel (msg_seq + 1) h u)
      else read_turn state t λ h u. handshake_loop fuel (msg_seq + 1) h u

  -- `start` is `noise.NewHandshakeState`, nothing where it returns an error.
  unfoldable pub handshake : ℕ → Option H → W → Bytes → Option Err × Transport W S
  handshake fuel start conn incoming =
      let t : Transport W S = record {
        conn = conn;
        incoming = incoming;
        tx = none;
        rx = none;
        channel_binding = [];
      } in
      elim start [
        | none ↦ (some handshake_error, t)
        | some state ↦ require_binding (handshake_loop fuel 0 state t)
      ]
