-- ===== src/Transport/Agreement.antt =====
-- How the handshake of lib/transport/transport.go ends, and whose turn it is.
use mygosh.Base.{ℕ, zero, suc, ◌+◌, ◌<◌, ◌≡◌, ◌≢◌, refl, Option, none, some}
use mygosh.Base.{
  Bool, true, false, not, ◌==◌, ◌⊎◌, inl, inr, Option-cases, Bool-cases, length, arith, ap, ltb,
  if◌then◌else◌,
}
use mygosh.Bincoder.{Bytes}
use mygosh.Bincoder.Stream
use mygosh.Bincoder.Stream.{Written, Got, got, failed, IoErr}
use mygosh.Transport.{Transport, Received, frame, error, Err, handshake_error, no_binding, no_fuel}
use mygosh.Transport.{
  set_cipher_states, recv_chunk, send_chunk, on_conn, io, payload_too_large, max_payload_size,
}
use mygosh.Transport.Handshake.{
  Noise, Spoken, Heard, after_message, write_turn, read_turn, handshake_loop,
}
use mygosh.Transport.Handshake.{handshake, require_binding, is_writing, should_write}

-- noise's contract on the number of messages: `left` counts the messages after this one, and
-- each message either hands out both cipher states or leaves fewer to come.
pub record Bounded {ℓ κ} (H : Type ℓ) (S : Type κ) (noise : Noise H S) (left : H → ℕ)
    : Type (ℓ ⊔ κ) where
  pub writing :
      (h : H) (m : Spoken H S)
      → noise.write_message h ≡ some m
      → m.first ≡ none ⊎ m.second ≡ none
      → left m.next < left h
  pub reading :
      (h : H) (b : Bytes) (m : Heard H S)
      → noise.read_message h b ≡ some m
      → m.first ≡ none ⊎ m.second ≡ none
      → left m.next < left h

-- noise has finished a handshake in the state `h`, and handed out the cipher states `a` and `b`.
pub data Finished {ℓ κ} (H : Type ℓ) (S : Type κ) (noise : Noise H S) (a b : S)
    : H → Type (ℓ ⊔ κ) where
  spoke :
      (h : H) (m : Spoken H S)
      → noise.write_message h ≡ some m
      → m.first ≡ some a
      → m.second ≡ some b
      → Finished H S noise a b m.next
  heard :
      (h : H) (received : Bytes) (m : Heard H S)
      → noise.read_message h received ≡ some m
      → m.first ≡ some a
      → m.second ≡ some b
      → Finished H S noise a b m.next

-- The result of a loop with enough fuel: an error of the connection or of noise, or both cipher
-- states of the message with which noise finished, the first to send and the second to receive for
-- the initiator and the other way round for the responder, with the channel binding of noise's last
-- state.
pub data Agreed {ℓ κ η} (W : Type ℓ) (S : Type κ) (H : Type η) (noise : Noise H S)
    (initiator : Bool) : Option Err × Transport W S → Type (ℓ ⊔ κ ⊔ η) where
  refused : (e : Err) (t : Transport W S) → e ≢ no_fuel → Agreed W S H noise initiator (some e, t)
  keyed :
      (first second : S) (h : H) (t : Transport W S)
      → Finished H S noise first second h
      → Agreed W S H noise initiator (
        none,
        record t {
          tx = some (if initiator then first else second);
          rx = some (if initiator then second else first);
          channel_binding = noise.channel_binding h;
        },
      )

-- At every place of the sequence just one of the two sides writes.
pub is_writing-alternates : (msg_seq : ℕ) → is_writing true msg_seq ≡ not (is_writing false msg_seq)
unfolding is_writing should_write
is_writing-alternates msg_seq = ground arith

module _ {ℓ κ η} {W : Type ℓ} {S : Type κ} {H : Type η} (write : W → Bytes → Written W)
    (noise : Noise H S) (initiator : Bool) where
  -- A message that ends the handshake, or leaves the rest of the loop to end it.
  after_message-Agreed :
      (first second : Option S) (state : H) (t : Transport W S) (rest : Option Err × Transport W S)
      → ((a b : S) → first ≡ some a → second ≡ some b → Finished H S noise a b state)
      → (first ≡ none ⊎ second ≡ none → Agreed W S H noise initiator rest)
      → Agreed W S H noise initiator (after_message noise initiator first second state t rest)
  unfolding after_message set_cipher_states
  after_message-Agreed (some a) (some b) state t rest f h =
      by_role initiator (keyed a b state t (f a b refl refl))
    where
      binding : Bytes
      binding = noise.channel_binding state

      by_role :
          (r : Bool)
          → Agreed W S H noise initiator (
            none,
            record t {
              tx = some (if r then a else b);
              rx = some (if r then b else a);
              channel_binding = binding;
            },
          )
          → Agreed W S H noise initiator
              (none, record (set_cipher_states a b r t) { channel_binding = binding })
      by_role true k = k
      by_role false k = k
  after_message-Agreed none second state t rest f h = h (inl refl)
  after_message-Agreed (some a) none state t rest f h = h (inr refl)

  -- The rest of the loop, on every state that leaves fewer messages than `n`.
  Ready : (left : H → ℕ) → ℕ → (H → Transport W S → Option Err × Transport W S) → Type (ℓ ⊔ κ ⊔ η)
  Ready left n k = (h : H) (u : Transport W S) → left h < n → Agreed W S H noise initiator (k h u)

  recv_chunk-fuel : (t : Transport W S) → (recv_chunk t).0 ≢ error no_fuel
  unfolding recv_chunk
  recv_chunk-fuel t = go (Stream.read_bytes max_payload_size t.incoming)
    where
      go :
          (g : Got Bytes)
          → (elim g as (λ _. Received Bytes × Transport W S) [
            | got b r ↦ (frame b, record t { incoming = r })
            | failed e r ↦ (error (io e), record t { incoming = r })
          ]).0
            ≢ error no_fuel
      go (got b r) x = ground (arith, x)
      go (failed e r) x = ground (arith, x)

  send_chunk-fuel : (p : Bytes) (t : Transport W S) → (send_chunk write p t).0 ≢ some no_fuel
  unfolding send_chunk on_conn
  send_chunk-fuel p t h = elim (Bool-cases (ltb max_payload_size (length p))) [
    | inl e ↦ too_large (rw e at h)
    | inr e ↦ on_wire (Stream.write_bytes write p t.conn) (rw e at h)
  ]
    where
      too_large : some payload_too_large ≢ some no_fuel
      too_large x = ground (arith, x)

      on_wire : (r : Option IoErr × W) → (on_conn t r).0 ≢ some no_fuel
      on_wire (none, w) x = ground (arith, x)
      on_wire (some y, w) x = ground (arith, x)

  write_turn-Agreed :
      (left : H → ℕ) (contract : Bounded H S noise left) (state : H) (t : Transport W S)
      (k : H → Transport W S → Option Err × Transport W S)
      → Ready left (left state) k
      → Agreed W S H noise initiator (write_turn write noise initiator state t k)
  unfolding write_turn Ready
  write_turn-Agreed left contract state t k ready =
      elim (Option-cases (noise.write_message state)) [
        | inl e ↦ rw (write_turn, e) (refused handshake_error t λ x. ground (arith, x))
        | inr (m, e) ↦
            rw (write_turn, e)
              (sent m (send_chunk write m.message t) (send_chunk-fuel m.message t) λ u.
                after_message-Agreed m.first m.second m.next u (k m.next u)
                  (λ a b p q. spoke state m e p q)
                  λ open_. ready m.next u (contract.writing state m e open_))
      ]
    where
      sent :
          (m : Spoken H S) (r : Option Err × Transport W S)
          → r.0 ≢ some no_fuel
          → ((u : Transport W S)
              → Agreed W S H noise initiator
                  (after_message noise initiator m.first m.second m.next u (k m.next u)))
          → Agreed W S H noise initiator (elim r.0 [
            | some x ↦ (some x, r.1)
            | none ↦ after_message noise initiator m.first m.second m.next r.1 (k m.next r.1)
          ])
      sent m (some x, u) h g = refused x u λ y. h (ap some y)
      sent m (none, u) h g = g u

  read_turn-Agreed :
      (left : H → ℕ) (contract : Bounded H S noise left) (state : H) (t : Transport W S)
      (k : H → Transport W S → Option Err × Transport W S)
      → Ready left (left state) k
      → Agreed W S H noise initiator (read_turn write noise initiator state t k)
  unfolding read_turn Ready
  read_turn-Agreed left contract state t k ready = heard (recv_chunk t) (recv_chunk-fuel t)
    where
      heard :
          (r : Received Bytes × Transport W S)
          → r.0 ≢ error no_fuel
          → Agreed W S H noise initiator (elim r.0 [
            | error e ↦ (some e, r.1)
            | frame b ↦ elim (noise.read_message state b) [
              | none ↦ (some handshake_error, r.1)
              | some m ↦ after_message noise initiator m.first m.second m.next r.1 (k m.next r.1)
            ]
          ])
      heard (error e, u) h = refused e u λ x. h (ap error x)
      heard (frame b, u) h = elim (Option-cases (noise.read_message state b)) [
        | inl e ↦ rw e (refused handshake_error u λ x. ground (arith, x))
        | inr (m, e) ↦ rw e (
            after_message-Agreed m.first m.second m.next u (k m.next u)
              (λ a c p q. Finished.heard state b m e p q)
              λ open_. ready m.next u (contract.reading state b m e open_))
      ]

  handshake_loop-Agreed :
      (left : H → ℕ) (contract : Bounded H S noise left) (fuel msg_seq : ℕ) (state : H)
      (t : Transport W S)
      → left state < fuel
      → Agreed W S H noise initiator (handshake_loop write noise initiator fuel msg_seq state t)
  unfolding handshake_loop Ready
  handshake_loop-Agreed left contract zero msg_seq state t h = ground (arith, h)
  handshake_loop-Agreed left contract (suc fuel) msg_seq state t h =
      let rest = handshake_loop-Agreed left contract fuel (msg_seq + 1) in
      elim (Bool-cases (is_writing initiator msg_seq)) [
        | inl e ↦
            rw e (write_turn-Agreed left contract state t _ λ x u k. rest x u (omega (arith, h, k)))
        | inr e ↦
            rw e (read_turn-Agreed left contract state t _ λ x u k. rest x u (omega (arith, h, k)))
      ]

  -- The handshake ends after at most as many messages as noise exchanges. It ends in an error of
  -- the connection or of noise, or in a transport that has the two cipher states of noise's last
  -- message, the first to send with and the second to receive with for the initiator, the other way
  -- round for the responder, and the channel binding of noise's last state, which is not empty.
  pub handshake-Agreed :
      (left : H → ℕ) (contract : Bounded H S noise left) (fuel : ℕ) (state : H) (conn : W)
      (incoming : Bytes)
      → left state < fuel
      → let r = handshake write noise initiator fuel (some state) conn incoming in
        Agreed W S H noise initiator r × (r.0 ≡ none → 0 < length r.1.channel_binding)
  unfolding handshake require_binding
  handshake-Agreed left contract fuel state conn incoming h =
      bound (handshake_loop write noise initiator fuel 0 state _)
        (handshake_loop-Agreed left contract fuel 0 state _ h)
    where
      bound :
          (r : Option Err × Transport W S)
          → Agreed W S H noise initiator r
          → Agreed W S H noise initiator (require_binding r)
            × ((require_binding r).0 ≡ none → 0 < length (require_binding r).1.channel_binding)
      bound r (refused e t x) = (refused e t x, λ y. ground (arith, y))
      bound r (keyed first second last t f) =
          elim (Bool-cases (length (noise.channel_binding last) == 0)) [
            | inl e ↦ rw e (refused no_binding _ (λ x. ground (arith, x)), λ y. ground (arith, y))
            | inr e ↦ rw e (keyed first second last t f, λ y. ground (arith, e))
          ]
