-- ===== src/Transport.antt =====
-- lib/transport/transport.go: encrypted frames over a connection, and the handshake before them.
-- github.com/flynn/noise is a parameter: its cipher states and its handshake state.
pub mod Frames
pub mod Handshake
pub mod Agreement
pub mod Sample
mod Tests
use mygosh.Base.{ℕ, Option, none, some, List, [], length, ltb, if◌then◌else◌, Bool}
use mygosh.Bincoder.{Bytes}
use mygosh.Bincoder.Stream
use mygosh.Bincoder.Stream.{Written, Got, got, failed, IoErr}

-- `nil_cipher` stands for the panic on a nil cipher state.
pub data Err : Type 0 where
  payload_too_large nil_cipher encryption decryption handshake_error no_binding no_fuel : Err
  io : IoErr → Err

-- `MaxPayloadSize`
abbrev pub max_payload_size : ℕ
max_payload_size = 32768

-- `conn` is the writing half of the connection, `incoming` the bytes that it has yet to deliver.
-- `S` is noise.CipherState.
pub record Transport {ℓ κ} (W : Type ℓ) (S : Type κ) : Type (ℓ ⊔ κ) where
  pub conn : W
  pub incoming : Bytes
  pub tx : Option S
  pub rx : Option S
  pub channel_binding : Bytes

unfoldable pub set_cipher_states {ℓ κ} :
    {W : Type ℓ} {S : Type κ} → S → S → Bool → Transport W S → Transport W S
set_cipher_states first second initiator t =
    if initiator
    then record t { tx = some first; rx = some second }
    else record t { tx = some second; rx = some first }

pub data Received {ℓ} (A : Type ℓ) : Type ℓ where
  frame : A → Received A
  error : Err → Received A

unfoldable pub recv_chunk {ℓ κ} :
    {W : Type ℓ} {S : Type κ} → Transport W S → Received Bytes × Transport W S
recv_chunk t = elim (Stream.read_bytes max_payload_size t.incoming) [
  | got b r ↦ (frame b, record t { incoming = r })
  | failed e r ↦ (error (io e), record t { incoming = r })
]

-- `decrypt` is `CipherState.Decrypt`: the plain text, if the frame is authentic, and the next state.
unfoldable pub decrypt_frame {ℓ κ} :
    {W : Type ℓ} {S : Type κ} (decrypt : S → Bytes → Option Bytes × S)
    → Bytes
    → Transport W S
    → Received Bytes × Transport W S
decrypt_frame decrypt b t = elim t.rx [
  | none ↦ (error nil_cipher, t)
  | some s ↦
      let (plain, next) = decrypt s b in
      let u = record t { rx = some next } in
      elim plain [ some p ↦ (frame p, u) | none ↦ (error decryption, u) ]
]

unfoldable pub receive_frame {ℓ κ} :
    {W : Type ℓ} {S : Type κ} (decrypt : S → Bytes → Option Bytes × S)
    → Transport W S
    → Received Bytes × Transport W S
receive_frame decrypt t =
    let (chunk, u) = recv_chunk t in
    elim chunk [ error e ↦ (error e, u) | frame b ↦ decrypt_frame decrypt b u ]

-- The transport whose connection took a write, and the write's error.
unfoldable pub on_conn {ℓ κ} :
    {W : Type ℓ} {S : Type κ} → Transport W S → Option IoErr × W → Option Err × Transport W S
on_conn t (some e, conn) = (some (io e), record t { conn = conn })
on_conn t (none, conn) = (none, record t { conn = conn })

module _ {ℓ κ} {W : Type ℓ} {S : Type κ} (write : W → Bytes → Written W) where
  unfoldable pub send_chunk : Bytes → Transport W S → Option Err × Transport W S
  send_chunk payload t =
      if ltb max_payload_size (length payload)
      then (some payload_too_large, t)
      else on_conn t (Stream.write_bytes write payload t.conn)

  -- `encrypt` is `CipherState.Encrypt`.
  unfoldable pub send_frame :
      (encrypt : S → Bytes → Option Bytes × S) → Bytes → Transport W S → Option Err × Transport W S
  send_frame encrypt p t = elim t.tx [
    | none ↦ (some nil_cipher, t)
    | some s ↦
        let (sealed, next) = encrypt s p in
        let u = record t { tx = some next } in
        elim sealed [ none ↦ (some encryption, u) | some c ↦ send_chunk c u ]
  ]

-- `ChannelBinding`
unfoldable pub get_channel_binding {ℓ κ} : {W : Type ℓ} {S : Type κ} → Transport W S → Bytes
get_channel_binding t = t.channel_binding
