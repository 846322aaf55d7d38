-- ===== src/Wire/Tests.antt =====
-- Concrete runs of lib/wire.
use mygosh.Base.{
  ℕ, ◌≡◌, refl, Bool, true, false, Option, none, some, [], ◌∷◌, ◌++◌, ◌==◌, length, subst,
  if◌then◌else◌,
}
use mygosh.Bincoder.{Bytes, put_u32}
use mygosh.Bincoder.Sample.{short_writer, short_writer-Honest}
use mygosh.Bincoder.Stream
use mygosh.Transport.{Transport, send_frame, receive_frame, send_chunk, on_conn}
use mygosh.Transport.Sample.{seal, unseal, seal-Opens, client, server}
use mygosh.Wire.{Codec, Framer, transport_framer, send_proto, send_packet, receive_proto, message}
use mygosh.Wire.Delivery.{Codes, receive_proto-send_proto}

-- A message is a number that is not zero, and its encoding is one byte.
abbrev numbers : Codec ℕ
numbers = record {
  validate = λ m. if m == 0 then false else true;
  marshal = λ m. some (m ∷ []);
  unmarshal = λ b. elim b [ [] ↦ none | m ∷ _ ↦ some m ];
}

numbers-Codes : Codes ℕ numbers
numbers-Codes = record {
  reads_back = λ m b e. subst (λ (o : Option Bytes). read_option o ≡ some m) e refl;
  has_bytes = λ m b v e. subst (λ (o : Option Bytes). is_empty o ≡ false) e refl;
}
  where
    read_option : Option Bytes → Option ℕ
    read_option o = elim o [ none ↦ none | some b ↦ numbers.unmarshal b ]

    is_empty : Option Bytes → Bool
    is_empty o = elim o [ none ↦ true | some b ↦ length b == 0 ]

abbrev after_sending : Transport Bytes ℕ
after_sending = record {
  conn = 0 ∷ 0 ∷ 0 ∷ 2 ∷ 0 ∷ 42 ∷ [];
  incoming = [];
  tx = some 1;
  rx = some 50;
  channel_binding = 1 ∷ [];
}

abbrev framing : Framer (Transport Bytes ℕ)
framing = record { send = send_frame short_writer seal; receive = receive_frame unseal }

sending : send_proto framing numbers (some client) (some 42) ≡ (none, some after_sending)
unfolding send_proto send_packet send_frame send_chunk on_conn Stream.write_bytes Stream.write_u32
    Stream.write_full Stream.write_loop Stream.after_write Stream.then_write put_u32
sending = refl

receive_proto-send_proto_example :
    (received : Bytes) × (after_sending.conn ≡ [] ++ received)
    × (receive_proto framing numbers (some (record server { incoming = received ++ [] })) true
        ≡ (message 42, some (record server { incoming = []; rx = some 1 })))
unfolding transport_framer
receive_proto-send_proto_example =
    receive_proto-send_proto short_writer (λ w. w) seal unseal numbers short_writer-Honest
      seal-Opens numbers-Codes 42 client after_sending server [] refl sending
