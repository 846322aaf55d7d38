-- ===== src/Transport/Tests.antt =====
-- Concrete runs of lib/transport.
use mygosh.Base.{
  ◌⊎◌, ℕ, zero, suc, ◌≡◌, ◌<◌, refl, ap, true, false, Option, none, some, [], ◌∷◌, ◌++◌, inl, inr,
  length, arith,
}
use mygosh.Bincoder.{Bytes, put_u32}
use mygosh.Bincoder.Stream
use mygosh.Bincoder.Sample.{short_writer, short_writer-Honest}
use mygosh.Transport.{Transport, set_cipher_states, send_frame, send_chunk, on_conn}
use mygosh.Transport.Sample.{seal, unseal, seal-Opens, peer, client, server}
use mygosh.Transport.Frames.{send_frames, receive_frames, receive_frames-send_frames}
use mygosh.Transport.Handshake.{Noise, Spoken, Heard, handshake}
use mygosh.Transport.Agreement.{Bounded, Agreed, handshake-Agreed}

client_keyed :
    (set_cipher_states 0 50 true peer ≡ client) × (set_cipher_states 0 50 false peer ≡ server)
unfolding set_cipher_states
client_keyed = (refl, refl)

-- A handshake of two messages, as in Noise_NN; the state counts the messages to come.
abbrev speak : ℕ → Option (Spoken ℕ ℕ)
speak zero = some (record { message = 7 ∷ []; first = some 0; second = some 50; next = 0 })
speak (suc h) = some (record { message = 7 ∷ []; first = none; second = none; next = h })

abbrev hear : ℕ → Bytes → Option (Heard ℕ ℕ)
hear zero b = some (record { first = some 0; second = some 50; next = 0 })
hear (suc h) b = some (record { first = none; second = none; next = h })

abbrev two_messages : Noise ℕ ℕ
two_messages = record {
  write_message = speak;
  read_message = hear;
  channel_binding = λ h. 1 ∷ 2 ∷ [];
}

abbrev or_zero {ℓ} : {A : Type ℓ} → (A → ℕ) → Option A → ℕ
or_zero f none = 0
or_zero f (some x) = f x

abbrev is_open : Option ℕ → Option ℕ → ℕ
is_open (some a) (some b) = 0
is_open _ _ = 1

opened : (a b : Option ℕ) → a ≡ none ⊎ b ≡ none → is_open a b ≡ 1
opened none b n = refl
opened (some a) none n = refl
opened (some a) (some b) (inl n) = ground (arith, n)
opened (some a) (some b) (inr n) = ground (arith, n)

speak-less :
    (h : ℕ) (m : Spoken ℕ ℕ) → speak h ≡ some m → m.first ≡ none ⊎ m.second ≡ none → m.next < h
speak-less zero m e n =
    ground (
      arith,
      ap (or_zero λ (x : Spoken ℕ ℕ). is_open x.first x.second) e,
      opened m.first m.second n,
    )
speak-less (suc h) m e n =
    let same : h ≡ m.next = ap (or_zero λ (x : Spoken ℕ ℕ). x.next) e in omega (arith, same)

hear-less :
    (h : ℕ) (b : Bytes) (m : Heard ℕ ℕ)
    → hear h b ≡ some m
    → m.first ≡ none ⊎ m.second ≡ none
    → m.next < h
hear-less zero b m e n =
    ground
      (arith, ap (or_zero λ (x : Heard ℕ ℕ). is_open x.first x.second) e, opened m.first m.second n)
hear-less (suc h) b m e n =
    let same : h ≡ m.next = ap (or_zero λ (x : Heard ℕ ℕ). x.next) e in omega (arith, same)

two_messages-Bounded : Bounded ℕ ℕ two_messages λ h. h
two_messages-Bounded = record { writing = speak-less; reading = hear-less }

-- A client whose peer answers with one message of one byte.
handshake-Agreed_example :
    let r = handshake short_writer two_messages true 2 (some 1) [] (0 ∷ 0 ∷ 0 ∷ 1 ∷ 9 ∷ []) in
    Agreed Bytes ℕ ℕ two_messages true r × (r.0 ≡ none → 0 < length r.1.channel_binding)
handshake-Agreed_example =
    handshake-Agreed short_writer two_messages true (λ h. h) two_messages-Bounded 2 1 []
      (0 ∷ 0 ∷ 0 ∷ 1 ∷ 9 ∷ []) (omega arith)

abbrev after_sending : Transport Bytes ℕ
after_sending = record {
  conn = 0 ∷ 0 ∷ 0 ∷ 2 ∷ 0 ∷ 7 ∷ 0 ∷ 0 ∷ 0 ∷ 3 ∷ 1 ∷ 8 ∷ 9 ∷ [];
  incoming = [];
  tx = some 2;
  rx = some 50;
  channel_binding = 1 ∷ [];
}

sending :
    send_frames short_writer seal ((7 ∷ []) ∷ (8 ∷ 9 ∷ []) ∷ []) client ≡ (none, after_sending)
unfolding send_frames send_frame send_chunk on_conn Stream.write_bytes Stream.write_u32
    Stream.write_full Stream.write_loop Stream.after_write Stream.then_write put_u32
sending = refl

receive_frames-send_frames_example :
    (received : Bytes) × (after_sending.conn ≡ [] ++ received)
    × (receive_frames unseal
          ((7 ∷ []) ∷ (8 ∷ 9 ∷ []) ∷ [])
          (record server { incoming = received ++ (5 ∷ []) })
        ≡ ((7 ∷ []) ∷ (8 ∷ 9 ∷ []) ∷ [], record server { incoming = 5 ∷ []; rx = some 2 }))
receive_frames-send_frames_example =
    receive_frames-send_frames short_writer (λ w. w) seal unseal short_writer-Honest seal-Opens
      ((7 ∷ []) ∷ (8 ∷ 9 ∷ []) ∷ []) client after_sending server (5 ∷ []) refl sending
