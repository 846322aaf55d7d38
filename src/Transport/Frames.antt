-- ===== src/Transport/Frames.antt =====
-- Frames from one peer to the other over lib/transport/transport.go.
use mygosh.Base.{
  ◌≤◌, ◌≡◌, refl, sym, ap, subst, ◌∙◌, Option, none, some, Option-cases, inl, inr, List, [], ◌∷◌,
  ◌++◌,
}
use mygosh.Base.{Bool, true, false, length, ltb, if◌then◌else◌, append_assoc, append_nil, arith}
use mygosh.Bincoder.{Bytes}
use mygosh.Bincoder.Stream
use mygosh.Bincoder.Stream.{Written, Got, got, failed, IoErr}
use mygosh.Bincoder.Writing.{Honest}
use mygosh.Bincoder.Framing.{read_bytes-framed, write_bytes-sends, framed, Admits}
use mygosh.Transport.{Transport, Received, frame, error, Err, io, max_payload_size}
use mygosh.Transport.{
  recv_chunk, send_chunk, on_conn, payload_too_large, encryption, decryption, nil_cipher,
  send_frame, receive_frame, decrypt_frame,
}

-- noise's contract: a cipher state opens what the same state sealed, and both go on alike.
unfoldable pub Opens {ℓ} : (S : Type ℓ) (encrypt decrypt : S → Bytes → Option Bytes × S) → Type ℓ
Opens S encrypt decrypt =
    (s : S) (p c : Bytes) → (encrypt s p).0 ≡ some c → decrypt s c ≡ (some p, (encrypt s p).1)

module _ {ℓ κ} {W : Type ℓ} {S : Type κ} (write : W → Bytes → Written W) where
  -- The frames in order, up to the first error.
  unfoldable pub send_frames :
      (encrypt : S → Bytes → Option Bytes × S)
      → List Bytes
      → Transport W S
      → Option Err × Transport W S
  send_frames encrypt [] t = (none, t)
  send_frames encrypt (p ∷ ps) t =
      let (e, u) = send_frame write encrypt p t in
      let rest = send_frames encrypt ps u in elim e [ some x ↦ (some x, u) | none ↦ rest ]

-- As many frames as `ps` has, up to the first error.
unfoldable pub receive_frames {ℓ κ} :
    {W : Type ℓ} {S : Type κ} (decrypt : S → Bytes → Option Bytes × S)
    → List Bytes
    → Transport W S
    → List Bytes × Transport W S
receive_frames decrypt [] t = ([], t)
receive_frames decrypt (p ∷ ps) t =
    let (r, u) = receive_frame decrypt t in
    let (qs, v) = receive_frames decrypt ps u in
    elim r [ error e ↦ ([], u) | frame q ↦ (q ∷ qs, v) ]

module _ {ℓ κ} {W : Type ℓ} {S : Type κ} (write : W → Bytes → Written W) (sent : W → Bytes)
    (encrypt decrypt : S → Bytes → Option Bytes × S) (honest : Honest W write sent)
    (opens : Opens S encrypt decrypt) where
  -- What the peer's transport needs to open what `t` sends next.
  pub record Sends (p : Bytes) (t u : Transport W S) : Type (ℓ ⊔ κ) where
    pub state : S
    pub sealed : Bytes
    pub keyed : t.tx ≡ some state
    pub encrypted : (encrypt state p).0 ≡ some sealed
    pub next : u.tx ≡ some (encrypt state p).1
    pub on_wire : sent u.conn ≡ sent t.conn ++ framed sealed
    pub small : length sealed ≤ max_payload_size

  wrote :
      (t : Transport W S) (big : Bool) (r : Option IoErr × W) (u : Transport W S)
      → (if big then (some payload_too_large, t) else on_conn t r) ≡ (none, u)
      → (big ≡ false) × (r ≡ (none, u.conn)) × (u ≡ record t { conn = u.conn })
  unfolding on_conn
  wrote t true r u h = ground (arith, h)
  wrote t false (some e, w) u h = ground (arith, h)
  wrote t false (none, w) u h = (
    refl,
    ap (λ (r : Option Err × Transport W S). (none, r.1.conn)) h,
    subst (λ v. v ≡ record t { conn = v.conn }) (ap (λ (r : Option Err × Transport W S). r.1) h)
        refl,
  )

  send_chunk-Sends :
      (s : S) (p c : Bytes) (t u : Transport W S)
      → t.tx ≡ some s
      → (encrypt s p).0 ≡ some c
      → send_chunk write c (record t { tx = some (encrypt s p).1 }) ≡ (none, u)
      → Sends p t u
  unfolding send_chunk
  send_chunk-Sends s p c t u k e h =
      let v = record t { tx = some (encrypt s p).1 } in
      let (small, written, same) =
        wrote v (ltb max_payload_size (length c)) (Stream.write_bytes write c t.conn) u h in
      let fits : length c ≤ max_payload_size = ground (arith, small) in
      record {
        state = s;
        sealed = c;
        keyed = k;
        encrypted = e;
        next = ap (λ (x : Transport W S). x.tx) same;
        on_wire = write_bytes-sends write sent honest c t.conn u.conn (omega (arith, fits)) written;
        small = fits;
      }

  pub send_frame-Sends :
      (p : Bytes) (t u : Transport W S) → send_frame write encrypt p t ≡ (none, u) → Sends p t u
  unfolding send_frame
  send_frame-Sends p t u h = elim (Option-cases t.tx) [
    | inl e ↦ ground (arith, subst (λ o. sealing o ≡ (none, u)) e h)
    | inr (s, e) ↦ elim (Option-cases (encrypt s p).0) [
      | inl n ↦
          ground
            (arith, subst (λ o. sending s o ≡ (none, u)) n (subst (λ o. sealing o ≡ (none, u)) e h))
      | inr (c, n) ↦
          send_chunk-Sends s p c t u e n
            (subst (λ o. sending s o ≡ (none, u)) n (subst (λ o. sealing o ≡ (none, u)) e h))
    ]
  ]
    where
      sending : S → Option Bytes → Option Err × Transport W S
      sending s o =
          let w : Transport W S = record t { tx = some (encrypt s p).1 } in
          elim o [ none ↦ (some encryption, w) | some c ↦ send_chunk write c w ]

      sealing : Option S → Option Err × Transport W S
      sealing o = elim o [ none ↦ (some nil_cipher, t) | some s ↦ sending s (encrypt s p).0 ]

  decrypt_frame-opens :
      (s next : S) (c p : Bytes) (w : Transport W S)
      → w.rx ≡ some s
      → decrypt s c ≡ (some p, next)
      → decrypt_frame decrypt c w ≡ (frame p, record w { rx = some next })
  unfolding decrypt_frame
  decrypt_frame-opens s next c p w k e =
      subst (λ o. opening o ≡ (frame p, record w { rx = some next })) (sym k) (ap opened e)
    where
      opened : Option Bytes × S → Received Bytes × Transport W S
      opened r =
          let u : Transport W S = record w { rx = some r.1 } in
          elim r.0 [ some p ↦ (frame p, u) | none ↦ (error decryption, u) ]

      opening : Option S → Received Bytes × Transport W S
      opening o = elim o [ none ↦ (error nil_cipher, w) | some s ↦ opened (decrypt s c) ]

  recv_chunk-framed :
      (c rest : Bytes) (v : Transport W S)
      → length c ≤ max_payload_size
      → recv_chunk (record v { incoming = framed c ++ rest })
        ≡ (frame c, record v { incoming = rest })
  unfolding recv_chunk Admits
  recv_chunk-framed c rest v h =
      ap split (read_bytes-framed max_payload_size c rest (omega arith) (omega (arith, h)) (inr h))
    where
      split : Got Bytes → Received Bytes × Transport W S
      split g = elim g [
        | got b r ↦ (frame b, record v { incoming = r })
        | failed e r ↦ (error (io e), record v { incoming = r })
      ]

  -- The peer opens the frame with the state that sealed it.
  pub receive_frame-Sends :
      (p : Bytes) (t u v : Transport W S) (n : Sends p t u) (rest : Bytes)
      → v.rx ≡ t.tx
      → receive_frame decrypt (record v { incoming = framed n.sealed ++ rest })
        ≡ (frame p, record v { incoming = rest; rx = u.tx })
  unfolding receive_frame Opens
  receive_frame-Sends p t u v n rest h =
      ap open_chunk (recv_chunk-framed n.sealed rest v n.small)
      ∙ decrypt_frame-opens n.state (encrypt n.state p).1 n.sealed p (record v { incoming = rest })
          (h ∙ n.keyed) (opens n.state p n.sealed n.encrypted)
      ∙ ap (λ o. (frame p, record v { incoming = rest; rx = o })) (sym n.next)
    where
      open_chunk : Received Bytes × Transport W S → Received Bytes × Transport W S
      open_chunk r = elim r.0 [ error e ↦ (error e, r.1) | frame b ↦ decrypt_frame decrypt b r.1 ]

  -- Let the receiver's `rx` be the sender's `tx`. Whatever list of frames the sender sends without
  -- an error, the receiver gets the same frames, in order and with their boundaries, from the bytes
  -- that were sent, and is then in step with the sender again.
  pub receive_frames-send_frames :
      (ps : List Bytes) (t u v : Transport W S) (rest : Bytes)
      → v.rx ≡ t.tx
      → send_frames write encrypt ps t ≡ (none, u)
      → (received : Bytes) × (sent u.conn ≡ sent t.conn ++ received)
        × (receive_frames decrypt ps (record v { incoming = received ++ rest })
            ≡ (ps, record v { incoming = rest; rx = u.tx }))
  unfolding send_frames receive_frames
  receive_frames-send_frames [] t u v rest k h =
      let same : t ≡ u = ap (λ (r : Option Err × Transport W S). r.1) h in
      (
        [],
        subst (λ x. sent x.conn ≡ sent t.conn ++ []) same (sym (append_nil (sent t.conn))),
        ap (λ o. ([], record v { incoming = rest; rx = o }))
            (k ∙ ap (λ (x : Transport W S). x.tx) same),
      )
  receive_frames-send_frames (p ∷ ps) t u v rest k h =
      let r = send_frame write encrypt p t in
      let (first, others) = went_on r h in
      let n = send_frame-Sends p t r.1 first in
      let (received, wire, reading) =
        receive_frames-send_frames ps r.1 u (record v { rx = r.1.tx }) rest refl others in
      (
        framed n.sealed ++ received,
        wire
            ∙ (ap (λ b. b ++ received) n.on_wire
                ∙ append_assoc (sent t.conn) (framed n.sealed) received),
        ap (λ b. cons_frame (receive_frame decrypt (record v { incoming = b })))
              (append_assoc (framed n.sealed) received rest)
            ∙ ap cons_frame (receive_frame-Sends p t r.1 v n (received ++ rest) k)
            ∙ ap (λ (q : List Bytes × Transport W S). (p ∷ q.0, q.1)) reading,
      )
    where
      cons_frame : Received Bytes × Transport W S → List Bytes × Transport W S
      cons_frame x =
          let (qs, w) = receive_frames decrypt ps x.1 in
          elim x.0 [ error e ↦ ([], x.1) | frame q ↦ (q ∷ qs, w) ]

      went_on :
          (r : Option Err × Transport W S)
          → (elim r.0 as (λ _. Option Err × Transport W S) [
            | some x ↦ (some x, r.1)
            | none ↦ send_frames write encrypt ps r.1
          ])
            ≡ (none, u)
          → (r ≡ (none, r.1)) × (send_frames write encrypt ps r.1 ≡ (none, u))
      went_on (some x, w) e = ground (arith, e)
      went_on (none, w) e = (refl, e)
