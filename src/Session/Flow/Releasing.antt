-- ===== src/Session/Flow/Releasing.antt =====
-- The release and the window adjustment in `Recv` of lib/session/channel.go.
use mygosh.Base.{
  ◌-◌, ℕ, ◌≡◌, refl, ap, ◌∙◌, subst, sym, Bool, true, false, some, List, [], ◌∷◌, ◌++◌, arith, leb,
  ltb, if◌then◌else◌,
}
use mygosh.Base.Maps.{lookup, update, lookup-update_self}
use mygosh.Session.Message.{World, Envelope, channel_window_adjust}
use mygosh.Session.Error.{wrapped}
use mygosh.Session.Channel.{Channel}
use mygosh.Session.State.{Session, Outcome, ok, err, final, on_channel, Write, nothing}
use mygosh.Session.State.Keep.{Keeps}
use mygosh.Session.Budget.{at_most, release_queued, release_queue_budget}
use mygosh.Session.Outbound.{send_envelope, write_of}
use mygosh.Session.Shutdown.{shutdown}
use mygosh.Session.Shutdown.Closing.{shutdown-IsClosing}
use mygosh.Session.Flow.{send_adjust}
use mygosh.Session.Flow.Ends.{send_envelope-outbound}
use mygosh.Session.Flow.Sending.{send_envelope-heap}
use mygosh.Session.Flow.Link.{settle, IsSameFlow}

abbrev freed : ℕ → ℕ → Channel → Channel
freed frames bytes ch = record ch {
  queued_frames = ch.queued_frames - frames;
  queued_bytes = ch.queued_bytes - bytes;
}

abbrev after_release : ℕ → ℕ → ℕ → Channel → Session → Session
after_release id frames bytes ch s =
    let f = at_most frames ch.queued_frames in
    let b = at_most bytes ch.queued_bytes in
    final (release_queue_budget f b (record s { heap = update id (freed f b) s.heap }))

-- What is told, by the bytes that are pending.
abbrev pub told_of : ℕ → ℕ → List ℕ
told_of threshold pending =
    if leb threshold pending then (if ltb 0 pending then pending ∷ [] else []) else []

release_queued-known :
    (id frames bytes : ℕ) (s : Session) (ch : Channel)
    → lookup id s.heap ≡ some ch
    → release_queued id frames bytes s ≡ ok tt (after_release id frames bytes ch s)
unfolding release_queued release_queue_budget on_channel
release_queued-known id frames bytes s ch found = ground arith

-- `next` counts `frames` and `bytes` less as queued than `ch`, and never less than none.
abbrev pub IsReleased : ℕ → ℕ → Channel → Channel → Type 0
IsReleased frames bytes ch next =
    (next.queued_frames ≡ ch.queued_frames - frames) × (next.queued_bytes ≡ ch.queued_bytes - bytes)

pub settle-IsReleased :
    (threshold frames bytes : ℕ) (ch next : Channel)
    → IsReleased frames bytes ch next
    → IsReleased frames bytes ch (settle threshold next)
settle-IsReleased threshold frames bytes ch next h = go (leb threshold next.pending_window_bytes)
  where
    go :
        (b : Bool)
        → IsReleased frames bytes ch (if b then record next { pending_window_bytes = 0 } else next)
    go true = h
    go false = h

-- A release changes only what is counted.
pub release_queued-ok :
    (id frames bytes : ℕ) (s t : Session) (a : Unit {0}) (ch : Channel)
    → lookup id s.heap ≡ some ch
    → release_queued id frames bytes s ≡ ok a t
    → (next : Channel) × (lookup id t.heap ≡ some next)
      × IsSameFlow next ch
      × (t.config ≡ s.config)
      × (next.peer_id ≡ ch.peer_id)
      × IsReleased frames bytes ch next
      × (t.outbound_queue ≡ s.outbound_queue)
unfolding release_queue_budget
release_queued-ok id frames bytes s t a ch found h =
    let same : t ≡ after_release id frames bytes ch s =
      ap final (sym h ∙ release_queued-known id frames bytes s ch found) in
    (
      freed (at_most frames ch.queued_frames) (at_most bytes ch.queued_bytes) ch,
      ap (λ (x : Session). lookup id x.heap) same ∙ lookup-update_self id _ ch s.heap found,
      record { remote_window = refl; local_window = refl; pending = refl; frames = refl },
      ap (λ (x : Session). x.config) same,
      refl,
      (ground arith, ground arith),
      ap (λ (x : Session). x.outbound_queue) same,
    )

-- The messages for the window adjustments that a `Recv` sends.
unfoldable pub adjust_writes : World → ℕ → List ℕ → List Write
adjust_writes world peer [] = []
adjust_writes world peer (n ∷ ns) =
    write_of world
      (channel_window_adjust (some (record { recipient_channel_id = peer; bytes_to_add = n })))
      nothing true
    ∷ adjust_writes world peer ns

-- An adjustment that does not end the session changes no channel, and is the last to be written.
pub send_adjust-heap :
    (world : World) (peer n : ℕ) (s t : Session) (a : Unit {0})
    → send_adjust world peer n s ≡ ok a t
    → t.closing ≡ false
    → (t.heap ≡ s.heap) × (t.outbound_queue ≡ s.outbound_queue ++ adjust_writes world peer (n ∷ []))
unfolding send_adjust Keeps adjust_writes
send_adjust-heap world peer n s t a h running =
    go (send_envelope world _ s) refl (send_envelope-heap s.heap world _ s refl) h
  where
    adjust : Envelope
    adjust = channel_window_adjust (some (record { recipient_channel_id = peer; bytes_to_add = n }))

    Sent : Session → Type 0
    Sent u =
        (u.heap ≡ s.heap)
        × (u.outbound_queue ≡ s.outbound_queue ++ (write_of world adjust nothing true ∷ []))

    clash : t.closing ≡ true → Sent t
    clash both = absurd (ground (arith, both, running))

    go :
        (o : Outcome (Unit {0}))
        → send_envelope world adjust s ≡ o
        → (final o).heap ≡ s.heap
        → elim o as (λ x. Outcome (Unit {0})) [
          | ok b u ↦ ok b u
          | err e u ↦ ok tt (shutdown world (some (wrapped e)) u)
        ]
          ≡ ok a t
        → Sent t
    go (ok b u) q same r =
        subst Sent (ap final r) (same, send_envelope-outbound world adjust s u b q)
    go (err e u) q same r =
        let ended : t ≡ shutdown world (some (wrapped e)) u = ap final (sym r) in
        clash
          (ap (λ (x : Session). x.closing) ended ∙ shutdown-IsClosing world (some (wrapped e)) u)
