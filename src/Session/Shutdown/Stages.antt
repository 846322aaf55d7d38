-- ===== src/Session/Shutdown/Stages.antt =====
-- The stages of `shutdown` of lib/session/channel.go, which end a channel.
use mygosh.Base.{
  ◌-◌, ◌++◌, map, length, ℕ, ◌≡◌, ◌≢◌, refl, sym, ap, ◌∙◌, subst, Bool, true, false, Option, none,
  some, [], arith, ◌==◌, ==_iff,
}
use mygosh.Base.{Bool-cases, inl, inr}
use mygosh.Base.Maps.{lookup, update, lookup-update_self, lookup-update_ne}
use mygosh.Session.Error.{Err}
use mygosh.Session.Channel.{
  Channel, ChannelState, closed, failed, aborted, opening, open_, local_eof, remote_eof, both_eof,
  closing,
}
use mygosh.Session.State.{Session, Outcome, M, ok, err, final, ◌>>◌, store, on_channel}
use mygosh.Session.Budget.{discard_queued, release_queue_budget}
use mygosh.Session.Shutdown.{
  mark_failed, fail_state, answer_open, cancel_channel, fail_pending_requests, channel_shutdown,
}

abbrev pub is_ended : ChannelState → Bool
is_ended closed = true
is_ended failed = true
is_ended _ = false

-- A channel that holds nothing, awaits nothing, and tells its callers why.
pub record IsEnded (ch : Channel) : Type 0 where
  pub stopped : is_ended ch.state ≡ true
  pub no_frames : ch.frames ≡ []
  pub none_queued : ch.queued_frames ≡ 0
  pub none_waiting : ch.pending_requests ≡ []
  pub none_opening : ch.open_wait ≡ false
  pub reported : ch.session_err ≢ none

-- The channel `id` is there, and `Q` holds of it.
abbrev pub HasAt : (Channel → Type 0) → ℕ → Session → Type 0
HasAt Q id s = (ch : Channel) × (lookup id s.heap ≡ some ch) × Q ch

pub has-update :
    (Q : Channel → Type 0) (j id : ℕ) (f : Channel → Channel) (s : Session)
    → ((ch : Channel) → Q ch → Q (f ch))
    → HasAt Q id s
    → HasAt Q id (record s { heap = update j f s.heap })
has-update Q j id f s stable (ch, e, q) = elim (Bool-cases (j == id)) [
  | inl same ↦ (
    f ch,
    subst (λ k. lookup id (update k f s.heap) ≡ some (f ch)) (sym ((==_iff j id).0 same))
        (lookup-update_self id f ch s.heap e),
    stable ch q,
  )
  | inr other ↦ (ch, lookup-update_ne id j f s.heap other ∙ e, q)
]

-- A step that takes the channel from `Q` to `R`, without fail.
abbrev pub Turns : ℕ → (Channel → Type 0) → (Channel → Type 0) → M (Unit {0}) → Type 0
Turns id Q R m = (s : Session) → HasAt Q id s → (t : Session) × (m s ≡ ok tt t) × HasAt R id t

abbrev pub fail_waiters : Err → Channel → Channel
fail_waiters e ch = record ch {
  replies = ch.replies ++ map (λ request. (request, aborted e)) ch.pending_requests;
  pending_requests = [];
}

-- The stages of a channel's shutdown.
abbrev pub Failed : Channel → Type 0
Failed ch = (is_ended ch.state ≡ true) × (ch.session_err ≢ none)

abbrev pub Drained : Channel → Type 0
Drained ch = Failed ch × (ch.frames ≡ []) × (ch.queued_frames ≡ 0)

abbrev pub Answered : Channel → Type 0
Answered ch = Drained ch × (ch.pending_requests ≡ [])

pub fail_state-is_ended : (state : ChannelState) → is_ended (fail_state state) ≡ true
fail_state-is_ended closed = refl
fail_state-is_ended failed = refl
fail_state-is_ended opening = refl
fail_state-is_ended open_ = refl
fail_state-is_ended local_eof = refl
fail_state-is_ended remote_eof = refl
fail_state-is_ended both_eof = refl
fail_state-is_ended closing = refl

pub keeps_error : (e : Err) (old : Option Err) → elim old [ none ↦ some e | some c ↦ some c ] ≢ none
keeps_error e none h = cc
keeps_error e (some c) h = cc

mark_failed-Failed : (e : Err) (ch : Channel) → Failed (mark_failed e ch)
mark_failed-Failed e ch = (fail_state-is_ended ch.state, keeps_error e ch.session_err)

answer_open-IsEnded : (e : Err) (ch : Channel) → Answered ch → IsEnded (answer_open (some e) ch)
answer_open-IsEnded e ch q = record {
  stopped = q.0.0.0;
  no_frames = q.0.1;
  none_queued = q.0.2;
  none_waiting = q.1;
  none_opening = refl;
  reported = q.0.0.1;
}

module _ (id : ℕ) where
  Turns-then :
      (Q R S : Channel → Type 0) (m n : M (Unit {0}))
      → Turns id Q R m
      → Turns id R S n
      → Turns id Q S (m >> n)
  Turns-then Q R S m n hm hn s q =
      let (t, went, r) = hm s q in
      let (u, next, h) = hn t r in
      (
        u,
        ap (λ o. elim o as (λ x. Outcome (Unit {0})) [ ok a v ↦ n v | err e v ↦ err e v ]) went
            ∙ next,
        h,
      )

  Turns-store :
      (Q R : Channel → Type 0) (f : Channel → Channel)
      → ((ch : Channel) → Q ch → R (f ch))
      → Turns id Q R (store id f)
  Turns-store Q R f step s (ch, e, q) = (
    record s { heap = update id f s.heap },
    refl,
    (f ch, lookup-update_self id f ch s.heap e, step ch q),
  )

  discard_queued-known :
      (s : Session) (ch : Channel)
      → lookup id s.heap ≡ some ch
      → discard_queued id s
        ≡ ok tt (
            final (
              release_queue_budget ch.queued_frames ch.queued_bytes (record s {
                heap =
                    update id
                      (λ ch. record ch { queued_frames = 0; queued_bytes = 0; frames = [] })
                      s.heap;
              })))
  unfolding discard_queued release_queue_budget on_channel
  discard_queued-known s ch e = ground arith

  Turns-discard :
      (Q R : Channel → Type 0)
      → ((ch : Channel) → Q ch → R (record ch { queued_frames = 0; queued_bytes = 0; frames = [] }))
      → Turns id Q R (discard_queued id)
  unfolding release_queue_budget
  Turns-discard Q R step s (ch, e, q) =
      (_, discard_queued-known s ch e, (_, lookup-update_self id _ ch s.heap e, step ch q))

  fail_pending_requests-known :
      (e : Err) (s : Session) (ch : Channel)
      → lookup id s.heap ≡ some ch
      → fail_pending_requests id e s
        ≡ ok tt (record s {
          pending_channel_requests = s.pending_channel_requests - length ch.pending_requests;
          heap = update id (fail_waiters e) s.heap;
        })
  unfolding fail_pending_requests on_channel
  fail_pending_requests-known e s ch q = ground arith

  Turns-fail :
      (Q R : Channel → Type 0) (e : Err)
      → ((ch : Channel) → Q ch → R (fail_waiters e ch))
      → Turns id Q R (fail_pending_requests id e)
  Turns-fail Q R e step s (ch, found, q) = (
    _,
    fail_pending_requests-known e s ch found,
    (_, lookup-update_self id _ ch s.heap found, step ch q),
  )

  Turns-cancel :
      (Q : Channel → Type 0) (e : Err)
      → ((c : Option Err) (ch : Channel) → Q ch → Q (record ch { cause = c }))
      → Turns id Q Q (cancel_channel id e)
  unfolding cancel_channel
  Turns-cancel Q e stable s (ch, found, q) =
      (_, refl, (_, lookup-update_self id _ ch s.heap found, stable _ ch q))

  pub channel_shutdown-ends : (e : Err) → Turns id (λ ch. Unit {0}) IsEnded (channel_shutdown id e)
  unfolding channel_shutdown
  channel_shutdown-ends e =
      Turns-then _ Failed _ _ _
        (Turns-store _ Failed (mark_failed e) λ ch _. mark_failed-Failed e ch)
        (Turns-then _ Drained _ _ _ (Turns-discard Failed Drained λ ch q. (q, refl, refl)) (
          Turns-then _ Answered _ _ _ (Turns-fail Drained Answered e λ ch q. (q, refl)) (
            Turns-then _ IsEnded _ _ _
              (Turns-store Answered IsEnded (answer_open (some e))
                λ ch q. answer_open-IsEnded e ch q)
              (Turns-cancel IsEnded e λ c ch q. record {
                stopped = q.stopped;
                no_frames = q.no_frames;
                none_queued = q.none_queued;
                none_waiting = q.none_waiting;
                none_opening = q.none_opening;
                reported = q.reported;
              }))))
