-- ===== src/Session/Budget.antt =====
-- The accounting of queued frames and bytes: `reserveQueueBudget` and `releaseQueueBudget` of
-- lib/session/session.go, and the per-channel shares of lib/session/channel.go.
use mygosh.Base.{ℕ, Bool, ◌+◌, ◌-◌, ltb, if◌then◌else◌, u32, u64, sub32, sub64, []}
use mygosh.Session.Error.{resource_limit}
use mygosh.Session.State.{ok, err, M, ◌>>◌, on_channel, store}

-- Whether a limit leaves no room: `frames > limit - queued` at uint32, `bytes > …` at uint64.
abbrev pub no_frames : ℕ → ℕ → ℕ → Bool
no_frames limit queued frames = ltb (sub32 limit queued) frames

abbrev pub no_bytes : ℕ → ℕ → ℕ → Bool
no_bytes limit queued bytes = ltb (sub64 limit queued) bytes

unfoldable pub reserve_queue_budget : ℕ → ℕ → M (Unit {0})
reserve_queue_budget frames bytes s =
    if no_frames s.config.limits.max_queued_frames_total s.queued_frames frames
    then err resource_limit s
    else if no_bytes s.config.limits.max_queued_bytes_total s.queued_bytes bytes
    then err resource_limit s
    else ok tt (record s {
      queued_frames = u32 (s.queued_frames + frames);
      queued_bytes = u64 (s.queued_bytes + bytes);
    })

unfoldable pub release_queue_budget : ℕ → ℕ → M (Unit {0})
release_queue_budget frames bytes s = ok tt (record s {
  queued_frames = if ltb s.queued_frames frames then 0 else s.queued_frames - frames;
  queued_bytes = if ltb s.queued_bytes bytes then 0 else s.queued_bytes - bytes;
})

unfoldable pub reserve_queued : ℕ → ℕ → ℕ → M (Unit {0})
reserve_queued id frames bytes s = on_channel id s λ ch.
    if no_frames s.config.limits.max_queued_frames_per_channel ch.queued_frames frames
    then err resource_limit s
    else if no_bytes s.config.limits.max_queued_bytes_per_channel ch.queued_bytes bytes
    then err resource_limit s
    else (do
      reserve_queue_budget frames bytes
      store id λ ch. record ch {
        queued_frames = u32 (ch.queued_frames + frames);
        queued_bytes = u64 (ch.queued_bytes + bytes);
      })
        s

abbrev pub at_most : ℕ → ℕ → ℕ
at_most a limit = if ltb limit a then limit else a

unfoldable pub release_queued : ℕ → ℕ → ℕ → M (Unit {0})
release_queued id frames bytes s = on_channel id s λ ch.
    let actual_frames = at_most frames ch.queued_frames in
    let actual_bytes = at_most bytes ch.queued_bytes in
    (do
      store id λ ch. record ch {
        queued_frames = ch.queued_frames - actual_frames;
        queued_bytes = ch.queued_bytes - actual_bytes;
      }
      release_queue_budget actual_frames actual_bytes)
      s

unfoldable pub discard_queued : ℕ → M (Unit {0})
discard_queued id s = on_channel id s λ ch.
    (do
      store id λ ch. record ch { queued_frames = 0; queued_bytes = 0; frames = [] }
      release_queue_budget ch.queued_frames ch.queued_bytes)
      s
