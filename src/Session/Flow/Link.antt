-- ===== src/Session/Flow/Link.antt =====
-- One direction of a channel between two sessions: the sender's window, the data and the window
-- adjustments on the wire, and the receiver's queue, changed by what `Send`, `Recv` (both
-- lib/session/channel.go), `handleChannelData` and `handleChannelWindowAdjust`
-- (lib/session/session.go) do to the two channels.
use mygosh.Base.{ℕ, ◌+◌, ◌-◌, ◌<◌, ◌≤◌, ◌≡◌, ap, ◌∙◌, List, [], ◌∷◌, ◌++◌, arith, ◌^◌}
use mygosh.Base.{u32, ltb, leb, if◌then◌else◌, sum_by, sum_by-append}
use mygosh.Session.Message.{Bytes}
use mygosh.Session.Channel.{Channel}
use mygosh.Session.Flow.{size_of, refund}

pub record Link : Type 0 where
  pub sender : Channel
  pub receiver : Channel
  pub in_flight : List Bytes
  pub credits : List ℕ

-- `Recv` on a channel whose first frame is `frame`, and the adjustment that it sends.
abbrev pub read_frame : Bytes → List Bytes → Channel → Channel
read_frame frame rest ch = record ch {
  frames = rest;
  local_window = u32 (ch.local_window + size_of frame);
  pending_window_bytes = u32 (ch.pending_window_bytes + size_of frame);
}

abbrev pub settle : ℕ → Channel → Channel
settle threshold ch =
    if leb threshold ch.pending_window_bytes then record ch { pending_window_bytes = 0 } else ch

abbrev pub told : ℕ → Channel → List ℕ
told threshold ch =
    if leb threshold ch.pending_window_bytes
    then (if ltb 0 ch.pending_window_bytes then ch.pending_window_bytes ∷ [] else [])
    else []

-- Two states of a channel with the same windows and the same frames.
pub record IsSameFlow (ch other : Channel) : Type 0 where
  pub remote_window : ch.remote_window ≡ other.remote_window
  pub local_window : ch.local_window ≡ other.local_window
  pub pending : ch.pending_window_bytes ≡ other.pending_window_bytes
  pub frames : ch.frames ≡ other.frames

-- The sender obeys the guard of `Send`. Nothing else is assumed of the schedule: writes are
-- withdrawn before they go out, and the channels change in every other respect at any time.
pub data LinkStep (threshold : ℕ) : Link → Link → Type 0 where
  sends :
      (l : Link) (frame : Bytes) (ch : Channel)
      → size_of frame ≤ l.sender.remote_window
      → IsSameFlow ch (record l.sender { remote_window = l.sender.remote_window - size_of frame })
      → LinkStep threshold l (record l { sender = ch; in_flight = l.in_flight ++ (frame ∷ []) })
  withdraws :
      (l : Link) (frame : Bytes) (before after : List Bytes) (ch : Channel)
      → l.in_flight ≡ before ++ (frame ∷ after)
      → IsSameFlow ch (refund (size_of frame) l.sender)
      → LinkStep threshold l (record l { sender = ch; in_flight = before ++ after })
  arrives :
      (l : Link) (frame : Bytes) (rest : List Bytes) (ch : Channel)
      → l.in_flight ≡ frame ∷ rest
      → IsSameFlow ch (record l.receiver {
        local_window = l.receiver.local_window - size_of frame;
        frames = l.receiver.frames ++ (frame ∷ []);
      })
      → LinkStep threshold l (record l { receiver = ch; in_flight = rest })
  reads :
      (l : Link) (frame : Bytes) (rest : List Bytes) (ch : Channel)
      → l.receiver.frames ≡ frame ∷ rest
      → IsSameFlow ch (settle threshold (read_frame frame rest l.receiver))
      → LinkStep threshold l (record l {
        receiver = ch;
        credits = l.credits ++ told threshold (read_frame frame rest l.receiver);
      })
  credited :
      (l : Link) (n : ℕ) (rest : List ℕ) (ch : Channel)
      → l.credits ≡ n ∷ rest
      → IsSameFlow ch (record l.sender { remote_window = u32 (l.sender.remote_window + n) })
      → LinkStep threshold l (record l { sender = ch; credits = rest })
  changes :
      (l : Link) (a b : Channel)
      → IsSameFlow a l.sender
      → IsSameFlow b l.receiver
      → LinkStep threshold l (record l { sender = a; receiver = b })

pub data LinkSteps (threshold : ℕ) : Link → Link → Type 0 where
  stays : (l : Link) → LinkSteps threshold l l
  then_step :
      (l m n : Link) → LinkSteps threshold l m → LinkStep threshold m n → LinkSteps threshold l n

-- The window is conserved.
pub record Conserved (window threshold : ℕ) (l : Link) : Type 0 where
  pub total :
      l.sender.remote_window
        + sum_by size_of l.in_flight
        + sum_by size_of l.receiver.frames
        + l.receiver.pending_window_bytes
        + sum_by (λ n. n) l.credits
      ≡ window
  pub local : l.receiver.local_window + sum_by size_of l.receiver.frames ≡ window
  pub below : l.receiver.pending_window_bytes < threshold

-- Settling moves the count of bytes given back to the wire, and touches nothing else.
record IsSettled (threshold : ℕ) (ch : Channel) : Type 0 where
  moved :
      (settle threshold ch).pending_window_bytes + sum_by (λ n. n) (told threshold ch)
      ≡ ch.pending_window_bytes
  same_frames : (settle threshold ch).frames ≡ ch.frames
  same_window : (settle threshold ch).local_window ≡ ch.local_window
  below : (settle threshold ch).pending_window_bytes < threshold

settle-IsSettled : (threshold : ℕ) (ch : Channel) → 0 < threshold → IsSettled threshold ch
settle-IsSettled threshold ch positive = record {
  moved = ground arith;
  same_frames = ground arith;
  same_window = ground arith;
  below = ground arith;
}

-- Below the largest window, a refund is exact.
refund-exact :
    (size : ℕ) (ch : Channel)
    → ch.remote_window + size < 2 ^ 32
    → (refund size ch).remote_window ≡ ch.remote_window + size
refund-exact size ch h = ground arith

LinkStep-Conserved :
    (window threshold : ℕ) (l m : Link)
    → window < 2 ^ 32
    → 0 < threshold
    → LinkStep threshold l m
    → Conserved window threshold l
    → Conserved window threshold m
LinkStep-Conserved window threshold _ _ small positive (sends l frame ch fits same) h = record {
  total = omega (arith, sum_by-append size_of l.in_flight (frame ∷ []), h, fits, same);
  local = h.local;
  below = h.below;
}
LinkStep-Conserved window threshold _ _ small positive (withdraws l frame before after ch e same)
      h =
    let split : sum_by size_of l.in_flight ≡ sum_by size_of (before ++ (frame ∷ after)) =
      ap (sum_by size_of) e in
    let parts = sum_by-append size_of before (frame ∷ after) in
    let joined = sum_by-append size_of before after in
    let back = refund-exact (size_of frame) l.sender (omega (arith, h, split, parts, small)) in
    record {
      total = omega (arith, h, split, parts, joined, back, same);
      local = h.local;
      below = h.below;
    }
LinkStep-Conserved window threshold _ _ small positive (arrives l frame rest ch e same) h =
    let first : sum_by size_of l.in_flight ≡ size_of frame + sum_by size_of rest =
      ap (sum_by size_of) e in
    let added = sum_by-append size_of l.receiver.frames (frame ∷ []) in
    let frames = ap (sum_by size_of) same.frames in
    record {
      total = omega (arith, added, h, first, frames, same);
      local = omega (arith, added, h, first, frames, same);
      below = omega (arith, h, same);
    }
LinkStep-Conserved window threshold _ _ small positive (reads l frame rest ch e same) h =
    let first : sum_by size_of l.receiver.frames ≡ size_of frame + sum_by size_of rest =
      ap (sum_by size_of) e in
    let next : Channel = read_frame frame rest l.receiver in
    let settled = settle-IsSettled threshold next positive in
    let frames = ap (sum_by size_of) (same.frames ∙ settled.same_frames) in
    let sent = sum_by-append (λ n. n) l.credits (told threshold next) in
    record {
      total = omega (arith, h, first, settled, frames, sent, small, same);
      local = omega (arith, h, first, settled, frames, small, same);
      below = omega (arith, settled, same);
    }
LinkStep-Conserved window threshold _ _ small positive (credited l n rest ch e same) h =
    let first : sum_by (λ n. n) l.credits ≡ n + sum_by (λ n. n) rest = ap (sum_by (λ n. n)) e in
    record { total = omega (arith, h, first, small, same); local = h.local; below = h.below }
LinkStep-Conserved window threshold _ _ small positive (changes l a b same_a same_b) h =
    let frames = ap (sum_by size_of) same_b.frames in
    record {
      total = omega (arith, h, frames, same_a, same_b);
      local = omega (arith, h, frames, same_b);
      below = omega (arith, h, same_b);
    }

-- A channel that was just opened in both sessions.
pub record IsOpened (window : ℕ) (l : Link) : Type 0 where
  pub sender_window : l.sender.remote_window ≡ window
  pub receiver_window : l.receiver.local_window ≡ window
  pub none_in_flight : l.in_flight ≡ []
  pub none_queued : l.receiver.frames ≡ []
  pub none_pending : l.receiver.pending_window_bytes ≡ 0
  pub no_credits : l.credits ≡ []

pub LinkSteps-Conserved :
    (window threshold : ℕ) (l m : Link)
    → window < 2 ^ 32
    → 0 < threshold
    → IsOpened window l
    → LinkSteps threshold l m
    → Conserved window threshold m
LinkSteps-Conserved window threshold _ _ small positive o (stays l) =
    let a = ap (sum_by size_of) o.none_in_flight in
    let b = ap (sum_by size_of) o.none_queued in
    let c = ap (sum_by (λ n. n)) o.no_credits in
    record {
      total = omega (arith, o, a, b, c);
      local = omega (arith, o, b);
      below = omega (arith, o, positive);
    }
LinkSteps-Conserved window threshold _ _ small positive o (then_step l m n before last) =
    LinkStep-Conserved window threshold m n small positive last
      (LinkSteps-Conserved window threshold l m small positive o before)
