-- ===== src/Session/Flow/Reading.antt =====
-- `Recv` of lib/session/channel.go on a channel that has data.
use mygosh.Base.{
  u32, ℕ, ◌+◌, ◌≡◌, refl, ap, ◌∙◌, subst, sym, Bool, true, false, some, List, [], append_nil, ◌∷◌,
  ◌++◌, arith, length, leb, ltb, if◌then◌else◌,
}
use mygosh.Base.Maps.{lookup, update, lookup-update_self}
use mygosh.Session.Config.{Config}
use mygosh.Session.Message.{Bytes, World}
use mygosh.Session.Channel.{Channel}
use mygosh.Session.State.{Session, M, ok, final, ◌>>◌, done, pure, store}
use mygosh.Session.State.Invert.{bind-ok, load_then-ok}
use mygosh.Session.Budget.{release_queued}
use mygosh.Session.Flow.{
  RecvStep, received, size_of, give_back, send_adjust, recv, recv_from, recv_frame,
}
use mygosh.Session.Flow.Ends.{same_channel}
use mygosh.Session.Flow.Link.{Link, LinkStep, reads, settle, told, read_frame, IsSameFlow}
use mygosh.Session.Flow.Releasing.{
  settle-IsReleased, told_of, IsReleased, release_queued-ok, adjust_writes, send_adjust-heap,
}

-- The end of `Recv`: the peer is told once the threshold is reached.
abbrev pub adjust_if : World → ℕ → ℕ → Channel → M (Unit {0})
adjust_if world id threshold ch =
    if leb threshold ch.pending_window_bytes
    then (store id (λ ch. record ch { pending_window_bytes = 0 })
        >> (if ltb 0 ch.pending_window_bytes
            then send_adjust world ch.peer_id ch.pending_window_bytes
            else done))
    else done

settle-ok :
    (world : World) (id threshold : ℕ) (ch : Channel) (s t : Session) (a : Unit {0})
    → lookup id s.heap ≡ some ch
    → t.closing ≡ false
    → adjust_if world id threshold ch s ≡ ok a t
    → (lookup id t.heap ≡ some (settle threshold ch))
      × (t.outbound_queue ≡ s.outbound_queue ++ adjust_writes world ch.peer_id (told threshold ch))
unfolding adjust_writes
settle-ok world id threshold ch s t a found running h =
    go (leb threshold ch.pending_window_bytes) (ltb 0 ch.pending_window_bytes) h
  where
    cleared : Channel → Channel
    cleared ch = record ch { pending_window_bytes = 0 }

    go :
        (b c : Bool)
        → (if b
              then (store id cleared
                  >> (if c then send_adjust world ch.peer_id ch.pending_window_bytes else done))
              else done)
            s
          ≡ ok a t
        → (lookup id t.heap ≡ some (if b then cleared ch else ch))
          × (t.outbound_queue
              ≡ s.outbound_queue
                ++ adjust_writes world ch.peer_id
                    (if b then (if c then ch.pending_window_bytes ∷ [] else []) else []))
    go true true r =
        let (same, sent) =
          send_adjust-heap world ch.peer_id ch.pending_window_bytes _ t a r running in
        (ap (lookup id) same ∙ lookup-update_self id cleared ch s.heap found, sent)
    go true false r = (
      ap (λ o. lookup id (final o).heap) (sym r) ∙ lookup-update_self id cleared ch s.heap found,
      ap (λ o. (final o).outbound_queue) (sym r) ∙ sym (append_nil s.outbound_queue),
    )
    go false c r = (
      ap (λ o. lookup id (final o).heap) (sym r) ∙ found,
      ap (λ o. (final o).outbound_queue) (sym r) ∙ sym (append_nil s.outbound_queue),
    )

settle-IsSameFlow :
    (threshold : ℕ) (a b : Channel)
    → IsSameFlow a b
    → IsSameFlow (settle threshold a) (settle threshold b)
settle-IsSameFlow threshold a b same =
    subst
      (λ p.
        IsSameFlow (settle threshold a)
          (if leb threshold p then record b { pending_window_bytes = 0 } else b))
      same.pending (choose (leb threshold a.pending_window_bytes))
  where
    choose :
        (x : Bool)
        → IsSameFlow
            (if x then record a { pending_window_bytes = 0 } else a)
            (if x then record b { pending_window_bytes = 0 } else b)
    choose true = record {
      remote_window = same.remote_window;
      local_window = same.local_window;
      pending = refl;
      frames = same.frames;
    }
    choose false = same

give_back-IsSameFlow :
    (n : ℕ) (a b : Channel) → IsSameFlow a b → IsSameFlow (give_back n a) (give_back n b)
give_back-IsSameFlow n a b same = record {
  remote_window = same.remote_window;
  local_window = ap (λ w. u32 (w + n)) same.local_window;
  pending = ap (λ w. u32 (w + n)) same.pending;
  frames = same.frames;
}

finish-ok :
    (world : World) (id threshold : ℕ) (frame : Bytes) (ch : Channel) (s t : Session)
    (step : RecvStep)
    → lookup id s.heap ≡ some ch
    → t.closing ≡ false
    → (adjust_if world id threshold ch >> pure (received frame)) s ≡ ok step t
    → (step ≡ received frame)
      × (lookup id t.heap ≡ some (settle threshold ch))
      × (t.outbound_queue ≡ s.outbound_queue ++ adjust_writes world ch.peer_id (told threshold ch))
finish-ok world id threshold frame ch s t step found running h =
    let (a, u, adjusted, last) = bind-ok (adjust_if world id threshold ch) _ s t step h in
    let same : u ≡ t = ap final last in
    let still : u.closing ≡ false = ap (λ (x : Session). x.closing) same ∙ running in
    let (after, sent) =
      subst
        (λ (x : Session).
          (lookup id x.heap ≡ some (settle threshold ch))
          × (x.outbound_queue
              ≡ s.outbound_queue ++ adjust_writes world ch.peer_id (told threshold ch)))
        same (settle-ok world id threshold ch s u a found still adjusted) in
    (result last, after, sent)
  where
    result : {u : Session} → ok (received frame) u ≡ ok step t → step ≡ received frame
    result r = grind arith

recv_frame-ok :
    (world : World) (id : ℕ) (frame : Bytes) (rest : List Bytes) (ch : Channel) (s t : Session)
    (step : RecvStep)
    → lookup id s.heap ≡ some ch
    → t.closing ≡ false
    → recv_frame world id frame rest s ≡ ok step t
    → (step ≡ received frame)
      × ((next : Channel) × (lookup id t.heap ≡ some next)
          × IsSameFlow next (settle s.config.window_adjust_threshold (read_frame frame rest ch))
          × IsReleased 1 (length frame) ch next
          × (t.outbound_queue
              ≡ s.outbound_queue
                ++ adjust_writes world ch.peer_id
                    (told s.config.window_adjust_threshold (read_frame frame rest ch))))
unfolding recv_frame
recv_frame-ok world id frame rest ch s t step found running h =
    let n = size_of frame in
    let s1 : Session = record s { heap = update id (λ ch. record ch { frames = rest }) s.heap } in
    let here1 = lookup-update_self id (λ ch. record ch { frames = rest }) ch s.heap found in
    let (u, s2, released, h) = bind-ok (release_queued id 1 (length frame)) _ s1 t step h in
    let (c2, here2, flow2, config2, peer2, freed2, queue2) =
      release_queued-ok id 1 (length frame) s1 s2 u (record ch { frames = rest }) here1 released in
    let s3 : Session = record s2 { heap = update id (give_back n) s2.heap } in
    let here3 = lookup-update_self id (give_back n) c2 s2.heap here2 in
    let (c3, found3, h) = load_then-ok id _ s3 t step h in
    let same3 : give_back n c2 ≡ c3 = same_channel (give_back n c2) c3 _ here3 found3 in
    let (result, here4, sent4) =
      finish-ok world id s2.config.window_adjust_threshold frame c3 s3 t step found3 running h in
    let threshold : s2.config.window_adjust_threshold ≡ s.config.window_adjust_threshold =
      ap (λ (c : Config). c.window_adjust_threshold) config2 in
    let flow3 : IsSameFlow c3 (read_frame frame rest ch) =
      subst (λ (c : Channel). IsSameFlow c (read_frame frame rest ch)) same3
        (give_back-IsSameFlow n c2 _ flow2) in
    (
      result,
      (
        settle s.config.window_adjust_threshold c3,
        subst (λ n. lookup id t.heap ≡ some (settle n c3)) threshold here4,
        settle-IsSameFlow s.config.window_adjust_threshold c3 (read_frame frame rest ch) flow3,
        settle-IsReleased s.config.window_adjust_threshold 1 (length frame) ch c3
            (subst (IsReleased 1 (length frame) ch) same3 freed2),
        sent4
            ∙ ap
                (λ q.
                  q ++ adjust_writes world c3.peer_id (told s2.config.window_adjust_threshold c3))
                queue2
            ∙ ap
                (λ p.
                  s.outbound_queue
                  ++ adjust_writes world p (told s2.config.window_adjust_threshold c3))
                (ap (λ (c : Channel). c.peer_id) (sym same3) ∙ peer2)
            ∙ ap (λ n. s.outbound_queue ++ adjust_writes world ch.peer_id (told n c3)) threshold
            ∙ ap
                (λ p.
                  s.outbound_queue
                  ++ adjust_writes world ch.peer_id (told_of s.config.window_adjust_threshold p))
                flow3.pending,
      ),
    )

-- On a channel with data, a `Recv` that does not end the session returns the data that came first,
-- counts one frame and its bytes less as queued in the channel, and is a step of every link whose receiver is the channel: what the step tells the sender is
-- just what is then added to the queue to the writer, as adjustments under the peer's id.
pub recv-LinkStep :
    (world : World) (id : ℕ) (frame : Bytes) (rest : List Bytes) (s t : Session) (step : RecvStep)
    (l : Link)
    → lookup id s.heap ≡ some l.receiver
    → l.receiver.frames ≡ frame ∷ rest
    → recv world id s ≡ ok step t
    → t.closing ≡ false
    → (step ≡ received frame)
      × ((ch : Channel) × (lookup id t.heap ≡ some ch)
          × IsReleased 1 (length frame) l.receiver ch
          × (t.outbound_queue
              ≡ s.outbound_queue
                ++ adjust_writes world l.receiver.peer_id
                    (told s.config.window_adjust_threshold (read_frame frame rest l.receiver)))
          × LinkStep s.config.window_adjust_threshold l (record l {
            receiver = ch;
            credits =
                l.credits
                ++ told s.config.window_adjust_threshold (read_frame frame rest l.receiver);
          }))
unfolding recv
recv-LinkStep world id frame rest s t step l found queued h running =
    let (ch, here, h) = load_then-ok id _ s t step h in
    let same : ch ≡ l.receiver = same_channel ch l.receiver _ here found in
    let h = subst (λ (c : Channel). recv_from world id c c.frames s ≡ ok step t) same h in
    let h = subst (λ fs. recv_from world id l.receiver fs s ≡ ok step t) queued h in
    let (result, (next, here_next, flow, freed, sent)) =
      recv_frame-ok world id frame rest l.receiver s t step found running h in
    (result, (next, here_next, freed, sent, reads l frame rest next queued flow))
