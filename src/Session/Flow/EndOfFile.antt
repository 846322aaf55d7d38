-- ===== src/Session/Flow/EndOfFile.antt =====
-- The end of the file as `Recv` of lib/session/channel.go reports it.
use mygosh.Base.{ℕ, ◌≡◌, refl, some, List, [], ◌∷◌, arith, length}
use mygosh.Base.Maps.{lookup, update}
use mygosh.Session.Message.{Bytes, World}
use mygosh.Session.Channel.{Channel}
use mygosh.Session.State.{Session, M, ok, ◌>>◌, pure}
use mygosh.Session.State.Invert.{bind-ok, load_then-ok}
use mygosh.Session.Budget.{release_queued}
use mygosh.Session.Flow.Reading.{adjust_if}
use mygosh.Session.Flow.{
  RecvStep, received, end_of_file, size_of, give_back, recv, recv_from, recv_frame,
}

then_received :
    (m : M (Unit {0})) (frame : Bytes) (s t : Session) (step : RecvStep)
    → (m >> pure (received frame)) s ≡ ok step t
    → step ≡ received frame
then_received m frame s t step h = let (a, u, went, last) = bind-ok m _ s t step h in result last
  where
    result : {u : Session} → ok (received frame) u ≡ ok step t → step ≡ received frame
    result r = grind arith

recv_frame-received :
    (world : World) (id : ℕ) (frame : Bytes) (rest : List Bytes) (s t : Session) (step : RecvStep)
    → recv_frame world id frame rest s ≡ ok step t
    → step ≡ received frame
unfolding recv_frame
recv_frame-received world id frame rest s t step h =
    let s1 : Session = record s { heap = update id (λ ch. record ch { frames = rest }) s.heap } in
    let (u, s2, released, h) = bind-ok (release_queued id 1 (length frame)) _ s1 t step h in
    let s3 : Session = record s2 { heap = update id (give_back (size_of frame)) s2.heap } in
    let (c3, found3, h) = load_then-ok id _ s3 t step h in
    then_received (adjust_if world id s2.config.window_adjust_threshold c3) frame s3 t step h

-- `Recv` reports the end of the file only on a channel that has no data left.
pub recv-end_of_file :
    (world : World) (id : ℕ) (s t : Session)
    → recv world id s ≡ ok end_of_file t
    → (ch : Channel) × (lookup id s.heap ≡ some ch) × (ch.frames ≡ [])
unfolding recv
recv-end_of_file world id s t h =
    let (ch, found, h) = load_then-ok id _ s t end_of_file h in (ch, found, go ch ch.frames h)
  where
    go : (ch : Channel) (fs : List Bytes) → recv_from world id ch fs s ≡ ok end_of_file t → fs ≡ []
    go ch [] r = refl
    go ch (frame ∷ rest) r =
        let no = recv_frame-received world id frame rest s t end_of_file r in grind arith
