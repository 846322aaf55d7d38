-- ===== src/Command/Delivered.antt =====
-- What reaches the process through lib/command: the order of its calls, and the client's data.
use mygosh.Base.{
  ℕ, ◌≤◌, ◌≡◌, refl, sym, ap, subst, ◌∙◌, Bool, true, false, not, ◌&&◌, inl, inr, Option, none,
  some, Option-cases, List, [], ◌∷◌, ◌++◌, map, if◌then◌else◌,
}
use mygosh.Base.{◌==◌, length, ltb, append_assoc, append_nil, arith}
use mygosh.Base.Result.{Result, ok, fail, guard-ok, ok_injective, Result-cases}
use mygosh.Bincoder.{Bytes}
use mygosh.Wire.{Codec}
use mygosh.Wire.Delivery.{Codes}
use mygosh.Command.{
  CommandErr, ClientFrame, start, stdin, stdin_eof, window_change, client_unset, marshal_message,
  unmarshal_message, stdin_after_eof,
}
use mygosh.Command.Chunks.{chunked_frames, encode_client_stdin, effective_maximum}
use mygosh.Command.Carried.{
  Carries, carries_nothing, carries_chunk, chunk_loop-Carries, chunk_loop-total,
}
use mygosh.Command.Input.{
  Call, write_stdin, close_stdin, resize, InputState, do_call, on_frame, receive_input, written,
}
use mygosh.Command.Input.{Orderly, orderly_write, orderly_close, orderly_resize}

-- Both results of a test.
if-either {ℓ} :
    {A : Type ℓ} (P : A → Type 0) (b : Bool) (x y : Option CommandErr × A)
    → (b ≡ true → P x.1)
    → (b ≡ false → P y.1)
    → P ((if◌then◌else◌ {A = Option CommandErr × A}) b x y).1
if-either P true x y h k = h refl
if-either P false x y h k = k refl

unfoldable pub IsOrderly : Bool → InputState → Type 0
IsOrderly has_pty s = Orderly has_pty s.calls s.has_eof

on_frame-Orderly :
    (accepts : List Call → Call → Bool) (has_pty : Bool) (m : ClientFrame) (s : InputState)
    → IsOrderly has_pty s
    → IsOrderly has_pty (on_frame accepts has_pty m s).1
unfolding on_frame do_call IsOrderly
on_frame-Orderly accepts has_pty (start m) s o = o
on_frame-Orderly accepts has_pty client_unset s o = o
on_frame-Orderly accepts has_pty (stdin b) s o =
    if-either (IsOrderly has_pty) s.has_eof _ _ (λ _. o)
      λ e.
        subst (Orderly has_pty (s.calls ++ (write_stdin b ∷ []))) (sym e)
          (orderly_write s.calls b (subst (Orderly has_pty s.calls) e o))
on_frame-Orderly accepts has_pty stdin_eof s o =
    if-either (IsOrderly has_pty) s.has_eof _ _ (λ _. o)
      λ e. orderly_close s.calls (subst (Orderly has_pty s.calls) e o)
on_frame-Orderly accepts has_pty (window_change size) s o =
    if-either (IsOrderly has_pty) (not has_pty) _ _ (λ _. o)
      λ e. orderly_resize s.calls size s.has_eof (ground (arith, e)) o

-- Whatever the client sends, and whatever the process answers, its calls come in order: nothing is
-- written to its input and nothing closed once the input was closed, and it is resized only if it
-- has a PTY.
pub receive_input-IsOrderly :
    (codec : Codec ClientFrame) (accepts : List Call → Call → Bool) (has_pty : Bool)
    (frames : List (Option Bytes)) (s : InputState)
    → IsOrderly has_pty s
    → IsOrderly has_pty (receive_input codec accepts has_pty frames s).1
unfolding receive_input
receive_input-IsOrderly codec accepts has_pty [] s o = o
receive_input-IsOrderly codec accepts has_pty (none ∷ frames) s o = o
receive_input-IsOrderly codec accepts has_pty (some frame ∷ frames) s o =
    elim (Result-cases (unmarshal_message codec frame)) [
      | inr (x, e) ↦ subst (λ r. IsOrderly has_pty (opened r).1) (sym e) o
      | inl (m, e) ↦
          subst (λ r. IsOrderly has_pty (opened r).1) (sym e)
            (after (on_frame accepts has_pty m s) (on_frame-Orderly accepts has_pty m s o)
              (receive_input-IsOrderly codec accepts has_pty frames))
    ]
  where
    went_on : Option CommandErr × InputState → Option CommandErr × InputState
    went_on t = elim t.0 [
      | some x ↦ (some x, t.1)
      | none ↦ receive_input codec accepts has_pty frames t.1
    ]

    opened : Result CommandErr ClientFrame → Option CommandErr × InputState
    opened r = elim r [ fail e ↦ (some e, s) | ok m ↦ went_on (on_frame accepts has_pty m s) ]

    after :
        (t : Option CommandErr × InputState)
        → IsOrderly has_pty t.1
        → ((u : InputState)
            → IsOrderly has_pty u
            → IsOrderly has_pty (receive_input codec accepts has_pty frames u).1)
        → IsOrderly has_pty (went_on t).1
    after (some x, u) k rec = k
    after (none, u) k rec = rec u k

written-snoc : (cs : List Call) (b : Bytes) → written (cs ++ (write_stdin b ∷ [])) ≡ written cs ++ b
unfolding written
written-snoc [] b = append_nil b
written-snoc (write_stdin d ∷ cs) b =
    ap (◌++◌ d) (written-snoc cs b) ∙ sym (append_assoc d (written cs) b)
written-snoc (close_stdin ∷ cs) b = written-snoc cs b
written-snoc (resize size ∷ cs) b = written-snoc cs b

-- A frame that `marshalMessage` accepted opens to its message, and is within the maximum.
pub unmarshal-marshal :
    (codec : Codec ClientFrame) (codes : Codes ClientFrame codec) (m : ClientFrame) (maximum : ℕ)
    (frame : Bytes)
    → marshal_message codec (some m) maximum ≡ ok frame
    → unmarshal_message codec frame ≡ ok m
unfolding marshal_message unmarshal_message
unmarshal-marshal codec codes m maximum frame h =
    let (e1, h1) = guard-ok (not (codec.validate m)) _ _ frame h in
    let valid : codec.validate m ≡ true = ground (arith, e1) in
    elim (Option-cases (codec.marshal m)) [
      | inl n ↦ ground (arith, rw n at h1)
      | inr (f, n) ↦
          let (e2, h2) = guard-ok (length f == 0) _ _ frame (rw n at h1) in
          let (e3, h3) = guard-ok (not (maximum == 0) && ltb maximum (length f)) _ _ frame h2 in
          subst (λ x. unmarshal_message codec x ≡ ok m) (ok_injective f frame h3)
            (rw (e2, codes.reads_back m f n, valid) refl)
    ]

-- One frame of input, where the input is still open and the process takes every call.
receive_input-stdin :
    (codec : Codec ClientFrame) (has_pty : Bool) (frame b : Bytes) (frames : List (Option Bytes))
    (s : InputState)
    → unmarshal_message codec frame ≡ ok (stdin b)
    → s.has_eof ≡ false
    → receive_input codec (λ cs c. true) has_pty (some frame ∷ frames) s
      ≡ receive_input codec
          (λ cs c. true)
          has_pty
          frames
          (record s { calls = s.calls ++ (write_stdin b ∷ []) })
unfolding receive_input on_frame do_call
receive_input-stdin codec has_pty frame b frames s e h =
    ap opened e ∙ ap (λ c. went_on (tested c)) h
  where
    went_on : Option CommandErr × InputState → Option CommandErr × InputState
    went_on t = elim t.0 [
      | some x ↦ (some x, t.1)
      | none ↦ receive_input codec (λ cs c. true) has_pty frames t.1
    ]

    tested : Bool → Option CommandErr × InputState
    tested c =
        if c
        then (some stdin_after_eof, s)
        else (none, record s { calls = s.calls ++ (write_stdin b ∷ []) })

    opened : Result CommandErr ClientFrame → Option CommandErr × InputState
    opened r = elim r [
      | fail e ↦ (some e, s)
      | ok m ↦ went_on (on_frame (λ cs c. true) has_pty m s)
    ]

-- Input that is still open, and a process that takes every write.
receive_input-Carries :
    (codec : Codec ClientFrame) (codes : Codes ClientFrame codec) (has_pty : Bool) (maximum : ℕ)
    (input : Bytes) (frames : List Bytes) (s : InputState)
    → Carries (λ chunk. marshal_message codec (some (stdin chunk)) maximum) maximum input frames
    → s.has_eof ≡ false
    → let r = receive_input codec (λ cs c. true) has_pty (map some frames) s in
      (r.0 ≡ none) × (written r.1.calls ≡ written s.calls ++ input)
unfolding receive_input
receive_input-Carries codec codes has_pty maximum input frames s carries_nothing h =
    (refl, sym (append_nil (written s.calls)))
receive_input-Carries codec codes has_pty maximum input frames s
      (carries_chunk chunk rest frame others p q e c) h =
    let t : InputState = record s { calls = s.calls ++ (write_stdin chunk ∷ []) } in
    let (fine, all) = receive_input-Carries codec codes has_pty maximum rest others t c h in
    let step =
      receive_input-stdin codec has_pty frame chunk (map some others) s
        (unmarshal-marshal codec codes (stdin chunk) maximum frame e) h in
    (
      ap (λ (r : Option CommandErr × InputState). r.0) step ∙ fine,
      ap (λ (r : Option CommandErr × InputState). written r.1.calls) step
          ∙ (all ∙ ap (λ w. w ++ rest) (written-snoc s.calls chunk))
          ∙ append_assoc (written s.calls) chunk rest,
    )

-- Frames made of a client's input by `EncodeClientStdin`, in whatever number, bring just that input
-- to the process: the server accepts each one, and what it writes is the input, in order.
pub receive_input-encode_client_stdin :
    (codec : Codec ClientFrame) (codes : Codes ClientFrame codec) (has_pty : Bool) (maximum : ℕ)
    (input : Bytes) (frames : List Bytes) (s : InputState)
    → encode_client_stdin codec input maximum ≡ ok frames
    → s.has_eof ≡ false
    → let r = receive_input codec (λ cs c. true) has_pty (map some frames) s in
      (r.0 ≡ none) × (written r.1.calls ≡ written s.calls ++ input)
unfolding encode_client_stdin chunked_frames
receive_input-encode_client_stdin codec codes has_pty maximum input frames s h =
    let m = effective_maximum maximum in
    let encode : Bytes → Result CommandErr Bytes =
      λ chunk. marshal_message codec (some (stdin chunk)) m in
    receive_input-Carries codec codes has_pty m input frames s
      (chunk_loop-Carries encode (length input) input m frames h)

-- Where one byte of input fits a frame, `EncodeClientStdin` always ends with frames: its search
-- finds a size in every round, whatever sizes are refused.
pub encode_client_stdin-total :
    (codec : Codec ClientFrame) (maximum : ℕ) (input : Bytes)
    → ((b : ℕ)
        → (frame : Bytes) × (marshal_message codec
              (some (stdin (b ∷ [])))
              (effective_maximum maximum)
            ≡ ok frame))
    → (frames : List Bytes) × (encode_client_stdin codec input maximum ≡ ok frames)
unfolding encode_client_stdin chunked_frames
encode_client_stdin-total codec maximum input one =
    let m = effective_maximum maximum in
    let positive : 1 ≤ m = ground arith in
    chunk_loop-total (λ chunk. marshal_message codec (some (stdin chunk)) m) (length input) input m
      one positive (omega arith)
