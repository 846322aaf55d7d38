-- ===== src/Command/Answered.antt =====
-- The answer of `serve` in lib/command/server.go to the first frame of a client.
use mygosh.Base.{◌≡◌, ◌≢◌, Bool, true, false, some, [], ◌∷◌}
use mygosh.Base.Result.{Result, ok, fail}
use mygosh.Bincoder.{Bytes}
use mygosh.Command.{CommandErr, ClientFrame, marshal_message}
use mygosh.Command.Starting.{StartRequest, decode_start}
use mygosh.Command.Started.{start_part}
use mygosh.Command.Server.{Conn, start_result_of, Begun}

-- Whether the two answers fit a frame.
unfoldable pub CanAnswer : Conn → Type 0
CanAnswer conn =
    (accepted : Bool)
    → (frame : Bytes) × (marshal_message conn.codec (some (start_result_of accepted))
          conn.max_send_frame_size
        ≡ ok frame)

-- One answer to the start `s`: the process runs and was accepted; or it was started, but the
-- acceptance was lost and it was told to end; or it was refused, where no process was started.
pub data Answered (starter : StartRequest → Result CommandErr Bool) (s : ClientFrame)
    : Begun → Type 0 where
  accepted :
      (r : StartRequest)
      → decode_start (start_part s) ≡ ok r
      → starter r ≡ ok true
      → Answered starter s
          (record { sent = start_result_of true ∷ []; terminated = 0; outcome = ok r })
  lost :
      (r : StartRequest) (e : CommandErr)
      → decode_start (start_part s) ≡ ok r
      → starter r ≡ ok true
      → Answered starter s
          (record { sent = start_result_of true ∷ []; terminated = 1; outcome = fail e })
  refused :
      (e : CommandErr)
      → ((r : StartRequest) → decode_start (start_part s) ≡ ok r → starter r ≢ ok true)
      → Answered starter s
          (record { sent = start_result_of false ∷ []; terminated = 0; outcome = fail e })
