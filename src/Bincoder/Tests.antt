-- ===== src/Bincoder/Tests.antt =====
-- Concrete runs of lib/bincoder.
use mygosh.Base.{All, ◌≡◌, refl, true, none, List, [], ◌∷◌, arith}
use mygosh.Bincoder.{put_u32}
use mygosh.Bincoder.Encoder
use mygosh.Bincoder.Decoder
use mygosh.Bincoder.Decoder.{Decoder}
use mygosh.Bincoder.Stream
use mygosh.Bincoder.Stream.{got, short_write}
use mygosh.Bincoder.RoundTrip.{
  Field, a_byte, a_bool, a_u32, a_bytes, IsEncodable, encode, encode_field, decode, decode-encode,
}
use mygosh.Bincoder.Bounds.{Call, calls, Advances, calls-Advances}
use mygosh.Bincoder.Writing.{Ended, write_full-Ended}
use mygosh.Bincoder.Sample.{short_writer, short_writer-Honest}

abbrev fields : List Field
fields = a_u32 258 ∷ a_bytes (7 ∷ 8 ∷ []) ∷ a_bool true ∷ a_byte 9 ∷ []

fields_bytes :
    Encoder.result (encode fields Encoder.new_encoder)
    ≡ 0 ∷ 0 ∷ 1 ∷ 2 ∷ 0 ∷ 0 ∷ 0 ∷ 2 ∷ 7 ∷ 8 ∷ 1 ∷ 9 ∷ []
unfolding Encoder.result Encoder.new_encoder Encoder.u32 Encoder.bytes Encoder.bool Encoder.byte
    Encoder.write put_u32 encode encode_field
fields_bytes = refl

encodable : All IsEncodable fields
unfolding IsEncodable
encodable = (omega arith, (omega arith, (tt, (tt, tt))))

decode-encode_example :
    let (xs, c) =
      decode fields (Decoder.new_cursor (Encoder.result (encode fields Encoder.new_encoder))) in
    (xs ≡ fields) × (Decoder.done c ≡ none)
decode-encode_example = decode-encode fields encodable

-- A truncated text stops the decoder for good.
abbrev cursor : Decoder
cursor = record { buf = 0 ∷ 0 ∷ 1 ∷ []; off = 0; err = none; max_bytes = 10 }

calls-Advances_example :
    Advances cursor (calls (λ _. true) (Call.byte ∷ Call.u32 ∷ Call.bool ∷ []) cursor)
calls-Advances_example = calls-Advances (λ _. true) (Call.byte ∷ Call.u32 ∷ Call.bool ∷ []) cursor

write_full-Ended_example :
    let (error, v) = Stream.write_full short_writer (1 ∷ 2 ∷ 3 ∷ 4 ∷ 5 ∷ []) (0 ∷ []) in
    Ended (0 ∷ []) (1 ∷ 2 ∷ 3 ∷ 4 ∷ 5 ∷ []) v error
write_full-Ended_example =
    write_full-Ended short_writer (λ w. w) short_writer-Honest (1 ∷ 2 ∷ 3 ∷ 4 ∷ 5 ∷ []) (0 ∷ [])
