-- ===== src/Bincoder/RoundTrip.antt =====
-- Reading back what was written, for lib/bincoder/encoder.go, decoder.go and rw.go.
use mygosh.Base.{ℕ, ◌≤◌, ◌<◌, ◌≡◌, refl, sym, ap, subst, ◌∙◌, none}
use mygosh.Base.{List, [], ◌∷◌, ◌++◌, All, Bool, true, false, length, ltb, arith, length-drop, ◌==◌}
use mygosh.Base.{append_nil, append_assoc, max_uint32, ◌%◌, ◌^◌}
use mygosh.Bincoder.{Bytes, put_u32, get_u32, first, get-put_u32, length-put_u32}
use mygosh.Bincoder.Encoder
use mygosh.Bincoder.Encoder.{Encoder}
use mygosh.Bincoder.Decoder
use mygosh.Bincoder.Decoder.{Decoder, Read}
use mygosh.Bincoder.Cursor.{At, Reads, take-Reads, and_then-Reads, return-Reads, if-Reads}

-- What a caller of the coder writes, one method call each.
pub data Field : Type 0 where
  a_byte : ℕ → Field
  a_bool : Bool → Field
  a_u32 : ℕ → Field
  a_bytes : Bytes → Field

-- The values that the Go types and the length field admit.
unfoldable pub IsEncodable : Field → Type 0
IsEncodable (a_byte b) = Unit
IsEncodable (a_bool v) = Unit
IsEncodable (a_u32 n) = n < 4294967296
IsEncodable (a_bytes b) = length b ≤ max_uint32

unfoldable pub encode_field : Field → Encoder → Encoder
encode_field (a_byte b) = Encoder.byte b
encode_field (a_bool v) = Encoder.bool v
encode_field (a_u32 n) = Encoder.u32 n
encode_field (a_bytes b) = Encoder.bytes b

unfoldable pub encode : List Field → Encoder → Encoder
encode [] e = e
encode (f ∷ fs) e = encode fs (encode_field f e)

-- The reads of the fields of the same kinds.
unfoldable pub decode_field : Field → Read Field
decode_field (a_byte b) c = let (x, d) = Decoder.byte c in (a_byte x, d)
decode_field (a_bool v) c = let (x, d) = Decoder.bool c in (a_bool x, d)
decode_field (a_u32 n) c = let (x, d) = Decoder.u32 c in (a_u32 x, d)
decode_field (a_bytes b) c = let (x, d) = Decoder.bytes c in (a_bytes x, d)

unfoldable pub decode : List Field → Read (List Field)
decode [] c = ([], c)
decode (f ∷ fs) c = let (x, d) = decode_field f c in let (xs, e) = decode fs d in (x ∷ xs, e)

-- The bytes of a field.
image : Field → Bytes
image (a_byte b) = b ∷ []
image (a_bool true) = 1 ∷ []
image (a_bool false) = 0 ∷ []
image (a_u32 n) = put_u32 n
image (a_bytes b) = put_u32 (length b) ++ b

images : List Field → Bytes
images [] = []
images (f ∷ fs) = image f ++ images fs

byte-Reads : (m b : ℕ) → Reads m (b ∷ []) b Decoder.byte
unfolding Decoder.byte first
byte-Reads m b =
    and_then-Reads m (b ∷ []) [] (b ∷ []) b 0 (Decoder.take 1) _ (take-Reads m (b ∷ []))
      (return-Reads m b)

u32-Reads : (m n : ℕ) → n < 4294967296 → Reads m (put_u32 n) n Decoder.u32
unfolding Decoder.u32
u32-Reads m n h = subst (λ bs. Reads m bs n Decoder.u32) (append_nil (put_u32 n)) step
  where
    front : Reads m (put_u32 n) (put_u32 n) (Decoder.take 4)
    front =
        subst (λ k. Reads m (put_u32 n) (put_u32 n) (Decoder.take k)) (length-put_u32 n)
          (take-Reads m (put_u32 n))

    step : Reads m (put_u32 n ++ []) n Decoder.u32
    step = and_then-Reads m (put_u32 n) [] (put_u32 n) n 0 (Decoder.take 4) _ front (
        subst (λ k. Reads m [] k λ c. (get_u32 (put_u32 n), c)) (get-put_u32 n h)
          (return-Reads m (get_u32 (put_u32 n))))

bool-Reads : (m : ℕ) (v : Bool) → Reads m (image (a_bool v)) v Decoder.bool
unfolding Decoder.bool image
bool-Reads m true =
    and_then-Reads m (1 ∷ []) [] 1 true false Decoder.byte _ (byte-Reads m 1) (return-Reads m true)
bool-Reads m false =
    and_then-Reads m (0 ∷ []) [] 0 false false Decoder.byte _ (byte-Reads m 0)
      (return-Reads m false)

bytes-Reads :
    (m : ℕ) (b : Bytes)
    → length b ≤ m
    → m ≤ max_uint32
    → Reads m (put_u32 (length b) ++ b) b Decoder.bytes
unfolding Decoder.bytes
bytes-Reads m b h k =
    and_then-Reads m (put_u32 (length b)) b (length b) b [] Decoder.u32 _
      (u32-Reads m (length b) (omega arith))
      (if-Reads m (length b) b b _ (Decoder.take (length b)) h (take-Reads m b))

field-Reads :
    (m : ℕ) (f : Field) → IsEncodable f → m ≡ max_uint32 → Reads m (image f) f (decode_field f)
unfolding IsEncodable Reads image decode_field
field-Reads m (a_byte b) h e rest c a =
    let (value, after) = byte-Reads m b rest c a in (ap a_byte value, after)
field-Reads m (a_bool true) h e rest c a =
    let (value, after) = bool-Reads m true rest c a in (ap a_bool value, after)
field-Reads m (a_bool false) h e rest c a =
    let (value, after) = bool-Reads m false rest c a in (ap a_bool value, after)
field-Reads m (a_u32 n) h e rest c a =
    let (value, after) = u32-Reads m n h rest c a in (ap a_u32 value, after)
field-Reads m (a_bytes b) h e rest c a =
    let (value, after) = bytes-Reads m b (omega (arith, h, e)) (omega (arith, e)) rest c a in
    (ap a_bytes value, after)

fields-Reads :
    (m : ℕ) (fs : List Field)
    → All IsEncodable fs
    → m ≡ max_uint32
    → Reads m (images fs) fs (decode fs)
unfolding Reads images decode
fields-Reads m [] h e rest c a = (refl, a)
fields-Reads m (f ∷ fs) h e rest c a =
    let bs = subst (λ bs. At m bs c) (append_assoc (image f) (images fs) rest) a in
    let (value, after) = field-Reads m f h.0 e (images fs ++ rest) c bs in
    let (values, end) = fields-Reads m fs h.1 e rest (decode_field f c).1 after in
    (rw (value, values) refl, end)

abbrev holding : Bytes → Encoder
holding b = record { buf = b; err = none }

-- An encoder that has not failed appends the field's bytes.
encode_field-image :
    (f : Field) (buf : Bytes)
    → IsEncodable f
    → encode_field f (holding buf) ≡ holding (buf ++ image f)
unfolding IsEncodable encode_field image Encoder.byte Encoder.bool Encoder.u32 Encoder.bytes
    Encoder.write
encode_field-image (a_byte b) buf h = refl
encode_field-image (a_bool true) buf h = refl
encode_field-image (a_bool false) buf h = refl
encode_field-image (a_u32 n) buf h = refl
encode_field-image (a_bytes b) buf h =
    rw (fits, exact) (ap holding (append_assoc buf (put_u32 (length b)) b))
  where
    fits : ltb max_uint32 (length b) ≡ false
    fits = ground (arith, h)

    exact : length b % 2 ^ 32 ≡ length b
    exact = omega (arith, h)

encode-images :
    (fs : List Field) (buf : Bytes)
    → All IsEncodable fs
    → encode fs (holding buf) ≡ holding (buf ++ images fs)
unfolding encode images
encode-images [] buf h = rw (append_nil buf) refl
encode-images (f ∷ fs) buf h =
    rw (encode_field-image f buf h.0)
      (encode-images fs (buf ++ image f) h.1 ∙ ap holding (append_assoc buf (image f) (images fs)))

opened : (bs : Bytes) → At max_uint32 (bs ++ []) (Decoder.new_cursor bs)
unfolding Decoder.new_cursor
opened bs = record {
  healthy = refl;
  inside = omega arith;
  left = sym (append_nil bs);
  limit = refl;
}

finished : (c : Decoder) → At max_uint32 [] c → Decoder.done c ≡ none
unfolding Decoder.done
finished c a = rw (a.healthy, at_end) refl
  where
    at_end : (c.off == length c.buf) ≡ true
    at_end = ground (arith, length-drop c.off c.buf a.inside, ap length a.left, a.inside)

-- Fields whose integers have 32 bits and whose texts fit the length field, written by an encoder in
-- one order, are read back by a decoder on the result in the same order, with nothing left over.
pub decode-encode :
    (fs : List Field)
    → All IsEncodable fs
    → let (xs, c) =
        decode fs (Decoder.new_cursor (Encoder.result (encode fs Encoder.new_encoder))) in
      (xs ≡ fs) × (Decoder.done c ≡ none)
unfolding Encoder.new_encoder Encoder.result Decoder.new_cursor Decoder.done Reads
decode-encode fs h =
    let start = Decoder.new_cursor (images fs) in
    let (values, a) = fields-Reads max_uint32 fs h refl [] start (opened (images fs)) in
    rw (encode-images fs [] h) (values, finished (decode fs start).1 a)
