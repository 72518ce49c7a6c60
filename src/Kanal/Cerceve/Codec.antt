-- ===== src/Kanal/Cerceve/Codec.antt =====
-- Round trips and errors of the frame codec of core/turkish_code/kanal/cerceve.py.
use turkish_code.Base.{
  ℕ, zero, suc, ◌+◌, ◌≡◌, ◌≤◌, ◌<◌, refl, [], ◌++◌, some, arith, length, take, ap, sym, ◌∙◌,
  take-append, drop-append, length-append, length-take, not-lt→ltb, le→leb, lt→leb, append_assoc,
  append-nil, subst,
}
use turkish_code.Base.Bytes.{Bytes, pack_u32, unpack_u32, unpack_u32-pack_u32}
use turkish_code.Kanal.Cerceve.{
  header_size, max_frame_bytes, encode_frame, got, incomplete, read_exactly, Decoded, payload, eof,
  desync, decode_body, decode_header, decode_frame,
}

abbrev pub frame : Bytes → Bytes
frame p = pack_u32 (length p) ++ p

abbrev pub IsFramed : Bytes → Type 0
IsFramed p = length p ≤ max_frame_bytes

read_exactly-append : (xs ys : Bytes) → read_exactly (length xs) (xs ++ ys) ≡ got xs ys
unfolding read_exactly
read_exactly-append xs ys =
    rw (le→leb (length xs) (length (xs ++ ys)) (omega (arith, length-append {0} xs ys)))
      (rw take-append (rw drop-append refl))

read_exactly-short : (n : ℕ) (s : Bytes) → length s < n → read_exactly n s ≡ incomplete n s
unfolding read_exactly
read_exactly-short n s h = rw (lt→leb n (length s) h)

read_exactly-pack_u32 :
    (n : ℕ) (rest : Bytes) → read_exactly header_size (pack_u32 n ++ rest) ≡ got (pack_u32 n) rest
unfolding pack_u32
read_exactly-pack_u32 n rest = read_exactly-append (pack_u32 n) rest

-- The header of a frame is read back, whatever follows it.
decode_frame-pack_u32 :
    (n : ℕ) (rest : Bytes)
    → n ≤ max_frame_bytes
    → decode_frame (pack_u32 n ++ rest) ≡ decode_body (read_exactly n rest)
unfolding decode_frame
decode_frame-pack_u32 n rest h = ap decode_header (read_exactly-pack_u32 n rest) ∙ read_header
  where
    unpacked : unpack_u32 (pack_u32 n) ≡ n
    unpacked = rw append-nil at (unpack_u32-pack_u32 n [] (omega arith))

    read_header : decode_header (got (pack_u32 n) rest) ≡ decode_body (read_exactly n rest)
    read_header = rw unpacked (rw (not-lt→ltb max_frame_bytes n h))

pub decode_frame-frame :
    (p rest : Bytes) → IsFramed p → decode_frame (frame p ++ rest) ≡ payload p rest
decode_frame-frame p rest h =
    rw append_assoc
      (decode_frame-pack_u32 (length p) (p ++ rest) h ∙ ap decode_body (read_exactly-append p rest))

encode_frame_inv : (p : Bytes) {e : Bytes} → encode_frame p ≡ some e → IsFramed p × (e ≡ frame p)
unfolding encode_frame
encode_frame_inv p h = ground arith

-- What `encode_frame` returns is decoded to its payload, whatever follows it on the stream.
decode_frame-encode_frame :
    (p rest encoded : Bytes)
    → encode_frame p ≡ some encoded
    → decode_frame (encoded ++ rest) ≡ payload p rest
decode_frame-encode_frame p rest encoded h =
    let (fits, e) = encode_frame_inv p h in rw e (decode_frame-frame p rest fits)

abbrev pub IsTorn : Decoded → Type 0
IsTorn (desync expected partial) = Unit
IsTorn _ = ⊥

pub decode_frame-nil : decode_frame [] ≡ eof
unfolding decode_frame
decode_frame-nil = refl

-- A frame within the limit that the end of the stream cuts off behind its first byte is reported as
-- a desync: it is never taken for a message, nor for a clean end.
pub decode_frame-IsTorn :
    (p : Bytes) (k : ℕ)
    → IsFramed p
    → 0 < k
    → k < length p + 4
    → IsTorn (decode_frame (take k (frame p)))
unfolding decode_frame pack_u32
decode_frame-IsTorn p zero h pos short = absurd (omega arith)
decode_frame-IsTorn p (suc zero) h pos short = tt
decode_frame-IsTorn p (suc (suc zero)) h pos short = tt
decode_frame-IsTorn p (suc (suc (suc zero))) h pos short = tt
decode_frame-IsTorn p (suc (suc (suc (suc k)))) h pos short =
    subst IsTorn (sym (cut_body p k h (omega arith))) tt
  where
    cut_body :
        (p : Bytes) (k : ℕ)
        → IsFramed p
        → k < length p
        → decode_frame (pack_u32 (length p) ++ take k p) ≡ desync (length p) (take k p)
    cut_body p k h short =
        decode_frame-pack_u32 (length p) (take k p) h
        ∙ ap decode_body
            (read_exactly-short (length p) (take k p) (omega (arith, length-take {0} k p)))
