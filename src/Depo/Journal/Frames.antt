-- ===== src/Depo/Journal/Frames.antt =====
-- The scan of core/turkish_code/depo/journal.py over record frames, whole and torn.
use turkish_code.Base.{
  ℕ, suc, ◌+◌, ◌-◌, ◌^◌, ◌≤◌, ◌<◌, ◌≡◌, ap, ◌∙◌, ◌++◌, none, some, arith, length, take, drop,
  take-append, drop_beyond, length-append, length-take, lt→leb,
}
use native.Mathlib.Decide.{dec_lt}
use turkish_code.Base.Bytes.{Bytes, pack_u32, unpack_u32}
use turkish_code.Depo.Journal.{header_size, max_record_bytes, slice, record_frame, scan_one}

slice_beyond :
    (pre rest : Bytes) (a b : ℕ)
    → slice (pre ++ rest) (length pre + a) (length pre + b) ≡ slice rest a b
slice_beyond pre rest a b =
    ap (λ n. take n (drop (length pre + a) (pre ++ rest))) {y = b - a} (omega arith)
    ∙ ap (take (b - a)) (drop_beyond a pre rest)

slice_at :
    (pre rest : Bytes) (b : ℕ) → slice (pre ++ rest) (length pre) (length pre + b) ≡ slice rest 0 b
slice_at pre rest b =
    ap (λ n. slice (pre ++ rest) n (length pre + b)) {x = length pre} {y = length pre + 0}
      (omega arith)
    ∙ slice_beyond pre rest 0 b

first_field : (n : ℕ) (rest : Bytes) → n < 2 ^ 32 → unpack_u32 (slice (pack_u32 n ++ rest) 0 4) ≡ n
unfolding pack_u32 unpack_u32
first_field n rest h = omega arith

second_field :
    (n m : ℕ) (rest : Bytes)
    → m < 2 ^ 32
    → unpack_u32 (slice (pack_u32 n ++ (pack_u32 m ++ rest)) 4 8) ≡ m
unfolding pack_u32 unpack_u32
second_field n m rest h = omega arith

behind_header :
    (n m k : ℕ) (rest : Bytes) → slice (pack_u32 n ++ (pack_u32 m ++ rest)) 8 (8 + k) ≡ take k rest
unfolding pack_u32
behind_header n m k rest = ap (λ j. take j rest) (omega arith)

pub length-header :
    (n m : ℕ) (rest : Bytes) → length (pack_u32 n ++ (pack_u32 m ++ rest)) ≡ 8 + length rest
unfolding pack_u32
length-header n m rest = omega arith

take_header :
    (n m k : ℕ) (rest : Bytes)
    → 8 ≤ k
    → take k (pack_u32 n ++ (pack_u32 m ++ rest)) ≡ pack_u32 n ++ (pack_u32 m ++ take (k - 8) rest)
unfolding pack_u32
take_header n m k rest h =
    ap (λ j. take j (pack_u32 n ++ (pack_u32 m ++ rest))) {x = k}
      {y = suc (suc (suc (suc (suc (suc (suc (suc (k - 8))))))))} (omega arith)

module _ (crc32 : Bytes → ℕ) (crc32_bound : (b : Bytes) → crc32 b < 2 ^ 32) where
  -- What a scan reads behind `pre`: the header of the record of `p`, and then `rest`.
  abbrev headed : (pre p rest : Bytes) → Bytes
  headed pre p rest = pre ++ (pack_u32 (length p) ++ (pack_u32 (crc32 p) ++ rest))

  module _ (pre p rest : Bytes) (fits : length p ≤ max_record_bytes) where
    length_field : unpack_u32 (slice (headed pre p rest) (length pre) (length pre + 4)) ≡ length p
    length_field =
        ap unpack_u32 (slice_at pre (pack_u32 (length p) ++ (pack_u32 (crc32 p) ++ rest)) 4)
        ∙ first_field (length p) (pack_u32 (crc32 p) ++ rest) (omega arith)

    crc_field : unpack_u32 (slice (headed pre p rest) (length pre + 4) (length pre + 8)) ≡ crc32 p
    crc_field =
        ap unpack_u32 (slice_beyond pre (pack_u32 (length p) ++ (pack_u32 (crc32 p) ++ rest)) 4 8)
        ∙ second_field (length p) (crc32 p) rest (crc32_bound p)

    body_field :
        slice (headed pre p rest) (length pre + 8) (length pre + 8 + length p)
        ≡ take (length p) rest
    body_field =
        ap (slice (headed pre p rest) (length pre + 8)) {y = length pre + (8 + length p)}
          (omega arith)
        ∙ slice_beyond pre (pack_u32 (length p) ++ (pack_u32 (crc32 p) ++ rest)) 8 (8 + length p)
        ∙ behind_header (length p) (crc32 p) (length p) rest

    length-headed : length (headed pre p rest) ≡ length pre + 8 + length rest
    length-headed = omega (
      arith,
      length-append {0} pre (pack_u32 (length p) ++ (pack_u32 (crc32 p) ++ rest)),
      length-header (length p) (crc32 p) rest,
    )

  pub scan_one-record_frame :
      (pre p rest : Bytes)
      → length p ≤ max_record_bytes
      → scan_one crc32 (headed pre p (p ++ rest)) (length pre) ≡ some (p, length pre + 8 + length p)
  unfolding scan_one
  scan_one-record_frame pre p rest fits = rw (length_field pre p (p ++ rest) fits) (
      rw (crc_field pre p (p ++ rest) fits) (
        rw (body_field pre p (p ++ rest) fits) (
          rw (take-append p rest)
            (ground (arith, length-headed pre p (p ++ rest) fits, length-append {0} p rest)))))

  pub scan_one-short :
      (pre rest : Bytes) → length rest < 8 → scan_one crc32 (pre ++ rest) (length pre) ≡ none
  unfolding scan_one
  scan_one-short pre rest h = rw (
      lt→leb (length pre + header_size) (length (pre ++ rest))
        (omega (arith, length-append {0} pre rest)))

  scan_one-cut :
      (pre p rest : Bytes)
      → length p ≤ max_record_bytes
      → length rest < length p
      → scan_one crc32 (headed pre p rest) (length pre) ≡ none
  unfolding scan_one
  scan_one-cut pre p rest fits h =
      rw (length_field pre p rest fits) (ground (arith, length-headed pre p rest fits))

  -- A record that the end of the file cuts off is not read.
  pub scan_one-torn :
      (pre p : Bytes) (k : ℕ)
      → length p ≤ max_record_bytes
      → k < length (record_frame crc32 p)
      → scan_one crc32 (pre ++ take k (record_frame crc32 p)) (length pre) ≡ none
  unfolding record_frame
  scan_one-torn pre p k fits h = elim (dec_lt k 8) [
    | yes short ↦
        scan_one-short pre (take k (record_frame crc32 p))
          (omega (arith, length-take {0} k (record_frame crc32 p)))
    | no long ↦ rw (take_header (length p) (crc32 p) k p (omega arith)) (
        scan_one-cut pre p (take (k - 8) p) fits
          (omega (arith, length-take {0} (k - 8) p, length-header (length p) (crc32 p) p)))
  ]
