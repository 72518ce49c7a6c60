-- ===== src/Depo/Journal/Reopening.antt =====
-- The scan of core/turkish_code/depo/journal.py on any file, and what opening the file again does.
use turkish_code.Base.{
  ℕ, zero, suc, ◌+◌, ◌-◌, ◌≤◌, ◌<◌, ◌≡◌, refl, sym, ap, ◌∙◌, List, [], ◌∷◌, ◌++◌, none, some, arith,
  length, take, drop, length-take, Option-cases, inl, inr,
}
use turkish_code.Base.Bytes.{Bytes, unpack_u32}
use turkish_code.Depo.Journal.{JournalRecord, slice, scan_one, scan_loop, scan, open_journal}

take-nil : (n : ℕ) → take {A = ℕ} n [] ≡ []
take-nil zero = refl
take-nil (suc n) = refl

drop-take : (n k : ℕ) (xs : Bytes) → drop k (take n xs) ≡ take (n - k) (drop k xs)
drop-take n zero xs = ap (λ m. take m xs) (omega arith)
drop-take zero (suc k) xs =
    sym (ap (λ m. take m (drop (suc k) xs)) {x = 0 - suc k} {y = 0} (omega arith))
drop-take (suc n) (suc k) [] = sym (take-nil (suc n - suc k))
drop-take (suc n) (suc k) (x ∷ xs) = drop-take n k xs ∙ ap (λ m. take m (drop k xs)) (omega arith)

take-take : (m n : ℕ) (xs : Bytes) → m ≤ n → take m (take n xs) ≡ take m xs
take-take zero n xs h = refl
take-take (suc m) zero xs h = absurd (omega arith)
take-take (suc m) (suc n) [] h = refl
take-take (suc m) (suc n) (x ∷ xs) h = ap (λ r. x ∷ r) (take-take m n xs (omega arith))

-- What stands before the cut is read as before.
slice-take : (bytes : Bytes) (n a b : ℕ) → b ≤ n → slice (take n bytes) a b ≡ slice bytes a b
slice-take bytes n a b h =
    ap (take (b - a)) (drop-take n a bytes) ∙ take-take (b - a) (n - a) (drop a bytes) (omega arith)

module _ (crc32 : Bytes → ℕ) where
  -- A record takes at least its header, and ends within the file.
  scan_one-end :
      (bytes payload : Bytes) (offset end : ℕ)
      → scan_one crc32 bytes offset ≡ some (payload, end)
      → (offset + 8 ≤ end) × (end ≤ length bytes)
  unfolding scan_one
  scan_one-end bytes payload offset end h = (ground arith, ground arith)

  scan_one-past :
      (bytes : Bytes) (offset : ℕ) → length bytes < offset + 8 → scan_one crc32 bytes offset ≡ none
  unfolding scan_one
  scan_one-past bytes offset h = ground arith

  -- Cutting the file behind a record leaves the record.
  scan_one-take :
      (bytes payload : Bytes) (offset end n : ℕ)
      → scan_one crc32 bytes offset ≡ some (payload, end)
      → end ≤ n
      → n ≤ length bytes
      → scan_one crc32 (take n bytes) offset ≡ some (payload, end)
  unfolding scan_one
  scan_one-take bytes payload offset end n h le within =
      let field = unpack_u32 (slice bytes offset (offset + 4)) in
      let at_end : end ≡ offset + 8 + field = ground arith in
      let room = (scan_one-end bytes payload offset end h).0 in
      rw
        (
          slice-take bytes n offset (offset + 4) (omega (arith, room)),
          slice-take bytes n (offset + 4) (offset + 8) (omega (arith, room)),
          slice-take bytes n (offset + 8) (offset + 8 + field) (omega (arith, at_end)),
          length-take {0} n bytes,
        )
        (ground arith)

  scan_next-none :
      (fuel : ℕ) (bytes : Bytes) (records : List JournalRecord) (offset : ℕ)
      → scan_one crc32 bytes offset ≡ none
      → scan_loop crc32 fuel bytes records offset ≡ record { records = records; valid_end = offset }
  unfolding scan_loop
  scan_next-none zero bytes records offset h = refl
  scan_next-none (suc fuel) bytes records offset h = rw h refl

  abbrev grown : List JournalRecord → Bytes → List JournalRecord
  grown records payload = records ++ record { seq = length records + 1; payload = payload } ∷ []

  scan_next-some :
      (fuel : ℕ) (bytes payload : Bytes) (records : List JournalRecord) (offset end : ℕ)
      → scan_one crc32 bytes offset ≡ some (payload, end)
      → scan_loop crc32 (suc fuel) bytes records offset
        ≡ scan_loop crc32 fuel bytes (grown records payload) end
  unfolding scan_loop
  scan_next-some fuel bytes payload records offset end h = rw h refl

  scan_loop-fuel :
      (fuel extra : ℕ) (bytes : Bytes) (records : List JournalRecord) (offset : ℕ)
      → length bytes < offset + fuel
      → scan_loop crc32 (fuel + extra) bytes records offset
        ≡ scan_loop crc32 fuel bytes records offset
  scan_loop-fuel zero extra bytes records offset h =
      let stop = scan_one-past bytes offset (omega arith) in
      scan_next-none (zero + extra) bytes records offset stop
      ∙ sym (scan_next-none zero bytes records offset stop)
  scan_loop-fuel (suc fuel) extra bytes records offset h =
      elim (Option-cases (scan_one crc32 bytes offset)) [
        | inl stop ↦
            scan_next-none (suc fuel + extra) bytes records offset stop
            ∙ sym (scan_next-none (suc fuel) bytes records offset stop)
        | inr ((payload, end), here) ↦
            ap (λ m. scan_loop crc32 m bytes records offset) {x = suc fuel + extra}
              {y = suc (fuel + extra)} (omega arith)
            ∙ scan_next-some (fuel + extra) bytes payload records offset end here
            ∙ scan_loop-fuel fuel extra bytes (grown records payload) end
                (omega (arith, (scan_one-end bytes payload offset end here).0))
            ∙ sym (scan_next-some fuel bytes payload records offset end here)
      ]

  -- The scan never stops for want of fuel: whatever the file holds, more fuel gives the same.
  pub scan-fuel :
      (extra : ℕ) (bytes : Bytes)
      → scan_loop crc32 (suc (length bytes) + extra) bytes [] 0 ≡ scan crc32 bytes
  unfolding scan
  scan-fuel extra bytes = scan_loop-fuel (suc (length bytes)) extra bytes [] 0 (omega arith)

  -- The valid end is at the offset or behind it, and within the file.
  scan_loop-end :
      (fuel : ℕ) (bytes : Bytes) (records : List JournalRecord) (offset : ℕ)
      → offset ≤ length bytes
      → (offset ≤ (scan_loop crc32 fuel bytes records offset).valid_end)
        × ((scan_loop crc32 fuel bytes records offset).valid_end ≤ length bytes)
  unfolding scan_loop
  scan_loop-end zero bytes records offset h = (omega arith, h)
  scan_loop-end (suc fuel) bytes records offset h =
      elim (Option-cases (scan_one crc32 bytes offset)) [
        | inl stop ↦ rw stop (omega arith, h)
        | inr ((payload, end), here) ↦
            let ends = scan_one-end bytes payload offset end here in
            let later = scan_loop-end fuel bytes (grown records payload) end ends.1 in
            rw here (omega (arith, ends.0, later.0), later.1)
      ]

  -- Cutting the file at the valid end, or behind it, changes nothing of what the scan finds.
  scan_loop-take :
      (fuel : ℕ) (bytes : Bytes) (records : List JournalRecord) (offset : ℕ)
      → offset ≤ length bytes
      → scan_loop crc32 fuel
          (take (scan_loop crc32 fuel bytes records offset).valid_end bytes)
          records
          offset
        ≡ scan_loop crc32 fuel bytes records offset
  scan_loop-take zero bytes records offset h = unfold scan_loop in refl
  scan_loop-take (suc fuel) bytes records offset h =
      elim (Option-cases (scan_one crc32 bytes offset)) [
        | inl stop ↦
            let now = scan_next-none (suc fuel) bytes records offset stop in
            rw now (
              scan_next-none (suc fuel) (take offset bytes) records offset (
                scan_one-past (take offset bytes) offset
                  (omega (arith, length-take {0} offset bytes))))
        | inr ((payload, end), here) ↦
            let ends = scan_one-end bytes payload offset end here in
            let rest = scan_loop crc32 fuel bytes (grown records payload) end in
            let later = scan_loop-end fuel bytes (grown records payload) end ends.1 in
            rw (scan_next-some fuel bytes payload records offset end here) (
              scan_next-some fuel (take rest.valid_end bytes) payload records offset end
                (scan_one-take bytes payload offset end rest.valid_end here later.0 later.1)
              ∙ scan_loop-take fuel bytes (grown records payload) end ends.1)
      ]

  scan-take :
      (bytes : Bytes) → scan crc32 (take (scan crc32 bytes).valid_end bytes) ≡ scan crc32 bytes
  unfolding scan
  scan-take bytes =
      let cut = take (scan crc32 bytes).valid_end bytes in
      sym (scan-fuel (length bytes - length cut) cut)
      ∙ ap (λ m. scan_loop crc32 m cut [] 0) {x = suc (length cut) + (length bytes - length cut)}
          {y = suc (length bytes)}
          (omega (arith, length-take {0} (scan crc32 bytes).valid_end bytes))
      ∙ scan_loop-take (suc (length bytes)) bytes [] 0 (omega arith)

  -- Opening is idempotent: whatever the file holds, opening the file that a recovery leaves
  -- truncates nothing more and counts the same records.
  pub open_journal-open_journal :
      (bytes : Bytes)
      → open_journal crc32 (open_journal crc32 bytes).file ≡ open_journal crc32 bytes
  unfolding open_journal
  open_journal-open_journal bytes = rw (scan-take bytes) (
      ap (λ file. record { file = file; head = length (scan crc32 bytes).records })
        (take-take (scan crc32 bytes).valid_end (scan crc32 bytes).valid_end bytes (omega arith)))
