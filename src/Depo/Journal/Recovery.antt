-- ===== src/Depo/Journal/Recovery.antt =====
-- What core/turkish_code/depo/journal.py reads back, and what it recovers after a crash.
use turkish_code.Base.{
  le→leb, All-append, lt→leb, ℕ, zero, suc, ◌+◌, ◌^◌, ◌≤◌, ◌<◌, ◌≡◌, refl, sym, ap, ◌∙◌, List, [],
  ◌∷◌, ◌++◌, none, some, arith, length, take, drop, All, take-append, filter, leb, length-append,
  append_assoc, append-nil, not-lt→ltb,
}
use turkish_code.Base.Bytes.{pack_u32, Bytes}
use turkish_code.Depo.Journal.{
  max_record_bytes, JournalRecord, Journal, record_frame, scan_one, scan_loop, scan, open_journal,
  append, read_from,
}
use turkish_code.Depo.Journal.Frames.{
  length-header, scan_one-record_frame, scan_one-torn, scan_one-short,
}

-- The records of the payloads, numbered from behind `n`.
abbrev pub numbered : ℕ → List Bytes → List JournalRecord
numbered n [] = []
numbered n (p ∷ ps) = record { seq = n + 1; payload = p } ∷ numbered (n + 1) ps

abbrev pub IsRecord : Bytes → Type 0
IsRecord p = length p ≤ max_record_bytes

module _ (crc32 : Bytes → ℕ) where
  -- The file that holds the records of these payloads.
  pub frames : List Bytes → Bytes
  frames [] = []
  frames (p ∷ ps) = record_frame crc32 p ++ frames ps

  length-record_frame : (p : Bytes) → length (record_frame crc32 p) ≡ 8 + length p
  unfolding record_frame
  length-record_frame p = length-header (length p) (crc32 p) p

  record_frame_append :
      (p rest : Bytes)
      → record_frame crc32 p ++ rest ≡ pack_u32 (length p) ++ (pack_u32 (crc32 p) ++ (p ++ rest))
  unfolding record_frame
  record_frame_append p rest = simp append_assoc

numbered_step :
    (records : List JournalRecord) (p : Bytes) (ps : List Bytes)
    → (records ++ record { seq = length records + 1; payload = p } ∷ [])
        ++ numbered (length (records ++ record { seq = length records + 1; payload = p } ∷ [])) ps
      ≡ records ++ numbered (length records) (p ∷ ps)
numbered_step records p ps =
    let r : JournalRecord = record { seq = length records + 1; payload = p } in
    append_assoc records (r ∷ []) (numbered (length (records ++ r ∷ [])) ps)
    ∙ ap (λ n. records ++ r ∷ numbered n ps) {y = length records + 1}
        (omega (arith, length-append {0} records (r ∷ [])))

module _ (crc32 : Bytes → ℕ) (crc32_bound : (b : Bytes) → crc32 b < 2 ^ 32) where
  scan_one-frame :
      (pre p rest : Bytes)
      → IsRecord p
      → scan_one crc32 (pre ++ (record_frame crc32 p ++ rest)) (length pre)
        ≡ some (p, length (pre ++ record_frame crc32 p))
  scan_one-frame pre p rest h =
      ap (λ b. scan_one crc32 (pre ++ b) (length pre)) (record_frame_append crc32 p rest)
      ∙ scan_one-record_frame crc32 crc32_bound pre p rest h
      ∙ ap (λ e. some (p, e)) {x = length pre + 8 + length p}
          (omega (arith, length-append {0} pre (record_frame crc32 p), length-record_frame crc32 p))

  scan_loop-frames :
      (fuel : ℕ) (bytes pre : Bytes) (ps : List Bytes) (tail : Bytes) (records : List JournalRecord)
      → bytes ≡ pre ++ (frames crc32 ps ++ tail)
      → length ps < fuel
      → All IsRecord ps
      → scan_one crc32 bytes (length (pre ++ frames crc32 ps)) ≡ none
      → scan_loop crc32 fuel bytes records (length pre) ≡ record {
        records = records ++ numbered (length records) ps;
        valid_end = length (pre ++ frames crc32 ps);
      }
  unfolding scan_loop frames
  scan_loop-frames zero bytes pre ps tail records e h hs stop = absurd (omega arith)
  scan_loop-frames (suc fuel) bytes pre [] tail records e h hs stop =
      let stop' : scan_one crc32 bytes (length pre) ≡ none = rw append-nil at stop in
      rw stop' (rw append-nil (rw append-nil refl))
  scan_loop-frames (suc fuel) bytes pre (p ∷ ps) tail records e h hs stop = rw here (
      scan_loop-frames fuel bytes (pre ++ record_frame crc32 p) ps tail _ (e ∙ moved) (omega arith)
        hs.1 (rw append_assoc stop)
      ∙ λ i. record {
        records = numbered_step records p ps i;
        valid_end = length (append_assoc pre (record_frame crc32 p) (frames crc32 ps) i);
      })
    where
      moved :
          pre ++ ((record_frame crc32 p ++ frames crc32 ps) ++ tail)
          ≡ (pre ++ record_frame crc32 p) ++ (frames crc32 ps ++ tail)
      moved = simp append_assoc

      here : scan_one crc32 bytes (length pre) ≡ some (p, length (pre ++ record_frame crc32 p))
      here = rw (e, append_assoc) (scan_one-frame pre p (frames crc32 ps ++ tail) hs.0)

  length-le-frames : (ps : List Bytes) → length ps ≤ length (frames crc32 ps)
  unfolding frames
  length-le-frames [] = omega arith
  length-le-frames (p ∷ ps) = omega (
    arith,
    length-le-frames ps,
    length-append {0} (record_frame crc32 p) (frames crc32 ps),
    length-record_frame crc32 p,
  )

  scan-frames :
      (ps : List Bytes) (tail : Bytes)
      → All IsRecord ps
      → scan_one crc32 (frames crc32 ps ++ tail) (length (frames crc32 ps)) ≡ none
      → scan crc32 (frames crc32 ps ++ tail)
        ≡ record { records = numbered 0 ps; valid_end = length (frames crc32 ps) }
  unfolding scan
  scan-frames ps tail hs stop =
      scan_loop-frames (suc (length (frames crc32 ps ++ tail))) (frames crc32 ps ++ tail) [] ps tail
        [] refl (omega (arith, length-append {0} (frames crc32 ps) tail, length-le-frames ps)) hs
        stop

  length-numbered : (n : ℕ) (ps : List Bytes) → length (numbered n ps) ≡ length ps
  length-numbered n [] = refl
  length-numbered n (p ∷ ps) = ap suc (length-numbered (n + 1) ps)

  open_journal-frames :
      (ps : List Bytes) (tail : Bytes)
      → All IsRecord ps
      → scan_one crc32 (frames crc32 ps ++ tail) (length (frames crc32 ps)) ≡ none
      → open_journal crc32 (frames crc32 ps ++ tail)
        ≡ record { file = frames crc32 ps; head = length ps }
  unfolding open_journal
  open_journal-frames ps tail hs stop =
      rw (scan-frames ps tail hs stop) (rw take-append (rw length-numbered refl))

  -- A crash inside an append, with every payload within the limit and checksums below 2 ^ 32:
  -- opening the file drops the torn record, keeps every earlier one, and numbers the next append
  -- behind them.
  pub open_journal-torn :
      (ps : List Bytes) (p : Bytes) (k : ℕ)
      → All IsRecord ps
      → IsRecord p
      → k < length (record_frame crc32 p)
      → open_journal crc32 (frames crc32 ps ++ take k (record_frame crc32 p))
        ≡ record { file = frames crc32 ps; head = length ps }
  open_journal-torn ps p k hs h short =
      open_journal-frames ps (take k (record_frame crc32 p)) hs
        (scan_one-torn crc32 crc32_bound (frames crc32 ps) p k h short)

  -- The journal holds these payloads, in this order, and nothing else.
  pub record Holds (ps : List Bytes) (j : Journal) : Type 0 where
    pub fits : All IsRecord ps
    pub file : j.file ≡ frames crc32 ps
    pub head : j.head ≡ length ps

  frames-append :
      (ps : List Bytes) (p : Bytes)
      → frames crc32 (ps ++ p ∷ []) ≡ frames crc32 ps ++ record_frame crc32 p
  unfolding frames
  frames-append [] p = append-nil (record_frame crc32 p)
  frames-append (q ∷ ps) p =
      ap (λ b. record_frame crc32 q ++ b) (frames-append ps p)
      ∙ sym (append_assoc (record_frame crc32 q) (frames crc32 ps) (record_frame crc32 p))

  -- An append of a payload within the limit, to a journal that holds `ps`, returns the next
  -- sequence number, and the journal then holds `ps` and the new payload.
  pub append-Holds :
      (ps : List Bytes) (p : Bytes) (j : Journal)
      → Holds ps j
      → IsRecord p
      → (j' : Journal) × (append crc32 p j ≡ some (length ps + 1, j')) × Holds (ps ++ p ∷ []) j'
  unfolding append
  append-Holds ps p j h ok =
      let j' : Journal = record { file = j.file ++ record_frame crc32 p; head = j.head + 1 } in
      (
        j',
        rw (not-lt→ltb max_record_bytes (length p) ok) (ap (λ n. some (n + 1, j')) h.head),
        record {
          fits = All-append IsRecord ps (p ∷ []) h.fits (ok, tt);
          file = ap (λ b. b ++ record_frame crc32 p) h.file ∙ sym (frames-append ps p);
          head = omega (arith, h.head, length-append {0} ps (p ∷ []));
        },
      )

  filter-numbered_above :
      (seq n : ℕ) (ps : List Bytes)
      → seq ≤ n + 1
      → filter (λ (r : JournalRecord). leb seq r.seq) (numbered n ps) ≡ numbered n ps
  filter-numbered_above seq n [] h = refl
  filter-numbered_above seq n (p ∷ ps) h = rw (le→leb seq (n + 1) h) (
      ap (λ rs. record { seq = n + 1; payload = p } ∷ rs)
        (filter-numbered_above seq (n + 1) ps (omega arith)))

  filter-numbered :
      (k n : ℕ) (ps : List Bytes)
      → filter (λ (r : JournalRecord). leb (n + k + 1) r.seq) (numbered n ps)
        ≡ numbered (n + k) (drop k ps)
  filter-numbered zero n ps =
      filter-numbered_above (n + 0 + 1) n ps (omega arith) ∙ ap (λ m. numbered m ps) (omega arith)
  filter-numbered (suc k) n [] = refl
  filter-numbered (suc k) n (p ∷ ps) = rw (lt→leb (n + suc k + 1) (n + 1) (omega arith)) (
      ap (λ m. filter (λ (r : JournalRecord). leb m r.seq) (numbered (n + 1) ps))
        {y = n + 1 + k + 1} (omega arith)
      ∙ filter-numbered k (n + 1) ps
      ∙ ap (λ m. numbered m (drop k ps)) (omega arith))

  scan-Holds :
      (ps : List Bytes) (j : Journal) → Holds ps j → (scan crc32 j.file).records ≡ numbered 0 ps
  scan-Holds ps j h =
      ap (λ b. (scan crc32 b).records) (h.file ∙ sym (append-nil (frames crc32 ps)))
      ∙ ap (λ s. s.records) (scan-frames ps [] h.fits at_end)
    where
      at_end : scan_one crc32 (frames crc32 ps ++ []) (length (frames crc32 ps)) ≡ none
      at_end = scan_one-short crc32 crc32_bound (frames crc32 ps) [] (omega arith)

  -- On a journal that holds `ps`, a read from a sequence number `k + 1` returns the payloads behind
  -- the first `k`, in order, each with its number.
  pub read_from-Holds :
      (ps : List Bytes) (j : Journal) (k : ℕ)
      → Holds ps j
      → read_from crc32 (k + 1) j ≡ numbered k (drop k ps)
  unfolding read_from
  read_from-Holds ps j k h = rw (scan-Holds ps j h) (
      ap (λ m. filter (λ (r : JournalRecord). leb m r.seq) (numbered 0 ps)) {y = 0 + k + 1}
        (omega arith)
      ∙ filter-numbered k 0 ps
      ∙ ap (λ m. numbered m (drop k ps)) (omega arith))
