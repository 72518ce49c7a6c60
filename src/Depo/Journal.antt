-- ===== src/Depo/Journal.antt =====
-- The append-only event journal: core/turkish_code/depo/journal.py. The segment file is its bytes.
-- `zlib.crc32` is the parameter `crc32`.
mod Frames
pub mod Recovery
pub mod Reopening
use turkish_code.Base.{
  ℕ, zero, suc, ◌+◌, ◌-◌, ◌*◌, Bool, true, false, ◌||◌, not, List, [], ◌∷◌, ◌++◌, Option, none,
  some, length, take, drop, filter, ltb, leb, ◌==◌, if◌then◌else◌,
}
use turkish_code.Base.Bytes.{Bytes, pack_u32, unpack_u32}

abbrev pub header_size : ℕ
header_size = 8

abbrev pub max_record_bytes : ℕ
max_record_bytes = 64 * 1024 * 1024

pub record JournalRecord : Type 0 where
  pub seq : ℕ
  pub payload : Bytes

-- An open journal and its segment file.
pub record Journal : Type 0 where
  pub file : Bytes
  pub head : ℕ

-- `data[a : b]`
abbrev pub slice : Bytes → ℕ → ℕ → Bytes
slice bytes a b = take (b - a) (drop a bytes)

-- What a scan returns, and where its last valid record ends.
pub record Scan : Type 0 where
  pub records : List JournalRecord
  pub valid_end : ℕ

module _ (crc32 : Bytes → ℕ) where
  unfoldable pub record_frame : Bytes → Bytes
  record_frame payload = pack_u32 (length payload) ++ (pack_u32 (crc32 payload) ++ payload)

  -- `_append_sync` under the lock of `append`; `ValueError` is `none`.
  unfoldable pub append : Bytes → Journal → Option (ℕ × Journal)
  unfolding record_frame
  append payload j =
      if ltb max_record_bytes (length payload)
      then none
      else some (j.head + 1, record { file = j.file ++ record_frame payload; head = j.head + 1 })

  -- One round of the loop of `_scan_path` at `offset`: the next record and the end of its bytes,
  -- or `none` for a `break`.
  unfoldable pub scan_one : Bytes → ℕ → Option (Bytes × ℕ)
  scan_one bytes offset =
      let length_field = unpack_u32 (slice bytes offset (offset + 4)) in
      let crc = unpack_u32 (slice bytes (offset + 4) (offset + 8)) in
      let body_start = offset + header_size in
      let body_end = body_start + length_field in
      let payload = slice bytes body_start body_end in
      if leb (offset + header_size) (length bytes)
      then if ltb max_record_bytes length_field || ltb (length bytes) body_end
        then none
        else if crc32 payload == crc
        then some (payload, body_end)
        else none
      else none

  abbrev scan_next :
      (List JournalRecord → ℕ → Scan) → List JournalRecord → ℕ → Option (Bytes × ℕ) → Scan
  scan_next again records valid_end none = record { records = records; valid_end = valid_end }
  scan_next again records valid_end (some (payload, body_end)) =
      again (records ++ record { seq = length records + 1; payload = payload } ∷ []) body_end

  -- `offset` and `valid_end` of the source are equal at the head of the loop.
  pub scan_loop : ℕ → Bytes → List JournalRecord → ℕ → Scan
  scan_loop zero bytes records offset = record { records = records; valid_end = offset }
  scan_loop (suc fuel) bytes records offset =
      scan_next (scan_loop fuel bytes) records offset (scan_one bytes offset)

  unfoldable pub scan : Bytes → Scan
  unfolding scan_loop scan_one
  scan bytes = scan_loop (suc (length bytes)) bytes [] 0

  -- `Journal.open`: the scan with `truncate=True`. A missing file reads as an empty one.
  unfoldable pub open_journal : Bytes → Journal
  open_journal bytes = record {
    file = take (scan bytes).valid_end bytes;
    head = length (scan bytes).records;
  }

  unfoldable pub read_from : ℕ → Journal → List JournalRecord
  read_from seq j = filter (λ r. leb seq r.seq) (scan j.file).records
