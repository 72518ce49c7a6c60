-- ===== src/Tests/Depo.antt =====
-- The journal of core/turkish_code/depo/journal.py with a checksum that adds the bytes up.
use turkish_code.Base.{
  length, suc, ℕ, ◌+◌, ◌^◌, ◌%◌, ◌<◌, ◌≡◌, refl, [], ◌∷◌, ◌++◌, some, arith, take,
}
use turkish_code.Base.Bytes.{Bytes, pack_u32}
use turkish_code.Depo.Journal.{
  scan, scan_loop, Journal, record_frame, open_journal, append, read_from,
}
use turkish_code.Depo.Journal.Reopening.{scan-fuel, open_journal-open_journal}
use turkish_code.Depo.Journal.Recovery.{
  IsRecord, Holds, frames, open_journal-torn, append-Holds, read_from-Holds,
}

abbrev sum32 : Bytes → ℕ
sum32 [] = 0
sum32 (b ∷ bs) = (b + sum32 bs) % 2 ^ 32

sum32_bound : (b : Bytes) → sum32 b < 2 ^ 32
sum32_bound [] = omega arith
sum32_bound (b ∷ bs) = omega arith

abbrev hello : Bytes
hello = 104 ∷ 105 ∷ []

abbrev bye : Bytes
bye = 98 ∷ 121 ∷ 101 ∷ []

hello-IsRecord : IsRecord hello
hello-IsRecord = omega arith

bye-IsRecord : IsRecord bye
bye-IsRecord = omega arith

abbrev one_record : Journal
one_record = record { file = frames sum32 (hello ∷ []); head = 1 }

one_record-Holds : Holds sum32 sum32_bound (hello ∷ []) one_record
one_record-Holds = record { fits = (hello-IsRecord, tt); file = refl; head = refl }

-- The third byte of the second record's body is not there.
open_journal-torn_example :
    open_journal sum32 (frames sum32 (hello ∷ []) ++ take 10 (record_frame sum32 bye))
    ≡ record { file = frames sum32 (hello ∷ []); head = 1 }
unfolding record_frame pack_u32
open_journal-torn_example =
    open_journal-torn sum32 sum32_bound (hello ∷ []) bye 10 (hello-IsRecord, tt) bye-IsRecord
      (omega arith)

append-Holds_example :
    (j' : Journal) × (append sum32 bye one_record ≡ some (2, j'))
    × Holds sum32 sum32_bound (hello ∷ bye ∷ []) j'
append-Holds_example =
    append-Holds sum32 sum32_bound (hello ∷ []) bye one_record one_record-Holds bye-IsRecord

read_from-Holds_example : read_from sum32 1 one_record ≡ record { seq = 1; payload = hello } ∷ []
read_from-Holds_example =
    read_from-Holds sum32 sum32_bound (hello ∷ []) one_record 0 one_record-Holds

-- A file that holds a record and the beginning of another one.
abbrev torn_file : Bytes
torn_file = frames sum32 (hello ∷ []) ++ (0 ∷ 0 ∷ 0 ∷ [])

scan-fuel_example :
    scan_loop sum32 (suc (length torn_file) + 5) torn_file [] 0 ≡ scan sum32 torn_file
scan-fuel_example = scan-fuel sum32 5 torn_file

open_journal-open_journal_example :
    open_journal sum32 (open_journal sum32 torn_file).file ≡ open_journal sum32 torn_file
open_journal-open_journal_example = open_journal-open_journal sum32 torn_file
