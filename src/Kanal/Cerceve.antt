-- ===== src/Kanal/Cerceve.antt =====
-- Length-prefixed frames: core/turkish_code/kanal/cerceve.py, and the `_read_exactly` of
-- core/turkish_code/kanal/aktarim.py over what is left of the stream.
pub mod Codec
pub mod Loop
use turkish_code.Base.{
  ℕ, zero, suc, ◌+◌, ◌*◌, ◌≡◌, ◌<◌, Bool, true, false, List, [], ◌∷◌, ◌++◌, Option, none, some,
  arith, length, take, drop, leb, ltb, ◌==◌, if◌then◌else◌,
}
use turkish_code.Base.Bytes.{Bytes, pack_u32, unpack_u32}

abbrev pub header_size : ℕ
header_size = 4

abbrev pub max_frame_bytes : ℕ
max_frame_bytes = 64 * 1024 * 1024

-- `ValueError` is `none`.
unfoldable pub encode_frame : Bytes → Option Bytes
encode_frame payload =
    if ltb max_frame_bytes (length payload)
    then none
    else some (pack_u32 (length payload) ++ payload)

-- What `read_exactly` gives on a stream that holds these bytes and then ends: the bytes and the
-- rest of the stream, or `IncompleteFrame` with its fields. The reader's buffer is then empty.
pub data Read : Type 0 where
  got : (bytes rest : Bytes) → Read
  incomplete : (expected : ℕ) (partial : Bytes) → Read

unfoldable pub read_exactly : ℕ → Bytes → Read
read_exactly n stream =
    if leb n (length stream) then got (take n stream) (drop n stream) else incomplete n stream

-- What `decode_frame` does: it returns a payload, returns `None` at the end of the stream, lets an
-- `IncompleteFrame` through, or raises `ValueError` with what is left of the stream.
pub data Decoded : Type 0 where
  payload : (bytes rest : Bytes) → Decoded
  eof : Decoded
  desync : (expected : ℕ) (partial : Bytes) → Decoded
  oversize : (length : ℕ) (rest : Bytes) → Decoded

abbrev decode_body : Read → Decoded
decode_body (got bytes rest) = payload bytes rest
decode_body (incomplete expected partial) = desync expected partial

decode_header : Read → Decoded
decode_header (got header rest) =
    if ltb max_frame_bytes (unpack_u32 header)
    then oversize (unpack_u32 header) rest
    else decode_body (read_exactly (unpack_u32 header) rest)
decode_header (incomplete expected partial) =
    if length partial == 0 then eof else desync expected partial

unfoldable pub decode_frame : Bytes → Decoded
unfolding decode_header read_exactly
decode_frame stream = decode_header (read_exactly header_size stream)

-- `_read_loop` of core/turkish_code/kanal/sunucu.py: the payloads that reach `_handle_frame`, in
-- order, whether `request_shutdown` was called, and whether the task died of an exception.
pub record ReadLoop : Type 0 where
  pub handled : List Bytes
  pub shutdown : Bool
  pub raised : Bool

abbrev pub stopped : Bool → ReadLoop
stopped shutdown = record {
  handled = [];
  shutdown = shutdown;
  raised = if shutdown then false else true;
}

-- `raises` says of which payloads `_handle_frame` raises an exception.
module _ (raises : Bytes → Bool) where
  abbrev pub handle : Bytes → ReadLoop → ReadLoop
  handle p l =
      if raises p
      then record { handled = p ∷ []; shutdown = false; raised = true }
      else record { handled = p ∷ l.handled; shutdown = l.shutdown; raised = l.raised }

  abbrev pub after_frame : (Bytes → ReadLoop) → Decoded → ReadLoop
  after_frame again (payload bytes rest) = handle bytes (again rest)
  after_frame again eof = stopped true
  after_frame again (desync expected partial) = stopped false
  after_frame again (oversize length rest) = stopped false

  -- Every round takes a header off the stream, so one more than its length in bytes is enough fuel.
  unfoldable pub read_loop : ℕ → Bytes → ReadLoop
  read_loop zero stream = stopped false
  read_loop (suc fuel) stream = after_frame (read_loop fuel) (decode_frame stream)

  unfoldable pub read_stream : Bytes → ReadLoop
  read_stream stream = read_loop (suc (length stream)) stream
