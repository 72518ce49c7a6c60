-- ===== src/Kanal/Cerceve/Loop.antt =====
-- The read loop of core/turkish_code/kanal/sunucu.py over whole streams of frames.
use turkish_code.Base.{
  ℕ, zero, suc, ◌+◌, ◌≡◌, ◌≤◌, ◌<◌, refl, Bool, true, false, List, [], ◌∷◌, ◌++◌, arith, length,
  take, drop, ap, sym, ◌∙◌, All, length-append, length-drop, append_assoc, append-nil,
  if◌then◌else◌,
}
use turkish_code.Base.Bytes.{Bytes, pack_u32, unpack_u32}
use turkish_code.Kanal.Cerceve.{
  after_frame, header_size, Decoded, payload, desync, decode_frame, ReadLoop, stopped, handle,
  read_loop, read_stream,
}
use turkish_code.Kanal.Cerceve.Codec.{
  frame, IsFramed, IsTorn, decode_frame-frame, decode_frame-nil, decode_frame-IsTorn,
}

abbrev pub frames : List Bytes → Bytes
frames [] = []
frames (p ∷ ps) = frame p ++ frames ps

abbrev rest_of : Decoded → ℕ
rest_of (payload bytes rest) = suc (length rest)
rest_of _ = 0

-- A decoded frame takes its header off the stream.
decode_frame-shorter : (s : Bytes) → rest_of (decode_frame s) ≤ length s
unfolding decode_frame
decode_frame-shorter s = ground (
  arith,
  length-drop {0} header_size s,
  length-drop {0} (unpack_u32 (take header_size s)) (drop header_size s),
)

length-le-frames : (ps : List Bytes) → length ps ≤ length (frames ps)
unfolding pack_u32
length-le-frames [] = omega arith
length-le-frames (p ∷ ps) =
    omega (arith, length-le-frames ps, length-append {0} (frame p) (frames ps))

module _ (raises : Bytes → Bool) where
  after_frame_congr :
      (n : ℕ) (again again' : Bytes → ReadLoop) (d : Decoded)
      → rest_of d ≤ n
      → ((s : Bytes) → length s < n → again s ≡ again' s)
      → after_frame raises again d ≡ after_frame raises again' d
  after_frame_congr n again again' (payload bytes rest) h same =
      ap (handle raises bytes) (same rest h)
  after_frame_congr n again again' _ h same = refl

  read_loop-fuels :
      (f g : ℕ) (s : Bytes)
      → length s < f
      → length s < g
      → read_loop raises f s ≡ read_loop raises g s
  unfolding read_loop
  read_loop-fuels zero g s hf hg = absurd (omega arith)
  read_loop-fuels (suc f) zero s hf hg = absurd (omega arith)
  read_loop-fuels (suc f) (suc g) s hf hg =
      after_frame_congr (length s) (read_loop raises f) (read_loop raises g) (decode_frame s)
        (decode_frame-shorter s) (λ r h. read_loop-fuels f g r (omega arith) (omega arith))

  -- Fuel beyond the length of the stream changes nothing: the loop of the model always ends by its
  -- own test.
  read_loop-fuel :
      (fuel : ℕ) (s : Bytes) → length s < fuel → read_loop raises fuel s ≡ read_stream raises s
  unfolding read_stream
  read_loop-fuel fuel s h = read_loop-fuels fuel (suc (length s)) s h (omega arith)

  read_loop-frame :
      (p rest : Bytes) (fuel : ℕ)
      → IsFramed p
      → read_loop raises (suc fuel) (frame p ++ rest) ≡ handle raises p (read_loop raises fuel rest)
  unfolding read_loop
  read_loop-frame p rest fuel h = rw (decode_frame-frame p rest h)

  abbrev ends : List Bytes → ReadLoop → ReadLoop
  ends [] l = l
  ends (p ∷ ps) l = handle raises p (ends ps l)

  read_loop-frames :
      (ps : List Bytes) (tail : Bytes) (fuel : ℕ)
      → All IsFramed ps
      → read_loop raises (length ps + fuel) (frames ps ++ tail)
        ≡ ends ps (read_loop raises fuel tail)
  read_loop-frames [] tail fuel h = ap (λ f. read_loop raises f tail) (omega arith)
  read_loop-frames (p ∷ ps) tail fuel h =
      ap (λ f. read_loop raises f ((frame p ++ frames ps) ++ tail)) {x = suc (length ps) + fuel}
        {y = suc (length ps + fuel)} (omega arith)
      ∙ rw append_assoc (read_loop-frame p (frames ps ++ tail) (length ps + fuel) h.0)
      ∙ ap (handle raises p) (read_loop-frames ps tail fuel h.1)

  read_stream-frames :
      (ps : List Bytes) (tail : Bytes)
      → All IsFramed ps
      → read_stream raises (frames ps ++ tail) ≡ ends ps (read_stream raises tail)
  read_stream-frames ps tail h =
      sym (
        read_loop-fuel fuel (frames ps ++ tail)
          (omega (arith, length-append {0} (frames ps) tail, length-le-frames ps)))
      ∙ ap (λ f. read_loop raises f (frames ps ++ tail)) {x = fuel}
          {y = length ps + suc (length (frames ps ++ tail))} refl
      ∙ read_loop-frames ps tail (suc (length (frames ps ++ tail))) h
      ∙ ap (ends ps) (
          read_loop-fuel (suc (length (frames ps ++ tail))) tail
            (omega (arith, length-append {0} (frames ps) tail)))
    where
      fuel : ℕ
      fuel = length ps + suc (length (frames ps ++ tail))

  ends-stopped :
      (ps : List Bytes) (shutdown : Bool)
      → All (λ p. raises p ≡ false) ps
      → ends ps (stopped shutdown)
        ≡ record { handled = ps; shutdown = shutdown; raised = if shutdown then false else true }
  ends-stopped [] shutdown calm = refl
  ends-stopped (p ∷ ps) shutdown calm =
      ap (handle raises p) (ends-stopped ps shutdown calm.1) ∙ rw (calm.0) refl

  read_stream-nil : read_stream raises [] ≡ stopped true
  unfolding read_stream read_loop
  read_stream-nil = rw decode_frame-nil

  -- A stream of whole frames within the limit, none of which raises: every payload is handled, in
  -- order, and then the loop requests the shutdown and returns.
  pub read_stream-clean :
      (ps : List Bytes)
      → All IsFramed ps
      → All (λ p. raises p ≡ false) ps
      → read_stream raises (frames ps) ≡ record { handled = ps; shutdown = true; raised = false }
  read_stream-clean ps h calm =
      ap (read_stream raises) (sym (append-nil (frames ps)))
      ∙ read_stream-frames ps [] h
      ∙ ap (ends ps) read_stream-nil
      ∙ ends-stopped ps true calm

  read_stream-torn_frame :
      (s : Bytes) (d : Decoded)
      → decode_frame s ≡ d
      → IsTorn d
      → read_stream raises s ≡ stopped false
  unfolding read_stream read_loop
  read_stream-torn_frame s (desync expected partial) e h = rw e
  read_stream-torn_frame s _ e h = absurd h

  -- A stream that breaks off inside a frame, behind its first byte, all frames within the limit and
  -- none before it raising:
  -- every whole frame before it is handled, in order, and then the loop dies of the exception and has
  -- not requested the shutdown that `serve` waits for.
  pub read_stream-torn :
      (ps : List Bytes) (p : Bytes) (k : ℕ)
      → All IsFramed ps
      → All (λ q. raises q ≡ false) ps
      → IsFramed p
      → 0 < k
      → k < length p + 4
      → read_stream raises (frames ps ++ take k (frame p))
        ≡ record { handled = ps; shutdown = false; raised = true }
  read_stream-torn ps p k hs calm h pos short =
      read_stream-frames ps (take k (frame p)) hs
      ∙ ap (ends ps) (read_stream-torn_frame _ _ refl (decode_frame-IsTorn p k h pos short))
      ∙ ends-stopped ps false calm
