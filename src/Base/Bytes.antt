-- ===== src/Base/Bytes.antt =====
-- A byte string is a list of numbers below 256; `>I` of Python's struct module.
use Prim.Native.Nat.{ℕ, ◌+◌, ◌*◌, ◌/◌, ◌%◌, ◌^◌, ◌<◌}
use mathlib.Core.Path.{◌≡◌}
use mathlib.Core.List.{List, [], ◌∷◌, ◌++◌}
use native.Mathlib.Omega.{arith}

abbrev pub Bytes : Type 0
Bytes = List ℕ

-- `struct.pack(">I", n)`, for n below 2 ^ 32.
unfoldable pub pack_u32 : ℕ → Bytes
pack_u32 n = (n / 2 ^ 24) % 256 ∷ (n / 2 ^ 16) % 256 ∷ (n / 2 ^ 8) % 256 ∷ n % 256 ∷ []

-- `struct.unpack(">I", b)`, at the four bytes that it takes.
unfoldable pub unpack_u32 : Bytes → ℕ
unpack_u32 (a ∷ b ∷ c ∷ d ∷ rest) = a * 2 ^ 24 + b * 2 ^ 16 + c * 2 ^ 8 + d
unpack_u32 _ = 0

pub unpack_u32-pack_u32 : (n : ℕ) (rest : Bytes) → n < 2 ^ 32 → unpack_u32 (pack_u32 n ++ rest) ≡ n
unfolding pack_u32 unpack_u32
unpack_u32-pack_u32 n rest h = omega arith
