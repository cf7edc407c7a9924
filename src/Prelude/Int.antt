-- ===== src/Prelude/Int.antt =====
-- Signed integers over the native numbers: int64 amounts and time.Duration before validation.
use Prim.Native.Nat.{ℕ, ◌-◌, ◌%◌, ◌^◌}

-- `negsuc n` is -(n + 1).
pub data ℤ : Type 0 where
  pos : ℕ → ℤ
  negsuc : ℕ → ℤ

-- uint64(z), two's complement.
abbrev pub to_uint64 : ℤ → ℕ
to_uint64 (pos n) = n % 2 ^ 64
to_uint64 (negsuc n) = (2 ^ 64 - 1) - n % 2 ^ 64

abbrev pub positive_part : ℤ → ℕ
positive_part (pos n) = n
positive_part (negsuc n) = 0
