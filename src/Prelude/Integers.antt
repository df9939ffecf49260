-- ===== src/Prelude/Integers.antt =====
-- Signed integers over the native numbers, under the library's names: `negsuc n` is -1 - n.
use Prim.Native.Nat.{ℕ}

pub data ℤ : Type 0 where
  pos negsuc : ℕ → ℤ
