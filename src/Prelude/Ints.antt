-- ===== src/Prelude/Ints.antt =====
-- Signed integers that the program only copies, and saturating addition of unsigned words.
use Prim.Native.Nat.{ℕ, ◌+◌}
use package.fabdev.Prelude.Tests.{leb, if◌then◌else◌}

-- `negsuc n` is -(n + 1).
pub data ℤ : Type 0 where
  pos : ℕ → ℤ
  negsuc : ℕ → ℤ

-- `saturating_add` on words whose greatest value is `top`.
abbrev pub saturating_add : ℕ → ℕ → ℕ → ℕ
saturating_add top a b = if leb (a + b) top then a + b else top

abbrev pub u8_max : ℕ
u8_max = 255

abbrev pub u64_max : ℕ
u64_max = 18446744073709551615
