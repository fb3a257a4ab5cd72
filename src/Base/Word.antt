-- ===== src/Base/Word.antt =====
-- `isize` as its 64-bit pattern: a cast to or from `usize` changes nothing, arithmetic wraps, and a
-- comparison adds the bias 2^63 to both sides.
use Prim.Native.Nat.{ℕ, ◌+◌, ◌-◌, ◌%◌, ◌≤◌, ◌<◌}
use mathlib.Core.Path.{◌≡◌}
use mathlib.Core.Bool.{Bool, true}
use mathlib.Core.Logic.{◌↔◌}
use native.Mathlib.Omega.{arith}
use mlua.Base.Tests.{ltb, leb}

-- 2^64, and `isize::MAX` = 2^63 - 1.
abbrev pub modulus : ℕ
modulus = 18446744073709551616

abbrev pub isize_max : ℕ
isize_max = 9223372036854775807

-- `a.wrapping_add(b)`, which is `a + b` wherever that does not overflow.
abbrev pub add_isize : ℕ → ℕ → ℕ
add_isize a b = (a + b) % modulus

abbrev pub sub_isize : ℕ → ℕ → ℕ
sub_isize a b = (a + modulus - b) % modulus

-- The pattern with its sign bit flipped, which orders as the signed numbers do.
abbrev pub biased : ℕ → ℕ
biased a = (a + 9223372036854775808) % modulus

abbrev pub lt_isize : ℕ → ℕ → Bool
lt_isize a b = ltb (biased a) (biased b)

abbrev pub le_isize : ℕ → ℕ → Bool
le_isize a b = leb (biased a) (biased b)

-- Between nonnegative values the signed order is that of the numbers.
pub lt_isize-nonneg : (a b : ℕ) → a ≤ isize_max → b ≤ isize_max → (lt_isize a b ≡ true) ↔ (a < b)
lt_isize-nonneg a b ha hb = ground arith
