-- ===== src/Prelude/Int.antt =====
-- `i64` values. A value is an integer; the operations wrap or saturate as Rust's do in a release
-- build, and `as i64` keeps the low 64 bits.
use Prim.Native.Nat.{ℕ, suc, ◌+◌, ◌-◌, ◌*◌, ◌%◌, ◌^◌, ◌≤◌, ◌<◌}
use mathlib.Core.Path.{◌≡◌}
use mathlib.Core.Bool.{Bool}
use mathlib.Core.Option.{Option, none, some}
use native.Mathlib.Omega.{arith}
use simple_alert_proxy.Prelude.Tests.{ltb, leb, if◌then◌else◌}

-- `negsuc n` is -(n + 1).
pub data ℤ : Type 0 where
  pos : ℕ → ℤ
  negsuc : ℕ → ℤ

abbrev pub pos_part : ℤ → ℕ
pos_part (pos n) = n
pos_part (negsuc n) = 0

abbrev pub neg_part : ℤ → ℕ
neg_part (pos n) = 0
neg_part (negsuc n) = suc n

-- a - b, as an integer.
abbrev pub sub_ℕ : ℕ → ℕ → ℤ
sub_ℕ a b = if leb b a then pos (a - b) else negsuc (b - a - 1)

abbrev pub leb_ℤ : ℤ → ℤ → Bool
leb_ℤ a b = leb (pos_part a + neg_part b) (pos_part b + neg_part a)

abbrev pub ltb_ℤ : ℤ → ℤ → Bool
ltb_ℤ a b = ltb (pos_part a + neg_part b) (pos_part b + neg_part a)

infix 50 ◌≤ℤ◌
abbrev pub ◌≤ℤ◌ : ℤ → ℤ → Type 0
a ≤ℤ b = pos_part a + neg_part b ≤ pos_part b + neg_part a

abbrev pub i64_max : ℕ
i64_max = 2 ^ 63 - 1

abbrev pub u64_max : ℕ
u64_max = 2 ^ 64 - 1

abbrev pub u32_max : ℕ
u32_max = 2 ^ 32 - 1

-- The `i64` whose low 64 bits are those of a number below 2 ^ 64.
abbrev from_bits : ℕ → ℤ
from_bits n = if ltb n (2 ^ 63) then pos n else negsuc (2 ^ 64 - 1 - n)

-- `n as i64` for an unsigned `n`
unfoldable pub as_i64 : ℕ → ℤ
as_i64 n = from_bits (n % 2 ^ 64)

-- the low 64 bits of an integer
abbrev low64 : ℤ → ℕ
low64 (pos n) = n % 2 ^ 64
low64 (negsuc n) = 2 ^ 64 - 1 - n % 2 ^ 64

-- `a + b` on `i64`, wrapping
unfoldable pub i64_add : ℤ → ℤ → ℤ
i64_add a b = from_bits ((low64 a + low64 b) % 2 ^ 64)

abbrev saturate : ℤ → ℤ
saturate (pos n) = pos (if leb n i64_max then n else i64_max)
saturate (negsuc n) = negsuc (if leb n i64_max then n else i64_max)

-- `a.saturating_add(b)` and `a.saturating_sub(b)` on `i64`
unfoldable pub i64_saturating_add : ℤ → ℤ → ℤ
i64_saturating_add a b = saturate (sub_ℕ (pos_part a + pos_part b) (neg_part a + neg_part b))

unfoldable pub i64_saturating_sub : ℤ → ℤ → ℤ
i64_saturating_sub a b = saturate (sub_ℕ (pos_part a + neg_part b) (neg_part a + pos_part b))

-- `i64::try_from(n)`
abbrev pub i64_try_from : ℕ → Option ℤ
i64_try_from n = if leb n i64_max then some (pos n) else none

-- `saturating_add` and `saturating_mul` on `u32` and `u64`
abbrev pub u32_saturating_add : ℕ → ℕ → ℕ
u32_saturating_add a b = if leb (a + b) u32_max then a + b else u32_max

abbrev pub u64_saturating_mul : ℕ → ℕ → ℕ
u64_saturating_mul a b = if leb (a * b) u64_max then a * b else u64_max

-- Without overflow the wrapping sum is the sum.
pub i64_add_small : (a b : ℕ) → a + b < 2 ^ 63 → i64_add (pos a) (pos b) ≡ pos (a + b)
unfolding i64_add
i64_add_small a b h = ground arith
