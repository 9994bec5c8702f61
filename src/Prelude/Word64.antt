-- ===== src/Prelude/Word64.antt =====
-- C's uint64_t and long long, and the conversions between them. Overflow of long long is undefined in
-- C, so that its sums are those of the integers.
use Prim.Native.Nat.{ℕ, ◌+◌, ◌-◌, ◌%◌, ◌≤◌, ◌<◌}
use mathlib.Core.Path.{◌≡◌}
use native.Mathlib.Omega.{arith}
use pmu_roboflex.Prelude.Tests.{ltb, if◌then◌else◌}
use pmu_roboflex.Prelude.Int.{ℤ, pos, negsuc, pos_part, neg_part}

abbrev pub u64_mod : ℕ
u64_mod = 18446744073709551616

abbrev pub ll_bound : ℕ
ll_bound = 9223372036854775808

abbrev pub sub64 : ℕ → ℕ → ℕ
sub64 a b = (a % u64_mod + (u64_mod - b % u64_mod)) % u64_mod

abbrev pub add64 : ℕ → ℕ → ℕ
add64 a b = (a + b) % u64_mod

-- (uint64_t) of a long long, and (long long) of a uint64_t.
abbrev pub to_u64 : ℤ → ℕ
to_u64 (pos n) = n % u64_mod
to_u64 (negsuc n) = u64_mod - 1 - n % u64_mod

abbrev pub to_ll : ℕ → ℤ
to_ll n = if ltb n ll_bound then pos n else negsuc (u64_mod - 1 - n)

-- A long long survives its stay in a word of memory.
pub to_ll-to_u64 : (i : ℤ) → pos_part i < ll_bound → neg_part i ≤ ll_bound → to_ll (to_u64 i) ≡ i
to_ll-to_u64 (pos n) h k = ground arith
to_ll-to_u64 (negsuc n) h k = ground arith
