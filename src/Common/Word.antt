-- ===== src/Common/Word.antt =====
-- `u64` and `u32` arithmetic: the checked, saturating and aligning operations that the source
-- uses. A word is a number; that it is below the modulus is a hypothesis where it matters.
use Prim.Native.Nat.{ℕ, zero, suc, ◌+◌, ◌*◌, ◌/◌, ◌-◌, ◌^◌, min}
use mathlib.Core.Option.{Option, none, some}
use mathlib.Core.Bool.{Bool, false, ◌||◌}
use aegis_hv.Common.Tests.{ltb, ◌==◌, if◌then◌else◌}

abbrev pub u16_max : ℕ
u16_max = 2 ^ 16 - 1

abbrev pub u32_max : ℕ
u32_max = 2 ^ 32 - 1

abbrev pub u64_mod : ℕ
u64_mod = 2 ^ 64

abbrev pub u64_max : ℕ
u64_max = 2 ^ 64 - 1

-- `u64::checked_add`
abbrev pub checked_add : ℕ → ℕ → Option ℕ
checked_add a b = if ltb (a + b) u64_mod then some (a + b) else none

-- `u64::saturating_mul`
abbrev pub saturating_mul : ℕ → ℕ → ℕ
saturating_mul a b = min (a * b) u64_max

-- `value & !(align - 1)` for an `align` that is a power of two.
abbrev pub align_down : ℕ → ℕ → ℕ
align_down value align = value / align * align

-- `is_power_of_two` of a number below `2 ^ bits`.
unfoldable pub is_power_of_two : ℕ → ℕ → Bool
is_power_of_two zero n = false
is_power_of_two (suc bits) n = n == 2 ^ bits || is_power_of_two bits n

-- `checked_mul` of words of `bits` bits.
abbrev pub checked_mul : ℕ → ℕ → ℕ → Option ℕ
checked_mul bits a b = if ltb (a * b) (2 ^ bits) then some (a * b) else none
