-- ===== src/Common/Bits.antt =====
-- The bits of a number below and above a power of two.
use Prim.Native.Nat.{
  ℕ, zero, suc, ◌+◌, ◌-◌, ◌*◌, ◌/◌, ◌%◌, ◌^◌, ◌≤◌, ◌<◌, min, max, digits, bit_or, bit_or-bitwise,
  bit_and, bit_and-bitwise,
}
use mathlib.Core.Path.{◌≡◌, sym, ap, subst, ◌∙◌}
use mathlib.Core.Logic.{inl, inr}
use mathlib.Core.Bool.{true}
use native.Mathlib.Omega.{arith}
use native.Mathlib.Nat.{
  mod-lt, mod-eq_of_lt, mul-add-mod_self_right, div-add-mod', zero-mod, pow-succ',
}
use aegis_hv.Common.Word.{is_power_of_two}
use aegis_hv.Common.Tests.{Bool-cases, ◌==◌}

pow_suc : (k : ℕ) → 2 ^ suc k ≡ 2 * 2 ^ k
pow_suc k = pow-succ' 2 k

pow_pos : (k : ℕ) → 0 < 2 ^ k
pow_pos zero = omega arith
pow_pos (suc k) = omega (arith, pow_suc k, pow_pos k)

mod_double : (h b m : ℕ) → b < 2 → 0 < m → (2 * h + b) % (2 * m) ≡ 2 * (h % m) + b
mod_double h b m small pos =
    let q = h / m in
    let r = h % m in
    let whole : q * m + r ≡ h = div-add-mod' h m in
    let twice : 2 * h + b ≡ q * (2 * m) + (2 * r + b) = omega (arith, whole) in
    let below : 2 * r + b < 2 * m = omega (arith, mod-lt h pos) in
    ap (λ n. n % (2 * m)) twice ∙ mul-add-mod_self_right q (2 * m) (2 * r + b) ∙ mod-eq_of_lt below

-- Of two numbers that share no bit, the first one a multiple of a power of two and the second one
-- below it, `|` is the sum.
or_digits : (n a k x y : ℕ) → a ≤ n → a ≡ x * 2 ^ k → y < 2 ^ k → digits (λ b. b) max n a y ≡ a + y
or_digits zero a k x y fuel e below = omega (arith, fuel)
or_digits (suc n) zero k x y fuel e below = omega arith
or_digits (suc n) (suc a) zero x y fuel e below =
    let rest =
      or_digits n (suc a / 2) zero (suc a / 2) (y / 2) (omega arith) (omega arith) (omega arith) in
    omega (arith, rest, below)
or_digits (suc n) (suc a) (suc k) x y fuel e below =
    let half : suc a ≡ 2 * (x * 2 ^ k) = e ∙ ap (λ p. x * p) (pow_suc k) ∙ omega arith in
    let rest =
      or_digits n (suc a / 2) k x (y / 2) (omega arith) (omega (arith, half))
        (omega (arith, below, pow_suc k)) in
    omega (arith, rest, half)

-- A mask of the bits below a power of two is a remainder.
and_digits : (n a k : ℕ) → a ≤ n → digits (λ b. 0) min n a (2 ^ k - 1) ≡ a % 2 ^ k
and_digits zero zero k fuel = sym (zero-mod (2 ^ k))
and_digits zero (suc a) k fuel = absurd (omega (arith, fuel))
and_digits (suc n) zero k fuel = sym (zero-mod (2 ^ k))
and_digits (suc n) (suc a) zero fuel =
    let rest = and_digits n (suc a / 2) zero (omega arith) in omega (arith, rest)
and_digits (suc n) (suc a) (suc k) fuel =
    let m = 2 ^ k in
    let mask : (2 ^ suc k - 1) / 2 ≡ m - 1 = omega (arith, pow_suc k, pow_pos k) in
    let low : (2 ^ suc k - 1) % 2 ≡ 1 = omega (arith, pow_suc k, pow_pos k) in
    let rest = and_digits n (suc a / 2) k (omega arith) in
    let halves : 2 * (suc a / 2) + suc a % 2 ≡ suc a = omega arith in
    let both : suc a % 2 ^ suc k ≡ 2 * (suc a / 2 % m) + suc a % 2 =
      ap (λ p. suc a % p) (pow_suc k)
      ∙ sym (ap (λ n. n % (2 * m)) halves)
      ∙ mod_double (suc a / 2) (suc a % 2) m (omega arith) (pow_pos k) in
    rw (mask, low, rest) (omega (arith, both))

or_disjoint : (a k x y : ℕ) → a ≡ x * 2 ^ k → y < 2 ^ k → bit_or a y ≡ a + y
or_disjoint a k x y e below =
    let spelled : bit_or a y ≡ digits (λ b. b) max a a y = bit_or-bitwise a y in
    spelled ∙ or_digits a a k x y (omega arith) e below

and_mask : (a k : ℕ) → bit_and a (2 ^ k - 1) ≡ a % 2 ^ k
and_mask a k =
    let spelled : bit_and a (2 ^ k - 1) ≡ digits (λ b. 0) min a a (2 ^ k - 1) =
      bit_and-bitwise a (2 ^ k - 1) in
    spelled ∙ and_digits a a k (omega arith)

pub is_power_of_two-eq : (bits n : ℕ) → is_power_of_two bits n ≡ true → (k : ℕ) × (n ≡ 2 ^ k)
unfolding is_power_of_two
is_power_of_two-eq zero n h = absurd (ground (arith, h))
is_power_of_two-eq (suc bits) n h = elim (Bool-cases (n == 2 ^ bits)) [
  | inl here ↦ (bits, ground (arith, here))
  | inr below ↦ is_power_of_two-eq bits n (rw (is_power_of_two, below) at h)
]

-- A page and an offset in it share no bit.
pub page_offset :
    (size k page g : ℕ)
    → size ≡ 2 ^ k
    → bit_or (page * size) (bit_and g (size - 1)) ≡ page * size + g % size
page_offset size k page g e =
    let offset : bit_and g (size - 1) ≡ g % size =
      subst (λ s. bit_and g (s - 1) ≡ g % s) (sym e) (and_mask g k) in
    let positive : 0 < size = subst (λ s. 0 < s) (sym e) (pow_pos k) in
    let below : g % size < 2 ^ k = subst (λ s. g % size < s) e (mod-lt g positive) in
    let aligned : page * size ≡ page * 2 ^ k = ap (λ s. page * s) e in
    rw offset (or_disjoint (page * size) k page (g % size) aligned below)
