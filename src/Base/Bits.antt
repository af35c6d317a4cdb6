-- ===== src/Base/Bits.antt =====
-- Masks on binary digits.
use Prim.Native.Nat.{
  ℕ, zero, suc, ◌+◌, ◌-◌, ◌*◌, ◌/◌, ◌%◌, ◌^◌, ◌≤◌, ◌<◌, min, bit_and, bit_and-bitwise, digits,
}
use mathlib.Core.Path.{◌≡◌, ap, ◌∙◌}
use native.Mathlib.Omega.{arith}

mod-double : (a m : ℕ) → 0 < m → a % (2 * m) ≡ a / 2 % m * 2 + a % 2
mod-double a m h = grind arith

power_pos : (k : ℕ) → 0 < 2 ^ k
power_pos zero = omega arith
power_pos (suc k) = omega (arith, power_pos k)

le_zero : (a : ℕ) → a ≤ 0 → 0 ≡ a
le_zero a h = omega arith

zero-mod-power : (k : ℕ) → 0 ≡ 0 % 2 ^ k
zero-mod-power k = grind (arith, power_pos k)

pow-suc' : (k : ℕ) → 2 ^ suc k ≡ 2 * 2 ^ k
pow-suc' k = omega arith

-- The low `k` binary digits, in at least as many steps as the number has digits.
low_digits : (n k a : ℕ) → a ≤ n → digits (λ b. zero) min n a (2 ^ k - 1) ≡ a % 2 ^ k
low_digits zero k a h = omega (arith, zero-mod-power k, ap (λ (t : ℕ). t % 2 ^ k) (le_zero a h))
low_digits (suc n) k zero h = zero-mod-power k
low_digits (suc n) zero (suc a) h = omega (arith, low_digits n zero (suc a / 2) (omega arith))
low_digits (suc n) (suc k) (suc a) h =
    let half : (2 ^ suc k - 1) / 2 ≡ 2 ^ k - 1 = omega (arith, power_pos k) in
    let odd : (2 ^ suc k - 1) % 2 ≡ 1 = omega (arith, power_pos k) in
    rw (half, odd)
      (omega (
        arith,
        low_digits n k (suc a / 2) (omega arith),
        mod-double (suc a) (2 ^ k) (power_pos k),
        ap (λ (t : ℕ). suc a % t) (pow-suc' k),
      ))

pub bit_and-mask : (a k : ℕ) → bit_and a (2 ^ k - 1) ≡ a % 2 ^ k
bit_and-mask a k = bit_and-bitwise a (2 ^ k - 1) ∙ low_digits a k a (omega arith)
