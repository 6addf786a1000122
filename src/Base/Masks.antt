-- ===== src/Base/Masks.antt =====
-- `n & (2 ^ k - 1)` takes the low `k` binary digits.
use Prim.Native.Nat.{
  ℕ, zero, suc, ◌+◌, ◌-◌, ◌*◌, ◌/◌, ◌%◌, ◌^◌, ◌≤◌, ◌<◌, min, bit_and, bit_and-bitwise, digits,
}
use mathlib.Core.Path.{◌≡◌, ap, ◌∙◌, sym}
use native.Mathlib.Nat.{mul-add-mod_self_right, mod-eq_of_lt, mod-lt, div-add-mod'}
use native.Mathlib.Omega.{arith}

half_mod : (p x : ℕ) → 0 < p → x / 2 % p * 2 + x % 2 ≡ x % (p * 2)
half_mod p x positive =
    let low = x / 2 % p * 2 + x % 2 in
    let quot = x / 2 / p in
    let split : x ≡ quot * (p * 2) + low = omega (arith, div-add-mod' (x / 2) p) in
    let small : low < p * 2 = omega (arith, mod-lt (x / 2) positive) in
    sym (
      ap (λ (n : ℕ). n % (p * 2)) split
      ∙ mul-add-mod_self_right quot (p * 2) low
      ∙ mod-eq_of_lt small)

pub bit_positive : (k : ℕ) → 0 < 2 ^ k
bit_positive zero = omega arith
bit_positive (suc k) = omega (arith, bit_positive k)

next_digit : (p a : ℕ) → 0 < p → suc a / 2 % p * 2 + min (suc a % 2) 1 ≡ suc a % (p * 2)
next_digit p a positive = omega (arith, half_mod p (suc a) positive)

-- The digits of `bit_and`, `n` of them at most.
abbrev common : (n a b : ℕ) → ℕ
common n a b = digits (λ _. zero) min n a b

common-mask : (k n a : ℕ) → a ≤ n → common n a (2 ^ k - 1) ≡ a % 2 ^ k
common-mask k zero zero le = omega (arith, mod-eq_of_lt (bit_positive k))
common-mask k zero (suc a) le = absurd (omega arith)
common-mask k (suc n) zero le = omega (arith, mod-eq_of_lt (bit_positive k))
common-mask zero (suc n) (suc a) le = omega (arith, common-mask zero n (suc a / 2) (omega arith))
common-mask (suc k) (suc n) (suc a) le =
    let p = 2 ^ k in
    let half : (p * 2 - 1) / 2 ≡ p - 1 = omega (arith, bit_positive k) in
    let odd : (p * 2 - 1) % 2 ≡ 1 = omega (arith, bit_positive k) in
    let double : 2 ^ suc k ≡ p * 2 = omega arith in
    rw (double, half, odd, common-mask k n (suc a / 2) (omega arith))
      (next_digit p a (bit_positive k))

pub bit_and-mask : (a k : ℕ) → bit_and a (2 ^ k - 1) ≡ a % 2 ^ k
bit_and-mask a k = bit_and-bitwise a (2 ^ k - 1) ∙ common-mask k a a (omega arith)
