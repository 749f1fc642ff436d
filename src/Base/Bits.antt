-- ===== src/Base/Bits.antt =====
-- Go's `&`, `|`, `^` and `&^` on unsigned words, read bit by bit.
use Prim.Native.Nat.{
  ℕ, zero, suc, ◌+◌, ◌-◌, ◌*◌, ◌/◌, ◌%◌, ◌^◌, ◌≤◌, ◌<◌, min, max, bit_and, bit_or, bit_xor, digits,
  bitwise, differ, bit_and-bitwise, bit_or-bitwise, bit_xor-bitwise,
}
use native.Mathlib.Nat.{
  pow-suc, one-le-pow, le_refl, mul-add-mod_self_left, mod-eq_of_lt, mod-lt, div-add-mod, mod-one,
  div-one, div-div-eq-div-mul,
}
use mathlib.Core.Path.{◌≡◌, refl, ap, ◌∙◌}
use mathlib.Core.Bool.{Bool, false, not, ◌&&◌, ◌||◌, xor}
use native.Mathlib.Omega.{arith}
use golinux.Base.Tests.{◌==◌, ltb, leb, if◌then◌else◌}

-- x &^ y.
abbrev pub bit_clear : ℕ → ℕ → ℕ
bit_clear a b = a - bit_and a b

-- The library's operations recurse on digits with fuel; any fuel that reaches the first number
-- gives the same digits.
module _ (z : ℕ → ℕ) (f : ℕ → ℕ → ℕ) where
  digits_at_zero : (n m b : ℕ) → digits z f n zero b ≡ digits z f m zero b
  digits_at_zero zero zero b = refl
  digits_at_zero zero (suc m) b = refl
  digits_at_zero (suc n) zero b = refl
  digits_at_zero (suc n) (suc m) b = refl

  digits_more_fuel : (n m a b : ℕ) → a ≤ n → a ≤ m → digits z f n a b ≡ digits z f m a b
  digits_more_fuel n m zero b p q = digits_at_zero n m b
  digits_more_fuel zero m (suc a) b p q = absurd (omega arith)
  digits_more_fuel (suc n) zero (suc a) b p q = absurd (omega arith)
  digits_more_fuel (suc n) (suc m) (suc a) b p q =
      rw (digits_more_fuel n m (suc a / 2) (b / 2) (omega arith) (omega arith))

  bitwise_lowest :
      (a b : ℕ)
      → bitwise z f (suc a) b ≡ bitwise z f (suc a / 2) (b / 2) * 2 + f (suc a % 2) (b % 2)
  bitwise_lowest a b =
      omega (arith, digits_more_fuel a (suc a / 2) (suc a / 2) (b / 2) (omega arith) (le_refl _))

pub and_lowest : (a b : ℕ) → bit_and a b ≡ bit_and (a / 2) (b / 2) * 2 + min (a % 2) (b % 2)
and_lowest zero b = simp bit_and-bitwise (omega arith)
and_lowest (suc a) b = simp bit_and-bitwise (bitwise_lowest (λ y. 0) min a b)

pub or_lowest : (a b : ℕ) → bit_or a b ≡ bit_or (a / 2) (b / 2) * 2 + max (a % 2) (b % 2)
or_lowest zero b = simp bit_or-bitwise (omega arith)
or_lowest (suc a) b = simp bit_or-bitwise (bitwise_lowest (λ y. y) max a b)

xor_lowest : (a b : ℕ) → bit_xor a b ≡ bit_xor (a / 2) (b / 2) * 2 + differ (a % 2) (b % 2)
xor_lowest zero b = simp bit_xor-bitwise (omega arith)
xor_lowest (suc a) b = simp bit_xor-bitwise (bitwise_lowest (λ y. y) differ a b)

differ_bits : (x y : ℕ) → x < 2 → y < 2 → differ x y ≡ (x + y) % 2
differ_bits zero y p q = omega arith
differ_bits (suc zero) zero p q = refl
differ_bits (suc zero) (suc zero) p q = refl
differ_bits (suc zero) (suc (suc y)) p q = absurd (omega arith)
differ_bits (suc (suc x)) y p q = absurd (omega arith)

and_half : (a b : ℕ) → bit_and a b / 2 ≡ bit_and (a / 2) (b / 2)
and_half a b = omega (arith, and_lowest a b)

or_half : (a b : ℕ) → bit_or a b / 2 ≡ bit_or (a / 2) (b / 2)
or_half a b = omega (arith, or_lowest a b)

xor_half : (a b : ℕ) → bit_xor a b / 2 ≡ bit_xor (a / 2) (b / 2)
xor_half a b = omega (arith, xor_lowest a b, differ_bits (a % 2) (b % 2))

pub bit_and-le : (n a b : ℕ) → a ≤ n → bit_and a b ≤ a
bit_and-le n zero b h = omega (arith, bit_and-bitwise 0 b)
bit_and-le zero (suc a) b h = absurd (omega arith)
bit_and-le (suc n) (suc a) b h =
    omega (arith, and_lowest (suc a) b, bit_and-le n (suc a / 2) (b / 2) (omega arith))

clear_lowest :
    (a b : ℕ) → bit_clear a b ≡ bit_clear (a / 2) (b / 2) * 2 + (a % 2 - min (a % 2) (b % 2))
clear_lowest a b = omega (arith, and_lowest a b, bit_and-le (a / 2) (a / 2) (b / 2) (le_refl _))

clear_half : (a b : ℕ) → bit_clear a b / 2 ≡ bit_clear (a / 2) (b / 2)
clear_half a b = omega (arith, clear_lowest a b)

-- Bit `k` of a number.
pub bit : ℕ → ℕ → Bool
bit a zero = a % 2 == 1
bit a (suc k) = bit (a / 2) k

pub bit-and : (k a b : ℕ) → bit (bit_and a b) k ≡ bit a k && bit b k
unfolding bit
bit-and zero a b = ground (arith, and_lowest a b)
bit-and (suc k) a b = rw (and_half a b) (bit-and k (a / 2) (b / 2))

pub bit-or : (k a b : ℕ) → bit (bit_or a b) k ≡ bit a k || bit b k
unfolding bit
bit-or zero a b = ground (arith, or_lowest a b)
bit-or (suc k) a b = rw (or_half a b) (bit-or k (a / 2) (b / 2))

pub bit-xor : (k a b : ℕ) → bit (bit_xor a b) k ≡ xor (bit a k) (bit b k)
unfolding bit xor
bit-xor zero a b = ground (arith, xor_lowest a b, differ_bits (a % 2) (b % 2))
bit-xor (suc k) a b = rw (xor_half a b) (bit-xor k (a / 2) (b / 2))

pub bit-clear : (k a b : ℕ) → bit (bit_clear a b) k ≡ bit a k && not (bit b k)
unfolding bit
bit-clear zero a b = ground (arith, clear_lowest a b)
bit-clear (suc k) a b = rw (clear_half a b) (bit-clear k (a / 2) (b / 2))

zero-bit : (k : ℕ) → bit 0 k ≡ false
unfolding bit
zero-bit zero = refl
zero-bit (suc k) = zero-bit k

two_pow_suc_half : (j : ℕ) → 2 ^ suc j / 2 ≡ 2 ^ j
two_pow_suc_half j = omega (arith, pow-suc 2 j)

pub bit-two_pow : (k j : ℕ) → bit (2 ^ j) k ≡ (j == k)
unfolding bit
bit-two_pow zero zero = refl
bit-two_pow zero (suc j) = ground (arith, pow-suc 2 j)
bit-two_pow (suc k) zero = ground (arith, zero-bit k)
bit-two_pow (suc k) (suc j) = rw (two_pow_suc_half j) (ground (arith, bit-two_pow k j))

ext_fuel : (n a b : ℕ) → a ≤ n → ((k : ℕ) → bit a k ≡ bit b k) → b ≤ n → a ≡ b
unfolding bit
ext_fuel zero a b p h q = omega arith
ext_fuel (suc n) a b p h q =
    ground (arith, h 0, ext_fuel n (a / 2) (b / 2) (omega arith) (λ k. h (suc k)) (omega arith))

-- A number is its bits.
pub bit_ext : (a b : ℕ) → ((k : ℕ) → bit a k ≡ bit b k) → a ≡ b
bit_ext a b h = ext_fuel (a + b) a b (omega arith) h (omega arith)

mod_double : (a p : ℕ) → 0 < p → a % (2 * p) ≡ a / 2 % p * 2 + a % 2
mod_double a p h =
    ap (λ (t : ℕ). t % (2 * p)) split
    ∙ mul-add-mod_self_left (2 * p) (a / 2 / p) low
    ∙ mod-eq_of_lt (omega (arith, mod-lt (a / 2) h))
  where
    low : ℕ
    low = a / 2 % p * 2 + a % 2

    split : a ≡ 2 * p * (a / 2 / p) + low
    split = omega (arith, div-add-mod (a / 2) p)

pub mod_pow_suc : (a n : ℕ) → a % 2 ^ suc n ≡ a / 2 % 2 ^ n * 2 + a % 2
mod_pow_suc a n =
    ap (λ (t : ℕ). a % t) double ∙ mod_double a (2 ^ n) (omega (arith, one-le-pow n 2))
  where
    double : 2 ^ suc n ≡ 2 * 2 ^ n
    double = omega (arith, pow-suc 2 n)

mod_half : (a n : ℕ) → a % 2 ^ suc n / 2 ≡ a / 2 % 2 ^ n
mod_half a n = omega (arith, mod_pow_suc a n)

pub bit-mod : (k n a : ℕ) → bit (a % 2 ^ n) k ≡ ltb k n && bit a k
unfolding bit
bit-mod zero zero a = ground (arith, mod-one a)
bit-mod zero (suc n) a =
    let same : a % 2 ^ suc n % 2 ≡ a % 2 = omega (arith, mod_pow_suc a n) in rw same (ground arith)
bit-mod (suc k) zero a = ground (arith, mod-one a, zero-bit k)
bit-mod (suc k) (suc n) a = rw (mod_half a n) (ground (arith, bit-mod k n (a / 2)))

and-zero : (n a : ℕ) → a ≤ n → bit_and a 0 ≡ 0
and-zero n zero h = omega (arith, bit_and-bitwise 0 0)
and-zero zero (suc a) h = absurd (omega arith)
and-zero (suc n) (suc a) h =
    omega (arith, and_lowest (suc a) 0, and-zero n (suc a / 2) (omega arith))

-- A mask of `n` ones is the remainder by `2 ^ n`.
pub and_mask : (n a : ℕ) → bit_and a (2 ^ n - 1) ≡ a % 2 ^ n
and_mask zero a = omega (arith, and-zero a a (le_refl _), mod-one a)
and_mask (suc n) a =
    let halves : (2 ^ suc n - 1) / 2 ≡ 2 ^ n - 1 = omega (arith, pow-suc 2 n, one-le-pow n 2) in
    let low : (2 ^ suc n - 1) % 2 ≡ 1 = omega (arith, pow-suc 2 n, one-le-pow n 2) in
    let above : bit_and (a / 2) ((2 ^ suc n - 1) / 2) ≡ a / 2 % 2 ^ n =
      rw halves (and_mask n (a / 2)) in
    omega (arith, and_lowest a (2 ^ suc n - 1), mod_pow_suc a n)

-- A mask of one bit picks that bit.
pub and_two_pow : (k a : ℕ) → bit_and a (2 ^ k) ≡ (if bit a k then 2 ^ k else 0)
unfolding bit
and_two_pow zero a = ground (arith, and_lowest a 1, and-zero (a / 2) (a / 2))
and_two_pow (suc k) a =
    let above : bit_and (a / 2) (2 ^ suc k / 2) ≡ (if bit (a / 2) k then 2 ^ k else 0) =
      rw (two_pow_suc_half k) (and_two_pow k (a / 2)) in
    ground (arith, and_lowest a (2 ^ suc k), pow-suc 2 k, one-le-pow k 2)

-- Go's test `a & (1 << k) != 0`.
pub test_two_pow : (k a : ℕ) → not (bit_and a (2 ^ k) == 0) ≡ bit a k
test_two_pow k a = ground (arith, and_two_pow k a, one-le-pow k 2)

-- A bit of a word by arithmetic.
pub bit_top : (k a : ℕ) → a < 2 ^ suc k → bit a k ≡ leb (2 ^ k) a
unfolding bit
bit_top zero a h = ground arith
bit_top (suc k) a h =
    ground
      (arith, pow-suc 2 k, pow-suc 2 (suc k), bit_top k (a / 2) (omega (arith, pow-suc 2 (suc k))))

-- Bit `k` by a shift and a mask.
pub bit_value : (k a : ℕ) → bit a k ≡ (a / 2 ^ k % 2 == 1)
unfolding bit
bit_value zero a = ground (arith, div-one a)
bit_value (suc k) a =
    let nested : a / 2 / 2 ^ k ≡ a / 2 ^ suc k =
      div-div-eq-div-mul a 2 (2 ^ k) ∙ ap (λ (t : ℕ). a / t) (omega (arith, pow-suc 2 k)) in
    bit_value k (a / 2) ∙ ap (λ (t : ℕ). t % 2 == 1) nested
