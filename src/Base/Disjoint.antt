-- ===== src/Base/Disjoint.antt =====
-- `|` and `&` of numbers cut into their high and low bits, and `|` of parts as their sum.
use Prim.Native.Nat.{
  ℕ, zero, suc, ◌+◌, ◌-◌, ◌*◌, ◌/◌, ◌%◌, ◌^◌, ◌≤◌, ◌<◌, bit_and, bit_or, bit_or-bitwise,
}
use mathlib.Core.Path.{◌≡◌, refl, ap, ◌∙◌}
use native.Mathlib.Nat.{pow-suc, one-le-pow, div-one, div-add-mod, div-div-eq-div-mul, le_refl}
use native.Mathlib.Omega.{arith}
use golinux.Base.Bits.{bit_clear, or_lowest, and_lowest, and_mask}

or-zero_below : (n a : ℕ) → a ≤ n → bit_or a 0 ≡ a
or-zero_below n zero h = omega (arith, bit_or-bitwise 0 0)
or-zero_below zero (suc a) h = absurd (omega arith)
or-zero_below (suc n) (suc a) h =
    omega (arith, or_lowest (suc a) 0, or-zero_below n (suc a / 2) (omega arith))

pub or-zero : (a : ℕ) → bit_or a 0 ≡ a
or-zero a = or-zero_below a a (le_refl a)

pub zero-or : (b : ℕ) → bit_or 0 b ≡ b
zero-or b = omega (arith, bit_or-bitwise 0 b)

doubled : (a n : ℕ) → a * 2 ^ suc n ≡ a * 2 ^ n * 2
doubled a n = grind (arith, pow-suc 2 n)

-- The high and the low bits of both sides are combined apart.
pub or_split :
    (n a b c d : ℕ)
    → c < 2 ^ n
    → d < 2 ^ n
    → bit_or (a * 2 ^ n + c) (b * 2 ^ n + d) ≡ bit_or a b * 2 ^ n + bit_or c d
or_split zero a b c d p q =
    let c0 : c ≡ 0 = omega arith in
    let d0 : d ≡ 0 = omega arith in
    let left : a * 1 + 0 ≡ a = omega arith in
    let right : b * 1 + 0 ≡ b = omega arith in rw (c0, d0, left, right, or-zero 0) (omega arith)
or_split (suc n) a b c d p q =
    let halved_c : c / 2 < 2 ^ n = omega (arith, pow-suc 2 n) in
    let halved_d : d / 2 < 2 ^ n = omega (arith, pow-suc 2 n) in
    let left : (a * 2 ^ suc n + c) / 2 ≡ a * 2 ^ n + c / 2 = omega (arith, doubled a n) in
    let right : (b * 2 ^ suc n + d) / 2 ≡ b * 2 ^ n + d / 2 = omega (arith, doubled b n) in
    let low_left : (a * 2 ^ suc n + c) % 2 ≡ c % 2 = omega (arith, doubled a n) in
    let low_right : (b * 2 ^ suc n + d) % 2 ≡ d % 2 = omega (arith, doubled b n) in
    or_lowest (a * 2 ^ suc n + c) (b * 2 ^ suc n + d)
    ∙ rw (left, right, low_left, low_right)
        (omega (
          arith,
          or_split n a b (c / 2) (d / 2) halved_c halved_d,
          or_lowest c d,
          doubled (bit_or a b) n,
        ))

-- High bits over low bits.
pub or_parts : (n a c : ℕ) → c < 2 ^ n → bit_or (a * 2 ^ n) c ≡ a * 2 ^ n + c
or_parts n a c p =
    let left : a * 2 ^ n ≡ a * 2 ^ n + 0 = omega arith in
    let right : c ≡ 0 * 2 ^ n + c = omega arith in
    let joined = or_split n a 0 0 c (omega (arith, one-le-pow n 2)) p in
    ap (λ (x : ℕ). bit_or x c) left
    ∙ ap (λ (x : ℕ). bit_or (a * 2 ^ n + 0) x) right
    ∙ joined
    ∙ rw (or-zero a, zero-or c) refl

-- A mask that starts at bit `n`.
pub and_shifted : (n a m : ℕ) → bit_and a (m * 2 ^ n) ≡ bit_and (a / 2 ^ n) m * 2 ^ n
and_shifted zero a m = let same : m * 1 ≡ m = omega arith in rw (same, div-one a) (omega arith)
and_shifted (suc n) a m =
    let half : m * 2 ^ suc n / 2 ≡ m * 2 ^ n = omega (arith, doubled m n) in
    let low : m * 2 ^ suc n % 2 ≡ 0 = omega (arith, doubled m n) in
    let nested : a / 2 / 2 ^ n ≡ a / 2 ^ suc n =
      div-div-eq-div-mul a 2 (2 ^ n) ∙ ap (λ (t : ℕ). a / t) (omega (arith, pow-suc 2 n)) in
    and_lowest a (m * 2 ^ suc n)
    ∙ rw (half, low, and_shifted n (a / 2) m, nested)
        (omega (arith, doubled (bit_and (a / 2 ^ suc n) m) n))

-- Go's `x &^ mask` for a mask of the low `n` bits.
pub clear_low : (n a : ℕ) → bit_clear a (2 ^ n - 1) ≡ a / 2 ^ n * 2 ^ n
clear_low n a = omega (arith, and_mask n a, div-add-mod a (2 ^ n))

-- Go's `x &^ 0xFF00 | v << 8`.
pub replace_byte :
    (a v : ℕ)
    → v < 256
    → bit_or (bit_clear a 0xFF00) (v * 256) ≡ a / 65536 * 65536 + v * 256 + a % 256
replace_byte a v small =
    let mask : bit_and a 0xFF00 ≡ a / 256 % 256 * 256 =
      and_shifted 8 a 255 ∙ ap (λ (x : ℕ). x * 256) (and_mask 8 (a / 256)) in
    let kept : bit_clear a 0xFF00 ≡ a / 65536 * 256 * 256 + a % 256 = omega (arith, mask) in
    let high : v * 256 ≡ v * 256 + 0 = omega arith in
    rw kept (
      ap (λ (x : ℕ). bit_or (a / 65536 * 256 * 256 + a % 256) x) high
      ∙ or_split 8 (a / 65536 * 256) v (a % 256) 0 (omega arith) (omega arith)
      ∙ omega (arith, or_parts 8 (a / 65536) v small, or-zero (a % 256)))
