-- ===== src/Cpu/Operand/Bytes.antt =====
-- leToU64 and u64ToLE: the little-endian bytes of a number, and back.
use golinux.Base.{
  ℕ, zero, suc, ◌+◌, ◌*◌, ◌/◌, ◌%◌, ◌^◌, ◌≤◌, ◌<◌, ◌≡◌, refl, ap, ◌∙◌, sym, length, bit_or, arith,
}
use native.Mathlib.Nat.{pow-suc, one-le-pow, div-one, mod-one, div-div-eq-div-mul}
use golinux.Base.Bits.{mod_pow_suc}
use golinux.Base.Disjoint.{or_split, or-zero, zero-or}
use golinux.Cpu.Operand.{le_from, le_bytes, le_to_u64, u64_to_le}

eight_more : (i : ℕ) → 8 * suc i ≡ suc (suc (suc (suc (suc (suc (suc (suc (8 * i))))))))
eight_more i = omega arith

pow_next : (i : ℕ) → 2 ^ (8 * suc i) ≡ 256 * 2 ^ (8 * i)
pow_next i =
    let k = 8 * i in
    rw (eight_more i) (
      omega (
        arith,
        pow-suc 2 k,
        pow-suc 2 (suc k),
        pow-suc 2 (suc (suc k)),
        pow-suc 2 (suc (suc (suc k))),
        pow-suc 2 (suc (suc (suc (suc k)))),
        pow-suc 2 (suc (suc (suc (suc (suc k))))),
        pow-suc 2 (suc (suc (suc (suc (suc (suc k)))))),
        pow-suc 2 (suc (suc (suc (suc (suc (suc (suc k))))))),
      ))

mod_next : (a i : ℕ) → a % 2 ^ (8 * suc i) ≡ a / 256 % 2 ^ (8 * i) * 256 + a % 256
mod_next a i =
    let k = 8 * i in
    let all : a / 2 / 2 / 2 / 2 / 2 / 2 / 2 / 2 ≡ a / 256 = omega arith in
    rw (eight_more i, ← all)
      (omega (
        arith,
        mod_pow_suc a (suc (suc (suc (suc (suc (suc (suc k))))))),
        mod_pow_suc (a / 2) (suc (suc (suc (suc (suc (suc k)))))),
        mod_pow_suc (a / 2 / 2) (suc (suc (suc (suc (suc k))))),
        mod_pow_suc (a / 2 / 2 / 2) (suc (suc (suc (suc k)))),
        mod_pow_suc (a / 2 / 2 / 2 / 2) (suc (suc (suc k))),
        mod_pow_suc (a / 2 / 2 / 2 / 2 / 2) (suc (suc k)),
        mod_pow_suc (a / 2 / 2 / 2 / 2 / 2 / 2) (suc k),
        mod_pow_suc (a / 2 / 2 / 2 / 2 / 2 / 2 / 2) k,
      ))

-- A byte stays below 2^64 in the place of one of the eight bytes of a word.
byte_fits : (i x : ℕ) → i < 8 → x < 256 → x * 2 ^ (8 * i) < 2 ^ 64
byte_fits zero x h small = omega arith
byte_fits (suc zero) x h small = omega arith
byte_fits (suc (suc zero)) x h small = omega arith
byte_fits (suc (suc (suc zero))) x h small = omega arith
byte_fits (suc (suc (suc (suc zero)))) x h small = omega arith
byte_fits (suc (suc (suc (suc (suc zero))))) x h small = omega arith
byte_fits (suc (suc (suc (suc (suc (suc zero)))))) x h small = omega arith
byte_fits (suc (suc (suc (suc (suc (suc (suc zero))))))) x h small = omega arith
byte_fits (suc (suc (suc (suc (suc (suc (suc (suc i)))))))) x h small = absurd (omega arith)

-- One more byte above the bytes read so far.
or_byte :
    (i x acc : ℕ)
    → i < 8
    → x < 256
    → acc < 2 ^ (8 * i)
    → bit_or acc (x * 2 ^ (8 * i) % 2 ^ 64) ≡ acc + x * 2 ^ (8 * i)
or_byte i x acc h small below =
    let fits : x * 2 ^ (8 * i) % 2 ^ 64 ≡ x * 2 ^ (8 * i) + 0 =
      omega (arith, byte_fits i x h small) in
    let low : acc ≡ 0 * 2 ^ (8 * i) + acc = omega arith in
    ap (λ (y : ℕ). bit_or acc y) fits
    ∙ ap (λ (y : ℕ). bit_or y (x * 2 ^ (8 * i) + 0)) low
    ∙ or_split (8 * i) 0 x acc 0 below (omega (arith, one-le-pow (8 * i) 2))
    ∙ rw (or-zero acc, zero-or x) (omega arith)

div-step : (v i : ℕ) → v / 2 ^ (8 * suc i) ≡ v / 2 ^ (8 * i) / 256
div-step v i =
    ap (λ (t : ℕ). v / t) (omega (arith, pow_next i)) ∙ sym (div-div-eq-div-mul v (2 ^ (8 * i)) 256)

byte_above : (acc x p : ℕ) → acc < p → x < 256 → acc + x * p < 256 * p
byte_above acc x p below small = grind arith

le_from-le_bytes :
    (n i v acc : ℕ)
    → i + n ≤ 8
    → acc < 2 ^ (8 * i)
    → le_from i (le_bytes i v n) acc ≡ acc + v / 2 ^ (8 * i) % 2 ^ (8 * n) * 2 ^ (8 * i)
unfolding le_from le_bytes
le_from-le_bytes zero i v acc fits below = rw (mod-one (v / 2 ^ (8 * i))) (omega arith)
le_from-le_bytes (suc n) i v acc fits below =
    let p : ℕ = 2 ^ (8 * i) in
    let x : ℕ = v / p % 256 in
    let stored = or_byte i x acc (omega arith) (omega arith) below in
    let nested : v / 2 ^ (8 * suc i) ≡ v / p / 256 = div-step v i in
    ap (λ (a : ℕ). le_from (suc i) (le_bytes (suc i) v n) a) stored
    ∙ (le_from-le_bytes n (suc i) v (acc + x * p) (omega arith)
          (omega (arith, pow_next i, byte_above acc x p below (omega arith)))
        ∙ rw nested (
            omega (
              arith,
              ap (λ (t : ℕ). t * p) (mod_next (v / p) n),
              ap (λ (t : ℕ). v / p / 256 % 2 ^ (8 * n) * t) (pow_next i),
            )))

-- The low bytes of a number are read back as its remainder.
pub le_to_u64-u64_to_le :
    (v width : ℕ) → width ≤ 8 → le_to_u64 (u64_to_le v width) ≡ v % 2 ^ (8 * width)
unfolding le_to_u64 u64_to_le
le_to_u64-u64_to_le v width h =
    le_from-le_bytes width 0 v 0 (omega arith) (omega arith) ∙ rw (div-one v) (omega arith)

le_bytes-length : (i v n : ℕ) → length (le_bytes i v n) ≡ n
unfolding le_bytes
le_bytes-length i v zero = refl
le_bytes-length i v (suc n) = ap suc (le_bytes-length (suc i) v n)

pub length-u64_to_le : (v width : ℕ) → length (u64_to_le v width) ≡ width
unfolding u64_to_le
length-u64_to_le v width = le_bytes-length 0 v width
