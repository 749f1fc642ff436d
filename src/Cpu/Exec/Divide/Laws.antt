-- ===== src/Cpu/Exec/Divide/Laws.antt =====
-- Unsigned multiplication and division are exact.
use golinux.Base.{
  ℕ, ◌+◌, ◌-◌, ◌*◌, ◌/◌, ◌%◌, ◌^◌, ◌≤◌, ◌<◌, ◌≡◌, refl, ap, ◌∙◌, false, ltb, leb, ◌==◌,
  if◌then◌else◌, bit_or, arith, Bool-cases, inl, inr,
}
use native.Mathlib.Nat.{
  mod-lt, mod-eq_of_lt, div-add-mod, one-le-pow, le-div_iff_mul-le, div-lt_iff_lt-mul,
}
use golinux.Base.Disjoint.{or_parts}
use golinux.Cpu.Flags.{mask_width}
use golinux.Cpu.Flags.Laws.{Width, byte, word, dword, qword, bytes_of, bits_of, and-mask_width}
use golinux.Cpu.Run.{division_overflow, panicked, Outcome, done, failed}
use golinux.Cpu.Exec.Divide.{mul_unsigned, Division, div_unsigned}

product-lt : (a b m : ℕ) → a < m → b < m → a * b < m * m
product-lt a b m p q = grind arith

quotient-lt : (x m : ℕ) → 0 < m → x < m * m → x / m < m
quotient-lt x m p q = grind (arith, div-add-mod x m)

-- At any operand width, the two halves that mulUnsigned gives are below 2^n, and the high one
-- times 2^n plus the low one is the product of the operands cut to the width.
pub mul_unsigned_lem :
    (w : Width) (a b : ℕ)
    → ((mul_unsigned a b (bytes_of w)).hi * 2 ^ bits_of w + (mul_unsigned a b (bytes_of w)).lo
        ≡ a % 2 ^ bits_of w * (b % 2 ^ bits_of w))
      × ((mul_unsigned a b (bytes_of w)).hi < 2 ^ bits_of w)
      × ((mul_unsigned a b (bytes_of w)).lo < 2 ^ bits_of w)
unfolding mul_unsigned
mul_unsigned_lem byte a b =
    let small = product-lt (a % 2 ^ 8) (b % 2 ^ 8) (2 ^ 8) (omega arith) (omega arith) in
    rw
      (
        and-mask_width byte a,
        and-mask_width byte b,
        and-mask_width byte (a % 2 ^ 8 * (b % 2 ^ 8) % 2 ^ 64 / 2 ^ 8),
        and-mask_width byte (a % 2 ^ 8 * (b % 2 ^ 8) % 2 ^ 64),
      )
      (omega (arith, small), omega (arith, small), omega arith)
mul_unsigned_lem word a b =
    let small = product-lt (a % 2 ^ 16) (b % 2 ^ 16) (2 ^ 16) (omega arith) (omega arith) in
    rw
      (
        and-mask_width word a,
        and-mask_width word b,
        and-mask_width word (a % 2 ^ 16 * (b % 2 ^ 16) % 2 ^ 64 / 2 ^ 16),
        and-mask_width word (a % 2 ^ 16 * (b % 2 ^ 16) % 2 ^ 64),
      )
      (omega (arith, small), omega (arith, small), omega arith)
mul_unsigned_lem dword a b =
    let small = product-lt (a % 2 ^ 32) (b % 2 ^ 32) (2 ^ 32) (omega arith) (omega arith) in
    rw
      (
        and-mask_width dword a,
        and-mask_width dword b,
        and-mask_width dword (a % 2 ^ 32 * (b % 2 ^ 32) % 2 ^ 64 / 2 ^ 32),
        and-mask_width dword (a % 2 ^ 32 * (b % 2 ^ 32) % 2 ^ 64),
      )
      (omega (arith, small), omega (arith, small), omega arith)
mul_unsigned_lem qword a b =
    let small = product-lt (a % 2 ^ 64) (b % 2 ^ 64) (2 ^ 64) (omega arith) (omega arith) in
    rw (and-mask_width qword a, and-mask_width qword b)
      (omega (arith, small), omega (arith, small), omega arith)

-- What a division of `x` by `d` gives on `n` bits: quotient and remainder, or an overflow.
abbrev pub Divided : ℕ → ℕ → ℕ → Outcome Division → Type 0
Divided n x d (done r) =
    (r.quotient * d + r.remainder ≡ x) × (r.remainder < d) × (r.quotient < 2 ^ n)
Divided n x d (failed f) = (f ≡ division_overflow) × (2 ^ n ≤ x / d)

exact :
    (n x d : ℕ)
    → 0 < d
    → x / d < 2 ^ n
    → Divided n x d (done (record { quotient = x / d; remainder = x % d }))
exact n x d p q = (grind (arith, div-add-mod x d), mod-lt x p, q)

narrow :
    (n x d : ℕ)
    → 0 < d
    → Divided n x d (
        if d == 0
        then failed panicked
        else if ltb (2 ^ n - 1) (x / d)
        then failed division_overflow
        else done (record { quotient = x / d; remainder = x % d }))
narrow n x d p =
    let nonzero : (d == 0) ≡ false = ground arith in
    rw nonzero (elim (Bool-cases (ltb (2 ^ n - 1) (x / d))) [
      | inl e ↦ rw e (refl, ground (arith, e))
      | inr e ↦ rw e (exact n x d p (ground (arith, e, one-le-pow n 2)))
    ])

wide-lt : (x a d m : ℕ) → a < m → x < d → x * m + a < m * d
wide-lt x a d m p q = grind arith

wide-le : (x a d m : ℕ) → d ≤ x → m * d ≤ x * m + a
wide-le x a d m p = grind arith

wide :
    (n x a d : ℕ)
    → 0 < d
    → a < 2 ^ n
    → Divided n (x * 2 ^ n + a) d (
        if leb d x
        then failed division_overflow
        else done (record { quotient = (x * 2 ^ n + a) / d; remainder = (x * 2 ^ n + a) % d }))
wide n x a d p q = elim (Bool-cases (leb d x)) [
  | inl e ↦ rw e (refl, (le-div_iff_mul-le p).1 (wide-le x a d (2 ^ n) (ground (arith, e))))
  | inr e ↦ rw e (
      exact n (x * 2 ^ n + a) d p
        ((div-lt_iff_lt-mul p).1 (wide-lt x a d (2 ^ n) q (ground (arith, e)))))
]

joined :
    (n x a : ℕ)
    → x < 2 ^ n
    → a < 2 ^ n
    → x * 2 ^ n < 2 ^ 64
    → bit_or (x * 2 ^ n % 2 ^ 64) a ≡ x * 2 ^ n + a
joined n x a p q r = ap (λ (y : ℕ). bit_or y a) (mod-eq_of_lt r) ∙ or_parts n x a q

-- At any operand width, where the divisor cut to the width is not 0, divUnsigned of dx:ax gives
-- the quotient and the remainder of the double-width dividend, with the quotient below 2^n and
-- the remainder below the divisor, or reports an overflow when the quotient does not fit; it
-- does not panic.
pub div_unsigned_lem :
    (w : Width) (dx ax d : ℕ)
    → 0 < d % 2 ^ bits_of w
    → Divided
        (bits_of w)
        (dx % 2 ^ bits_of w * 2 ^ bits_of w + ax % 2 ^ bits_of w)
        (d % 2 ^ bits_of w)
        (div_unsigned dx ax d (bytes_of w))
unfolding div_unsigned mask_width
div_unsigned_lem byte dx ax d p =
    rw
      (
        and-mask_width byte dx,
        and-mask_width byte ax,
        and-mask_width byte d,
        joined 8 (dx % 2 ^ 8) (ax % 2 ^ 8) (omega arith) (omega arith) (omega arith),
      )
      (narrow 8 (dx % 2 ^ 8 * 2 ^ 8 + ax % 2 ^ 8) (d % 2 ^ 8) p)
div_unsigned_lem word dx ax d p =
    rw
      (
        and-mask_width word dx,
        and-mask_width word ax,
        and-mask_width word d,
        joined 16 (dx % 2 ^ 16) (ax % 2 ^ 16) (omega arith) (omega arith) (omega arith),
      )
      (narrow 16 (dx % 2 ^ 16 * 2 ^ 16 + ax % 2 ^ 16) (d % 2 ^ 16) p)
div_unsigned_lem dword dx ax d p =
    rw
      (
        and-mask_width dword dx,
        and-mask_width dword ax,
        and-mask_width dword d,
        joined 32 (dx % 2 ^ 32) (ax % 2 ^ 32) (omega arith) (omega arith) (omega arith),
      )
      (narrow 32 (dx % 2 ^ 32 * 2 ^ 32 + ax % 2 ^ 32) (d % 2 ^ 32) p)
div_unsigned_lem qword dx ax d p =
    rw (and-mask_width qword dx, and-mask_width qword ax, and-mask_width qword d)
      (wide 64 (dx % 2 ^ 64) (ax % 2 ^ 64) (d % 2 ^ 64) p (omega arith))
