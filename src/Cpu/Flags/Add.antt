-- ===== src/Cpu/Flags/Add.antt =====
-- addWithFlagsCarry: the sum, and every flag as a statement about the operands.
use golinux.Base.{
  ℕ, ◌+◌, ◌-◌, ◌%◌, ◌^◌, ◌<◌, ◌≡◌, refl, ◌∙◌, Bool, not, leb, ◌==◌, arith, xor, ◌&&◌,
}
use golinux.Base.Int.{ℤ, pos, negsuc, ◌+ℤ◌, ltb_ℤ}
use golinux.Base.Word.{u8, signed}
use native.Mathlib.Nat.{mod-lt}
use golinux.Cpu.Flags.{
  Flag, cf, pf, af, zf, sf, df, of, flag, set_flag, set_result_flags, has_sign, parity8, add_sum,
  add_carry, nibble_carry, mask_width, add_with_flags_carry,
}
use golinux.Cpu.Flags.Laws.{
  Width, positive, byte, word, dword, qword, bytes_of, bits_of, flag-after_arith, sign_lem,
  and-mask_width, has_sign_lem, nibble_carry_lem,
}

-- Whether an integer has a two's complement form of `n` bits.
abbrev pub fits : ℕ → ℤ → Bool
fits n x = not (ltb_ℤ x (negsuc (2 ^ (n - 1) - 1))) && ltb_ℤ x (pos (2 ^ (n - 1)))

pub add_sum_lem :
    (w : Width) (a b cin : ℕ)
    → a < 2 ^ bits_of w
    → b < 2 ^ bits_of w
    → cin < 2
    → add_sum a b (bytes_of w) cin ≡ (a + b + cin) % 2 ^ bits_of w
unfolding add_sum
add_sum_lem byte a b cin p q c =
    omega (arith, and-mask_width byte (((a + b) % 2 ^ 64 + cin) % 2 ^ 64))
add_sum_lem word a b cin p q c =
    omega (arith, and-mask_width word (((a + b) % 2 ^ 64 + cin) % 2 ^ 64))
add_sum_lem dword a b cin p q c =
    omega (arith, and-mask_width dword (((a + b) % 2 ^ 64 + cin) % 2 ^ 64))
add_sum_lem qword a b cin p q c = omega arith

pub add_carry_lem :
    (w : Width) (a b cin : ℕ)
    → a < 2 ^ bits_of w
    → b < 2 ^ bits_of w
    → cin < 2
    → add_carry a b (bytes_of w) cin ≡ leb (2 ^ bits_of w) (a + b + cin)
unfolding add_carry mask_width
add_carry_lem byte a b cin p q c = ground arith
add_carry_lem word a b cin p q c = ground arith
add_carry_lem dword a b cin p q c = ground arith
add_carry_lem qword a b cin p q c = ground arith

overflow_lem :
    (w : Width) (a b cin : ℕ)
    → a < 2 ^ bits_of w
    → b < 2 ^ bits_of w
    → cin < 2
    → let v = (a + b + cin) % 2 ^ bits_of w in
      let s = λ (x : ℕ). leb (2 ^ (bits_of w - 1)) x in
      not (xor (s a) (s b)) && xor (s v) (s a)
      ≡ not (fits (bits_of w) (signed (bits_of w) a +ℤ signed (bits_of w) b +ℤ pos cin))
unfolding ◌+ℤ◌ xor
overflow_lem byte a b cin p q c = ground arith
overflow_lem word a b cin p q c = ground arith
overflow_lem dword a b cin p q c = ground arith
overflow_lem qword a b cin p q c = ground arith

nibble_lem :
    (w : Width) (a b cin : ℕ)
    → a < 2 ^ bits_of w
    → b < 2 ^ bits_of w
    → cin < 2
    → nibble_carry a b ((a + b + cin) % 2 ^ bits_of w) ≡ leb 16 (a % 16 + b % 16 + cin)
unfolding xor
nibble_lem byte a b cin p q c = rw nibble_carry_lem (ground arith)
nibble_lem word a b cin p q c = rw nibble_carry_lem (ground arith)
nibble_lem dword a b cin p q c = rw nibble_carry_lem (ground arith)
nibble_lem qword a b cin p q c = rw nibble_carry_lem (ground arith)

-- A flag after `a + b + cin`, from the operands as numbers and as two's complement integers.
abbrev pub after_add : Flag → Width → ℕ → ℕ → ℕ → Bool → Bool
after_add cf w a b cin old = leb (2 ^ bits_of w) (a + b + cin)
after_add pf w a b cin old = parity8 (u8 ((a + b + cin) % 2 ^ bits_of w))
after_add af w a b cin old = leb 16 (a % 16 + b % 16 + cin)
after_add zf w a b cin old = (a + b + cin) % 2 ^ bits_of w == 0
after_add sf w a b cin old = ltb_ℤ (signed (bits_of w) ((a + b + cin) % 2 ^ bits_of w)) (pos 0)
after_add df w a b cin old = old
after_add of w a b cin old =
    not (fits (bits_of w) (signed (bits_of w) a +ℤ signed (bits_of w) b +ℤ pos cin))

module _ (w : Width) (r a b cin : ℕ) (p : a < 2 ^ bits_of w) (q : b < 2 ^ bits_of w)
    (c : cin < 2) where
  abbrev sum : ℕ
  sum = (a + b + cin) % 2 ^ bits_of w

  -- The sign test of the code.
  abbrev negative : ℕ → Bool
  negative x = has_sign x (bytes_of w)

  abbrev code_overflow : Bool
  code_overflow = not (xor (negative a) (negative b)) && xor (negative sum) (negative a)

  sum-lt : sum < 2 ^ bits_of w
  sum-lt = mod-lt (a + b + cin) (positive w)

  code_overflow_lem :
      code_overflow
      ≡ not (fits (bits_of w) (signed (bits_of w) a +ℤ signed (bits_of w) b +ℤ pos cin))
  code_overflow_lem =
      rw (has_sign_lem w a p, has_sign_lem w b q, has_sign_lem w sum sum-lt)
        (overflow_lem w a b cin p q c)

  chain :
      (f : Flag)
      → flag f (
          set_result_flags sum (bytes_of w) (
            set_flag af
              (nibble_carry a b sum)
              (set_flag of code_overflow (set_flag cf (add_carry a b (bytes_of w) cin) r))))
        ≡ after_add f w a b cin (flag f r)
  chain cf = flag-after_arith cf w sum r _ _ _ sum-lt ∙ add_carry_lem w a b cin p q c
  chain pf = flag-after_arith pf w sum r _ _ _ sum-lt
  chain af = flag-after_arith af w sum r _ _ _ sum-lt ∙ nibble_lem w a b cin p q c
  chain zf = flag-after_arith zf w sum r _ _ _ sum-lt
  chain sf = flag-after_arith sf w sum r _ _ _ sum-lt ∙ sign_lem w sum sum-lt
  chain df = flag-after_arith df w sum r _ _ _ sum-lt
  chain of = flag-after_arith of w sum r _ _ _ sum-lt ∙ code_overflow_lem

module _ (w : Width) (r a b cin : ℕ) (c : cin < 2) where
  abbrev reduce : ℕ → ℕ
  reduce x = x % 2 ^ bits_of w

  reduce-lt : (x : ℕ) → reduce x < 2 ^ bits_of w
  reduce-lt x = mod-lt x (positive w)

  -- For a carry-in of 0 or 1 and any operand width, addWithFlagsCarry gives the sum of the
  -- operands cut to the width, cut to the width, and leaves each flag as after_add says: CF
  -- whether the sum reaches 2^n, OF whether the signed sum does not fit, ZF, SF, PF and AF by
  -- the result and the low nibbles, DF as it was.
  pub add_with_flags_carry_lem :
      ((add_with_flags_carry r a b (bytes_of w) cin).result ≡ reduce (reduce a + reduce b + cin))
      × ((f : Flag)
          → flag f (add_with_flags_carry r a b (bytes_of w) cin).rflags
            ≡ after_add f w (reduce a) (reduce b) cin (flag f r))
  unfolding add_with_flags_carry
  add_with_flags_carry_lem =
      rw
        (
          and-mask_width w a,
          and-mask_width w b,
          add_sum_lem w (reduce a) (reduce b) cin (reduce-lt a) (reduce-lt b) c,
        )
        (refl, chain w r (reduce a) (reduce b) cin (reduce-lt a) (reduce-lt b) c)
