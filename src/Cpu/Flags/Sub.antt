-- ===== src/Cpu/Flags/Sub.antt =====
-- subWithFlagsBorrow: the difference, and every flag as a statement about the operands.
use golinux.Base.{
  ℕ, ◌+◌, ◌-◌, ◌%◌, ◌^◌, ◌<◌, ◌≡◌, refl, ◌∙◌, Bool, not, ltb, leb, ◌==◌, arith, xor, ◌&&◌,
}
use golinux.Cpu.Flags.Add.{fits}
use golinux.Base.Int.{pos, ◌-ℤ◌, ltb_ℤ}
use golinux.Base.Word.{u8, signed}
use native.Mathlib.Nat.{mod-lt}
use golinux.Cpu.Flags.{
  Flag, cf, pf, af, zf, sf, df, of, flag, set_flag, set_result_flags, has_sign, parity8,
  sub_difference, sub_borrow, nibble_carry, mask_width, sub_with_flags_borrow,
}
use golinux.Cpu.Flags.Laws.{
  Width, positive, byte, word, dword, qword, bytes_of, bits_of, flag-after_arith, sign_lem,
  and-mask_width, has_sign_lem, nibble_carry_lem,
}

pub sub_difference_lem :
    (w : Width) (a b bin : ℕ)
    → a < 2 ^ bits_of w
    → b < 2 ^ bits_of w
    → bin < 2
    → sub_difference a b (bytes_of w) bin ≡ (a + 2 ^ bits_of w - b - bin) % 2 ^ bits_of w
unfolding sub_difference
sub_difference_lem byte a b bin p q c =
    omega (arith, and-mask_width byte (((a + 2 ^ 64 - b) % 2 ^ 64 + 2 ^ 64 - bin) % 2 ^ 64))
sub_difference_lem word a b bin p q c =
    omega (arith, and-mask_width word (((a + 2 ^ 64 - b) % 2 ^ 64 + 2 ^ 64 - bin) % 2 ^ 64))
sub_difference_lem dword a b bin p q c =
    omega (arith, and-mask_width dword (((a + 2 ^ 64 - b) % 2 ^ 64 + 2 ^ 64 - bin) % 2 ^ 64))
sub_difference_lem qword a b bin p q c = omega arith

pub sub_borrow_lem :
    (w : Width) (a b bin : ℕ)
    → a < 2 ^ bits_of w
    → b < 2 ^ bits_of w
    → bin < 2
    → sub_borrow a b (bytes_of w) bin ≡ ltb a (b + bin)
unfolding sub_borrow mask_width
sub_borrow_lem byte a b bin p q c = ground arith
sub_borrow_lem word a b bin p q c = ground arith
sub_borrow_lem dword a b bin p q c = ground arith
sub_borrow_lem qword a b bin p q c = ground arith

overflow_lem :
    (w : Width) (a b bin : ℕ)
    → a < 2 ^ bits_of w
    → b < 2 ^ bits_of w
    → bin < 2
    → let v = (a + 2 ^ bits_of w - b - bin) % 2 ^ bits_of w in
      let s = λ (x : ℕ). leb (2 ^ (bits_of w - 1)) x in
      xor (s a) (s b) && xor (s v) (s a)
      ≡ not (fits (bits_of w) (signed (bits_of w) a -ℤ signed (bits_of w) b -ℤ pos bin))
unfolding ◌-ℤ◌ xor
overflow_lem byte a b bin p q c = ground arith
overflow_lem word a b bin p q c = ground arith
overflow_lem dword a b bin p q c = ground arith
overflow_lem qword a b bin p q c = ground arith

nibble_lem :
    (w : Width) (a b bin : ℕ)
    → a < 2 ^ bits_of w
    → b < 2 ^ bits_of w
    → bin < 2
    → nibble_carry a b ((a + 2 ^ bits_of w - b - bin) % 2 ^ bits_of w) ≡ ltb (a % 16) (b % 16 + bin)
unfolding xor
nibble_lem byte a b bin p q c = rw nibble_carry_lem (ground arith)
nibble_lem word a b bin p q c = rw nibble_carry_lem (ground arith)
nibble_lem dword a b bin p q c = rw nibble_carry_lem (ground arith)
nibble_lem qword a b bin p q c = rw nibble_carry_lem (ground arith)

-- A flag after `a - b - bin`, from the operands as numbers and as two's complement integers.
abbrev pub after_sub : Flag → Width → ℕ → ℕ → ℕ → Bool → Bool
after_sub cf w a b bin old = ltb a (b + bin)
after_sub pf w a b bin old = parity8 (u8 ((a + 2 ^ bits_of w - b - bin) % 2 ^ bits_of w))
after_sub af w a b bin old = ltb (a % 16) (b % 16 + bin)
after_sub zf w a b bin old = (a + 2 ^ bits_of w - b - bin) % 2 ^ bits_of w == 0
after_sub sf w a b bin old =
    ltb_ℤ (signed (bits_of w) ((a + 2 ^ bits_of w - b - bin) % 2 ^ bits_of w)) (pos 0)
after_sub df w a b bin old = old
after_sub of w a b bin old =
    not (fits (bits_of w) (signed (bits_of w) a -ℤ signed (bits_of w) b -ℤ pos bin))

module _ (w : Width) (r a b bin : ℕ) (p : a < 2 ^ bits_of w) (q : b < 2 ^ bits_of w)
    (c : bin < 2) where
  abbrev diff : ℕ
  diff = (a + 2 ^ bits_of w - b - bin) % 2 ^ bits_of w

  -- The sign test of the code.
  abbrev negative : ℕ → Bool
  negative x = has_sign x (bytes_of w)

  abbrev code_overflow : Bool
  code_overflow = xor (negative a) (negative b) && xor (negative diff) (negative a)

  diff-lt : diff < 2 ^ bits_of w
  diff-lt = mod-lt (a + 2 ^ bits_of w - b - bin) (positive w)

  code_overflow_lem :
      code_overflow
      ≡ not (fits (bits_of w) (signed (bits_of w) a -ℤ signed (bits_of w) b -ℤ pos bin))
  code_overflow_lem =
      rw (has_sign_lem w a p, has_sign_lem w b q, has_sign_lem w diff diff-lt)
        (overflow_lem w a b bin p q c)

  chain :
      (f : Flag)
      → flag f (
          set_result_flags diff (bytes_of w) (
            set_flag af
              (nibble_carry a b diff)
              (set_flag of code_overflow (set_flag cf (sub_borrow a b (bytes_of w) bin) r))))
        ≡ after_sub f w a b bin (flag f r)
  chain cf = flag-after_arith cf w diff r _ _ _ diff-lt ∙ sub_borrow_lem w a b bin p q c
  chain pf = flag-after_arith pf w diff r _ _ _ diff-lt
  chain af = flag-after_arith af w diff r _ _ _ diff-lt ∙ nibble_lem w a b bin p q c
  chain zf = flag-after_arith zf w diff r _ _ _ diff-lt
  chain sf = flag-after_arith sf w diff r _ _ _ diff-lt ∙ sign_lem w diff diff-lt
  chain df = flag-after_arith df w diff r _ _ _ diff-lt
  chain of = flag-after_arith of w diff r _ _ _ diff-lt ∙ code_overflow_lem

module _ (w : Width) (r a b bin : ℕ) (c : bin < 2) where
  abbrev reduce : ℕ → ℕ
  reduce x = x % 2 ^ bits_of w

  reduce-lt : (x : ℕ) → reduce x < 2 ^ bits_of w
  reduce-lt x = mod-lt x (positive w)

  -- For a borrow-in of 0 or 1 and any operand width, subWithFlagsBorrow gives the difference of
  -- the operands cut to the width, modulo 2^n, and leaves each flag as after_sub says: CF
  -- whether the subtraction borrows, OF whether the signed difference does not fit, ZF, SF, PF
  -- and AF by the result and the low nibbles, DF as it was.
  pub sub_with_flags_borrow_lem :
      ((sub_with_flags_borrow r a b (bytes_of w) bin).result
        ≡ reduce (reduce a + 2 ^ bits_of w - reduce b - bin))
      × ((f : Flag)
          → flag f (sub_with_flags_borrow r a b (bytes_of w) bin).rflags
            ≡ after_sub f w (reduce a) (reduce b) bin (flag f r))
  unfolding sub_with_flags_borrow
  sub_with_flags_borrow_lem =
      rw
        (
          and-mask_width w a,
          and-mask_width w b,
          sub_difference_lem w (reduce a) (reduce b) bin (reduce-lt a) (reduce-lt b) c,
        )
        (refl, chain w r (reduce a) (reduce b) bin (reduce-lt a) (reduce-lt b) c)
