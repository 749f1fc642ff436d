-- ===== src/Cpu/Flags/Compare.antt =====
-- CMP followed by a condition: subWithFlags and evalCC together.
use golinux.Base.{
  ℕ, ◌%◌, ◌^◌, ◌<◌, ◌≡◌, refl, ◌∙◌, false, not, ◌||◌, ◌&&◌, xor, ltb, leb, ◌==◌, arith,
}
use golinux.Base.Int.{ℤ, ◌-ℤ◌, ltb_ℤ}
use golinux.Base.Word.{signed}
use native.Mathlib.Nat.{mod-lt}
use golinux.Cpu.Flags.{Flag, cf, zf, sf, of, flag, eval_cc, sub_with_flags}
use golinux.Cpu.Flags.Laws.{Width, byte, word, dword, qword, bytes_of, bits_of, positive}
use golinux.Cpu.Flags.Sub.{after_sub, sub_with_flags_borrow_lem}

zero_means_same :
    (w : Width) (a b : ℕ)
    → a < 2 ^ bits_of w
    → b < 2 ^ bits_of w
    → after_sub zf w a b 0 false ≡ (a == b)
zero_means_same byte a b p q = ground arith
zero_means_same word a b p q = ground arith
zero_means_same dword a b p q = ground arith
zero_means_same qword a b p q = ground arith

-- The sign of the difference differs from its overflow exactly when the first is the smaller.
less_lem :
    (w : Width) (a b : ℕ)
    → a < 2 ^ bits_of w
    → b < 2 ^ bits_of w
    → xor (after_sub sf w a b 0 false) (after_sub of w a b 0 false)
      ≡ ltb_ℤ (signed (bits_of w) a) (signed (bits_of w) b)
unfolding xor ◌-ℤ◌
less_lem byte a b p q = ground arith
less_lem word a b p q = ground arith
less_lem dword a b p q = ground arith
less_lem qword a b p q = ground arith

not_same_less :
    (w : Width) (a b : ℕ)
    → a < 2 ^ bits_of w
    → b < 2 ^ bits_of w
    → ((a == b) || ltb_ℤ (signed (bits_of w) a) (signed (bits_of w) b))
      ≡ not (ltb_ℤ (signed (bits_of w) b) (signed (bits_of w) a))
not_same_less byte a b p q = ground arith
not_same_less word a b p q = ground arith
not_same_less dword a b p q = ground arith
not_same_less qword a b p q = ground arith

neither :
    (w : Width) (a b : ℕ)
    → a < 2 ^ bits_of w
    → b < 2 ^ bits_of w
    → (not (a == b) && not (ltb_ℤ (signed (bits_of w) a) (signed (bits_of w) b)))
      ≡ ltb_ℤ (signed (bits_of w) b) (signed (bits_of w) a)
neither byte a b p q = ground arith
neither word a b p q = ground arith
neither dword a b p q = ground arith
neither qword a b p q = ground arith

module _ (w : Width) (r a₀ b₀ : ℕ) where
  abbrev after : ℕ
  after = (sub_with_flags r a₀ b₀ (bytes_of w)).rflags

  abbrev a : ℕ
  a = a₀ % 2 ^ bits_of w

  abbrev b : ℕ
  b = b₀ % 2 ^ bits_of w

  a-lt : a < 2 ^ bits_of w
  a-lt = mod-lt a₀ (positive w)

  b-lt : b < 2 ^ bits_of w
  b-lt = mod-lt b₀ (positive w)

  flag-after : (f : Flag) → flag f after ≡ after_sub f w a b 0 (flag f r)
  unfolding sub_with_flags
  flag-after = (sub_with_flags_borrow_lem w r a₀ b₀ 0 (omega arith)).1

  carry_lem : flag cf after ≡ ltb a b
  carry_lem = flag-after cf ∙ ground arith

  zero_lem : flag zf after ≡ (a == b)
  zero_lem = flag-after zf ∙ zero_means_same w a b a-lt b-lt

  abbrev sa : ℤ
  sa = signed (bits_of w) a

  abbrev sb : ℤ
  sb = signed (bits_of w) b

  sign_lem : xor (flag sf after) (flag of after) ≡ ltb_ℤ sa sb
  sign_lem = rw (flag-after sf, flag-after of) (less_lem w a b a-lt b-lt)

  -- After a comparison by subWithFlags at any operand width, condition codes B, AE, E, NE, BE
  -- and A hold exactly when the operands, cut to the width, compare so as unsigned numbers.
  pub unsigned_conditions :
      (eval_cc after 0x2 ≡ ltb a b)
      × (eval_cc after 0x3 ≡ leb b a)
      × (eval_cc after 0x4 ≡ (a == b))
      × (eval_cc after 0x5 ≡ not (a == b))
      × (eval_cc after 0x6 ≡ leb a b)
      × (eval_cc after 0x7 ≡ ltb b a)
  unfolding eval_cc
  unsigned_conditions = (
    carry_lem,
    rw carry_lem (ground arith),
    zero_lem,
    rw zero_lem refl,
    rw (carry_lem, zero_lem) (ground arith),
    rw (carry_lem, zero_lem) (ground arith),
  )

  -- After a comparison by subWithFlags at any operand width, condition codes L, GE, LE and G
  -- hold exactly when the first operand is less, not less, not greater and greater than the
  -- second as two's complement integers of that width.
  pub signed_conditions :
      (eval_cc after 0xC ≡ ltb_ℤ sa sb)
      × (eval_cc after 0xD ≡ not (ltb_ℤ sa sb))
      × (eval_cc after 0xE ≡ not (ltb_ℤ sb sa))
      × (eval_cc after 0xF ≡ ltb_ℤ sb sa)
  unfolding eval_cc
  signed_conditions = (
    sign_lem,
    rw sign_lem refl,
    rw (sign_lem, zero_lem) (not_same_less w a b a-lt b-lt),
    rw (sign_lem, zero_lem) (neither w a b a-lt b-lt),
  )
