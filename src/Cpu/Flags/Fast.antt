-- ===== src/Cpu/Flags/Fast.antt =====
-- The 32-bit fast paths against the general routines.
use golinux.Base.{
  ℕ, ◌+◌, ◌-◌, ◌/◌, ◌%◌, ◌^◌, ◌<◌, ◌≡◌, refl, ◌∙◌, sym, bit_and, bit_xor, Bool, true, false, not,
  ◌&&◌, xor, ltb, leb, ◌==◌, if◌then◌else◌, if_self, arith,
}
use golinux.Base.Bits.{bit, bit-xor, bit-and, bit_ext, bit_value, test_two_pow}
use golinux.Cpu.Flags.{
  Flag, Flagged, cf, af, of, position, has_sign, set_flag, flag, set_result_flags, result_flags32,
  nibble_carry, parity8, add_with_flags, add_with_flags_carry, add32_flags, inc32_flags,
  dec32_flags, inc_flags, dec_flags, sub_with_flags, sub_with_flags_borrow,
}
use golinux.Cpu.Flags.Laws.{flag-bit, bit-set_flag, dword, and-mask_width, has_sign_lem}
use golinux.Base.Word.{u8}
use golinux.Cpu.Flags.Sub.{sub_difference_lem, sub_borrow_lem}
use golinux.Cpu.Flags.Add.{add_sum_lem, add_carry_lem}
use native.Mathlib.Nat.{mod-eq_of_lt, mod-lt, add-zero}
use native.Mathlib.Decide.{ℕ_discrete}

-- The last write of a flag counts.
set_flag_self : (f : Flag) (x y : Bool) (r : ℕ) → set_flag f x (set_flag f y r) ≡ set_flag f x r
set_flag_self f x y r = bit_ext _ _ λ k. simp bit-set_flag (ground arith)

-- Writes of different flags commute.
set_flag_swap :
    (f g : Flag) (x y : Bool) (r : ℕ)
    → (position f == position g) ≡ false
    → set_flag f x (set_flag g y r) ≡ set_flag g y (set_flag f x r)
set_flag_swap f g x y r ne = bit_ext _ _ λ k. simp bit-set_flag (ground arith)

-- Writing back a flag that was not changed.
set_flag_same : (f : Flag) (r : ℕ) → set_flag f (flag f r) r ≡ r
set_flag_same f r = bit_ext _ _ λ k. simp (bit-set_flag, flag-bit) (at_bit k)
  where
    at_bit : (k : ℕ) → (if position f == k then bit r (position f) else bit r k) ≡ bit r k
    at_bit k = elim (ℕ_discrete (position f) k) [
      | yes e ↦ rw e (if_self (k == k) (bit r k))
      | no e ↦ ground arith
    ]

result_flags_at_dword : (v r : ℕ) → v < 2 ^ 32 → set_result_flags v 4 r ≡ result_flags32 v r
unfolding set_result_flags result_flags32 has_sign
result_flags_at_dword v r h = rw (and-mask_width dword v, mod-eq_of_lt h)

xor_two : (v w k : ℕ) → bit (bit_xor v w) k ≡ xor (bit v k) (bit w k)
xor_two v w k = bit-xor k v w

overflow32 :
    (a b v : ℕ)
    → not (bit_and (bit_and (bit_xor (bit_xor a b) 0xffffffff) (bit_xor a v)) 0x80000000 == 0)
      ≡ not (xor (has_sign a 4) (has_sign b 4)) && xor (has_sign v 4) (has_sign a 4)
unfolding has_sign xor
overflow32 a b v =
    rw
      (
        test_two_pow 31 (bit_and (bit_xor (bit_xor a b) 0xffffffff) (bit_xor a v)),
        bit-and 31 (bit_xor (bit_xor a b) 0xffffffff) (bit_xor a v),
        bit-xor 31 (bit_xor a b) 0xffffffff,
        bit-xor 31 a b,
        bit-xor 31 a v,
        bit_value 31 0xffffffff,
        test_two_pow 31 a,
        test_two_pow 31 b,
        test_two_pow 31 v,
      )
      (by_cases (bit a 31) (bit b 31) (bit v 31))
  where
    by_cases : (x y z : Bool) → xor (xor x y) true && xor x z ≡ not (xor x y) && xor z x
    by_cases true true true = refl
    by_cases true true false = refl
    by_cases true false true = refl
    by_cases true false false = refl
    by_cases false true true = refl
    by_cases false true false = refl
    by_cases false false true = refl
    by_cases false false false = refl

abbrev pack : ℕ → ℕ → Bool → Bool → Bool → Flagged
pack r v carry overflow nibble = record {
  result = v;
  rflags = result_flags32 v (set_flag af nibble (set_flag of overflow (set_flag cf carry r)));
}

abbrev add_overflow : ℕ → ℕ → ℕ → Bool
add_overflow a b v = not (xor (has_sign a 4) (has_sign b 4)) && xor (has_sign v 4) (has_sign a 4)

module _ (r a b : ℕ) (p : a < 2 ^ 32) (q : b < 2 ^ 32) where
  abbrev sum32 : ℕ
  sum32 = (a + b) % 2 ^ 32

  fast_form :
      add32_flags r a b
      ≡ pack r sum32 (leb (2 ^ 32) (a + b)) (add_overflow a b sum32) (nibble_carry a b sum32)
  unfolding add32_flags
  fast_form =
      let cut : (a + b) % 2 ^ 64 % 2 ^ 32 ≡ sum32 = omega arith in
      let carried : not ((a + b) % 2 ^ 64 / 2 ^ 32 == 0) ≡ leb (2 ^ 32) (a + b) = ground arith in
      rw (cut, carried, overflow32 a b sum32)

  general_form :
      add_with_flags r a b 4
      ≡ pack r sum32 (leb (2 ^ 32) (a + b)) (add_overflow a b sum32) (nibble_carry a b sum32)
  unfolding add_with_flags add_with_flags_carry
  general_form = rw (
    and-mask_width dword a,
    and-mask_width dword b,
    mod-eq_of_lt p,
    mod-eq_of_lt q,
    add_sum_lem dword a b 0 p q (omega arith),
    add_carry_lem dword a b 0 p q (omega arith),
    add-zero (a + b),
    result_flags_at_dword sum32 _ (mod-lt (a + b) (omega arith)),
  )

  -- On 32-bit operands, add32Flags gives the result and the flags of addWithFlags at width 4.
  pub add32_flags-eq-add_with_flags : add32_flags r a b ≡ add_with_flags r a b 4
  add32_flags-eq-add_with_flags = fast_form ∙ sym general_form

-- CF is written and then written back, so it may be left out.
without_carry :
    (r v : ℕ) (carry overflow nibble : Bool)
    → set_flag cf (flag cf r) (pack r v carry overflow nibble).rflags
      ≡ result_flags32 v (set_flag af nibble (set_flag of overflow r))
unfolding result_flags32
without_carry r v carry overflow nibble = bit_ext _ _ λ k. simp bit-set_flag (at_bit k)
  where
    others : ℕ → Bool → Bool
    others k below =
        if 2 == k
        then parity8 (u8 v)
        else if 7 == k
        then not (bit_and v 0x80000000 == 0)
        else if 6 == k
        then v == 0
        else if 4 == k
        then nibble
        else if 11 == k
        then overflow
        else below

    at_bit :
        (k : ℕ)
        → (if 0 == k then flag cf r else others k (if 0 == k then carry else bit r k))
          ≡ others k (bit r k)
    at_bit k = elim (ℕ_discrete 0 k) [
      | yes e ↦ rw (← e) (flag-bit cf r)
      | no e ↦ let ne : (0 == k) ≡ false = ground arith in rw ne refl
    ]

module _ (r a : ℕ) (p : a < 2 ^ 32) where
  inc_overflow : (a == 0x7fffffff) ≡ add_overflow a 1 ((a + 1) % 2 ^ 32)
  unfolding xor
  inc_overflow =
      rw
        (
          has_sign_lem dword a p,
          has_sign_lem dword 1 (omega arith),
          has_sign_lem dword _ (mod-lt (a + 1) (omega arith)),
        )
        (ground arith)

  -- On a 32-bit operand, inc32Flags gives the result and the flags of incFlags at width 4, which
  -- keeps CF.
  pub inc32_flags-eq-inc_flags : inc32_flags r a ≡ inc_flags r a 4
  unfolding inc32_flags inc_flags
  inc32_flags-eq-inc_flags = rw (general_form r a 1 p (omega arith), without_carry, inc_overflow)

  abbrev diff32 : ℕ
  diff32 = (a + 2 ^ 32 - 1) % 2 ^ 32

  abbrev sub_overflow : Bool
  sub_overflow = xor (has_sign a 4) (has_sign 1 4) && xor (has_sign diff32 4) (has_sign a 4)

  sub_form : sub_with_flags r a 1 4 ≡ pack r diff32 (ltb a 1) sub_overflow (nibble_carry a 1 diff32)
  unfolding sub_with_flags sub_with_flags_borrow
  sub_form =
      let no_borrow : a + 2 ^ 32 - 1 - 0 ≡ a + 2 ^ 32 - 1 = omega arith in
      rw (
        and-mask_width dword a,
        and-mask_width dword 1,
        mod-eq_of_lt p,
        sub_difference_lem dword a 1 0 p (omega arith) (omega arith),
        sub_borrow_lem dword a 1 0 p (omega arith) (omega arith),
        no_borrow,
        result_flags_at_dword diff32 _ (mod-lt (a + 2 ^ 32 - 1) (omega arith)),
      )

  dec_overflow : (a == 0x80000000) ≡ sub_overflow
  unfolding xor
  dec_overflow =
      rw
        (
          has_sign_lem dword a p,
          has_sign_lem dword 1 (omega arith),
          has_sign_lem dword _ (mod-lt (a + 2 ^ 32 - 1) (omega arith)),
        )
        (ground arith)

  -- On a 32-bit operand, dec32Flags gives the result and the flags of decFlags at width 4, which
  -- keeps CF.
  pub dec32_flags-eq-dec_flags : dec32_flags r a ≡ dec_flags r a 4
  unfolding dec32_flags dec_flags
  dec32_flags-eq-dec_flags = rw (sub_form, without_carry, dec_overflow)
