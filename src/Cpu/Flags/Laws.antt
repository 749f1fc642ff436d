-- ===== src/Cpu/Flags/Laws.antt =====
-- The flag word as a set of flags, and the masks and sign tests of a width as arithmetic.
use golinux.Base.{
  ℕ, ◌-◌, ◌*◌, ◌/◌, ◌%◌, ◌^◌, ◌<◌, ◌≡◌, refl, ◌∙◌, bit_and, bit_xor, Bool, true, false, xor, leb,
  ◌==◌, if◌then◌else◌, arith,
}
use golinux.Base.Bits.{
  bit, bit-or, bit-xor, bit-clear, bit-two_pow, and_mask, bit_value, test_two_pow, bit_top,
}
use golinux.Cpu.Flags.{
  Flag, cf, pf, af, zf, sf, df, of, position, mask_of, mask_width, has_sign, set_flag, flag,
  set_result_flags, nibble_carry, parity8,
}
use golinux.Base.Word.{u8, signed}
use golinux.Base.Int.{pos, ltb_ℤ}
use native.Mathlib.Nat.{mod-eq_of_lt}

-- The operand sizes that the instructions have.
pub data Width : Type 0 where
  byte word dword qword : Width

abbrev pub bytes_of : Width → ℕ
bytes_of byte = 1
bytes_of word = 2
bytes_of dword = 4
bytes_of qword = 8

abbrev pub bits_of : Width → ℕ
bits_of w = bytes_of w * 8

pub positive : (w : Width) → 0 < 2 ^ bits_of w
positive byte = omega arith
positive word = omega arith
positive dword = omega arith
positive qword = omega arith

pub flag-bit : (f : Flag) (r : ℕ) → flag f r ≡ bit r (position f)
unfolding flag
flag-bit f r = test_two_pow (position f) r

pub bit-set_flag :
    (k : ℕ) (f : Flag) (on : Bool) (r : ℕ)
    → bit (set_flag f on r) k ≡ (if position f == k then on else bit r k)
unfolding set_flag
bit-set_flag k f true r = ground (arith, bit-or k r (mask_of f), bit-two_pow k (position f))
bit-set_flag k f false r = ground (arith, bit-clear k r (mask_of f), bit-two_pow k (position f))

-- After setFlag of a flag, that flag is as it was set and every other is as it was.
pub flag-set_flag :
    (f g : Flag) (on : Bool) (r : ℕ)
    → flag f (set_flag g on r) ≡ (if position g == position f then on else flag f r)
flag-set_flag f g on r =
    rw (flag-bit f (set_flag g on r), flag-bit f r) (bit-set_flag (position f) g on r)

pub and-mask_width : (w : Width) (a : ℕ) → bit_and a (mask_width (bytes_of w)) ≡ a % 2 ^ bits_of w
unfolding mask_width
and-mask_width byte a = and_mask 8 a
and-mask_width word a = and_mask 16 a
and-mask_width dword a = and_mask 32 a
and-mask_width qword a = and_mask 64 a

pub has_sign_lem :
    (w : Width) (a : ℕ) → a < 2 ^ bits_of w → has_sign a (bytes_of w) ≡ leb (2 ^ (bits_of w - 1)) a
unfolding has_sign
has_sign_lem byte a h = test_two_pow 7 a ∙ bit_top 7 a h
has_sign_lem word a h = test_two_pow 15 a ∙ bit_top 15 a h
has_sign_lem dword a h = test_two_pow 31 a ∙ bit_top 31 a h
has_sign_lem qword a h = test_two_pow 63 a ∙ bit_top 63 a h

pub sign_lem :
    (w : Width) (v : ℕ)
    → v < 2 ^ bits_of w
    → leb (2 ^ (bits_of w - 1)) v ≡ ltb_ℤ (signed (bits_of w) v) (pos 0)
sign_lem byte v h = ground arith
sign_lem word v h = ground arith
sign_lem dword v h = ground arith
sign_lem qword v h = ground arith

-- What a flag is after the result flags of a value `v` were set.
abbrev pub after_result : Flag → Width → ℕ → Bool → Bool
after_result zf w v old = v == 0
after_result sf w v old = leb (2 ^ (bits_of w - 1)) v
after_result pf w v old = parity8 (u8 v)
after_result f w v old = old

pub flag-set_result_flags :
    (f : Flag) (w : Width) (v r : ℕ)
    → v < 2 ^ bits_of w
    → flag f (set_result_flags v (bytes_of w) r) ≡ after_result f w v (flag f r)
unfolding set_result_flags
flag-set_result_flags f w v r h =
    rw (and-mask_width w v, mod-eq_of_lt h, has_sign_lem w v h) (at_flag f)
  where
    at_flag :
        (f : Flag)
        → flag f (
            set_flag pf
              (parity8 (u8 v))
              (set_flag sf (leb (2 ^ (bits_of w - 1)) v) (set_flag zf (v == 0) r)))
          ≡ after_result f w v (flag f r)
    at_flag cf = simp flag-set_flag
    at_flag _ = simp flag-set_flag

-- What a flag is after an arithmetic or logic instruction with the result `v`, which also gave
-- the carry, the overflow and the carry out of the low nibble.
abbrev pub after_arith : Flag → Width → ℕ → Bool → Bool → Bool → Bool → Bool
after_arith cf w v carry overflow nibble old = carry
after_arith of w v carry overflow nibble old = overflow
after_arith af w v carry overflow nibble old = nibble
after_arith f w v carry overflow nibble old = after_result f w v old

pub flag-after_arith :
    (f : Flag) (w : Width) (v r : ℕ) (carry overflow nibble : Bool)
    → v < 2 ^ bits_of w
    → flag f (
        set_result_flags v
          (bytes_of w)
          (set_flag af nibble (set_flag of overflow (set_flag cf carry r))))
      ≡ after_arith f w v carry overflow nibble (flag f r)
flag-after_arith cf w v r carry overflow nibble h =
    rw (flag-set_result_flags cf w v _ h) (simp flag-set_flag)
flag-after_arith af w v r carry overflow nibble h =
    rw (flag-set_result_flags af w v _ h) (simp flag-set_flag)
flag-after_arith of w v r carry overflow nibble h =
    rw (flag-set_result_flags of w v _ h) (simp flag-set_flag)
flag-after_arith df w v r carry overflow nibble h =
    rw (flag-set_result_flags df w v _ h) (simp flag-set_flag)
flag-after_arith f w v r carry overflow nibble h = rw (flag-set_result_flags f w v _ h)

pub nibble_carry_lem :
    (a b v : ℕ)
    → nibble_carry a b v ≡ xor (xor (a / 16 % 2 == 1) (b / 16 % 2 == 1)) (v / 16 % 2 == 1)
unfolding nibble_carry
nibble_carry_lem a b v =
    test_two_pow 4 (bit_xor (bit_xor a b) v)
    ∙ rw (bit-xor 4 (bit_xor a b) v, bit-xor 4 a b, bit_value 4 a, bit_value 4 b, bit_value 4 v)
        refl
