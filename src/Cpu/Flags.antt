-- ===== src/Cpu/Flags.antt =====
-- internal/cpu/flags.go, and evalCC of internal/cpu/decode.go. These methods read and write no
-- state but the word `rflags`, so each takes that word and returns the new one.
pub mod Laws
pub mod Add
pub mod Sub
pub mod Compare
pub mod Fast
mod Tests
use golinux.Base.{
  ℕ, zero, suc, ◌+◌, ◌-◌, ◌*◌, ◌/◌, ◌%◌, ◌^◌, bit_and, bit_or, bit_xor, Bool, true, false, not,
  ◌&&◌, ◌||◌, xor, ltb, leb, ◌==◌, if◌then◌else◌,
}
use golinux.Base.Bits.{bit_clear}
use golinux.Base.Word.{u8, u32, ◌+w◌, ◌-w◌, ◌<<w◌, ◌>>w◌, not_word}

-- The EFLAGS constants of registers.go.
pub data Flag : Type 0 where
  cf pf af zf sf df of : Flag

abbrev pub position : Flag → ℕ
position cf = 0
position pf = 2
position af = 4
position zf = 6
position sf = 7
position df = 10
position of = 11

abbrev pub mask_of : Flag → ℕ
mask_of f = 2 ^ position f

-- A mask that selects the low `width * 8` bits.
unfoldable pub mask_width : ℕ → ℕ
mask_width width = if leb 8 width then not_word 0 else 1 <<w (width * 8) -w 1

unfoldable pub sign_bit : ℕ → ℕ
sign_bit width = 1 <<w (width * 8 - 1)

-- bits.OnesCount8, over the `n` lowest bits.
unfoldable pub ones_count : ℕ → ℕ → ℕ
ones_count zero b = 0
ones_count (suc n) b = b % 2 + ones_count n (b / 2)

unfoldable pub parity8 : ℕ → Bool
unfolding ones_count
parity8 b = ones_count 8 b % 2 == 0

unfoldable pub set_flag : Flag → Bool → ℕ → ℕ
set_flag f on rflags = if on then bit_or rflags (mask_of f) else bit_clear rflags (mask_of f)

unfoldable pub flag : Flag → ℕ → Bool
flag f rflags = not (bit_and rflags (mask_of f) == 0)

-- A test of the sign bit of a value, `v & signBit(width) != 0`.
unfoldable pub has_sign : ℕ → ℕ → Bool
unfolding sign_bit
has_sign v width = not (bit_and v (sign_bit width) == 0)

unfoldable pub set_result_flags : ℕ → ℕ → ℕ → ℕ
set_result_flags result width rflags =
    let r = bit_and result (mask_width width) in
    set_flag pf (parity8 (u8 r)) (set_flag sf (has_sign r width) (set_flag zf (r == 0) rflags))

-- A result and the flags after it.
pub record Flagged : Type 0 where
  pub result : ℕ
  pub rflags : ℕ

-- `bits.Add64` twice at full width, and the carry out of the narrow sum otherwise.
unfoldable pub add_sum : ℕ → ℕ → ℕ → ℕ → ℕ
add_sum a b width cin =
    if leb 8 width then (a +w b) +w cin else bit_and ((a +w b) +w cin) (mask_width width)

unfoldable pub add_carry : ℕ → ℕ → ℕ → ℕ → Bool
add_carry a b width cin =
    if leb 8 width
    then leb (2 ^ 64) (a + b) || leb (2 ^ 64) ((a +w b) + cin)
    else ltb (mask_width width) ((a +w b) +w cin)

-- Whether bit 4 of `a ^ b ^ result` is set.
unfoldable pub nibble_carry : ℕ → ℕ → ℕ → Bool
nibble_carry a b result = not (bit_and (bit_xor (bit_xor a b) result) 0x10 == 0)

unfoldable pub add_with_flags_carry : ℕ → ℕ → ℕ → ℕ → ℕ → Flagged
add_with_flags_carry rflags a₀ b₀ width cin =
    let mask = mask_width width in
    let a = bit_and a₀ mask in
    let b = bit_and b₀ mask in
    let result = add_sum a b width cin in
    let sa = has_sign a width in
    let sb = has_sign b width in
    let sr = has_sign result width in
    let overflow = not (xor sa sb) && xor sr sa in
    record {
      result = result;
      rflags = set_result_flags result width (
          set_flag af (nibble_carry a b result)
            (set_flag of overflow (set_flag cf (add_carry a b width cin) rflags)));
    }

unfoldable pub add_with_flags : ℕ → ℕ → ℕ → ℕ → Flagged
add_with_flags rflags a b width = add_with_flags_carry rflags a b width 0

-- `bits.Sub64` twice at full width, and the borrow of the narrow difference otherwise.
unfoldable pub sub_difference : ℕ → ℕ → ℕ → ℕ → ℕ
sub_difference a b width bin =
    if leb 8 width then (a -w b) -w bin else bit_and ((a -w b) -w bin) (mask_width width)

unfoldable pub sub_borrow : ℕ → ℕ → ℕ → ℕ → Bool
sub_borrow a b width bin = if leb 8 width then ltb a b || ltb (a -w b) bin else ltb a (b +w bin)

unfoldable pub sub_with_flags_borrow : ℕ → ℕ → ℕ → ℕ → ℕ → Flagged
sub_with_flags_borrow rflags a₀ b₀ width bin =
    let mask = mask_width width in
    let a = bit_and a₀ mask in
    let b = bit_and b₀ mask in
    let result = sub_difference a b width bin in
    let sa = has_sign a width in
    let sb = has_sign b width in
    let sr = has_sign result width in
    let overflow = xor sa sb && xor sr sa in
    record {
      result = result;
      rflags = set_result_flags result width (
          set_flag af (nibble_carry a b result)
            (set_flag of overflow (set_flag cf (sub_borrow a b width bin) rflags)));
    }

unfoldable pub sub_with_flags : ℕ → ℕ → ℕ → ℕ → Flagged
sub_with_flags rflags a b width = sub_with_flags_borrow rflags a b width 0

unfoldable pub logic_flags : ℕ → ℕ → ℕ → ℕ
logic_flags result width rflags =
    set_result_flags result width (set_flag af false (set_flag of false (set_flag cf false rflags)))

-- ZF, SF and PF of a 32-bit result.
unfoldable pub result_flags32 : ℕ → ℕ → ℕ
result_flags32 result rflags =
    set_flag pf (parity8 (u8 result))
      (set_flag sf (not (bit_and result 0x80000000 == 0)) (set_flag zf (result == 0) rflags))

unfoldable pub add32_flags : ℕ → ℕ → ℕ → Flagged
add32_flags rflags a b =
    let sum = a +w b in
    let result = u32 sum in
    let signs = bit_and (bit_xor (bit_xor a b) 0xffffffff) (bit_xor a result) in
    record {
      result = result;
      rflags = result_flags32 result (
          set_flag af (nibble_carry a b result) (
            set_flag of (not (bit_and signs 0x80000000 == 0))
              (set_flag cf (not (sum >>w 32 == 0)) rflags)));
    }

unfoldable pub inc32_flags : ℕ → ℕ → Flagged
inc32_flags rflags a =
    let result = u32 (a + 1) in
    record {
      result = result;
      rflags =
          result_flags32 result
            (set_flag af (nibble_carry a 1 result) (set_flag of (a == 0x7fffffff) rflags));
    }

unfoldable pub dec32_flags : ℕ → ℕ → Flagged
dec32_flags rflags a =
    let result = u32 (a + 2 ^ 32 - 1) in
    record {
      result = result;
      rflags =
          result_flags32 result
            (set_flag af (nibble_carry a 1 result) (set_flag of (a == 0x80000000) rflags));
    }

unfoldable pub inc_flags : ℕ → ℕ → ℕ → Flagged
inc_flags rflags a width =
    let r = add_with_flags rflags a 1 width in
    record { result = r.result; rflags = set_flag cf (flag cf rflags) r.rflags }

unfoldable pub dec_flags : ℕ → ℕ → ℕ → Flagged
dec_flags rflags a width =
    let r = sub_with_flags rflags a 1 width in
    record { result = r.result; rflags = set_flag cf (flag cf rflags) r.rflags }

-- The operations that shiftFlags is called with, by name.
pub data Shift : Type 0 where
  shl shr sar rol ror : Shift

unfoldable pub shift_flags : Shift → ℕ → ℕ → ℕ → ℕ → Bool → ℕ → ℕ
shift_flags shl before result width count carry rflags =
    let r = set_flag cf carry rflags in
    set_result_flags result width
      (if count == 1 then set_flag of (xor (has_sign result width) carry) r else r)
shift_flags shr before result width count carry rflags =
    let r = set_flag cf carry rflags in
    set_result_flags result width (if count == 1 then set_flag of (has_sign before width) r else r)
shift_flags sar before result width count carry rflags =
    let r = set_flag cf carry rflags in
    set_result_flags result width (if count == 1 then set_flag of false r else r)
shift_flags rol before result width count carry rflags =
    let r = set_flag cf carry rflags in
    if count == 1 then set_flag of (xor (has_sign result width) carry) r else r
shift_flags ror before result width count carry rflags =
    let r = set_flag cf carry rflags in
    if count == 1 then set_flag of (xor (has_sign result width) carry) r else r

-- The condition of a Jcc, SETcc or CMOVcc by the low four bits of its opcode.
unfoldable pub eval_cc : ℕ → ℕ → Bool
eval_cc rflags code =
    let c = bit_and code 0xF in
    let carry = flag cf rflags in
    let zeroed = flag zf rflags in
    let sign = flag sf rflags in
    let overflow = flag of rflags in
    let parity = flag pf rflags in
    if c == 0x0
    then overflow
    else if c == 0x1
    then not overflow
    else if c == 0x2
    then carry
    else if c == 0x3
    then not carry
    else if c == 0x4
    then zeroed
    else if c == 0x5
    then not zeroed
    else if c == 0x6
    then carry || zeroed
    else if c == 0x7
    then not carry && not zeroed
    else if c == 0x8
    then sign
    else if c == 0x9
    then not sign
    else if c == 0xA
    then parity
    else if c == 0xB
    then not parity
    else if c == 0xC
    then xor sign overflow
    else if c == 0xD
    then not (xor sign overflow)
    else if c == 0xE
    then zeroed || xor sign overflow
    else if c == 0xF
    then not zeroed && not (xor sign overflow)
    else false
