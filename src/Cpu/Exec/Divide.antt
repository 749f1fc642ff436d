-- ===== src/Cpu/Exec/Divide.antt =====
-- MUL, IMUL, DIV and IDIV of internal/cpu/exec.go.
pub mod Laws
use golinux.Base.{
  ℕ, ◌+◌, ◌-◌, ◌*◌, ◌/◌, ◌%◌, ◌^◌, bit_and, bit_or, Bool, true, false, not, ◌&&◌, ltb, leb, ◌==◌,
  xor, if◌then◌else◌,
}
use golinux.Base.Int.{ℤ, pos, negsuc, pos_part, neg_part, sub_ℕ}
use golinux.Base.Word.{◌-w◌, ◌*w◌, ◌<<w◌, ◌>>w◌, signed, to_word}
use golinux.Cpu.Flags.{Flag, cf, of, set_flag, mask_width, has_sign}
use golinux.Cpu.Run.{
  Failure, division_by_zero, division_overflow, not_supported, panicked, Outcome, done, failed, Run,
  ◌>>=◌, ◌>>◌, return, fail,
}
use golinux.Cpu.Registers.{reg_rax, reg_rdx}
use golinux.Cpu.Operand.{
  Engine, Operand, reg, read_operand, write_operand, sign_extend, shift_right,
}
use golinux.Cpu.Exec.Alu.{change_flags, op_not, op_neg}

pub record Halves : Type 0 where
  pub hi : ℕ
  pub lo : ℕ

-- bits.Mul64.
abbrev pub mul64 : ℕ → ℕ → Halves
mul64 a b = record { hi = a * b / 2 ^ 64; lo = a * b % 2 ^ 64 }

unfoldable pub mul_unsigned : ℕ → ℕ → ℕ → Halves
mul_unsigned a₀ b₀ w =
    let mask = mask_width w in
    let a = bit_and a₀ mask in
    let b = bit_and b₀ mask in
    let full = a *w b in
    if w == 8
    then mul64 a b
    else (record { hi = bit_and (full >>w (w * 8)) mask; lo = bit_and full mask })

-- `v < 0` of an int64, kept as its bit pattern.
abbrev pub is_negative : ℕ → Bool
is_negative v = leb (2 ^ 63) v

unfoldable pub mul_signed : ℕ → ℕ → ℕ → Halves
mul_signed a b w =
    let sa = sign_extend a (w * 8) in
    let sb = sign_extend b (w * 8) in
    let wide = mul64 sa sb in
    let once = if is_negative sa then wide.hi -w sb else wide.hi in
    let twice = if is_negative sb then once -w sa else once in
    let full = sa *w sb in
    let mask = mask_width w in
    if w == 8 then (record { hi = twice; lo = wide.lo }) else (record {
      hi = bit_and (to_word (shift_right (signed 64 full) (w * 8))) mask;
      lo = bit_and full mask;
    })

unfoldable pub extend_sign_hi : ℕ → ℕ → ℕ
extend_sign_hi lo w = if is_negative (sign_extend lo (w * 8)) then mask_width w else 0

pub record Division : Type 0 where
  pub quotient : ℕ
  pub remainder : ℕ

-- A narrow division by zero would be a panic; `bits.Div64` is reached only with `dxHi < divisor`.
unfoldable pub div_unsigned : ℕ → ℕ → ℕ → ℕ → Outcome Division
div_unsigned dx₀ ax₀ d₀ w =
    let mask = mask_width w in
    let dx = bit_and dx₀ mask in
    let ax = bit_and ax₀ mask in
    let d = bit_and d₀ mask in
    let wide = dx * 2 ^ 64 + ax in
    let full = bit_or (dx <<w (w * 8)) ax in
    if w == 8
    then (if leb d dx
        then failed division_overflow
        else done (record { quotient = wide / d; remainder = wide % d }))
    else if d == 0
    then failed panicked
    else if ltb mask (full / d)
    then failed division_overflow
    else done (record { quotient = full / d; remainder = full % d })

-- Go's `/` and `%` on integers, which round towards zero.
abbrev pub magnitude : ℤ → ℕ
magnitude x = pos_part x + neg_part x

abbrev pub below_zero : ℤ → Bool
below_zero (pos n) = false
below_zero (negsuc n) = true

abbrev pub with_sign : Bool → ℕ → ℤ
with_sign negative n = if negative then sub_ℕ 0 n else pos n

unfoldable pub quotient : ℤ → ℤ → ℤ
quotient a b = with_sign (xor (below_zero a) (below_zero b)) (magnitude a / magnitude b)

unfoldable pub remainder : ℤ → ℤ → ℤ
remainder a b = with_sign (below_zero a) (magnitude a % magnitude b)

unfoldable pub div_signed : ℕ → ℕ → ℕ → ℕ → Outcome Division
div_signed dx ax d w =
    let mask = mask_width w in
    let wide = signed 64 ax in
    let raw = bit_or (bit_and dx mask <<w (w * 8)) (bit_and ax mask) in
    let dividend = signed 64 (sign_extend raw (w * 16)) in
    let divisor = signed 64 (sign_extend d (w * 8)) in
    if d == 0
    then failed division_by_zero
    else if w == 8
    then (if not (dx == 0) && not (dx == 2 ^ 64 - 1)
        then failed not_supported
        else done (record {
          quotient = to_word (quotient wide (signed 64 d));
          remainder = to_word (remainder wide (signed 64 d));
        }))
    else if magnitude divisor == 0
    then failed panicked
    else done (record {
      quotient = bit_and (to_word (quotient dividend divisor)) mask;
      remainder = bit_and (to_word (remainder dividend divisor)) mask;
    })

abbrev pub from_outcome : {A : Type 0} → Outcome A → Run Engine A
from_outcome r e = (r, e)

abbrev pub set_overflow : Bool → Run Engine (Unit {0})
set_overflow on = change_flags (λ r. set_flag of on (set_flag cf on r))

-- rAX and rDX as operands, without the high-byte registers.
abbrev pub op_rax : Operand
op_rax = reg reg_rax true

abbrev pub op_rdx : Operand
op_rdx = reg reg_rdx true

unfoldable pub op_mul : Operand → ℕ → Run Engine (Unit {0})
op_mul rm w = do
  a ← read_operand rm w
  ax ← read_operand op_rax w
  let product = mul_unsigned ax a w
  write_operand op_rax w product.lo
  write_operand op_rdx w product.hi
  set_overflow (not (product.hi == 0))

unfoldable pub op_imul : Operand → ℕ → Run Engine (Unit {0})
op_imul rm w = do
  a ← read_operand rm w
  ax ← read_operand op_rax w
  let product = mul_signed ax a w
  write_operand op_rax w product.lo
  write_operand op_rdx w product.hi
  set_overflow (not (product.hi == extend_sign_hi product.lo w))

-- DIV and IDIV, which differ in the division alone.
unfoldable pub divide : (ℕ → ℕ → ℕ → ℕ → Outcome Division) → Operand → ℕ → Run Engine (Unit {0})
divide division rm w = do
  d ← read_operand rm w
  (if d == 0 then fail division_by_zero else return tt)
  ax ← read_operand op_rax w
  dx ← read_operand op_rdx w
  result ← from_outcome (division dx ax d w)
  write_operand op_rax w result.quotient
  write_operand op_rdx w result.remainder

unfoldable pub grp3_op : ℕ → Operand → ℕ → Run Engine (Unit {0})
grp3_op idx rm w =
    if idx == 2
    then op_not rm w
    else if idx == 3
    then op_neg rm w
    else if idx == 4
    then op_mul rm w
    else if idx == 5
    then op_imul rm w
    else if idx == 6
    then divide div_unsigned rm w
    else if idx == 7
    then divide div_signed rm w
    else fail not_supported

unfoldable pub imul2 : Operand → ℕ → ℕ → ℕ → Run Engine (Unit {0})
imul2 dst a b w = do
  let product = mul_signed a b w
  set_overflow (not (product.hi == extend_sign_hi product.lo w))
  write_operand dst w product.lo
