-- ===== src/Cpu/Exec/Shifts.antt =====
-- shiftGrp2 of internal/cpu/exec.go.
pub mod Rotate
use golinux.Base.{
  ℕ, ◌+◌, ◌-◌, ◌*◌, ◌/◌, ◌%◌, ◌^◌, bit_and, bit_or, Bool, true, false, not, ◌&&◌, ◌||◌, ltb, leb,
  ◌==◌, if◌then◌else◌, Option, none, some,
}
use golinux.Base.Word.{◌<<w◌, ◌>>w◌, signed, to_word}
use golinux.Cpu.Flags.{Shift, shl, shr, sar, rol, ror, shift_flags, mask_width, has_sign}
use golinux.Cpu.Run.{Failure, not_supported, Outcome, done, failed, Run, ◌>>=◌, ◌>>◌, return, fail}
use golinux.Cpu.Operand.{Engine, Operand, read_operand, write_operand, sign_extend, shift_right}
use golinux.Cpu.Exec.Alu.{change_flags}

pub record Shifted : Type 0 where
  pub result : ℕ
  pub carry : Bool

-- `v & 1 != 0`.
abbrev pub is_odd : ℕ → Bool
is_odd v = not (bit_and v 1 == 0)

-- The result and the carry of a shift of `a`, a value of `w` bytes, by `count`.
unfoldable pub shift_value : Shift → ℕ → ℕ → ℕ → Shifted
shift_value shl a w count =
    if leb count (w * 8)
    then (record {
      result = bit_and (a <<w count) (mask_width w);
      carry = is_odd (a >>w (w * 8 - count));
    })
    else (record { result = 0; carry = false })
shift_value shr a w count = record { result = a >>w count; carry = is_odd (a >>w (count - 1)) }
shift_value sar a w count = record {
  result = bit_and (to_word (shift_right (signed 64 (sign_extend a (w * 8))) count)) (mask_width w);
  carry = is_odd (a >>w (count - 1));
}
shift_value rol a w count =
    let n = w * 8 in
    let c = count % n in
    let result = bit_and (bit_or (a <<w c) (a >>w (n - c))) (mask_width w) in
    record { result = result; carry = is_odd result }
shift_value ror a w count =
    let n = w * 8 in
    let c = count % n in
    let result = bit_and (bit_or (a >>w c) (a <<w (n - c))) (mask_width w) in
    record { result = result; carry = has_sign result w }

unfoldable pub shift_op : ℕ → Option Shift
shift_op idx =
    if (idx == 4) || (idx == 6)
    then some shl
    else if idx == 5
    then some shr
    else if idx == 7
    then some sar
    else if idx == 0
    then some rol
    else if idx == 1
    then some ror
    else none

-- How far a shift goes: the count is cut to five bits, or to six for a 64-bit operand.
abbrev pub shift_count : ℕ → ℕ → ℕ
shift_count w raw_count = bit_and raw_count (if w == 8 then 0x3F else 0x1F)

abbrev pub shift_finish : Option Shift → Operand → ℕ → ℕ → ℕ → Run Engine (Unit {0})
shift_finish none rm w count a = fail not_supported
shift_finish (some op) rm w count a = do
  let r = shift_value op a w count
  change_flags (shift_flags op a r.result w count r.carry)
  write_operand rm w r.result

unfoldable pub shift_grp2 : ℕ → Operand → ℕ → ℕ → Run Engine (Unit {0})
shift_grp2 idx rm w raw_count = do
  let count = shift_count w raw_count
  a ← read_operand rm w
  if count == 0
      then return tt
      else shift_finish (shift_op idx) rm w count (bit_and a (mask_width w))
