-- ===== src/Cpu/Exec/Alu.antt =====
-- aluBinOp of internal/cpu/decode.go, and NOT and NEG of grp3Op in internal/cpu/exec.go.
use golinux.Base.{ℕ, bit_and, bit_or, bit_xor, not, ◌==◌, if◌then◌else◌, Option, none, some}
use golinux.Base.Word.{not_word}
use golinux.Cpu.Flags.{
  Flagged, cf, flag, set_flag, mask_width, logic_flags, add_with_flags, add_with_flags_carry,
  sub_with_flags, sub_with_flags_borrow,
}
use golinux.Cpu.Run.{not_supported, done, Run, ◌>>=◌, ◌>>◌, return, fail}
use golinux.Cpu.Operand.{Engine, Operand, read_operand, write_operand}

-- A change of the flags.
abbrev pub set_rflags : ℕ → Engine → Engine
set_rflags f e = record e { regs = record e.regs { rflags = f } }

-- An operation on the flags that has a result.
abbrev pub with_flags : (ℕ → Flagged) → Run Engine ℕ
with_flags f e = (done (f e.regs.rflags).result, set_rflags (f e.regs.rflags).rflags e)

abbrev pub change_flags : (ℕ → ℕ) → Run Engine (Unit {0})
change_flags f e = (done tt, set_rflags (f e.regs.rflags) e)

abbrev pub carry_in : ℕ → ℕ
carry_in rflags = if flag cf rflags then 1 else 0

abbrev pub logic : ℕ → ℕ → ℕ → Flagged
logic result width rflags = record { result = result; rflags = logic_flags result width rflags }

-- The eight operations by index.
unfoldable pub alu_op : ℕ → ℕ → ℕ → ℕ → Option (ℕ → Flagged)
alu_op idx a b width =
    if idx == 0
    then some (λ r. add_with_flags r a b width)
    else if idx == 1
    then some (λ r. logic (bit_or a b) width r)
    else if idx == 2
    then some (λ r. add_with_flags_carry r a b width (carry_in r))
    else if idx == 3
    then some (λ r. sub_with_flags_borrow r a b width (carry_in r))
    else if idx == 4
    then some (λ r. logic (bit_and a b) width r)
    else if idx == 5
    then some (λ r. sub_with_flags r a b width)
    else if idx == 6
    then some (λ r. logic (bit_xor a b) width r)
    else if idx == 7
    then some (λ r. sub_with_flags r a b width)
    else none

-- CMP, index 7, keeps no result.
abbrev pub alu_finish : Option (ℕ → Flagged) → ℕ → Operand → ℕ → Run Engine (Unit {0})
alu_finish none idx dst width = fail not_supported
alu_finish (some op) idx dst width = do
  result ← with_flags op
  if idx == 7 then return tt else write_operand dst width result

unfoldable pub alu_bin_op : ℕ → Operand → Operand → ℕ → Run Engine (Unit {0})
alu_bin_op idx dst src width = do
  a ← read_operand dst width
  b ← read_operand src width
  alu_finish (alu_op idx a b width) idx dst width

unfoldable pub op_not : Operand → ℕ → Run Engine (Unit {0})
op_not rm w = do a ← read_operand rm w; write_operand rm w (bit_and (not_word a) (mask_width w))

unfoldable pub op_neg : Operand → ℕ → Run Engine (Unit {0})
op_neg rm w = do
  a ← read_operand rm w
  result ← with_flags (λ r. sub_with_flags r 0 a w)
  change_flags (set_flag cf (not (a == 0)))
  write_operand rm w result
