-- ===== src/Cpu/Decode/Flow.antt =====
-- The opcodes of the stack, of control flow, of the accumulator, and of strings.
use golinux.Base.{ℕ, ◌-◌, true, false, not, ◌&&◌, ◌||◌, leb, ◌==◌, if◌then◌else◌, none, some}
use golinux.Base.Word.{to_word}
use golinux.Cpu.Run.{◌>>=◌}
use golinux.Cpu.ModRm.{cursor_i8, cursor_u16, cursor_i32}
use golinux.Cpu.Registers.{reg_rax}
use golinux.Cpu.Execute.{
  push_reg, pop_reg, push_imm, exchange, call_rel, jmp_rel, jcc, ret, nop, leave, ret_imm,
  extend_acc, sign_acc, set_direction, movs, cmps, stos, lods, scas,
}
use golinux.Cpu.Decode.Prefixes.{
  Prefix, finish, finish_branch, width, bit_set, opcode_reg, reg_operand, imm8_signed,
}
use golinux.Cpu.Decode.Data.{Decoder}

unfoldable pub stack_opcode : ℕ → Prefix → Decoder
stack_opcode op p =
    if leb 0x50 op && leb op 0x57
    then some (finish (push_reg (opcode_reg (op - 0x50) p)))
    else if leb 0x58 op && leb op 0x5F
    then some (finish (pop_reg (opcode_reg (op - 0x58) p)))
    else if op == 0x68
    then some (do v ← cursor_i32; finish (push_imm (to_word v)))
    else if op == 0x6A
    then some (do v ← imm8_signed; finish (push_imm v))
    else none

unfoldable pub branch_opcode : ℕ → Decoder
branch_opcode op =
    if op == 0xE8
    then some (do d ← cursor_i32; finish_branch (call_rel d))
    else if op == 0xE9
    then some (do d ← cursor_i32; finish_branch (jmp_rel d))
    else if op == 0xEB
    then some (do d ← cursor_i8; finish_branch (jmp_rel d))
    else if leb 0x70 op && leb op 0x7F
    then some (do d ← cursor_i8; finish_branch (jcc (op - 0x70) d))
    else if op == 0xC3
    then some (finish_branch ret)
    else if op == 0xC2
    then some (do n ← cursor_u16; finish_branch (ret_imm n))
    else if op == 0xC9
    then some (finish leave)
    else none

unfoldable pub accumulator_opcode : ℕ → Prefix → Decoder
accumulator_opcode op p =
    if op == 0x98
    then some (finish (extend_acc (width p false) p.rex_present))
    else if op == 0x99
    then some (finish (sign_acc (width p false)))
    else if (op == 0x90) && not (bit_set p.rex 1)
    then some (finish nop)
    else if leb 0x90 op && leb op 0x97
    then some (
        finish (
          exchange (reg_operand reg_rax p) (reg_operand (opcode_reg (op - 0x90) p) p)
            (width p false)))
    else if op == 0xFC
    then some (finish (set_direction false))
    else if op == 0xFD
    then some (finish (set_direction true))
    else none

unfoldable pub string_opcode : ℕ → Prefix → Decoder
string_opcode op p =
    if (op == 0xA4) || (op == 0xA5)
    then some (finish (movs (width p (op == 0xA4)) p.rep))
    else if (op == 0xAA) || (op == 0xAB)
    then some (finish (stos (width p (op == 0xAA)) p.rep p.rex_present))
    else if (op == 0xAC) || (op == 0xAD)
    then some (finish (lods (width p (op == 0xAC)) p.rep p.rex_present))
    else if (op == 0xA6) || (op == 0xA7)
    then some (finish (cmps (width p (op == 0xA6)) p.rep))
    else if (op == 0xAE) || (op == 0xAF)
    then some (finish (scas (width p (op == 0xAE)) p.rep p.rex_present))
    else none

abbrev pub or_else : Decoder → Decoder → Decoder
or_else none d = d
or_else (some d) other = some d

unfoldable pub flow_opcode : ℕ → Prefix → Decoder
flow_opcode op p =
    or_else (stack_opcode op p)
      (or_else (branch_opcode op) (or_else (accumulator_opcode op p) (string_opcode op p)))
