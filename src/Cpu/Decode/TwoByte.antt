-- ===== src/Cpu/Decode/TwoByte.antt =====
-- decodeTwoByte of internal/cpu/twobyte.go: the opcodes after 0F that work on general registers.
use golinux.Base.{
  ℕ, ◌-◌, bit_and, Bool, true, false, ◌&&◌, ◌||◌, leb, ◌==◌, if◌then◌else◌, Option, none, some,
}
use golinux.Cpu.Run.{Run, ◌>>=◌, ◌>>◌, return}
use golinux.Cpu.ModRm.{Cursor, cursor_u8, cursor_i32, decode_modrm}
use golinux.Cpu.Exec.Strings.{RepKind, rep_none, rep_z, rep_nz}
use golinux.Cpu.Exec.Bits.{BitAction, test_only, set_bit, reset_bit, complement_bit}
use golinux.Cpu.Execute.{
  constant, from_cl, Instruction, nop, jcc, setcc, cmov, movzx, movsx, imul_operand, double,
  bit_test, bit_test_constant, compare_exchange, exchange_add, byte_swap, forward, reverse,
  population, syscall, cpuid,
}
use golinux.Cpu.Decode.Prefixes.{
  Prefix, Decoded, finish, finish_branch, width, rex_of, Operands, operands, opcode_reg,
  reg_operand, peek_is, skip, bit_set,
}
use golinux.Cpu.Decode.Data.{Decoder}

-- Hints and the reserved NOP space: the addressing bytes are read and nothing is done.
unfoldable pub decode_hint : Prefix → Run Cursor Decoded
decode_hint p = do mr ← decode_modrm (rex_of p); finish nop

abbrev pub is_endbr : ℕ → Bool
is_endbr b = (b == 0xFA) || (b == 0xFB)

abbrev pub after_endbr : Prefix → Option ℕ → Run Cursor Decoded
after_endbr p none = decode_hint p
after_endbr p (some b) = skip >> finish nop

-- ENDBR64, ENDBR32, or a NOP.
unfoldable pub decode_endbr : Prefix → Run Cursor Decoded
decode_endbr p = peek_is is_endbr >>= λ b. after_endbr p b

-- An instruction of the operands.
unfoldable pub decode_operands : Prefix → (Operands → Instruction) → Run Cursor Decoded
decode_operands p f = do o ← operands p; finish (f o)

unfoldable pub decode_double : ℕ → Prefix → Run Cursor Decoded
decode_double op p = do
  o ← operands p
  count ←
      (if (op == 0xA4) || (op == 0xAC)
        then (do v ← cursor_u8; return (constant v))
        else return (from_cl true))
  finish (double (leb op 0xA5) o.rm (reg_operand o.reg_field p) (width p false) count)

unfoldable pub bit_action : ℕ → BitAction
bit_action op =
    if op == 0xAB
    then set_bit
    else if op == 0xB3
    then reset_bit
    else if op == 0xBB
    then complement_bit
    else test_only

unfoldable pub bit_group : ℕ → BitAction
bit_group idx =
    if idx == 5
    then set_bit
    else if idx == 6
    then reset_bit
    else if idx == 7
    then complement_bit
    else test_only

unfoldable pub decode_bit_constant : Prefix → Run Cursor Decoded
decode_bit_constant p = do
  o ← operands p
  n ← cursor_u8
  finish (bit_test_constant (bit_group (bit_and o.reg_field 7)) o.rm n (width p false))

abbrev pub is_rep_z : RepKind → Bool
is_rep_z rep_none = false
is_rep_z rep_z = true
is_rep_z rep_nz = false

-- SYSCALL, CPUID, branches, hints and conditional moves.
unfoldable pub general_opcode : ℕ → Prefix → Decoder
general_opcode op p =
    let w = width p false in
    if (op == 0x0D) || ((op == 0x18) || ((leb 0x19 op && leb op 0x1D) || (op == 0x1F)))
    then some (decode_hint p)
    else if op == 0x05
    then some (finish syscall)
    else if op == 0xA2
    then some (finish cpuid)
    else if leb 0x80 op && leb op 0x8F
    then some (do d ← cursor_i32; finish_branch (jcc (op - 0x80) d))
    else if leb 0x90 op && leb op 0x9F
    then some (decode_operands p (λ o. setcc (op - 0x90) o.rm))
    else if leb 0x40 op && leb op 0x4F
    then some (decode_operands p (λ o. cmov (op - 0x40) (reg_operand o.reg_field p) o.rm w))
    else if (op == 0xB6) || (op == 0xB7)
    then some (
        decode_operands p
          (λ o. movzx (reg_operand o.reg_field p) o.rm (if op == 0xB7 then 2 else 1) w))
    else if (op == 0xBE) || (op == 0xBF)
    then some (
        decode_operands p
          (λ o. movsx (reg_operand o.reg_field p) o.rm (if op == 0xBF then 2 else 1) w))
    else if op == 0xAF
    then some (decode_operands p (λ o. imul_operand (reg_operand o.reg_field p) o.rm w))
    else if op == 0x1E
    then some (decode_endbr p)
    else none

-- Double shifts, bits, exchanges and counts.
unfoldable pub bits_opcode : ℕ → Prefix → Decoder
bits_opcode op p =
    let w = width p false in
    let byte_width = width p ((op == 0xB0) || (op == 0xC0)) in
    let f3 = is_rep_z p.rep in
    if (op == 0xA4) || ((op == 0xA5) || ((op == 0xAC) || (op == 0xAD)))
    then some (decode_double op p)
    else if (op == 0xA3) || ((op == 0xAB) || ((op == 0xB3) || (op == 0xBB)))
    then some (decode_operands p (λ o. bit_test (bit_action op) o.rm (reg_operand o.reg_field p) w))
    else if op == 0xBA
    then some (decode_bit_constant p)
    else if (op == 0xB0) || (op == 0xB1)
    then some
        (decode_operands p (λ o. compare_exchange o.rm (reg_operand o.reg_field p) byte_width))
    else if (op == 0xC0) || (op == 0xC1)
    then some (decode_operands p (λ o. exchange_add o.rm (reg_operand o.reg_field p) byte_width))
    else if leb 0xC8 op && leb op 0xCF
    then some (
        finish
          (byte_swap (reg_operand (opcode_reg (op - 0xC8) p) p) (if bit_set p.rex 8 then 8 else 4)))
    else if op == 0xBC
    then some (decode_operands p (λ o. forward (reg_operand o.reg_field p) o.rm w f3))
    else if op == 0xBD
    then some (decode_operands p (λ o. reverse (reg_operand o.reg_field p) o.rm w f3))
    else if (op == 0xB8) && f3
    then some (decode_operands p (λ o. population (reg_operand o.reg_field p) o.rm w))
    else none

-- The other opcodes are those of the vector registers, which `sse` decodes.
module _ (sse : ℕ → Prefix → Run Cursor Decoded) where
  unfoldable pub two_byte_opcode : ℕ → Prefix → Run Cursor Decoded
  two_byte_opcode op p = elim (general_opcode op p) [
    | some d ↦ d
    | none ↦ elim (bits_opcode op p) [ some d ↦ d | none ↦ sse op p ]
  ]

  unfoldable pub decode_two_byte : Prefix → Run Cursor Decoded
  decode_two_byte p = do op ← cursor_u8; two_byte_opcode op p
