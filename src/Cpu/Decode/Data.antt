-- ===== src/Cpu/Decode/Data.antt =====
-- The opcodes of arithmetic, tests, moves, multiplications and shifts.
pub mod Fast
use golinux.Base.{
  ℕ, ◌+◌, ◌-◌, ◌/◌, bit_and, Bool, true, false, not, ◌&&◌, ◌||◌, ltb, leb, ◌==◌, if◌then◌else◌,
  Option, none, some,
}
use golinux.Base.Word.{u32}
use golinux.Cpu.Flags.{mask_width}
use golinux.Cpu.Run.{Failure, not_supported, Outcome, done, failed, Run, ◌>>=◌, return, fail}
use golinux.Cpu.Operand.{Engine, Operand, reg, mem, imm}
use golinux.Cpu.ModRm.{Cursor, cursor_u8, cursor_u16, cursor_u32, cursor_u64, ModRm, decode_modrm}
use golinux.Cpu.Registers.{reg_rax}
use golinux.Cpu.Execute.{
  Count, constant, from_cl, Instruction, alu, add32, test, move, lea, exchange, movsxd, imul,
  group3, inc32, dec32, inc, dec, call_operand, jmp_operand, push_operand, shift,
}
use golinux.Cpu.Decode.Prefixes.{
  Prefix, Decoded, finish, finish_branch, width, rex_of, Operands, operands, opcode_reg,
  reg_operand, imm8_signed, imm_signed, imm_masked,
}

-- An opcode that a group decodes, or none.
abbrev pub Decoder : Type 0
Decoder = Option (Run Cursor Decoded)

-- An addition to a 32-bit register has an instruction of its own.
unfoldable pub alu_imm : ℕ → Operand → ℕ → ℕ → Instruction
alu_imm idx (reg i rex) v w =
    if (idx == 0) && (w == 4) then add32 i v else alu idx (reg i rex) (imm v) w
alu_imm idx (mem a seg) v w = alu idx (mem a seg) (imm v) w
alu_imm idx (imm u) v w = alu idx (imm u) (imm v) w

-- Eb,Gb and Ev,Gv; Gb,Eb and Gv,Ev; AL,ib; eAX,iz.
unfoldable pub decode_alu : ℕ → Prefix → Run Cursor Decoded
decode_alu op p =
    let idx = op / 8 in
    let form = bit_and op 7 in
    if ltb form 2
    then (do
      o ← operands p
      finish (alu idx o.rm (reg_operand o.reg_field p) (width p (form == 0))))
    else if ltb form 4
    then (do
      o ← operands p
      finish (alu idx (reg_operand o.reg_field p) o.rm (width p (form == 2))))
    else if form == 4
    then (do v ← cursor_u8; finish (alu idx (reg_operand reg_rax p) (imm v) 1))
    else (do
      v ← imm_signed (width p false)
      finish (alu_imm idx (reg_operand reg_rax p) v (width p false)))

unfoldable pub decode_group1 : ℕ → Prefix → Run Cursor Decoded
decode_group1 op p = do
  o ← operands p
  v ← (if op == 0x81 then imm_signed (width p false) else imm8_signed)
  finish (alu_imm (bit_and o.reg_field 7) o.rm v (width p (op == 0x80)))

unfoldable pub decode_test : ℕ → Prefix → Run Cursor Decoded
decode_test op p = do
  o ← operands p
  finish (test o.rm (reg_operand o.reg_field p) (width p (op == 0x84)))

unfoldable pub decode_test_acc : ℕ → Prefix → Run Cursor Decoded
decode_test_acc op p = do
  let w = width p (op == 0xA8)
  v ← imm_masked w
  finish (test (reg_operand reg_rax p) (imm v) w)

unfoldable pub decode_move : ℕ → Prefix → Run Cursor Decoded
decode_move op p = do
  let w = width p ((op == 0x88) || (op == 0x8A))
  o ← operands p
  let r = reg_operand o.reg_field p
  finish (if leb 0x8A op then move r o.rm w else move o.rm r w)

unfoldable pub decode_move_imm : ℕ → Prefix → Run Cursor Decoded
decode_move_imm op p = do
  let w = width p (op == 0xC6)
  o ← operands p
  v ← imm_masked w
  finish (move o.rm (imm v) w)

unfoldable pub decode_move_reg8 : ℕ → Prefix → Run Cursor Decoded
decode_move_reg8 op p = do
  v ← cursor_u8
  finish (move (reg_operand (opcode_reg (op - 0xB0) p) p) (imm v) 1)

unfoldable pub decode_move_reg : ℕ → Prefix → Run Cursor Decoded
decode_move_reg op p = do
  let w = width p false
  v ← (if w == 8 then cursor_u64 else if w == 2 then cursor_u16 else cursor_u32)
  finish (move (reg_operand (opcode_reg (op - 0xB8) p) p) (imm v) w)

-- LEA takes the operand without its segment.
unfoldable pub decode_lea : Prefix → Run Cursor Decoded
decode_lea p = do
  mr ← decode_modrm (rex_of p)
  finish (lea (reg_operand mr.reg_field p) mr.rm (width p false))

unfoldable pub decode_exchange : ℕ → Prefix → Run Cursor Decoded
decode_exchange op p = do
  o ← operands p
  finish (exchange o.rm (reg_operand o.reg_field p) (width p (op == 0x86)))

unfoldable pub decode_movsxd : Prefix → Run Cursor Decoded
decode_movsxd p = do o ← operands p; finish (movsxd (reg_operand o.reg_field p) o.rm)

unfoldable pub decode_imul : ℕ → Prefix → Run Cursor Decoded
decode_imul op p = do
  let w = width p false
  o ← operands p
  v ← (if op == 0x6B then imm8_signed else imm_signed w)
  finish (imul (reg_operand o.reg_field p) o.rm v w)

unfoldable pub decode_group3 : ℕ → Prefix → Run Cursor Decoded
decode_group3 op p = do
  let w = width p (op == 0xF6)
  o ← operands p
  let idx = bit_and o.reg_field 7
  if ltb idx 2
      then (do v ← imm_masked w; finish (test o.rm (imm v) w))
      else finish (group3 idx o.rm w)

-- INC and DEC of a 32-bit register have instructions of their own.
unfoldable pub inc_of : Operand → ℕ → Instruction
inc_of (reg i rex) w = if w == 4 then inc32 i else inc (reg i rex) w
inc_of (mem a seg) w = inc (mem a seg) w
inc_of (imm v) w = inc (imm v) w

unfoldable pub dec_of : Operand → ℕ → Instruction
dec_of (reg i rex) w = if w == 4 then dec32 i else dec (reg i rex) w
dec_of (mem a seg) w = dec (mem a seg) w
dec_of (imm v) w = dec (imm v) w

unfoldable pub decode_group5 : ℕ → Prefix → Run Cursor Decoded
decode_group5 op p = do
  let w = width p (op == 0xFE)
  o ← operands p
  let idx = bit_and o.reg_field 7
  if idx == 0
      then finish (inc_of o.rm w)
      else if idx == 1
      then finish (dec_of o.rm w)
      else if idx == 2
      then finish_branch (call_operand o.rm)
      else if idx == 4
      then finish_branch (jmp_operand o.rm)
      else if idx == 6
      then finish (push_operand o.rm)
      else fail not_supported

unfoldable pub decode_shift : ℕ → Prefix → Run Cursor Decoded
decode_shift op p = do
  let w = width p ((op == 0xC0) || ((op == 0xD0) || (op == 0xD2)))
  o ← operands p
  count ←
      (if leb op 0xC1
        then (do v ← cursor_u8; return (constant v))
        else return (if leb op 0xD1 then constant 1 else from_cl p.rex_present))
  finish (shift (bit_and o.reg_field 7) o.rm w count)

abbrev pub is_alu : ℕ → Bool
is_alu op = leb op 0x3D && ((bit_and op 0xC0 == 0) && leb (bit_and op 7) 5)

unfoldable pub data_opcode : ℕ → Prefix → Decoder
data_opcode op p =
    if is_alu op
    then some (decode_alu op p)
    else if (op == 0x80) || ((op == 0x81) || (op == 0x83))
    then some (decode_group1 op p)
    else if (op == 0x84) || (op == 0x85)
    then some (decode_test op p)
    else if (op == 0xA8) || (op == 0xA9)
    then some (decode_test_acc op p)
    else if leb 0x88 op && leb op 0x8B
    then some (decode_move op p)
    else if (op == 0xC6) || (op == 0xC7)
    then some (decode_move_imm op p)
    else if leb 0xB0 op && leb op 0xB7
    then some (decode_move_reg8 op p)
    else if leb 0xB8 op && leb op 0xBF
    then some (decode_move_reg op p)
    else if op == 0x8D
    then some (decode_lea p)
    else if (op == 0x86) || (op == 0x87)
    then some (decode_exchange op p)
    else if op == 0x63
    then some (decode_movsxd p)
    else if (op == 0x69) || (op == 0x6B)
    then some (decode_imul op p)
    else if (op == 0xF6) || (op == 0xF7)
    then some (decode_group3 op p)
    else if (op == 0xFE) || (op == 0xFF)
    then some (decode_group5 op p)
    else if ((op == 0xC0) || (op == 0xC1)) || (leb 0xD0 op && leb op 0xD3)
    then some (decode_shift op p)
    else none
