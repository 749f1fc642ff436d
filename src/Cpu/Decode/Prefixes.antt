-- ===== src/Cpu/Decode/Prefixes.antt =====
-- The legacy prefixes and the REX prefix, operand widths and immediates.
pub mod Ending
pub mod Reading
use golinux.Base.{
  ℕ, zero, suc, ◌+◌, ◌*◌, bit_and, bit_or, Bool, true, false, not, ◌&&◌, ◌||◌, leb, ◌==◌,
  if◌then◌else◌, Option, none, some,
}
use golinux.Base.Word.{to_word}
use golinux.Cpu.Flags.{mask_width}
use golinux.Cpu.Run.{diverged, Outcome, done, failed, Run, ◌>>=◌, return, fail}
use golinux.Cpu.Operand.{Operand, reg, mem, imm, rip_relative, seg_fs, seg_gs, sign_extend}
use golinux.Cpu.ModRm.{
  Cursor, peek_byte, cursor_u8, cursor_i8, cursor_u16, cursor_i32, Rex, bool_bit, decode_modrm,
}
use golinux.Cpu.Exec.Strings.{RepKind, rep_none, rep_z, rep_nz}
use golinux.Cpu.Execute.{Instruction}

-- `rex` is the prefix byte, 0 where there is none.
pub record Prefix : Type 0 where
  pub op_size16 : Bool
  pub seg_fs : Bool
  pub seg_gs : Bool
  pub rep : RepKind
  pub rex : ℕ
  pub rex_present : Bool

abbrev pub no_prefixes : Prefix
no_prefixes = record {
  op_size16 = false;
  seg_fs = false;
  seg_gs = false;
  rep = rep_none;
  rex = 0;
  rex_present = false;
}

-- An instruction, and whether a basic block ends after it.
pub record Decoded : Type 0 where
  pub instruction : Instruction
  pub ends_block : Bool

abbrev pub finish : Instruction → Run Cursor Decoded
finish i = return (record { instruction = i; ends_block = false })

abbrev pub finish_branch : Instruction → Run Cursor Decoded
finish_branch i = return (record { instruction = i; ends_block = true })

abbrev pub is_ignored : ℕ → Bool
is_ignored b =
    (b == 0x67) || ((b == 0xF0) || ((b == 0x2E) || ((b == 0x36) || ((b == 0x3E) || (b == 0x26)))))

-- What a legacy prefix adds; `none` for any other byte.
unfoldable pub note_prefix : ℕ → Prefix → Option Prefix
note_prefix b p =
    if b == 0x66
    then some (record p { op_size16 = true })
    else if is_ignored b
    then some p
    else if b == 0xF2
    then some (record p { rep = rep_nz })
    else if b == 0xF3
    then some (record p { rep = rep_z })
    else if b == 0x64
    then some (record p { seg_fs = true })
    else if b == 0x65
    then some (record p { seg_gs = true })
    else none

abbrev pub skip : Run Cursor (Unit {0})
skip c = (done tt, record c { position = c.position + 1 })

-- The end of the prefixes, or the next round after one.
abbrev pub note_then : (Prefix → Run Cursor Prefix) → Prefix → Option Prefix → Run Cursor Prefix
note_then rest p none = return p
note_then rest p (some q) = skip >>= λ _. rest q

-- The loop has no bound of its own; `diverged` stands for the rounds past the fuel.
unfoldable pub legacy_prefixes : ℕ → Prefix → Run Cursor Prefix
legacy_prefixes zero p = fail diverged
legacy_prefixes (suc n) p =
    peek_byte >>= λ b. note_then (λ q. legacy_prefixes n q) p (note_prefix b p)

abbrev pub is_rex : ℕ → Bool
is_rex b = leb 0x40 b && leb b 0x4F

-- A byte that is peeked at and passes a test; a fault counts as none.
abbrev pub tested : (ℕ → Bool) → Outcome ℕ × Cursor → Outcome (Option ℕ) × Cursor
tested f (done b, c) = (done (if f b then some b else none), c)
tested f (failed x, c) = (done none, c)

unfoldable pub peek_is : (ℕ → Bool) → Run Cursor (Option ℕ)
peek_is f c = tested f (peek_byte c)

abbrev pub with_rex : ℕ → Prefix → Prefix
with_rex b p = record p { rex = b; rex_present = true }

abbrev pub bit_set : ℕ → ℕ → Bool
bit_set v mask = not (bit_and v mask == 0)

unfoldable pub width : Prefix → Bool → ℕ
width p byte_op = if byte_op then 1 else if bit_set p.rex 8 then 8 else if p.op_size16 then 2 else 4

abbrev pub rex_of : Prefix → Rex
rex_of p = record {
  present = p.rex_present;
  r = bit_set p.rex 4;
  x = bit_set p.rex 2;
  b = bit_set p.rex 1;
}

unfoldable pub apply_seg : Prefix → Operand → Operand
apply_seg p (reg i rex) = reg i rex
apply_seg p (imm v) = imm v
apply_seg p (mem (rip_relative d) seg) = mem (rip_relative d) seg
apply_seg p (mem a seg) = mem a (if p.seg_fs then seg_fs else if p.seg_gs then seg_gs else seg)

-- A register of the low three bits of an opcode.
abbrev pub opcode_reg : ℕ → Prefix → ℕ
opcode_reg n p = bit_or n (bool_bit (bit_set p.rex 1) * 8)

abbrev pub reg_operand : ℕ → Prefix → Operand
reg_operand i p = reg i p.rex_present

-- decodeModRM, and the two operands that an opcode makes of it.
pub record Operands : Type 0 where
  pub rm : Operand
  pub reg_field : ℕ

unfoldable pub operands : Prefix → Run Cursor Operands
operands p = do
  mr ← decode_modrm (rex_of p)
  return (record { rm = apply_seg p mr.rm; reg_field = mr.reg_field })

-- An immediate of 8 bits, and of 16 or 32 bits, with its sign.
unfoldable pub imm8_signed : Run Cursor ℕ
imm8_signed = do v ← cursor_i8; return (to_word v)

unfoldable pub imm_signed : ℕ → Run Cursor ℕ
imm_signed w =
    if w == 2
    then (do v ← cursor_u16; return (sign_extend v 16))
    else (do v ← cursor_i32; return (to_word v))

-- An immediate of the operand's width; for 64 bits it is sign-extended.
unfoldable pub imm_masked : ℕ → Run Cursor ℕ
imm_masked w =
    if w == 1
    then cursor_u8
    else if w == 2
    then cursor_u16
    else (do v ← cursor_i32; return (bit_and (to_word v) (mask_width w)))
