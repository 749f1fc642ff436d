-- ===== src/Cpu/Decode.antt =====
-- decodeOne of internal/cpu/decode.go: prefixes, then the opcode. The groups of opcodes are in the children.
pub mod Prefixes
pub mod Data
pub mod Flow
pub mod TwoByte
pub mod Reading
pub mod BlockEnds
mod Tests
use golinux.Base.{
  ℕ, zero, suc, ◌+◌, ◌^◌, bit_and, bit_or, Bool, true, false, not, ◌&&◌, ◌||◌, ltb, leb, ◌==◌,
  if◌then◌else◌, Option, none, some,
}
use golinux.Cpu.Run.{
  Failure, not_supported, Outcome, done, failed, Run, ◌>>=◌, ◌>>◌, return, fail, get,
}
use golinux.Cpu.ModRm.{Cursor, cursor_u8, peek_byte}
use golinux.Cpu.Execute.{Instruction}
use golinux.Cpu.Decode.Prefixes.{
  Prefix, Decoded, legacy_prefixes, is_rex, peek_is, skip, with_rex, no_prefixes,
}
use golinux.Cpu.Decode.Data.{Decoder, data_opcode}
use golinux.Cpu.Decode.Flow.{flow_opcode}
use golinux.Cpu.Decode.TwoByte.{decode_two_byte}

-- The opcodes of the vector registers and of x87: what decodes them is given.
pub record Extensions : Type 0 where
  pub sse : ℕ → Prefix → Run Cursor Decoded
  pub x87 : ℕ → Prefix → Run Cursor Decoded
  pub vex : ℕ → Prefix → Run Cursor Decoded

abbrev pub is_x87 : ℕ → Bool
is_x87 op =
    (op == 0xD8)
    || ((op == 0xD9) || ((op == 0xDB) || ((op == 0xDD) || ((op == 0xDE) || (op == 0xDF)))))

abbrev pub is_vex : ℕ → Bool
is_vex b = (b == 0xC4) || (b == 0xC5)

-- A decoded instruction and its length.
pub record Fetched : Type 0 where
  pub decoded : Decoded
  pub len : ℕ

module _ (ext : Extensions) where
  unfoldable pub opcode : ℕ → Prefix → Run Cursor Decoded
  opcode op p =
      if is_x87 op
      then ext.x87 op p
      else if op == 0x0F
      then decode_two_byte ext.sse p
      else elim (data_opcode op p) [
        | some d ↦ d
        | none ↦ elim (flow_opcode op p) [ some d ↦ d | none ↦ fail not_supported ]
      ]

  abbrev pub after_rex : Option ℕ → Prefix → Run Cursor Decoded
  after_rex none p = cursor_u8 >>= λ op. opcode op p
  after_rex (some b) p = skip >> (cursor_u8 >>= λ op. opcode op (with_rex b p))

  abbrev pub after_vex : Option ℕ → Prefix → Run Cursor Decoded
  after_vex none p = peek_is is_rex >>= λ rex. after_rex rex p
  after_vex (some b) p = skip >> ext.vex b p

  -- What follows the legacy prefixes.
  unfoldable pub after_prefixes : Prefix → Run Cursor Decoded
  after_prefixes p = peek_is is_vex >>= λ vex. after_vex vex p

  unfoldable pub decode_one : ℕ → Run Cursor Fetched
  decode_one fuel = do
    p ← legacy_prefixes fuel no_prefixes
    d ← after_prefixes p
    c ← get
    return (record { decoded = d; len = c.position })
