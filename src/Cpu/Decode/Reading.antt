-- ===== src/Cpu/Decode/Reading.antt =====
-- decodeOne only reads code.
use golinux.Base.{ℕ, Bool, true, false, if◌then◌else◌, Option, none, some, ◌≡◌, refl, sym, ◌==◌}
use golinux.Cpu.Run.{not_supported, Run, ◌>>=◌}
use golinux.Cpu.ModRm.{Cursor, cursor_u8, decode_modrm}
use golinux.Cpu.ModRm.Reading.{
  Reads, NeedsByte, Reads-fail, Reads-if, Reads-bind, Reads-position, NeedsByte-fetch,
  NeedsByte-bind,
}
use golinux.Cpu.Execute.{Instruction}
use golinux.Cpu.Decode.Prefixes.{
  Prefix, Decoded, Operands, skip, is_rex, with_rex, legacy_prefixes, no_prefixes,
}
use golinux.Cpu.Decode.Prefixes.Reading.{
  reading_rules, cursor_u8-Reads, cursor_i8-Reads, cursor_u16-Reads, cursor_u32-Reads,
  cursor_i32-Reads, cursor_u64-Reads, decode_modrm-Reads, operands-Reads, imm8_signed-Reads,
  imm_signed-Reads, imm_masked-Reads, skip-Reads, legacy_prefixes-Reads, Reads-peek_is,
  NeedsByte-peek_is,
}
use golinux.Cpu.Decode.{
  Extensions, is_x87, is_vex, opcode, after_rex, after_vex, after_prefixes, decode_one,
}
use golinux.Cpu.Decode.Data.{
  Decoder, decode_alu, decode_group1, decode_test, decode_test_acc, decode_move, decode_move_imm,
  decode_move_reg8, decode_move_reg, decode_lea, decode_exchange, decode_movsxd, decode_imul,
  decode_group3, decode_group5, decode_shift, data_opcode,
}
use golinux.Cpu.Decode.Flow.{
  stack_opcode, branch_opcode, accumulator_opcode, string_opcode, or_else, flow_opcode,
}
use golinux.Cpu.Decode.TwoByte.{
  decode_hint, is_endbr, after_endbr, decode_endbr, decode_operands, decode_double,
  decode_bit_constant, general_opcode, bits_opcode, two_byte_opcode, decode_two_byte,
}

ruleset rules = (
  reading_rules, cursor_u8-Reads, cursor_i8-Reads, cursor_u16-Reads, cursor_u32-Reads,
  cursor_i32-Reads, cursor_u64-Reads, decode_modrm-Reads, operands-Reads, imm8_signed-Reads,
  imm_signed-Reads, imm_masked-Reads,
)

decode_alu-Reads : (op : ℕ) (p : Prefix) → Reads (decode_alu op p)
unfolding decode_alu
decode_alu-Reads op p = search rules depth 12 fits 5000

decode_group1-Reads : (op : ℕ) (p : Prefix) → Reads (decode_group1 op p)
unfolding decode_group1
decode_group1-Reads op p = search rules

decode_test-Reads : (op : ℕ) (p : Prefix) → Reads (decode_test op p)
unfolding decode_test
decode_test-Reads op p = search rules

decode_test_acc-Reads : (op : ℕ) (p : Prefix) → Reads (decode_test_acc op p)
unfolding decode_test_acc
decode_test_acc-Reads op p = search rules

decode_move-Reads : (op : ℕ) (p : Prefix) → Reads (decode_move op p)
unfolding decode_move
decode_move-Reads op p = search rules

decode_move_imm-Reads : (op : ℕ) (p : Prefix) → Reads (decode_move_imm op p)
unfolding decode_move_imm
decode_move_imm-Reads op p = search rules

decode_move_reg8-Reads : (op : ℕ) (p : Prefix) → Reads (decode_move_reg8 op p)
unfolding decode_move_reg8
decode_move_reg8-Reads op p = search rules

decode_move_reg-Reads : (op : ℕ) (p : Prefix) → Reads (decode_move_reg op p)
unfolding decode_move_reg
decode_move_reg-Reads op p = search rules depth 12 fits 5000

decode_lea-Reads : (p : Prefix) → Reads (decode_lea p)
unfolding decode_lea
decode_lea-Reads p = search rules

decode_exchange-Reads : (op : ℕ) (p : Prefix) → Reads (decode_exchange op p)
unfolding decode_exchange
decode_exchange-Reads op p = search rules

decode_movsxd-Reads : (p : Prefix) → Reads (decode_movsxd p)
unfolding decode_movsxd
decode_movsxd-Reads p = search rules

decode_imul-Reads : (op : ℕ) (p : Prefix) → Reads (decode_imul op p)
unfolding decode_imul
decode_imul-Reads op p = search rules depth 12 fits 5000

decode_group3-Reads : (op : ℕ) (p : Prefix) → Reads (decode_group3 op p)
unfolding decode_group3
decode_group3-Reads op p = search rules depth 12 fits 5000

decode_group5-Reads : (op : ℕ) (p : Prefix) → Reads (decode_group5 op p)
unfolding decode_group5
decode_group5-Reads op p = search rules depth 12 fits 5000

decode_shift-Reads : (op : ℕ) (p : Prefix) → Reads (decode_shift op p)
unfolding decode_shift
decode_shift-Reads op p = search rules depth 12 fits 5000

decode_hint-Reads : (p : Prefix) → Reads (decode_hint p)
unfolding decode_hint
decode_hint-Reads p = search rules

decode_operands-Reads : (p : Prefix) (f : Operands → Instruction) → Reads (decode_operands p f)
unfolding decode_operands
decode_operands-Reads p f = search rules

decode_double-Reads : (op : ℕ) (p : Prefix) → Reads (decode_double op p)
unfolding decode_double
decode_double-Reads op p = search rules depth 12 fits 5000

decode_bit_constant-Reads : (p : Prefix) → Reads (decode_bit_constant p)
unfolding decode_bit_constant
decode_bit_constant-Reads p = search rules

decode_hint-NeedsByte : (p : Prefix) → NeedsByte (decode_hint p)
unfolding decode_hint decode_modrm cursor_u8
decode_hint-NeedsByte p =
    NeedsByte-bind _ _ (NeedsByte-bind _ _ (NeedsByte-bind _ _ NeedsByte-fetch))

after_endbr-Reads : (p : Prefix) (b : Option ℕ) → Reads (after_endbr p b)
after_endbr-Reads p none = decode_hint-Reads p
after_endbr-Reads p (some b) = search (rules, skip-Reads)

decode_endbr-Reads : (p : Prefix) → Reads (decode_endbr p)
unfolding decode_endbr
decode_endbr-Reads p =
    Reads-peek_is is_endbr (after_endbr p) (decode_hint-NeedsByte p) (after_endbr-Reads p)

-- An opcode that a group decodes is decoded by reading.
record AllRead (d : Decoder) : Type 0 where
  each : (m : Run Cursor Decoded) → d ≡ some m → Reads m

AllRead-some : (m : Run Cursor Decoded) → Reads m → AllRead (some m)
AllRead-some m r = record { each = λ n e. let same : m ≡ n = cc in rw (sym same) r }

AllRead-none : AllRead none
AllRead-none = record { each = λ n e. cc }

AllRead-if : (b : Bool) (d e : Decoder) → AllRead d → AllRead e → AllRead (if b then d else e)
AllRead-if true d e p q = p
AllRead-if false d e p q = q

AllRead-or_else : (d e : Decoder) → AllRead d → AllRead e → AllRead (or_else d e)
AllRead-or_else none e p q = q
AllRead-or_else (some m) e p q = p

ruleset groups = (rules, AllRead-some, AllRead-none, AllRead-if, AllRead-or_else)

data_opcode-AllRead : (op : ℕ) (p : Prefix) → AllRead (data_opcode op p)
unfolding data_opcode
data_opcode-AllRead op p =
    search
      (
        AllRead-some, AllRead-none, AllRead-if, decode_alu-Reads, decode_group1-Reads,
        decode_test-Reads, decode_test_acc-Reads, decode_move-Reads, decode_move_imm-Reads,
        decode_move_reg8-Reads, decode_move_reg-Reads, decode_lea-Reads, decode_exchange-Reads,
        decode_movsxd-Reads, decode_imul-Reads, decode_group3-Reads, decode_group5-Reads,
        decode_shift-Reads,
      )
      depth 40 fits 5000

stack_opcode-AllRead : (op : ℕ) (p : Prefix) → AllRead (stack_opcode op p)
unfolding stack_opcode
stack_opcode-AllRead op p = search groups depth 20 fits 5000

branch_opcode-AllRead : (op : ℕ) → AllRead (branch_opcode op)
unfolding branch_opcode
branch_opcode-AllRead op = search groups depth 20 fits 5000

accumulator_opcode-AllRead : (op : ℕ) (p : Prefix) → AllRead (accumulator_opcode op p)
unfolding accumulator_opcode
accumulator_opcode-AllRead op p = search groups depth 20 fits 5000

string_opcode-AllRead : (op : ℕ) (p : Prefix) → AllRead (string_opcode op p)
unfolding string_opcode
string_opcode-AllRead op p = search groups depth 20 fits 5000

flow_opcode-AllRead : (op : ℕ) (p : Prefix) → AllRead (flow_opcode op p)
unfolding flow_opcode
flow_opcode-AllRead op p = search (
  AllRead-or_else, stack_opcode-AllRead, branch_opcode-AllRead, accumulator_opcode-AllRead,
  string_opcode-AllRead,
)

general_opcode-AllRead : (op : ℕ) (p : Prefix) → AllRead (general_opcode op p)
unfolding general_opcode
general_opcode-AllRead op p =
    search (groups, decode_hint-Reads, decode_operands-Reads, decode_endbr-Reads) depth 30 fits 5000

bits_opcode-AllRead : (op : ℕ) (p : Prefix) → AllRead (bits_opcode op p)
unfolding bits_opcode
bits_opcode-AllRead op p =
    search (groups, decode_double-Reads, decode_operands-Reads, decode_bit_constant-Reads) depth 30
      fits 5000

-- The first of two groups that has the opcode decodes it.
chosen :
    (d : Decoder) (rest : Run Cursor Decoded)
    → AllRead d
    → Reads rest
    → Reads (elim d [ some m ↦ m | none ↦ rest ])
chosen none rest p r = r
chosen (some m) rest p r = p.each m refl

-- What the decoders of the other opcodes have to satisfy.
pub record ExtensionsRead (ext : Extensions) : Type 0 where
  pub sse : (op : ℕ) (p : Prefix) → Reads (ext.sse op p)
  pub x87 : (op : ℕ) (p : Prefix) → Reads (ext.x87 op p)
  pub vex : (b : ℕ) (p : Prefix) → Reads (ext.vex b p)

module _ (ext : Extensions) (given : ExtensionsRead ext) where
  two_byte_opcode-Reads : (op : ℕ) (p : Prefix) → Reads (two_byte_opcode ext.sse op p)
  unfolding two_byte_opcode
  two_byte_opcode-Reads op p =
      chosen (general_opcode op p) _ (general_opcode-AllRead op p)
        (chosen (bits_opcode op p) _ (bits_opcode-AllRead op p) (given.sse op p))

  decode_two_byte-Reads : (p : Prefix) → Reads (decode_two_byte ext.sse p)
  unfolding decode_two_byte
  decode_two_byte-Reads p =
      Reads-bind cursor_u8 (λ op. two_byte_opcode ext.sse op p) cursor_u8-Reads
        (λ op. two_byte_opcode-Reads op p)

  opcode-Reads : (op : ℕ) (p : Prefix) → Reads (opcode ext op p)
  unfolding opcode
  opcode-Reads op p = Reads-if (is_x87 op) _ _ (given.x87 op p) (
      Reads-if (op == 0x0F) _ _ (decode_two_byte-Reads p) (
        chosen (data_opcode op p) _ (data_opcode-AllRead op p)
          (chosen (flow_opcode op p) _ (flow_opcode-AllRead op p) (Reads-fail not_supported))))

  after_rex-Reads : (p : Prefix) (b : Option ℕ) → Reads (after_rex ext b p)
  after_rex-Reads p none =
      Reads-bind cursor_u8 (λ op. opcode ext op p) cursor_u8-Reads (λ op. opcode-Reads op p)
  after_rex-Reads p (some b) =
      Reads-bind skip (λ _. cursor_u8 >>= λ op. opcode ext op (with_rex b p)) skip-Reads
        λ _.
          Reads-bind cursor_u8 (λ op. opcode ext op (with_rex b p)) cursor_u8-Reads
            (λ op. opcode-Reads op (with_rex b p))

  after_rex-NeedsByte : (p : Prefix) → NeedsByte (after_rex ext none p)
  unfolding cursor_u8
  after_rex-NeedsByte p = NeedsByte-bind _ _ (NeedsByte-bind _ _ NeedsByte-fetch)

  after_vex-Reads : (p : Prefix) (b : Option ℕ) → Reads (after_vex ext b p)
  after_vex-Reads p none =
      Reads-peek_is is_rex (λ rex. after_rex ext rex p) (after_rex-NeedsByte p) (after_rex-Reads p)
  after_vex-Reads p (some b) = Reads-bind skip (λ _. ext.vex b p) skip-Reads (λ _. given.vex b p)

  after_prefixes-Reads : (p : Prefix) → Reads (after_prefixes ext p)
  unfolding after_prefixes
  after_prefixes-Reads p =
      Reads-peek_is is_vex (λ vex. after_vex ext vex p)
        (NeedsByte-peek_is is_rex (λ rex. after_rex ext rex p) (after_rex-NeedsByte p))
        (after_vex-Reads p)

  pub decode_one-Reads : (fuel : ℕ) → Reads (decode_one ext fuel)
  unfolding decode_one
  decode_one-Reads fuel =
      Reads-bind (legacy_prefixes fuel no_prefixes) _ (legacy_prefixes-Reads fuel no_prefixes) λ p.
        Reads-bind (after_prefixes ext p) _ (after_prefixes-Reads p)
          λ d. Reads-position (λ n. record { decoded = d; len = n })
