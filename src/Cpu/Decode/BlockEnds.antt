-- ===== src/Cpu/Decode/BlockEnds.antt =====
-- An instruction that may set rip ends its basic block.
use golinux.Base.{
  ℕ, Bool, true, false, ◌==◌, ◌&&◌, if◌then◌else◌, Option, none, some, ◌≡◌, ◌≢◌, refl, sym, ap, ◌∙◌,
}
use golinux.Cpu.Run.{
  Failure, not_supported, Outcome, done, failed, Run, and_then, ◌>>=◌, return, fail,
}
use golinux.Cpu.Operand.{Engine, Operand, reg, mem, imm}
use golinux.Cpu.ModRm.{Cursor, cursor_u8}
use golinux.Cpu.ModRm.Reading.{bind-inv}
use golinux.Cpu.Execute.{
  Instruction, execute, move, call_operand, jmp_operand, call_rel, jmp_rel, jcc, ret, nop, ret_imm,
  extend_acc, sign_acc, set_direction, bit_test, syscall, cpuid, other,
}
use golinux.Cpu.Exec.Bits.{Captured, bit_test_reg}
use golinux.Cpu.Decode.Prefixes.{
  Prefix, Decoded, finish, finish_branch, Operands, peek_is, skip, is_rex, with_rex,
  legacy_prefixes, no_prefixes,
}
use golinux.Cpu.Decode.{
  Extensions, Fetched, is_x87, is_vex, opcode, after_rex, after_vex, after_prefixes, decode_one,
}
use golinux.Cpu.Decode.Data.{
  Decoder, alu_imm, inc_of, dec_of, decode_alu, decode_group1, decode_test, decode_test_acc,
  decode_move, decode_move_imm, decode_move_reg8, decode_move_reg, decode_lea, decode_exchange,
  decode_movsxd, decode_imul, decode_group3, decode_group5, decode_shift, data_opcode,
}
use golinux.Cpu.Decode.Flow.{
  stack_opcode, branch_opcode, accumulator_opcode, string_opcode, or_else, flow_opcode,
}
use golinux.Cpu.Decode.TwoByte.{
  decode_hint, is_endbr, after_endbr, decode_endbr, decode_operands, decode_double,
  decode_bit_constant, general_opcode, bits_opcode, two_byte_opcode, decode_two_byte,
}

-- Whether an instruction leaves rip to the loop. What the others do is known when they run.
abbrev pub is_plain : Instruction → Bool
is_plain (call_operand rm) = false
is_plain (jmp_operand rm) = false
is_plain (call_rel d) = false
is_plain (jmp_rel d) = false
is_plain (jcc code d) = false
is_plain ret = false
is_plain (ret_imm n) = false
is_plain (other x) = false
is_plain i = true

abbrev pub FallsThrough : Instruction → Type 0
FallsThrough i = (e e₁ : Engine) → execute i e ≢ (done true, e₁)

pub stay-false :
    (r : Outcome (Unit {0}) × Engine) (e₁ : Engine)
    → and_then r (λ _. return false) ≢ (done true, e₁)
stay-false (done u, e) e₁ = λ h. cc
stay-false (failed x, e) e₁ = λ h. cc

captured-false :
    (r : Outcome Captured × Engine) (e₁ : Engine) → and_then r (λ _. return false) ≢ (done true, e₁)
captured-false (done u, e) e₁ = λ h. cc
captured-false (failed x, e) e₁ = λ h. cc

pub plain-FallsThrough : (i : Instruction) → is_plain i ≡ true → FallsThrough i
unfolding execute
plain-FallsThrough (bit_test action rm offset w) p e e₁ =
    captured-false (bit_test_reg action rm offset w e) e₁
plain-FallsThrough (call_operand rm) p e e₁ = cc
plain-FallsThrough (jmp_operand rm) p e e₁ = cc
plain-FallsThrough (call_rel d) p e e₁ = cc
plain-FallsThrough (jmp_rel d) p e e₁ = cc
plain-FallsThrough (jcc code d) p e e₁ = cc
plain-FallsThrough ret p e e₁ = cc
plain-FallsThrough (ret_imm n) p e e₁ = cc
plain-FallsThrough (other x) p e e₁ = cc
plain-FallsThrough (extend_acc w rex) p e e₁ = λ h. cc
plain-FallsThrough (sign_acc w) p e e₁ = λ h. cc
plain-FallsThrough (set_direction on) p e e₁ = λ h. cc
plain-FallsThrough nop p e e₁ = λ h. cc
plain-FallsThrough syscall p e e₁ = λ h. cc
plain-FallsThrough cpuid p e e₁ = λ h. cc
plain-FallsThrough i p e e₁ = stay-false _ e₁

-- With no end of its block, an instruction falls through.
abbrev pub EndsRight : Decoded → Type 0
EndsRight d = d.ends_block ≡ false → FallsThrough d.instruction

pub record Ends (m : Run Cursor Decoded) : Type 0 where
  pub at : (c c₁ : Cursor) (d : Decoded) → m c ≡ (done d, c₁) → EndsRight d

Ends-finish : (i : Instruction) → is_plain i ≡ true → Ends (finish i)
Ends-finish i p = record {
  at = λ c c₁ d e _.
      let same : i ≡ d.instruction = cc in
      plain-FallsThrough d.instruction (ap is_plain (sym same) ∙ p);
}

Ends-finish_branch : (i : Instruction) → Ends (finish_branch i)
Ends-finish_branch i = record {
  at = λ c c₁ d e open_end. let ends : true ≡ d.ends_block = cc in cc;
}

pub Ends-fail : (x : Failure) → Ends (fail x)
Ends-fail x = record { at = λ c c₁ d e. cc }

Ends-if : (b : Bool) (m n : Run Cursor Decoded) → Ends m → Ends n → Ends (if b then m else n)
Ends-if true m n p q = p
Ends-if false m n p q = q

Ends-bind :
    {A : Type 0} (m : Run Cursor A) (f : A → Run Cursor Decoded)
    → ((a : A) → Ends (f a))
    → Ends (m >>= f)
Ends-bind m f p = record {
  at = λ c c₁ d e. let (a, c', first_part, rest) = bind-inv (m c) f d c₁ e in (p a).at c' c₁ d rest;
}

plain-if :
    (b : Bool) (i j : Instruction)
    → is_plain i ≡ true
    → is_plain j ≡ true
    → is_plain (if b then i else j) ≡ true
plain-if true i j p q = p
plain-if false i j p q = q

alu_imm-plain : (idx : ℕ) (o : Operand) (v w : ℕ) → is_plain (alu_imm idx o v w) ≡ true
unfolding alu_imm
alu_imm-plain idx (reg i rex) v w = plain-if ((idx == 0) && (w == 4)) _ _ refl refl
alu_imm-plain idx (mem a seg) v w = refl
alu_imm-plain idx (imm u) v w = refl

inc_of-plain : (o : Operand) (w : ℕ) → is_plain (inc_of o w) ≡ true
unfolding inc_of
inc_of-plain (reg i rex) w = plain-if (w == 4) _ _ refl refl
inc_of-plain (mem a seg) w = refl
inc_of-plain (imm u) w = refl

dec_of-plain : (o : Operand) (w : ℕ) → is_plain (dec_of o w) ≡ true
unfolding dec_of
dec_of-plain (reg i rex) w = plain-if (w == 4) _ _ refl refl
dec_of-plain (mem a seg) w = refl
dec_of-plain (imm u) w = refl

plain_move :
    (b : Bool) (x y : Operand) (w : ℕ) → is_plain (if b then move x y w else move y x w) ≡ true
plain_move b x y w = plain-if b (move x y w) (move y x w) refl refl

ruleset rules = (
  Ends-finish, Ends-finish_branch, Ends-fail, Ends-if, Ends-bind, refl, alu_imm-plain, inc_of-plain,
  dec_of-plain, plain_move,
)

decode_alu-Ends : (op : ℕ) (p : Prefix) → Ends (decode_alu op p)
unfolding decode_alu
decode_alu-Ends op p = search rules depth 20 fits 5000

decode_group1-Ends : (op : ℕ) (p : Prefix) → Ends (decode_group1 op p)
unfolding decode_group1
decode_group1-Ends op p = search rules depth 20 fits 5000

decode_test-Ends : (op : ℕ) (p : Prefix) → Ends (decode_test op p)
unfolding decode_test
decode_test-Ends op p = search rules depth 20 fits 5000

decode_test_acc-Ends : (op : ℕ) (p : Prefix) → Ends (decode_test_acc op p)
unfolding decode_test_acc
decode_test_acc-Ends op p = search rules depth 20 fits 5000

decode_move-Ends : (op : ℕ) (p : Prefix) → Ends (decode_move op p)
unfolding decode_move
decode_move-Ends op p = search rules depth 20 fits 5000

decode_move_imm-Ends : (op : ℕ) (p : Prefix) → Ends (decode_move_imm op p)
unfolding decode_move_imm
decode_move_imm-Ends op p = search rules depth 20 fits 5000

decode_move_reg8-Ends : (op : ℕ) (p : Prefix) → Ends (decode_move_reg8 op p)
unfolding decode_move_reg8
decode_move_reg8-Ends op p = search rules depth 20 fits 5000

decode_move_reg-Ends : (op : ℕ) (p : Prefix) → Ends (decode_move_reg op p)
unfolding decode_move_reg
decode_move_reg-Ends op p = search rules depth 20 fits 5000

decode_lea-Ends : (p : Prefix) → Ends (decode_lea p)
unfolding decode_lea
decode_lea-Ends p = search rules depth 20 fits 5000

decode_exchange-Ends : (op : ℕ) (p : Prefix) → Ends (decode_exchange op p)
unfolding decode_exchange
decode_exchange-Ends op p = search rules depth 20 fits 5000

decode_movsxd-Ends : (p : Prefix) → Ends (decode_movsxd p)
unfolding decode_movsxd
decode_movsxd-Ends p = search rules depth 20 fits 5000

decode_imul-Ends : (op : ℕ) (p : Prefix) → Ends (decode_imul op p)
unfolding decode_imul
decode_imul-Ends op p = search rules depth 20 fits 5000

decode_group3-Ends : (op : ℕ) (p : Prefix) → Ends (decode_group3 op p)
unfolding decode_group3
decode_group3-Ends op p = search rules depth 20 fits 5000

decode_group5-Ends : (op : ℕ) (p : Prefix) → Ends (decode_group5 op p)
unfolding decode_group5
decode_group5-Ends op p = search rules depth 20 fits 5000

decode_shift-Ends : (op : ℕ) (p : Prefix) → Ends (decode_shift op p)
unfolding decode_shift
decode_shift-Ends op p = search rules depth 20 fits 5000

decode_hint-Ends : (p : Prefix) → Ends (decode_hint p)
unfolding decode_hint
decode_hint-Ends p = search rules depth 20 fits 5000

decode_operands-Ends :
    (p : Prefix) (f : Operands → Instruction)
    → ((o : Operands) → is_plain (f o) ≡ true)
    → Ends (decode_operands p f)
unfolding decode_operands
decode_operands-Ends p f plain = search (rules, plain)

decode_double-Ends : (op : ℕ) (p : Prefix) → Ends (decode_double op p)
unfolding decode_double
decode_double-Ends op p = search rules depth 20 fits 5000

decode_bit_constant-Ends : (p : Prefix) → Ends (decode_bit_constant p)
unfolding decode_bit_constant
decode_bit_constant-Ends p = search rules depth 20 fits 5000

after_endbr-Ends : (p : Prefix) (b : Option ℕ) → Ends (after_endbr p b)
after_endbr-Ends p none = decode_hint-Ends p
after_endbr-Ends p (some b) = search rules

decode_endbr-Ends : (p : Prefix) → Ends (decode_endbr p)
unfolding decode_endbr
decode_endbr-Ends p = Ends-bind (peek_is is_endbr) (after_endbr p) (after_endbr-Ends p)

-- A group's decoders end blocks where they have to.
record AllEnd (d : Decoder) : Type 0 where
  each : (m : Run Cursor Decoded) → d ≡ some m → Ends m

AllEnd-some : (m : Run Cursor Decoded) → Ends m → AllEnd (some m)
AllEnd-some m r = record { each = λ n e. let same : m ≡ n = cc in rw (sym same) r }

AllEnd-none : AllEnd none
AllEnd-none = record { each = λ n e. cc }

AllEnd-if : (b : Bool) (d e : Decoder) → AllEnd d → AllEnd e → AllEnd (if b then d else e)
AllEnd-if true d e p q = p
AllEnd-if false d e p q = q

AllEnd-or_else : (d e : Decoder) → AllEnd d → AllEnd e → AllEnd (or_else d e)
AllEnd-or_else none e p q = q
AllEnd-or_else (some m) e p q = p

ruleset groups = (rules, AllEnd-some, AllEnd-none, AllEnd-if)

data_opcode-AllEnd : (op : ℕ) (p : Prefix) → AllEnd (data_opcode op p)
unfolding data_opcode
data_opcode-AllEnd op p =
    search
      (
        AllEnd-some, AllEnd-none, AllEnd-if, decode_alu-Ends, decode_group1-Ends, decode_test-Ends,
        decode_test_acc-Ends, decode_move-Ends, decode_move_imm-Ends, decode_move_reg8-Ends,
        decode_move_reg-Ends, decode_lea-Ends, decode_exchange-Ends, decode_movsxd-Ends,
        decode_imul-Ends, decode_group3-Ends, decode_group5-Ends, decode_shift-Ends,
      )
      depth 40 fits 5000

stack_opcode-AllEnd : (op : ℕ) (p : Prefix) → AllEnd (stack_opcode op p)
unfolding stack_opcode
stack_opcode-AllEnd op p = search groups depth 20 fits 5000

branch_opcode-AllEnd : (op : ℕ) → AllEnd (branch_opcode op)
unfolding branch_opcode
branch_opcode-AllEnd op = search groups depth 20 fits 5000

accumulator_opcode-AllEnd : (op : ℕ) (p : Prefix) → AllEnd (accumulator_opcode op p)
unfolding accumulator_opcode
accumulator_opcode-AllEnd op p = search groups depth 20 fits 5000

string_opcode-AllEnd : (op : ℕ) (p : Prefix) → AllEnd (string_opcode op p)
unfolding string_opcode
string_opcode-AllEnd op p = search groups depth 20 fits 5000

flow_opcode-AllEnd : (op : ℕ) (p : Prefix) → AllEnd (flow_opcode op p)
unfolding flow_opcode
flow_opcode-AllEnd op p = search (
  AllEnd-or_else, stack_opcode-AllEnd, branch_opcode-AllEnd, accumulator_opcode-AllEnd,
  string_opcode-AllEnd,
)

general_opcode-AllEnd : (op : ℕ) (p : Prefix) → AllEnd (general_opcode op p)
unfolding general_opcode
general_opcode-AllEnd op p =
    search (groups, decode_hint-Ends, decode_operands-Ends, decode_endbr-Ends) depth 30 fits 5000

bits_opcode-AllEnd : (op : ℕ) (p : Prefix) → AllEnd (bits_opcode op p)
unfolding bits_opcode
bits_opcode-AllEnd op p =
    search (groups, decode_double-Ends, decode_operands-Ends, decode_bit_constant-Ends) depth 30
      fits 5000

chosen :
    (d : Decoder) (rest : Run Cursor Decoded)
    → AllEnd d
    → Ends rest
    → Ends (elim d [ some m ↦ m | none ↦ rest ])
chosen none rest p r = r
chosen (some m) rest p r = p.each m refl

-- What the decoders of the other opcodes have to satisfy.
pub record ExtensionsEnd (ext : Extensions) : Type 0 where
  pub sse : (op : ℕ) (p : Prefix) → Ends (ext.sse op p)
  pub x87 : (op : ℕ) (p : Prefix) → Ends (ext.x87 op p)
  pub vex : (b : ℕ) (p : Prefix) → Ends (ext.vex b p)

same_decoded :
    (d : Decoded) (c c₁ : Cursor) (f : Fetched)
    → ◌≡◌ {A = Outcome Fetched × Cursor}
        (done (record { decoded = d; len = c.position }), c)
        (done f, c₁)
    → d ≡ f.decoded
same_decoded d c c₁ f h = cc

module _ (ext : Extensions) (given : ExtensionsEnd ext) where
  decode_two_byte-Ends : (p : Prefix) → Ends (decode_two_byte ext.sse p)
  unfolding decode_two_byte two_byte_opcode
  decode_two_byte-Ends p =
      Ends-bind cursor_u8 (λ op. two_byte_opcode ext.sse op p)
        λ op.
          chosen (general_opcode op p) _ (general_opcode-AllEnd op p)
            (chosen (bits_opcode op p) _ (bits_opcode-AllEnd op p) (given.sse op p))

  opcode-Ends : (op : ℕ) (p : Prefix) → Ends (opcode ext op p)
  unfolding opcode
  opcode-Ends op p = Ends-if (is_x87 op) _ _ (given.x87 op p) (
      Ends-if (op == 0x0F) _ _ (decode_two_byte-Ends p) (
        chosen (data_opcode op p) _ (data_opcode-AllEnd op p)
          (chosen (flow_opcode op p) _ (flow_opcode-AllEnd op p) (Ends-fail not_supported))))

  after_rex-Ends : (p : Prefix) (b : Option ℕ) → Ends (after_rex ext b p)
  after_rex-Ends p none = Ends-bind cursor_u8 (λ op. opcode ext op p) (λ op. opcode-Ends op p)
  after_rex-Ends p (some b) =
      Ends-bind skip (λ _. cursor_u8 >>= λ op. opcode ext op (with_rex b p))
        λ _.
          Ends-bind cursor_u8 (λ op. opcode ext op (with_rex b p))
            (λ op. opcode-Ends op (with_rex b p))

  after_vex-Ends : (p : Prefix) (b : Option ℕ) → Ends (after_vex ext b p)
  after_vex-Ends p none = Ends-bind (peek_is is_rex) (λ rex. after_rex ext rex p) (after_rex-Ends p)
  after_vex-Ends p (some b) = Ends-bind skip (λ _. ext.vex b p) (λ _. given.vex b p)

  after_prefixes-Ends : (p : Prefix) → Ends (after_prefixes ext p)
  unfolding after_prefixes
  after_prefixes-Ends p = Ends-bind (peek_is is_vex) (λ vex. after_vex ext vex p) (after_vex-Ends p)

  -- When decodeOne succeeds without marking the instruction as the end of a block, with decoders
  -- of the vector, VEX and x87 opcodes that mark theirs so, then running the instruction on any
  -- engine never returns that it has set rip itself; so every branch ends its block.
  pub decode_one-ends_block :
      (fuel : ℕ) (c c₁ : Cursor) (f : Fetched)
      → decode_one ext fuel c ≡ (done f, c₁)
      → f.decoded.ends_block ≡ false
      → (e e₁ : Engine) → execute f.decoded.instruction e ≢ (done true, e₁)
  unfolding decode_one
  decode_one-ends_block fuel c c₁ f h =
      let (p, c', first_part, rest) = bind-inv (legacy_prefixes fuel no_prefixes c) _ f c₁ h in
      let (d, c'', second, last) = bind-inv (after_prefixes ext p c') _ f c₁ rest in
      rw (same_decoded d c'' c₁ f last) at ((after_prefixes-Ends p).at c' c'' d second)
