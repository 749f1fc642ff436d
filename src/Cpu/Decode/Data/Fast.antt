-- ===== src/Cpu/Decode/Data/Fast.antt =====
-- The instructions with a 32-bit register of their own do what the general ones do.
use golinux.Base.{ℕ, ◌%◌, ◌^◌, ◌<◌, ◌≡◌, refl, ◌∙◌, Bool, ◌&&◌, ◌==◌, arith, Bool-cases, inl, inr}
use golinux.Base.Word.{u32}
use golinux.Cpu.Flags.{
  Flagged, add_with_flags, add_with_flags_carry, add32_flags, inc32_flags, dec32_flags, inc_flags,
  dec_flags,
}
use golinux.Cpu.Flags.Laws.{dword, and-mask_width}
use golinux.Cpu.Flags.Fast.{
  add32_flags-eq-add_with_flags, inc32_flags-eq-inc_flags, dec32_flags-eq-dec_flags,
}
use golinux.Cpu.Registers.{read_width, write_width, read32}
use golinux.Cpu.Operand.{Engine, Operand, reg, mem, imm, read_operand, write_operand}
use golinux.Cpu.Exec.Alu.{alu_op, alu_bin_op}
use golinux.Cpu.Execute.{alu, inc, dec, execute, on_reg32, on_operand}
use golinux.Cpu.Decode.Data.{alu_imm, inc_of, dec_of}

inc32_result : (r a : ℕ) → (inc32_flags r a).result % 2 ^ 32 ≡ (inc32_flags r a).result
unfolding inc32_flags
inc32_result r a = omega arith

dec32_result : (r a : ℕ) → (dec32_flags r a).result % 2 ^ 32 ≡ (dec32_flags r a).result
unfolding dec32_flags
dec32_result r a = omega arith

add32_result : (r a b : ℕ) → (add32_flags r a b).result % 2 ^ 32 ≡ (add32_flags r a b).result
unfolding add32_flags
add32_result r a b = omega arith

-- A flag operation on a register of four bytes, as an operand and directly.
same_on_register :
    (i : ℕ) (rex : Bool) (f g : ℕ → ℕ → Flagged) (e : Engine)
    → ((r a : ℕ) → a < 2 ^ 32 → f r a ≡ g r a)
    → ((r a : ℕ) → (f r a).result % 2 ^ 32 ≡ (f r a).result)
    → on_reg32 i f e ≡ on_operand (reg i rex) 4 g e
unfolding on_reg32 on_operand read_operand write_operand read_width write_width
same_on_register i rex f g e same small =
    rw (← same e.regs.rflags (read32 i e.regs) (omega arith), small e.regs.rflags (read32 i e.regs))
      refl

-- For any operand and width, the instruction decoded for INC, which is the 32-bit fast path for
-- a 32-bit register, returns and leaves what the general INC does.
pub inc_of_lem :
    (rm : Operand) (w : ℕ) (e : Engine) → execute (inc_of rm w) e ≡ execute (inc rm w) e
unfolding inc_of execute
inc_of_lem (reg i rex) w e = elim (Bool-cases (w == 4)) [
  | inl h ↦
      let four : w ≡ 4 = ground arith in
      let same =
        same_on_register i rex inc32_flags (λ r a. inc_flags r a 4) e inc32_flags-eq-inc_flags
          inc32_result in
      rw four (rw same refl)
  | inr h ↦ rw h refl
]
inc_of_lem (mem a seg) w e = refl
inc_of_lem (imm v) w e = refl

-- DEC.
pub dec_of_lem :
    (rm : Operand) (w : ℕ) (e : Engine) → execute (dec_of rm w) e ≡ execute (dec rm w) e
unfolding dec_of execute
dec_of_lem (reg i rex) w e = elim (Bool-cases (w == 4)) [
  | inl h ↦
      let four : w ≡ 4 = ground arith in
      let same =
        same_on_register i rex dec32_flags (λ r a. dec_flags r a 4) e dec32_flags-eq-dec_flags
          dec32_result in
      rw four (rw same refl)
  | inr h ↦ rw h refl
]
dec_of_lem (mem a seg) w e = refl
dec_of_lem (imm v) w e = refl

reduced : (r a v : ℕ) → add_with_flags r a (v % 2 ^ 32) 4 ≡ add_with_flags r a v 4
unfolding add_with_flags add_with_flags_carry
reduced r a v =
    let twice : v % 2 ^ 32 % 2 ^ 32 ≡ v % 2 ^ 32 = omega arith in
    rw (and-mask_width dword (v % 2 ^ 32), and-mask_width dword v, twice) refl

added : (v r a : ℕ) → a < 2 ^ 32 → add32_flags r a (u32 v) ≡ add_with_flags r a v 4
added v r a p = add32_flags-eq-add_with_flags r a (v % 2 ^ 32) p (omega arith) ∙ reduced r a v

add_on_register :
    (i v : ℕ) (rex : Bool) (e : Engine)
    → on_operand (reg i rex) 4 (λ r a. add_with_flags r a v 4) e
      ≡ alu_bin_op 0 (reg i rex) (imm v) 4 e
unfolding on_operand alu_bin_op alu_op read_operand
add_on_register i v rex e = refl

-- For any index, operand, immediate and width, the instruction decoded for an ALU operation with
-- an immediate, which is the 32-bit fast path for an addition to a 32-bit register, returns and
-- leaves what aluBinOp on the operand and the immediate does.
pub alu_imm_lem :
    (idx : ℕ) (rm : Operand) (v w : ℕ) (e : Engine)
    → execute (alu_imm idx rm v w) e ≡ execute (alu idx rm (imm v) w) e
unfolding alu_imm execute
alu_imm_lem idx (reg i rex) v w e = elim (Bool-cases ((idx == 0) && (w == 4))) [
  | inl h ↦
      let zero_idx : idx ≡ 0 = ground arith in
      let four : w ≡ 4 = ground arith in
      let same =
        same_on_register i rex (λ r a. add32_flags r a (u32 v)) (λ r a. add_with_flags r a v 4) e
          (added v) (λ r a. add32_result r a (u32 v)) in
      rw (zero_idx, four) (rw (same, add_on_register i v rex e) refl)
  | inr h ↦ rw h refl
]
alu_imm_lem idx (mem a seg) v w e = refl
alu_imm_lem idx (imm u) v w e = refl
