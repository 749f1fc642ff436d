-- ===== src/Cpu/Operand/Laws.antt =====
-- Writes and reads through operands.
use golinux.Base.{
  ℕ, ◌*◌, ◌%◌, ◌^◌, ◌≤◌, ◌<◌, ◌≡◌, refl, ap, ◌∙◌, sym, Option, none, some, List, length, arith,
}
use golinux.Base.Int.{pos, negsuc}
use golinux.Cpu.Memory.{Space, Fault, prot_read, prot_write}
use golinux.Cpu.Memory.Copy.{Result, ok, err, write_checked}
use golinux.Cpu.Memory.View.{IsValid}
use golinux.Cpu.Memory.Checked.{write_checked-read_checked}
use golinux.Cpu.Run.{Outcome, done, and_then, return}
use golinux.Cpu.Registers.{read_width, write_width}
use golinux.Cpu.Registers.Laws.{read_width-write_width}
use golinux.Cpu.Flags.Laws.{Width, byte, word, dword, qword, bytes_of, bits_of}
use golinux.Cpu.Operand.{
  Engine, Address, rip_relative, direct, base_index, SegOverride, seg_none, seg_fs, seg_gs, Operand,
  reg, mem, imm, address_of, eff_addr, from_result, from_option, le_to_u64, u64_to_le, read_operand,
  write_operand,
}
use golinux.Cpu.Operand.Bytes.{le_to_u64-u64_to_le, length-u64_to_le}

-- An address that is stored in the operand is a word.
abbrev pub IsWord : Operand → Type 0
IsWord (reg i rex) = Unit {0}
IsWord (imm v) = Unit {0}
IsWord (mem (direct a) seg) = a < 2 ^ 64
IsWord (mem (rip_relative d) seg) = Unit {0}
IsWord (mem (base_index b i s d) seg) = Unit {0}

pub eff_addr-lt :
    (a : Address) (seg : SegOverride) (e : Engine) → IsWord (mem a seg) → eff_addr a seg e < 2 ^ 64
unfolding eff_addr address_of
eff_addr-lt (direct a) seg_none e h = h
eff_addr-lt (direct a) seg_fs e h = omega arith
eff_addr-lt (direct a) seg_gs e h = omega arith
eff_addr-lt (rip_relative d) seg_none e h = omega arith
eff_addr-lt (rip_relative d) seg_fs e h = omega arith
eff_addr-lt (rip_relative d) seg_gs e h = omega arith
eff_addr-lt (base_index b i s (pos n)) seg_none e h = omega arith
eff_addr-lt (base_index b i s (negsuc n)) seg_none e h = omega arith
eff_addr-lt (base_index b i s d) seg_fs e h = omega arith
eff_addr-lt (base_index b i s d) seg_gs e h = omega arith

store-inv :
    (e e₁ : Engine) (r : Option Fault × Space)
    → from_option e r ≡ (done tt, e₁)
    → (r.0 ≡ none) × (e₁ ≡ record e { space = r.1 })
store-inv e e₁ (none, s) h = (refl, cc)
store-inv e e₁ (some x, s) h = cc

load-inv :
    (e : Engine) (r : Result (List ℕ) × Space) (x : ℕ)
    → (and_then (from_result e r) (λ buf. return (le_to_u64 buf))).0 ≡ done x
    → (ys : List ℕ) × (r.0 ≡ ok ys) × (x ≡ le_to_u64 ys)
load-inv e (ok ys, s) x h = (ys, refl, cc)
load-inv e (err f, s) x h = cc

width-le : (w : Width) → bytes_of w ≤ 8
width-le byte = omega arith
width-le word = omega arith
width-le dword = omega arith
width-le qword = omega arith

bits-of_bytes : (w : Width) (v : ℕ) → v % 2 ^ (8 * bytes_of w) ≡ v % 2 ^ bits_of w
bits-of_bytes byte v = refl
bits-of_bytes word v = refl
bits-of_bytes dword v = refl
bits-of_bytes qword v = refl

-- The address of an operand does not depend on memory.
eff_addr-space :
    (a : Address) (seg : SegOverride) (e : Engine) (s : Space)
    → eff_addr a seg (record e { space = s }) ≡ eff_addr a seg e
unfolding eff_addr address_of
eff_addr-space (direct a) seg_none e s = refl
eff_addr-space (direct a) seg_fs e s = refl
eff_addr-space (direct a) seg_gs e s = refl
eff_addr-space (rip_relative d) seg_none e s = refl
eff_addr-space (rip_relative d) seg_fs e s = refl
eff_addr-space (rip_relative d) seg_gs e s = refl
eff_addr-space (base_index b i k d) seg_none e s = refl
eff_addr-space (base_index b i k d) seg_fs e s = refl
eff_addr-space (base_index b i k d) seg_gs e s = refl

memory_round_trip :
    (w : Width) (a : Address) (seg : SegOverride) (v x : ℕ) (e e₁ : Engine)
    → IsValid e.space
    → IsWord (mem a seg)
    → write_operand (mem a seg) (bytes_of w) v e ≡ (done tt, e₁)
    → (read_operand (mem a seg) (bytes_of w) e₁).0 ≡ done x
    → x ≡ v % 2 ^ bits_of w
unfolding write_operand read_operand
memory_round_trip w a seg v x e e₁ valid is_word wrote got =
    let n = bytes_of w in
    let at = eff_addr a seg e in
    let bs = u64_to_le v n in
    let (no_fault, after) = store-inv e e₁ (write_checked at bs prot_write e.space) wrote in
    let len : length bs ≡ n = length-u64_to_le v n in
    let got' =
      rw (after, eff_addr-space a seg e (write_checked at bs prot_write e.space).1) at got in
    let (ys, read, result) =
      load-inv (record e { space = (write_checked at bs prot_write e.space).1 }) _ x got' in
    let same : ys ≡ bs =
      write_checked-read_checked at bs ys prot_write prot_read e.space valid
        (eff_addr-lt a seg e is_word) (omega (arith, width-le w, len)) no_fault (rw len read) in
    result ∙ ap le_to_u64 same ∙ le_to_u64-u64_to_le v n (width-le w) ∙ bits-of_bytes w v

-- At any operand width, with a valid memory, when writeOperand of a 64-bit value to a register
-- or a memory operand succeeds, a readOperand of the same operand that succeeds gives the value
-- cut to the width.
pub write_operand-read_operand :
    (w : Width) (o : Operand) (v x : ℕ) (e e₁ : Engine)
    → IsValid e.space
    → IsWord o
    → v < 2 ^ 64
    → write_operand o (bytes_of w) v e ≡ (done tt, e₁)
    → (read_operand o (bytes_of w) e₁).0 ≡ done x
    → x ≡ v % 2 ^ bits_of w
unfolding write_operand read_operand
write_operand-read_operand w (reg i rex) v x e e₁ valid is_word small wrote got =
    let n = bytes_of w in
    let regs : e₁.regs ≡ write_width i n rex v e.regs =
      sym (ap (λ (r : Outcome (Unit {0}) × Engine). r.1.regs) wrote) in
    let value : x ≡ read_width i n rex e₁.regs = cc in
    value ∙ ap (read_width i n rex) regs ∙ read_width-write_width w i rex v e.regs small
write_operand-read_operand w (imm k) v x e e₁ valid is_word small wrote got = cc
write_operand-read_operand w (mem a seg) v x e e₁ valid is_word small wrote got =
    memory_round_trip w a seg v x e e₁ valid is_word wrote got
