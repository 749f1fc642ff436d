-- ===== src/Cpu/Exec/Bits/Changes.antt =====
-- What BTS, BTR and BTC of internal/cpu/twobyte.go change in a word.
use golinux.Base.{
  ℕ, bit_and, suc, ◌≤◌, ◌%◌, ◌^◌, ◌*◌, ◌<◌, ◌≡◌, Bool, true, false, not, xor, ◌==◌, if◌then◌else◌,
  refl, sym, ap, ◌∙◌, arith, Bool-cases, inl, inr,
}
use golinux.Base.Bits.{bit, and_mask, bit-or, bit-xor, bit-clear, bit-two_pow}
use golinux.Base.Word.{◌<<w◌}
use native.Mathlib.Nat.{mod-eq_of_lt, one-mul, pow-le-pow_right, pow-suc, one-le-pow}
use golinux.Cpu.Exec.Bits.{
  BitAction, test_only, set_bit, reset_bit, complement_bit, bit_changed, bit_is_set, bit_apply,
  bit_test_imm,
}
use golinux.Cpu.Exec.Bits.Scans.{tested_bit}
use golinux.Cpu.Flags.{cf, flag, set_flag}
use golinux.Cpu.Flags.Laws.{flag-set_flag}
use golinux.Cpu.Registers.{array_set, read_width, write_width}
use golinux.Cpu.Run.{Outcome, done}
use golinux.Cpu.Operand.{Engine, reg, read_operand, write_operand}

-- The bit that an action leaves in place of `b`.
abbrev pub bit_left : BitAction → Bool → Bool
bit_left test_only b = b
bit_left set_bit b = true
bit_left reset_bit b = false
bit_left complement_bit b = not b

single_bit : (i k : ℕ) → i < 64 → bit (1 <<w i) k ≡ (i == k)
single_bit i k inside =
    let fits : 2 ^ suc i ≤ 2 ^ 64 = pow-le-pow_right (omega arith) inside in
    let small : 1 * 2 ^ i < 2 ^ 64 = omega (arith, pow-suc 2 i, one-le-pow i 2) in
    ap (λ (x : ℕ). bit x k) (mod-eq_of_lt small ∙ one-mul (2 ^ i)) ∙ bit-two_pow k i

xor-true : (b : Bool) → xor b true ≡ not b
unfolding xor
xor-true true = refl
xor-true false = refl

bit_changed-bit :
    (action : BitAction) (v i k : ℕ)
    → i < 64
    → bit (bit_changed action v i) k ≡ (if i == k then bit_left action (bit v i) else bit v k)
unfolding bit_changed xor
bit_changed-bit test_only v i k inside = elim (Bool-cases (i == k)) [
  | inl e ↦ let same : i ≡ k = ground arith in rw e (ap (λ (j : ℕ). bit v j) (sym same))
  | inr e ↦ rw e refl
]
bit_changed-bit set_bit v i k inside =
    rw (bit-or k v (1 <<w i), single_bit i k inside) (ground arith)
bit_changed-bit reset_bit v i k inside =
    rw (bit-clear k v (1 <<w i), single_bit i k inside) (ground arith)
bit_changed-bit complement_bit v i k inside =
    rw (bit-xor k v (1 <<w i), single_bit i k inside)
      (elim (Bool-cases (i == k)) [
        | inl e ↦
            let same : i ≡ k = ground arith in
            rw e (xor-true (bit v k) ∙ ap (λ (j : ℕ). not (bit v j)) (sym same))
        | inr e ↦ rw e (ground arith)
      ])

set_there : (f : ℕ → ℕ) (i v : ℕ) → array_set f i v i ≡ v
set_there f i v = ground arith

-- What an instruction of the BT group leaves: it returns, CF is the bit tested, and of the register
-- that bit alone may change.
pub record Tested (action : BitAction) (i b : ℕ) (e : Engine) (r : Outcome (Unit {0}) × Engine)
    : Type 0 where
  pub returns : r.0 ≡ done tt
  pub carry : flag cf r.1.regs.rflags ≡ bit (e.regs.gpr i) b
  pub bits :
      (k : ℕ)
      → bit (r.1.regs.gpr i) k
        ≡ (if b == k then bit_left action (bit (e.regs.gpr i) b) else bit (e.regs.gpr i) k)

bit_apply-Tested :
    (action : BitAction) (i b : ℕ) (rex : Bool) (e : Engine)
    → b < 64
    → Tested action i b e (bit_apply action (reg i rex) 8 b e)
unfolding bit_apply read_operand read_width write_operand write_width bit_changed
bit_apply-Tested action i b rex e inside =
    let v = e.regs.gpr i in
    let carry : flag cf (set_flag cf (bit_is_set v b) e.regs.rflags) ≡ bit v b =
      rw (flag-set_flag cf cf (bit_is_set v b) e.regs.rflags) (tested_bit v b) in
    elim action as (λ a. Tested a i b e (bit_apply a (reg i rex) 8 b e)) [
      | test_only ↦ record {
        returns = refl;
        carry = carry;
        bits = λ k. bit_changed-bit test_only v b k inside;
      }
      | set_bit ↦ record {
        returns = refl;
        carry = carry;
        bits = λ k.
            rw (set_there e.regs.gpr i (bit_changed set_bit v b))
              (bit_changed-bit set_bit v b k inside);
      }
      | reset_bit ↦ record {
        returns = refl;
        carry = carry;
        bits = λ k.
            rw (set_there e.regs.gpr i (bit_changed reset_bit v b))
              (bit_changed-bit reset_bit v b k inside);
      }
      | complement_bit ↦ record {
        returns = refl;
        carry = carry;
        bits = λ k.
            rw (set_there e.regs.gpr i (bit_changed complement_bit v b))
              (bit_changed-bit complement_bit v b k inside);
      }
    ]

-- BT, BTS, BTR and BTC of a 64-bit register with any constant return, put the bit that the
-- constant names modulo 64 into CF, and leave every bit of the register but that one as it was,
-- while that one is kept, set, cleared or turned over.
pub bit_test_imm-Tested :
    (action : BitAction) (i n : ℕ) (rex : Bool) (e : Engine)
    → Tested action i (n % 64) e (bit_test_imm action (reg i rex) n 8 e)
unfolding bit_test_imm
bit_test_imm-Tested action i n rex e =
    let low : bit_and n 63 ≡ n % 64 = and_mask 6 n in
    rw low (bit_apply-Tested action i (n % 64) rex e (omega arith))
