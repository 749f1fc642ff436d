-- ===== src/Cpu/Execute/Laws.antt =====
-- Sequences of two instructions.
use golinux.Base.{
  ℕ, ◌-◌, ◌%◌, ltb, ◌^◌, ◌<◌, ◌≡◌, refl, ap, ◌∙◌, sym, Bool, true, false, if◌then◌else◌,
}
use golinux.Base.Int.{ℤ, pos, negsuc, ltb_ℤ}
use native.Mathlib.Nat.{mod-mod}
use golinux.Base.Word.{signed}
use golinux.Cpu.Flags.{eval_cc, sub_with_flags}
use golinux.Cpu.Flags.Laws.{Width, bytes_of, bits_of}
use golinux.Cpu.Flags.Compare.{signed_conditions}
use golinux.Cpu.Memory.View.{IsValid}
use golinux.Cpu.Run.{Outcome, done, failed, and_then, return}
use golinux.Cpu.Registers.{reg_rsp, read_width}
use golinux.Cpu.Operand.{Engine, reg, read_operand}
use golinux.Cpu.Exec.Alu.{alu_op, alu_bin_op}
use golinux.Cpu.Exec.Stack.{push64, pop64}
use golinux.Cpu.Exec.Stack.Laws.{pop64_after-push64}
use golinux.Cpu.Execute.{alu, jcc, call_rel, ret, do_call, jump, relative, set_rip, execute}

-- What a call leaves after its push, and a return after its pop.
call-inv :
    (target : ℕ) (e₁ : Engine) (b : Bool) (r : Outcome (Unit {0}) × Engine)
    → and_then r (λ _. jump target) ≡ (done b, e₁)
    → (e : Engine) × (r ≡ (done tt, e)) × (e₁ ≡ record e { regs = set_rip target e.regs })
call-inv target e₁ b (done tt, e) h = (e, refl, cc)
call-inv target e₁ b (failed x, e) h = cc

ret-inv :
    (e₂ : Engine) (b : Bool) (r : Outcome ℕ × Engine)
    → and_then r jump ≡ (done b, e₂)
    → (v : ℕ) × (e : Engine) × (r ≡ (done v, e)) × (e₂ ≡ record e { regs = set_rip v e.regs })
ret-inv e₂ b (done v, e) h = (v, e, refl, cc)
ret-inv e₂ b (failed x, e) h = cc

-- With a valid memory and a 64-bit stack pointer and return address, when a relative CALL
-- returns, and a RET that follows it at once returns, from the same registers and memory but
-- with whatever end of instruction, the CALL had set rip to its target, and the RET sets rip to
-- the end of the CALL and leaves the stack pointer as it was before both.
pub call_rel-ret :
    (rel : ℤ) (n : ℕ) (b c : Bool) (e e₁ e₂ : Engine)
    → IsValid e.space
    → e.cur_instr_end < 2 ^ 64
    → e.regs.gpr reg_rsp < 2 ^ 64
    → execute (call_rel rel) e ≡ (done b, e₁)
    → execute ret (record e₁ { cur_instr_end = n }) ≡ (done c, e₂)
    → (e₁.regs.rip ≡ relative e rel)
      × (e₂.regs.rip ≡ e.cur_instr_end)
      × (e₂.regs.gpr reg_rsp ≡ e.regs.gpr reg_rsp)
unfolding execute do_call
call_rel-ret rel n b c e e₁ e₂ valid small sp_small called returned =
    let (e', pushed, after) = call-inv (relative e rel) e₁ b (push64 e.cur_instr_end e) called in
    let (v, e'', popped, final) = ret-inv e₂ c (pop64 (record e₁ { cur_instr_end = n })) returned in
    let (result, sp) =
      pop64_after-push64 e.cur_instr_end v e e' (record e₁ { cur_instr_end = n }) e'' valid small
        sp_small pushed (ap (λ (g : Engine). g.space) after)
        (ap (λ (g : Engine). g.regs.gpr reg_rsp) after) popped in
    (
      ap (λ (g : Engine). g.regs.rip) after,
      ap (λ (g : Engine). g.regs.rip) final ∙ result,
      ap (λ (g : Engine). g.regs.gpr reg_rsp) final ∙ sp,
    )

-- The flags that CMP leaves decide whether JL jumps.
jl :
    (less : Bool) (target : ℕ) (e : Engine) (b : Bool)
    → b ≡ less
    → (if b then jump target else return false) e
      ≡ (done less, record e { regs = if less then set_rip target e.regs else e.regs })
jl true target e true h = refl
jl true target e false h = cc
jl false target e true h = cc
jl false target e false h = refl

signed_of_low : (n x : ℕ) → signed n (x % 2 ^ n) ≡ signed n x
signed_of_low n x =
    ap (λ (low : ℕ). if ltb low (2 ^ (n - 1)) then pos low else negsuc (2 ^ n - 1 - low))
      (mod-mod x (2 ^ n))

-- When a CMP of two registers at any operand width returns, the JL after it returns too: it
-- jumps to its target if the first register, read at that width, is less than the second as a
-- two's complement integer, and else leaves the registers as they are.
pub cmp-jcc :
    (w : Width) (i j : ℕ) (p q : Bool) (rel : ℤ) (e e₁ : Engine) (c : Bool)
    → execute (alu 7 (reg i p) (reg j q) (bytes_of w)) e ≡ (done c, e₁)
    → execute (jcc 0xC rel) e₁ ≡ (
      done (
          ltb_ℤ
            (signed (bits_of w) (read_width i (bytes_of w) p e.regs))
            (signed (bits_of w) (read_width j (bytes_of w) q e.regs))),
      record e₁ {
        regs =
            if ltb_ℤ
              (signed (bits_of w) (read_width i (bytes_of w) p e.regs))
              (signed (bits_of w) (read_width j (bytes_of w) q e.regs))
            then set_rip (relative e₁ rel) e₁.regs
            else e₁.regs;
      },
    )
unfolding execute alu_bin_op alu_op read_operand
cmp-jcc w i j p q rel e e₁ c h =
    let a : ℕ = read_width i (bytes_of w) p e.regs in
    let b : ℕ = read_width j (bytes_of w) q e.regs in
    let flags : e₁.regs.rflags ≡ (sub_with_flags e.regs.rflags a b (bytes_of w)).rflags =
      ap (λ (r : Outcome Bool × Engine). r.1.regs.rflags) (sym h) in
    jl _ (relative e₁ rel) e₁ (eval_cc e₁.regs.rflags 0xC) (
      ap (λ (r : ℕ). eval_cc r 0xC) flags
      ∙ (signed_conditions w e.regs.rflags a b).0
      ∙ ap (λ (u : ℤ). ltb_ℤ u (signed (bits_of w) (b % 2 ^ bits_of w)))
          (signed_of_low (bits_of w) a)
      ∙ ap (λ (u : ℤ). ltb_ℤ (signed (bits_of w) a) u) (signed_of_low (bits_of w) b))
