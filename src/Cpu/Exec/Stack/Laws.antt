-- ===== src/Cpu/Exec/Stack/Laws.antt =====
-- A push and then a pop.
use golinux.Base.{ℕ, ◌^◌, ◌<◌, ◌≡◌, refl, ap, ◌∙◌, sym, Option, none, some, List, length, arith}
use golinux.Base.Word.{◌+w◌, ◌-w◌}
use golinux.Cpu.Memory.{Space, Fault, prot_read, prot_write}
use golinux.Cpu.Memory.Copy.{Result, ok, err, read_checked, write_checked}
use golinux.Cpu.Memory.View.{IsValid}
use golinux.Cpu.Memory.Checked.{write_checked-read_checked}
use golinux.Cpu.Run.{Failure, done, failed, and_then}
use golinux.Cpu.Registers.{Registers, set_gpr, reg_rsp}
use golinux.Cpu.Operand.{Engine, from_result, from_option, modify_regs, le_to_u64, u64_to_le}
use golinux.Cpu.Operand.Bytes.{le_to_u64-u64_to_le, length-u64_to_le}
use golinux.Cpu.Exec.Stack.{push64, pop64}

push-inv :
    (e e₁ : Engine) (sp : ℕ) (r : Option Fault × Space)
    → and_then (from_option e r) (λ _. modify_regs (set_gpr reg_rsp sp)) ≡ (done tt, e₁)
    → (r.0 ≡ none) × (e₁ ≡ record e { space = r.1; regs = set_gpr reg_rsp sp e.regs })
push-inv e e₁ sp (none, s) h = (refl, cc)
push-inv e e₁ sp (some x, s) h = cc

pop-inv :
    (e e₂ : Engine) (sp x : ℕ) (r : Result (List ℕ) × Space)
    → and_then (from_result e r) (λ buf.
      λ e'. (done (le_to_u64 buf), record e' { regs = set_gpr reg_rsp (sp +w 8) e'.regs }))
      ≡ (done x, e₂)
    → (ys : List ℕ) × (r.0 ≡ ok ys)
      × (x ≡ le_to_u64 ys)
      × (e₂.regs ≡ set_gpr reg_rsp (sp +w 8) e.regs)
pop-inv e e₂ sp x (ok ys, s) h = (ys, refl, cc, cc)
pop-inv e e₂ sp x (err f, s) h = cc

-- As push64-pop64, where the pop starts from another engine with the same memory and stack pointer.
pub pop64_after-push64 :
    (v x : ℕ) (e e₁ e₂ e₃ : Engine)
    → IsValid e.space
    → v < 2 ^ 64
    → e.regs.gpr reg_rsp < 2 ^ 64
    → push64 v e ≡ (done tt, e₁)
    → e₂.space ≡ e₁.space
    → e₂.regs.gpr reg_rsp ≡ e₁.regs.gpr reg_rsp
    → pop64 e₂ ≡ (done x, e₃)
    → (x ≡ v) × (e₃.regs.gpr reg_rsp ≡ e.regs.gpr reg_rsp)
unfolding push64 pop64
pop64_after-push64 v x e e₁ e₂ e₃ valid small sp_small pushed same_space same_sp popped =
    let sp : ℕ = e.regs.gpr reg_rsp -w 8 in
    let (stored, after) =
      push-inv e e₁ sp (write_checked sp (u64_to_le v 8) prot_write e.space) pushed in
    let bs = u64_to_le v 8 in
    let s₁ : Space = (write_checked sp bs prot_write e.space).1 in
    let space_is : e₂.space ≡ s₁ = same_space ∙ ap (λ (g : Engine). g.space) after in
    let sp_is : e₂.regs.gpr reg_rsp ≡ sp =
      same_sp ∙ ap (λ (g : Engine). g.regs.gpr reg_rsp) after in
    let (ys, read, result, regs) =
      pop-inv e₂ e₃ (e₂.regs.gpr reg_rsp) x
        (read_checked (e₂.regs.gpr reg_rsp) 8 prot_read e₂.space) popped in
    let read' : (read_checked sp 8 prot_read s₁).0 ≡ ok ys =
      ap (λ (s : Space). (read_checked sp 8 prot_read s).0) (sym space_is)
      ∙ ap (λ (a : ℕ). (read_checked a 8 prot_read e₂.space).0) (sym sp_is)
      ∙ read in
    let len : length bs ≡ 8 = length-u64_to_le v 8 in
    let same : ys ≡ bs =
      write_checked-read_checked sp bs ys prot_write prot_read e.space valid (omega arith)
        (omega (arith, len)) stored (rw len read') in
    (
      result ∙ ap le_to_u64 same ∙ le_to_u64-u64_to_le v 8 (omega arith) ∙ omega arith,
      ap (λ (r : Registers). r.gpr reg_rsp) regs ∙ omega (arith, sp_is),
    )

-- Push, pop.
pub push64-pop64 :
    (v x : ℕ) (e e₁ e₂ : Engine)
    → IsValid e.space
    → v < 2 ^ 64
    → e.regs.gpr reg_rsp < 2 ^ 64
    → push64 v e ≡ (done tt, e₁)
    → pop64 e₁ ≡ (done x, e₂)
    → (x ≡ v) × (e₂.regs.gpr reg_rsp ≡ e.regs.gpr reg_rsp)
push64-pop64 v x e e₁ e₂ valid small sp_small pushed popped =
    pop64_after-push64 v x e e₁ e₁ e₂ valid small sp_small pushed refl refl popped

-- When push64 fails, every register, the stack pointer included, is as it was.
pub push64-fault :
    (v : ℕ) (x : Failure) (e e₁ : Engine) → push64 v e ≡ (failed x, e₁) → e₁.regs ≡ e.regs
unfolding push64
push64-fault v x e e₁ h =
    kept (write_checked (e.regs.gpr reg_rsp -w 8) (u64_to_le v 8) prot_write e.space) h
  where
    kept :
        (r : Option Fault × Space)
        → and_then (from_option e r) (λ _. modify_regs (set_gpr reg_rsp (e.regs.gpr reg_rsp -w 8)))
          ≡ (failed x, e₁)
        → e₁.regs ≡ e.regs
    kept (none, s) h' = cc
    kept (some f, s) h' = cc
