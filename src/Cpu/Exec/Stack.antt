-- ===== src/Cpu/Exec/Stack.antt =====
-- push64 and pop64 of internal/cpu/exec.go.
pub mod Laws
use golinux.Base.{ℕ}
use golinux.Base.Word.{◌+w◌, ◌-w◌}
use golinux.Cpu.Memory.{prot_read, prot_write}
use golinux.Cpu.Run.{Outcome, done, failed, Run, ◌>>=◌, ◌>>◌, return, get}
use golinux.Cpu.Registers.{set_gpr, reg_rsp}
use golinux.Cpu.Operand.{Engine, load, store, modify_regs, le_to_u64, u64_to_le}

-- The stack pointer moves only if the store succeeds.
unfoldable pub push64 : ℕ → Run Engine (Unit {0})
push64 v = do
  e ← get
  let sp = e.regs.gpr reg_rsp -w 8
  store sp (u64_to_le v 8) prot_write
  modify_regs (set_gpr reg_rsp sp)

unfoldable pub pop64 : Run Engine ℕ
pop64 = do
  e ← get
  let sp = e.regs.gpr reg_rsp
  buf ← load sp 8 prot_read
  modify_regs (set_gpr reg_rsp (sp +w 8))
  return (le_to_u64 buf)
