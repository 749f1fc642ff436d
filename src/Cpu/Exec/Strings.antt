-- ===== src/Cpu/Exec/Strings.antt =====
-- The string instructions of internal/cpu/exec.go. Each runs its whole REP loop.
pub mod Progress
use golinux.Base.{ℕ, zero, suc, ◌+◌, Bool, true, false, not, ◌&&◌, ◌||◌, ◌==◌, if◌then◌else◌, List}
use golinux.Base.Word.{◌+w◌, ◌-w◌, not_word}
use golinux.Cpu.Memory.{prot_read, prot_write}
use golinux.Cpu.Flags.{Flag, zf, df, flag, sub_with_flags}
use golinux.Cpu.Run.{Outcome, done, failed, Run, ◌>>=◌, ◌>>◌, return, get}
use golinux.Cpu.Registers.{
  Registers, set_gpr, read_width, write_width, reg_rax, reg_rcx, reg_rsi, reg_rdi,
}
use golinux.Cpu.Operand.{Engine, load, store, modify_regs, le_to_u64, u64_to_le}
use golinux.Cpu.Exec.Alu.{with_flags}

pub data RepKind : Type 0 where
  rep_none rep_z rep_nz : RepKind

abbrev pub is_rep : RepKind → Bool
is_rep rep_none = false
is_rep rep_z = true
is_rep rep_nz = true

unfoldable pub str_index_delta : ℕ → Registers → ℕ
str_index_delta w r = if flag df r.rflags then not_word w +w 1 else w

unfoldable pub rep_iterations : RepKind → Registers → ℕ
rep_iterations rep r = if is_rep rep then r.gpr reg_rcx else 1

-- `for i := 0; i < n; i++`, left early by an error or where the body says so.
unfoldable pub rounds : ℕ → Run Engine Bool → Run Engine (Unit {0})
rounds zero body = return tt
rounds (suc n) body = do stop ← body; if stop then return tt else rounds n body

abbrev pub advance : ℕ → ℕ → Registers → Registers
advance i delta r = set_gpr i (r.gpr i +w delta) r

abbrev pub count_down : RepKind → Registers → Registers
count_down rep r = if is_rep rep then set_gpr reg_rcx (r.gpr reg_rcx -w 1) r else r

-- Where a compare loop stops: after REPE at a difference, after REPNE at a match.
abbrev pub stops : RepKind → Registers → Bool
stops rep_none r = false
stops rep_z r = not (flag zf r.rflags)
stops rep_nz r = flag zf r.rflags

unfoldable pub movs_round : ℕ → ℕ → RepKind → Run Engine Bool
movs_round w delta rep = do
  e ← get
  buf ← load (e.regs.gpr reg_rsi) w prot_read
  store (e.regs.gpr reg_rdi) buf prot_write
  modify_regs (λ r. count_down rep (advance reg_rdi delta (advance reg_rsi delta r)))
  return false

unfoldable pub str_movs : ℕ → RepKind → Run Engine (Unit {0})
str_movs w rep = do
  e ← get
  rounds (rep_iterations rep e.regs) (movs_round w (str_index_delta w e.regs) rep)

unfoldable pub stos_round : List ℕ → ℕ → RepKind → Run Engine Bool
stos_round buf delta rep = do
  e ← get
  store (e.regs.gpr reg_rdi) buf prot_write
  modify_regs (λ r. count_down rep (advance reg_rdi delta r))
  return false

unfoldable pub str_stos : ℕ → RepKind → Bool → Run Engine (Unit {0})
str_stos w rep rex = do
  e ← get
  let buf = u64_to_le (read_width reg_rax w rex e.regs) w
  rounds (rep_iterations rep e.regs) (stos_round buf (str_index_delta w e.regs) rep)

unfoldable pub lods_round : ℕ → ℕ → RepKind → Bool → Run Engine Bool
lods_round w delta rep rex = do
  e ← get
  buf ← load (e.regs.gpr reg_rsi) w prot_read
  modify_regs
      (λ r. count_down rep (advance reg_rsi delta (write_width reg_rax w rex (le_to_u64 buf) r)))
  return false

unfoldable pub str_lods : ℕ → RepKind → Bool → Run Engine (Unit {0})
str_lods w rep rex = do
  e ← get
  rounds (rep_iterations rep e.regs) (lods_round w (str_index_delta w e.regs) rep rex)

unfoldable pub cmps_round : ℕ → ℕ → RepKind → Run Engine Bool
cmps_round w delta rep = do
  e ← get
  a ← load (e.regs.gpr reg_rsi) w prot_read
  b ← load (e.regs.gpr reg_rdi) w prot_read
  difference ← with_flags (λ r. sub_with_flags r (le_to_u64 a) (le_to_u64 b) w)
  modify_regs (λ r. count_down rep (advance reg_rdi delta (advance reg_rsi delta r)))
  e' ← get
  return (stops rep e'.regs)

unfoldable pub str_cmps : ℕ → RepKind → Run Engine (Unit {0})
str_cmps w rep = do
  e ← get
  rounds (rep_iterations rep e.regs) (cmps_round w (str_index_delta w e.regs) rep)

unfoldable pub scas_round : ℕ → ℕ → RepKind → Bool → Run Engine Bool
scas_round w delta rep rex = do
  e ← get
  let a = read_width reg_rax w rex e.regs
  b ← load (e.regs.gpr reg_rdi) w prot_read
  difference ← with_flags (λ r. sub_with_flags r a (le_to_u64 b) w)
  modify_regs (λ r. count_down rep (advance reg_rdi delta r))
  e' ← get
  return (stops rep e'.regs)

unfoldable pub str_scas : ℕ → RepKind → Bool → Run Engine (Unit {0})
str_scas w rep rex = do
  e ← get
  rounds (rep_iterations rep e.regs) (scas_round w (str_index_delta w e.regs) rep rex)
