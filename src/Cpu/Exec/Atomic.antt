-- ===== src/Cpu/Exec/Atomic.antt =====
-- CMPXCHG and XADD of internal/cpu/twobyte.go.
use golinux.Base.{ℕ, bit_and, false, ◌==◌, if◌then◌else◌}
use golinux.Cpu.Flags.{mask_width, add_with_flags, sub_with_flags}
use golinux.Cpu.Run.{Run, ◌>>=◌, ◌>>◌}
use golinux.Cpu.Registers.{reg_rax}
use golinux.Cpu.Operand.{Engine, Operand, reg, read_operand, write_operand}
use golinux.Cpu.Exec.Alu.{with_flags}

-- AL, AX, EAX or RAX.
abbrev pub accumulator : Operand
accumulator = reg reg_rax false

unfoldable pub cmpxchg : Operand → Operand → ℕ → Run Engine (Unit {0})
cmpxchg rm source w = do
  dest ← read_operand rm w
  acc ← read_operand accumulator w
  src ← read_operand source w
  difference ← with_flags (λ r. sub_with_flags r dest acc w)
  let dest' = bit_and dest (mask_width w)
  if dest' == bit_and acc (mask_width w)
      then write_operand rm w src
      else write_operand accumulator w dest'

unfoldable pub xadd : Operand → Operand → ℕ → Run Engine (Unit {0})
xadd rm source w = do
  dest ← read_operand rm w
  src ← read_operand source w
  sum ← with_flags (λ r. add_with_flags r dest src w)
  write_operand source w dest
  write_operand rm w sum
