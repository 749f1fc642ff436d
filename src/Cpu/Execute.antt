-- ===== src/Cpu/Execute.antt =====
-- The instructions that internal/cpu/decode.go decodes, and what each does: the bodies of its closures.
pub mod Laws
pub mod CodeKept
use golinux.Base.{
  ℕ, ◌+◌, ◌-◌, ◌*◌, ◌^◌, ◌%◌, bit_and, Bool, true, false, leb, ◌==◌, if◌then◌else◌, Option, none,
  some,
}
use golinux.Base.Int.{ℤ}
use golinux.Base.Word.{◌+w◌, u16, u32, to_word}
use golinux.Cpu.Flags.{
  Flagged, df, set_flag, logic_flags, add32_flags, inc32_flags, dec32_flags, inc_flags, dec_flags,
  eval_cc,
}
use golinux.Cpu.Registers.{
  Registers, set_gpr, read8, read16, read32, read64, write16, write32, write64, reg_rax, reg_rcx,
  reg_rdx, reg_rsp,
}
use golinux.Cpu.Run.{Failure, panicked, Outcome, done, failed, Run, ◌>>=◌, ◌>>◌, return, fail, get}
use golinux.Cpu.Operand.{
  Engine, Operand, reg, modify_regs, read_operand, write_operand, lea_addr, sign_extend,
}
use golinux.Cpu.Operand.Careful.{Careful}
use golinux.Cpu.Exec.Bits.{
  BitAction, bit_test_reg, bit_test_imm, scan_forward, scan_reverse, popcnt, bswap, double_shift,
}
use golinux.Cpu.Exec.Atomic.{cmpxchg, xadd}
use golinux.Cpu.Exec.Alu.{set_rflags, with_flags, change_flags, alu_bin_op}
use golinux.Cpu.Exec.Stack.{push64, pop64}
use golinux.Cpu.Exec.Divide.{grp3_op, imul2}
use golinux.Cpu.Exec.Shifts.{shift_grp2}
use golinux.Cpu.Exec.Strings.{RepKind, str_movs, str_stos, str_lods, str_cmps, str_scas}

-- Where a shift's count comes from: the instruction, or CL.
pub data Count : Type 0 where
  constant : ℕ → Count
  from_cl : Bool → Count

-- An instruction of the SSE, VEX and x87 opcodes is given as a method, which reaches memory as the
-- others do.
pub record Extended : Type 0 where
  pub run : Run Engine Bool
  pub careful : Careful run

-- Each constructor holds what the closure of its instruction captures. The loop of the engine runs
-- SYSCALL and CPUID, which have no closure.
pub data Instruction : Type 0 where
  alu : ℕ → Operand → Operand → ℕ → Instruction
  add32 : ℕ → ℕ → Instruction
  test : Operand → Operand → ℕ → Instruction
  move : Operand → Operand → ℕ → Instruction
  lea : Operand → Operand → ℕ → Instruction
  push_reg pop_reg push_imm : ℕ → Instruction
  push_operand : Operand → Instruction
  exchange : Operand → Operand → ℕ → Instruction
  movsxd : Operand → Operand → Instruction
  imul : Operand → Operand → ℕ → ℕ → Instruction
  group3 : ℕ → Operand → ℕ → Instruction
  inc32 dec32 : ℕ → Instruction
  inc dec : Operand → ℕ → Instruction
  call_operand jmp_operand : Operand → Instruction
  shift : ℕ → Operand → ℕ → Count → Instruction
  call_rel jmp_rel : ℤ → Instruction
  jcc : ℕ → ℤ → Instruction
  ret nop leave : Instruction
  ret_imm : ℕ → Instruction
  extend_acc : ℕ → Bool → Instruction
  sign_acc : ℕ → Instruction
  set_direction : Bool → Instruction
  movs cmps : ℕ → RepKind → Instruction
  stos lods scas : ℕ → RepKind → Bool → Instruction
  setcc : ℕ → Operand → Instruction
  cmov : ℕ → Operand → Operand → ℕ → Instruction
  movzx movsx : Operand → Operand → ℕ → ℕ → Instruction
  imul_operand : Operand → Operand → ℕ → Instruction
  double : Bool → Operand → Operand → ℕ → Count → Instruction
  bit_test : BitAction → Operand → Operand → ℕ → Instruction
  bit_test_constant : BitAction → Operand → ℕ → ℕ → Instruction
  compare_exchange exchange_add : Operand → Operand → ℕ → Instruction
  byte_swap : Operand → ℕ → Instruction
  forward reverse : Operand → Operand → ℕ → Bool → Instruction
  population : Operand → Operand → ℕ → Instruction
  syscall cpuid : Instruction
  other : Extended → Instruction

-- Every instruction reports whether it has set rip itself.
abbrev pub stay : Run Engine (Unit {0}) → Run Engine Bool
stay m = do m; return false

abbrev pub set_rip : ℕ → Registers → Registers
set_rip target r = record r { rip = target }

abbrev pub jump : ℕ → Run Engine Bool
jump target = do modify_regs (set_rip target); return true

-- e.curInstrEnd + uint64(int64(rel))
abbrev pub relative : Engine → ℤ → ℕ
relative e rel = e.cur_instr_end +w to_word rel

-- A flag operation on a 32-bit register.
unfoldable pub on_reg32 : ℕ → (ℕ → ℕ → Flagged) → Run Engine (Unit {0})
on_reg32 i f = do e ← get; v ← with_flags (λ r. f r (read32 i e.regs)); modify_regs (write32 i v)

unfoldable pub on_operand : Operand → ℕ → (ℕ → ℕ → Flagged) → Run Engine (Unit {0})
on_operand rm w f = do a ← read_operand rm w; v ← with_flags (λ r. f r a); write_operand rm w v

unfoldable pub do_test : Operand → Operand → ℕ → Run Engine (Unit {0})
do_test x y w = do
  a ← read_operand x w
  b ← read_operand y w
  change_flags (logic_flags (bit_and a b) w)

unfoldable pub do_move : Operand → Operand → ℕ → Run Engine (Unit {0})
do_move dst src w = do v ← read_operand src w; write_operand dst w v

unfoldable pub do_exchange : Operand → Operand → ℕ → Run Engine (Unit {0})
do_exchange x y w = do
  a ← read_operand x w
  b ← read_operand y w
  write_operand x w b
  write_operand y w a

unfoldable pub do_call : ℕ → Run Engine Bool
do_call target = do e ← get; push64 e.cur_instr_end; jump target

unfoldable pub do_leave : Run Engine (Unit {0})
do_leave = do modify_regs (λ r. set_gpr reg_rsp (r.gpr 5) r); v ← pop64; modify_regs (set_gpr 5 v)

unfoldable pub do_ret : ℕ → Run Engine Bool
do_ret n = do target ← pop64; modify_regs (λ r. set_gpr reg_rsp (r.gpr reg_rsp +w n) r); jump target

unfoldable pub extend_acc_regs : ℕ → Bool → Registers → Registers
extend_acc_regs w rex r =
    if w == 8
    then write64 reg_rax (sign_extend (read32 reg_rax r) 32) r
    else if w == 4
    then write32 reg_rax (u32 (sign_extend (read16 reg_rax r) 16)) r
    else if w == 2
    then write16 reg_rax (u16 (sign_extend (read8 reg_rax rex r) 8)) r
    else r

unfoldable pub sign_acc_regs : ℕ → Registers → Registers
sign_acc_regs w r =
    if w == 8
    then write64 reg_rdx (if leb (2 ^ 63) (read64 reg_rax r) then 2 ^ 64 - 1 else 0) r
    else if w == 4
    then write32 reg_rdx (if leb (2 ^ 31) (read32 reg_rax r) then 0xFFFFFFFF else 0) r
    else if w == 2
    then write16 reg_rdx (if leb (2 ^ 15) (read16 reg_rax r) then 0xFFFF else 0) r
    else r

unfoldable pub shift_amount : Count → Engine → ℕ
shift_amount (constant n) e = n
shift_amount (from_cl rex) e = read8 reg_rcx rex e.regs

unfoldable pub do_setcc : ℕ → Operand → Run Engine (Unit {0})
do_setcc code rm = do e ← get; write_operand rm 1 (if eval_cc e.regs.rflags code then 1 else 0)

unfoldable pub do_cmov : ℕ → Operand → Operand → ℕ → Run Engine (Unit {0})
do_cmov code dst rm w = do
  e ← get
  if eval_cc e.regs.rflags code then do_move dst rm w else return tt

unfoldable pub do_movzx : Operand → Operand → ℕ → ℕ → Run Engine (Unit {0})
do_movzx dst rm from to = do v ← read_operand rm from; write_operand dst to v

unfoldable pub do_movsx : Operand → Operand → ℕ → ℕ → Run Engine (Unit {0})
do_movsx dst rm from to = do
  v ← read_operand rm from
  write_operand dst to (sign_extend v (from * 8))

unfoldable pub do_imul : Operand → Operand → ℕ → Run Engine (Unit {0})
do_imul dst rm w = do a ← read_operand dst w; b ← read_operand rm w; imul2 dst a b w

unfoldable pub execute : Instruction → Run Engine Bool
execute (alu idx dst src w) = stay (alu_bin_op idx dst src w)
execute (add32 i v) = stay (on_reg32 i (λ r a. add32_flags r a (u32 v)))
execute (test x y w) = stay (do_test x y w)
execute (move dst src w) = stay (do_move dst src w)
execute (lea dst rm w) = stay (do a ← lea_addr rm; write_operand dst w a)
execute (push_reg i) = stay (do e ← get; push64 (read64 i e.regs))
execute (pop_reg i) = stay (do v ← pop64; modify_regs (write64 i v))
execute (push_imm v) = stay (push64 v)
execute (push_operand rm) = stay (do v ← read_operand rm 8; push64 v)
execute (exchange x y w) = stay (do_exchange x y w)
execute (movsxd dst rm) = stay (do v ← read_operand rm 4; write_operand dst 8 (sign_extend v 32))
execute (imul dst rm v w) = stay (do a ← read_operand rm w; imul2 dst a v w)
execute (group3 idx rm w) = stay (grp3_op idx rm w)
execute (inc32 i) = stay (on_reg32 i inc32_flags)
execute (dec32 i) = stay (on_reg32 i dec32_flags)
execute (inc rm w) = stay (on_operand rm w (λ r a. inc_flags r a w))
execute (dec rm w) = stay (on_operand rm w (λ r a. dec_flags r a w))
execute (call_operand rm) = do target ← read_operand rm 8; do_call target
execute (jmp_operand rm) = do target ← read_operand rm 8; jump target
execute (shift idx rm w count) = stay (do e ← get; shift_grp2 idx rm w (shift_amount count e))
execute (call_rel rel) = do e ← get; do_call (relative e rel)
execute (jmp_rel rel) = do e ← get; jump (relative e rel)
execute (jcc code rel) = do
  e ← get
  if eval_cc e.regs.rflags code then jump (relative e rel) else return false
execute ret = do target ← pop64; jump target
execute nop = return false
execute leave = stay do_leave
execute (ret_imm n) = do_ret n
execute (extend_acc w rex) = stay (modify_regs (extend_acc_regs w rex))
execute (sign_acc w) = stay (modify_regs (sign_acc_regs w))
execute (set_direction on) = stay (change_flags (set_flag df on))
execute (movs w rep) = stay (str_movs w rep)
execute (cmps w rep) = stay (str_cmps w rep)
execute (stos w rep rex) = stay (str_stos w rep rex)
execute (lods w rep rex) = stay (str_lods w rep rex)
execute (scas w rep rex) = stay (str_scas w rep rex)
execute (setcc code rm) = stay (do_setcc code rm)
execute (cmov code dst rm w) = stay (do_cmov code dst rm w)
execute (movzx dst rm from to) = stay (do_movzx dst rm from to)
execute (movsx dst rm from to) = stay (do_movsx dst rm from to)
execute (imul_operand dst rm w) = stay (do_imul dst rm w)
execute (double left rm source w count) = stay (double_shift left rm source w (shift_amount count))
execute (bit_test action rm offset w) = do c ← bit_test_reg action rm offset w; return false
execute (bit_test_constant action rm n w) = stay (bit_test_imm action rm n w)
execute (compare_exchange rm source w) = stay (cmpxchg rm source w)
execute (exchange_add rm source w) = stay (xadd rm source w)
execute (byte_swap r w) = stay (bswap r w)
execute (forward dst rm w f3) = stay (scan_forward dst rm w f3)
execute (reverse dst rm w f3) = stay (scan_reverse dst rm w f3)
execute (population dst rm w) = stay (popcnt dst rm w)
execute syscall = fail panicked
execute cpuid = fail panicked
execute (other x) = x.run
