-- ===== src/Cpu/Execute/CodeKept.antt =====
-- Every instruction is careful with code.
use golinux.Base.{ℕ, Bool}
use golinux.Cpu.Flags.{Flagged}
use golinux.Cpu.Operand.{Engine, Operand}
use golinux.Cpu.Operand.Careful.{Careful, Careful-fail, careful_rules}
use golinux.Cpu.Exec.Careful.{
  Careful-with_flags, Careful-change_flags, alu_bin_op-Careful, push64-Careful, pop64-Careful,
  imul2-Careful, grp3_op-Careful, shift_grp2-Careful, str_movs-Careful, str_stos-Careful,
  str_lods-Careful, str_cmps-Careful, str_scas-Careful,
}
use golinux.Cpu.Exec.Bits.{
  BitAction, test_only, set_bit, reset_bit, complement_bit, bit_write, bit_apply, bit_test_reg,
  bit_test_imm, bit_scan, count_zeros, scan_forward, scan_reverse, popcnt, bswap, double_shift,
}
use golinux.Cpu.Exec.Atomic.{cmpxchg, xadd}
use golinux.Cpu.Execute.{
  Instruction, on_reg32, on_operand, do_test, do_move, do_exchange, do_call, do_leave, do_ret,
  do_setcc, do_cmov, do_movzx, do_movsx, do_imul, execute, alu, add32, test, move, lea, push_reg,
  pop_reg, push_imm, push_operand, exchange, movsxd, imul, group3, inc32, dec32, inc, dec,
  call_operand, jmp_operand, shift, call_rel, jmp_rel, jcc, ret, nop, leave, ret_imm, extend_acc,
  sign_acc, set_direction, movs, cmps, stos, lods, scas, setcc, cmov, movzx, movsx, imul_operand,
  double, bit_test, bit_test_constant, compare_exchange, exchange_add, byte_swap, forward, reverse,
  population, syscall, cpuid, other,
}

ruleset rules = (careful_rules, Careful-with_flags, Careful-change_flags)

on_reg32-Careful : (i : ℕ) (f : ℕ → ℕ → Flagged) → Careful (on_reg32 i f)
unfolding on_reg32
on_reg32-Careful i f = search rules

on_operand-Careful : (rm : Operand) (w : ℕ) (f : ℕ → ℕ → Flagged) → Careful (on_operand rm w f)
unfolding on_operand
on_operand-Careful rm w f = search rules

do_test-Careful : (x y : Operand) (w : ℕ) → Careful (do_test x y w)
unfolding do_test
do_test-Careful x y w = search rules

do_move-Careful : (x y : Operand) (w : ℕ) → Careful (do_move x y w)
unfolding do_move
do_move-Careful x y w = search rules

do_exchange-Careful : (x y : Operand) (w : ℕ) → Careful (do_exchange x y w)
unfolding do_exchange
do_exchange-Careful x y w = search rules

do_call-Careful : (target : ℕ) → Careful (do_call target)
unfolding do_call
do_call-Careful target = search (rules, push64-Careful)

do_leave-Careful : Careful do_leave
unfolding do_leave
do_leave-Careful = search (rules, pop64-Careful)

do_ret-Careful : (n : ℕ) → Careful (do_ret n)
unfolding do_ret
do_ret-Careful n = search (rules, pop64-Careful)

do_setcc-Careful : (code : ℕ) (rm : Operand) → Careful (do_setcc code rm)
unfolding do_setcc
do_setcc-Careful code rm = search rules

do_cmov-Careful : (code : ℕ) (x y : Operand) (w : ℕ) → Careful (do_cmov code x y w)
unfolding do_cmov
do_cmov-Careful code x y w = search (rules, do_move-Careful)

do_movzx-Careful : (x y : Operand) (v w : ℕ) → Careful (do_movzx x y v w)
unfolding do_movzx
do_movzx-Careful x y v w = search rules

do_movsx-Careful : (x y : Operand) (v w : ℕ) → Careful (do_movsx x y v w)
unfolding do_movsx
do_movsx-Careful x y v w = search rules

do_imul-Careful : (x y : Operand) (w : ℕ) → Careful (do_imul x y w)
unfolding do_imul
do_imul-Careful x y w = search (rules, imul2-Careful)

bit_write-Careful :
    (action : BitAction) (rm : Operand) (w base bit : ℕ) → Careful (bit_write action rm w base bit)
bit_write-Careful test_only rm w base bit = search rules
bit_write-Careful set_bit rm w base bit = search rules
bit_write-Careful reset_bit rm w base bit = search rules
bit_write-Careful complement_bit rm w base bit = search rules

bit_apply-Careful :
    (action : BitAction) (rm : Operand) (w bit : ℕ) → Careful (bit_apply action rm w bit)
unfolding bit_apply
bit_apply-Careful action rm w bit = search (rules, bit_write-Careful)

bit_test_reg-Careful :
    (action : BitAction) (rm offset : Operand) (w : ℕ) → Careful (bit_test_reg action rm offset w)
unfolding bit_test_reg
bit_test_reg-Careful action rm offset w = search (rules, bit_apply-Careful)

bit_test_imm-Careful :
    (action : BitAction) (rm : Operand) (n w : ℕ) → Careful (bit_test_imm action rm n w)
unfolding bit_test_imm
bit_test_imm-Careful action rm n w = search (bit_apply-Careful)

bit_scan-Careful : (f : ℕ → ℕ) (dst : Operand) (w v : ℕ) → Careful (bit_scan f dst w v)
unfolding bit_scan
bit_scan-Careful f dst w v = search rules

count_zeros-Careful : (n : ℕ) (dst : Operand) (w v : ℕ) → Careful (count_zeros n dst w v)
unfolding count_zeros
count_zeros-Careful n dst w v = search rules

scan_forward-Careful : (dst rm : Operand) (w : ℕ) (f3 : Bool) → Careful (scan_forward dst rm w f3)
unfolding scan_forward
scan_forward-Careful dst rm w f3 = search (rules, bit_scan-Careful, count_zeros-Careful)

scan_reverse-Careful : (dst rm : Operand) (w : ℕ) (f3 : Bool) → Careful (scan_reverse dst rm w f3)
unfolding scan_reverse
scan_reverse-Careful dst rm w f3 = search (rules, bit_scan-Careful, count_zeros-Careful)

popcnt-Careful : (dst rm : Operand) (w : ℕ) → Careful (popcnt dst rm w)
unfolding popcnt
popcnt-Careful dst rm w = search rules

bswap-Careful : (r : Operand) (w : ℕ) → Careful (bswap r w)
unfolding bswap
bswap-Careful r w = search rules

double_shift-Careful :
    (left : Bool) (rm source : Operand) (w : ℕ) (amount : Engine → ℕ)
    → Careful (double_shift left rm source w amount)
unfolding double_shift
double_shift-Careful left rm source w amount = search rules depth 12 fits 5000

cmpxchg-Careful : (rm source : Operand) (w : ℕ) → Careful (cmpxchg rm source w)
unfolding cmpxchg
cmpxchg-Careful rm source w = search rules depth 12 fits 5000

xadd-Careful : (rm source : Operand) (w : ℕ) → Careful (xadd rm source w)
unfolding xadd
xadd-Careful rm source w = search rules depth 12 fits 5000

ruleset instruction_rules = (
  rules, alu_bin_op-Careful, push64-Careful, pop64-Careful, imul2-Careful, grp3_op-Careful,
  shift_grp2-Careful, on_reg32-Careful, on_operand-Careful, do_test-Careful, do_move-Careful,
  do_exchange-Careful, do_call-Careful, do_leave-Careful, do_ret-Careful,
)

-- Every instruction that the model runs, whether it returns or fails, leaves a valid memory
-- valid, and where it leaves codeDirty clear, codeDirty was clear and each mapped address with
-- the exec bit holds the byte and the protection it held before. Instructions of the vector, VEX
-- and x87 opcodes are not run by the model: they come with a proof of the same.
pub execute-Careful : (i : Instruction) → Careful (execute i)
unfolding execute
execute-Careful (alu idx dst src w) = search instruction_rules
execute-Careful (add32 i v) = search instruction_rules
execute-Careful (test x y w) = search instruction_rules
execute-Careful (move dst src w) = search instruction_rules
execute-Careful (lea dst rm w) = search instruction_rules
execute-Careful (push_reg i) = search instruction_rules
execute-Careful (pop_reg i) = search instruction_rules
execute-Careful (push_imm v) = search instruction_rules
execute-Careful (push_operand rm) = search instruction_rules
execute-Careful (exchange x y w) = search instruction_rules
execute-Careful (movsxd dst rm) = search instruction_rules
execute-Careful (imul dst rm v w) = search instruction_rules
execute-Careful (group3 idx rm w) = search instruction_rules
execute-Careful (inc32 i) = search instruction_rules
execute-Careful (dec32 i) = search instruction_rules
execute-Careful (inc rm w) = search instruction_rules
execute-Careful (dec rm w) = search instruction_rules
execute-Careful (call_operand rm) = search instruction_rules
execute-Careful (jmp_operand rm) = search instruction_rules
execute-Careful (shift idx rm w count) = search instruction_rules
execute-Careful (call_rel rel) = search instruction_rules
execute-Careful (jmp_rel rel) = search instruction_rules
execute-Careful (jcc code rel) = search instruction_rules
execute-Careful ret = search instruction_rules
execute-Careful nop = search instruction_rules
execute-Careful leave = search instruction_rules
execute-Careful (ret_imm n) = search instruction_rules
execute-Careful (extend_acc w rex) = search instruction_rules
execute-Careful (sign_acc w) = search instruction_rules
execute-Careful (set_direction on) = search instruction_rules
execute-Careful (movs w rep) = search (instruction_rules, str_movs-Careful)
execute-Careful (cmps w rep) = search (instruction_rules, str_cmps-Careful)
execute-Careful (stos w rep rex) = search (instruction_rules, str_stos-Careful)
execute-Careful (lods w rep rex) = search (instruction_rules, str_lods-Careful)
execute-Careful (scas w rep rex) = search (instruction_rules, str_scas-Careful)
execute-Careful (setcc code rm) = search (rules, do_setcc-Careful)
execute-Careful (cmov code dst rm w) = search (rules, do_cmov-Careful)
execute-Careful (movzx dst rm from to) = search (rules, do_movzx-Careful)
execute-Careful (movsx dst rm from to) = search (rules, do_movsx-Careful)
execute-Careful (imul_operand dst rm w) = search (rules, do_imul-Careful)
execute-Careful (double left rm source w count) = search (rules, double_shift-Careful)
execute-Careful (bit_test action rm offset w) = search (rules, bit_test_reg-Careful)
execute-Careful (bit_test_constant action rm n w) = search (rules, bit_test_imm-Careful)
execute-Careful (compare_exchange rm source w) = search (rules, cmpxchg-Careful)
execute-Careful (exchange_add rm source w) = search (rules, xadd-Careful)
execute-Careful (byte_swap r w) = search (rules, bswap-Careful)
execute-Careful (forward dst rm w f3) = search (rules, scan_forward-Careful)
execute-Careful (reverse dst rm w f3) = search (rules, scan_reverse-Careful)
execute-Careful (population dst rm w) = search (rules, popcnt-Careful)
execute-Careful syscall = Careful-fail _
execute-Careful cpuid = Careful-fail _
execute-Careful (other x) = x.careful
