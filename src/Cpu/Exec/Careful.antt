-- ===== src/Cpu/Exec/Careful.antt =====
-- The helpers of internal/cpu/exec.go are careful with code.
use golinux.Base.{ℕ, zero, suc, Bool, if◌then◌else◌, Option, none, some, List}
use golinux.Cpu.Flags.{Flagged, Shift}
use golinux.Cpu.Run.{Outcome, Run, return}
use golinux.Cpu.Memory.Kept.{CodeKept-refl}
use golinux.Cpu.Operand.{Engine, Operand}
use golinux.Cpu.Operand.Careful.{
  Careful, Careful-fail, Careful-return, Careful-if, Careful-bind, careful_rules,
}
use golinux.Cpu.Exec.Alu.{with_flags, change_flags, alu_finish, alu_bin_op, op_not, op_neg}
use golinux.Cpu.Exec.Stack.{push64, pop64}
use golinux.Cpu.Exec.Divide.{Division, from_outcome, op_mul, op_imul, divide, grp3_op, imul2}
use golinux.Cpu.Exec.Shifts.{shift_grp2, shift_finish}
use golinux.Cpu.Exec.Strings.{
  RepKind, rounds, movs_round, stos_round, lods_round, cmps_round, scas_round, str_movs, str_stos,
  str_lods, str_cmps, str_scas,
}

pub Careful-with_flags : (f : ℕ → Flagged) → Careful (with_flags f)
Careful-with_flags f = record { at = λ e v. CodeKept-refl e.space v }

pub Careful-change_flags : (f : ℕ → ℕ) → Careful (change_flags f)
Careful-change_flags f = record { at = λ e v. CodeKept-refl e.space v }

pub Careful-from_outcome : {A : Type 0} (r : Outcome A) → Careful (from_outcome r)
Careful-from_outcome r = record { at = λ e v. CodeKept-refl e.space v }

ruleset rules = (careful_rules, Careful-with_flags, Careful-change_flags, Careful-from_outcome)

alu_finish-Careful :
    (f : Option (ℕ → Flagged)) (idx : ℕ) (dst : Operand) (w : ℕ) → Careful (alu_finish f idx dst w)
alu_finish-Careful none idx dst w = Careful-fail _
alu_finish-Careful (some op) idx dst w = search rules

pub alu_bin_op-Careful : (idx : ℕ) (dst src : Operand) (w : ℕ) → Careful (alu_bin_op idx dst src w)
unfolding alu_bin_op
alu_bin_op-Careful idx dst src w = search (rules, alu_finish-Careful)

op_neg-Careful : (rm : Operand) (w : ℕ) → Careful (op_neg rm w)
unfolding op_neg
op_neg-Careful rm w = search rules

pub push64-Careful : (v : ℕ) → Careful (push64 v)
unfolding push64
push64-Careful v = search rules

pub pop64-Careful : Careful pop64
unfolding pop64
pop64-Careful = search rules

op_mul-Careful : (rm : Operand) (w : ℕ) → Careful (op_mul rm w)
unfolding op_mul
op_mul-Careful rm w = search rules

op_imul-Careful : (rm : Operand) (w : ℕ) → Careful (op_imul rm w)
unfolding op_imul
op_imul-Careful rm w = search rules

op_not-Careful : (rm : Operand) (w : ℕ) → Careful (op_not rm w)
unfolding op_not
op_not-Careful rm w = search rules

divide-Careful :
    (division : ℕ → ℕ → ℕ → ℕ → Outcome Division) (rm : Operand) (w : ℕ)
    → Careful (divide division rm w)
unfolding divide
divide-Careful division rm w = search rules depth 12 fits 5000

pub imul2-Careful : (dst : Operand) (a b w : ℕ) → Careful (imul2 dst a b w)
unfolding imul2
imul2-Careful dst a b w = search rules

pub grp3_op-Careful : (idx : ℕ) (rm : Operand) (w : ℕ) → Careful (grp3_op idx rm w)
unfolding grp3_op
grp3_op-Careful idx rm w =
    search (rules, op_not-Careful, op_neg-Careful, op_mul-Careful, op_imul-Careful, divide-Careful)
      depth 12 fits 5000

shift_finish-Careful :
    (s : Option Shift) (rm : Operand) (w count a : ℕ) → Careful (shift_finish s rm w count a)
shift_finish-Careful none rm w count a = Careful-fail _
shift_finish-Careful (some op) rm w count a = search rules

pub shift_grp2-Careful : (idx : ℕ) (rm : Operand) (w n : ℕ) → Careful (shift_grp2 idx rm w n)
unfolding shift_grp2
shift_grp2-Careful idx rm w n = search (rules, shift_finish-Careful)

rounds-Careful : (n : ℕ) (body : Run Engine Bool) → Careful body → Careful (rounds n body)
unfolding rounds
rounds-Careful zero body p = search rules
rounds-Careful (suc n) body p =
    Careful-bind body (λ stop. if stop then return tt else rounds n body) p
      λ stop.
        Careful-if stop (return tt) (rounds n body) (Careful-return tt) (rounds-Careful n body p)

movs_round-Careful : (w delta : ℕ) (rep : RepKind) → Careful (movs_round w delta rep)
unfolding movs_round
movs_round-Careful w delta rep = search rules

stos_round-Careful : (buf : List ℕ) (delta : ℕ) (rep : RepKind) → Careful (stos_round buf delta rep)
unfolding stos_round
stos_round-Careful buf delta rep = search rules

lods_round-Careful :
    (w delta : ℕ) (rep : RepKind) (rex : Bool) → Careful (lods_round w delta rep rex)
unfolding lods_round
lods_round-Careful w delta rep rex = search rules

cmps_round-Careful : (w delta : ℕ) (rep : RepKind) → Careful (cmps_round w delta rep)
unfolding cmps_round
cmps_round-Careful w delta rep = search rules depth 12 fits 5000

scas_round-Careful :
    (w delta : ℕ) (rep : RepKind) (rex : Bool) → Careful (scas_round w delta rep rex)
unfolding scas_round
scas_round-Careful w delta rep rex = search rules

ruleset rounds_rules = (
  rules, rounds-Careful, movs_round-Careful, stos_round-Careful, lods_round-Careful,
  cmps_round-Careful, scas_round-Careful,
)

pub str_movs-Careful : (w : ℕ) (rep : RepKind) → Careful (str_movs w rep)
unfolding str_movs
str_movs-Careful w rep = search rounds_rules

pub str_stos-Careful : (w : ℕ) (rep : RepKind) (rex : Bool) → Careful (str_stos w rep rex)
unfolding str_stos
str_stos-Careful w rep rex = search rounds_rules

pub str_lods-Careful : (w : ℕ) (rep : RepKind) (rex : Bool) → Careful (str_lods w rep rex)
unfolding str_lods
str_lods-Careful w rep rex = search rounds_rules

pub str_cmps-Careful : (w : ℕ) (rep : RepKind) → Careful (str_cmps w rep)
unfolding str_cmps
str_cmps-Careful w rep = search rounds_rules

pub str_scas-Careful : (w : ℕ) (rep : RepKind) (rex : Bool) → Careful (str_scas w rep rex)
unfolding str_scas
str_scas-Careful w rep rex = search rounds_rules
