-- ===== src/Cpu/Operand.antt =====
-- internal/cpu/operand.go: operands, their effective address, and the accesses through them; and the
-- engine's state that instructions work on (the fields of Engine in internal/cpu/cpu.go that the
-- caches and hooks do not use).
pub mod Bytes
pub mod Laws
pub mod Careful
use golinux.Base.{
  ℕ, zero, suc, ◌+◌, ◌-◌, ◌*◌, ◌%◌, ◌^◌, bit_or, Bool, true, false, if◌then◌else◌, List, [], ◌∷◌,
  Option, none, some, ◌/◌,
}
use golinux.Base.Int.{ℤ, pos, negsuc}
use golinux.Base.Word.{u8, ◌+w◌, ◌-w◌, ◌*w◌, ◌<<w◌, ◌>>w◌, signed, to_word}
use golinux.Cpu.Memory.{Space, Fault, prot_read, prot_write}
use golinux.Cpu.Memory.Copy.{Result, ok, err, read_checked, write_checked}
use golinux.Cpu.Run.{Failure, fault, bad_operand, Outcome, done, failed, Run, ◌>>=◌, return}
use golinux.Cpu.Registers.{Registers, read64, read_width, write_width}

pub record Engine : Type 0 where
  pub regs : Registers
  pub space : Space
  pub cur_instr_end : ℕ

-- e.mem.readChecked and e.mem.writeChecked.
abbrev pub from_result : {A : Type 0} → Engine → Result A × Space → Outcome A × Engine
from_result e (ok a, s) = (done a, record e { space = s })
from_result e (err x, s) = (failed (fault x), record e { space = s })

abbrev pub from_option : Engine → Option Fault × Space → Outcome (Unit {0}) × Engine
from_option e (none, s) = (done tt, record e { space = s })
from_option e (some x, s) = (failed (fault x), record e { space = s })

-- A change of the registers.
abbrev pub modify_regs : (Registers → Registers) → Run Engine (Unit {0})
modify_regs f e = (done tt, record e { regs = f e.regs })

abbrev pub load : ℕ → ℕ → ℕ → Run Engine (List ℕ)
load a n perm e = from_result e (read_checked a n perm e.space)

abbrev pub store : ℕ → List ℕ → ℕ → Run Engine (Unit {0})
store a bs perm e = from_option e (write_checked a bs perm e.space)

pub data SegOverride : Type 0 where
  seg_none seg_fs seg_gs : SegOverride

-- A memory operand computes its address in one of three ways.
pub data Address : Type 0 where
  rip_relative : ℤ → Address
  direct : ℕ → Address
  base_index : Option ℕ → Option ℕ → ℕ → ℤ → Address

pub data Operand : Type 0 where
  reg : ℕ → Bool → Operand
  mem : Address → SegOverride → Operand
  imm : ℕ → Operand

abbrev reg_or_zero : Registers → Option ℕ → ℕ
reg_or_zero r none = 0
reg_or_zero r (some i) = read64 i r

-- A displacement added as effAddr adds it.
abbrev pub add_disp : ℕ → ℤ → ℕ
add_disp a (pos n) = a +w n
add_disp a (negsuc n) = a -w (n + 1)

unfoldable pub address_of : Address → Engine → ℕ
address_of (rip_relative d) e = e.cur_instr_end +w to_word d
address_of (direct a) e = a
address_of (base_index base index scale d) e =
    add_disp ((0 +w reg_or_zero e.regs base) +w reg_or_zero e.regs index *w scale) d

unfoldable pub eff_addr : Address → SegOverride → Engine → ℕ
eff_addr a seg_none e = address_of a e
eff_addr a seg_fs e = address_of a e +w e.regs.fsbase
eff_addr a seg_gs e = address_of a e +w e.regs.gsbase

-- leToU64, from byte `i` on, and u64ToLE.
unfoldable pub le_from : ℕ → List ℕ → ℕ → ℕ
le_from i [] v = v
le_from i (x ∷ xs) v = le_from (suc i) xs (bit_or v (x <<w (8 * i)))

unfoldable pub le_to_u64 : List ℕ → ℕ
unfolding le_from
le_to_u64 bs = le_from 0 bs 0

unfoldable pub le_bytes : ℕ → ℕ → ℕ → List ℕ
le_bytes i v zero = []
le_bytes i v (suc n) = u8 (v >>w (8 * i)) ∷ le_bytes (suc i) v n

unfoldable pub u64_to_le : ℕ → ℕ → List ℕ
unfolding le_bytes
u64_to_le v width = le_bytes 0 v width

unfoldable pub read_operand : Operand → ℕ → Run Engine ℕ
read_operand (reg i rex) width e = (done (read_width i width rex e.regs), e)
read_operand (imm v) width e = (done v, e)
read_operand (mem a seg) width e =
    (do buf ← load (eff_addr a seg e) width prot_read; return (le_to_u64 buf)) e

unfoldable pub write_operand : Operand → ℕ → ℕ → Run Engine (Unit {0})
write_operand (reg i rex) width val e =
    (done tt, record e { regs = write_width i width rex val e.regs })
write_operand (mem a seg) width val e = store (eff_addr a seg e) (u64_to_le val width) prot_write e
write_operand (imm v) width val e = (failed bad_operand, e)

unfoldable pub lea_addr : Operand → Run Engine ℕ
lea_addr (mem a seg) e = (done (eff_addr a seg e), e)
lea_addr (reg i rex) e = (failed bad_operand, e)
lea_addr (imm v) e = (failed bad_operand, e)

-- `x >> k` on a Go int64.
abbrev pub shift_right : ℤ → ℕ → ℤ
shift_right (pos n) k = pos (n / 2 ^ k)
shift_right (negsuc n) k = negsuc (n / 2 ^ k)

unfoldable pub sign_extend : ℕ → ℕ → ℕ
sign_extend v from_bits =
    let shift = 64 - from_bits in to_word (shift_right (signed 64 (v <<w shift)) shift)
