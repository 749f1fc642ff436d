-- ===== src/Cpu/Registers.antt =====
-- internal/cpu/registers.go: the register file, and RegRead to RegWriteYMM of internal/cpu/cpu.go.
-- The arrays are functions of the index; the x87 registers are left out.
pub mod Laws
use golinux.Base.{
  ℕ, ◌-◌, bit_or, Bool, not, ◌&&◌, ltb, leb, ◌==◌, if◌then◌else◌, Option, none, some,
}
use golinux.Base.Bits.{bit_clear}
use golinux.Base.Word.{u8, u16, u32, ◌<<w◌, ◌>>w◌}

-- A vector register's half, its low and its high word.
pub record Lanes : Type 0 where
  pub lo : ℕ
  pub hi : ℕ

pub record Registers : Type 0 where
  pub gpr : ℕ → ℕ
  pub rip : ℕ
  pub rflags : ℕ
  pub fsbase : ℕ
  pub gsbase : ℕ
  pub xmm : ℕ → Lanes
  pub ymm_hi : ℕ → Lanes
  pub mxcsr : ℕ

abbrev pub reg_rax : ℕ
reg_rax = 0

abbrev pub reg_rcx : ℕ
reg_rcx = 1

abbrev pub reg_rdx : ℕ
reg_rdx = 2

abbrev pub reg_rsp : ℕ
reg_rsp = 4

abbrev pub reg_rsi : ℕ
reg_rsi = 6

abbrev pub reg_rdi : ℕ
reg_rdi = 7

-- `a[i] = v`.
abbrev pub array_set {ℓ} : {A : Type ℓ} → (ℕ → A) → ℕ → A → ℕ → A
array_set a i v j = if j == i then v else a j

abbrev pub set_gpr : ℕ → ℕ → Registers → Registers
set_gpr i v r = record r { gpr = array_set r.gpr i v }

-- Whether an 8-bit access is to AH, CH, DH or BH.
abbrev pub is_high_byte : ℕ → Bool → Bool
is_high_byte idx rex = not rex && leb 4 idx && leb idx 7

unfoldable pub read8 : ℕ → Bool → Registers → ℕ
read8 idx rex r = if is_high_byte idx rex then u8 (r.gpr (idx - 4) >>w 8) else u8 (r.gpr idx)

unfoldable pub write8 : ℕ → Bool → ℕ → Registers → Registers
write8 idx rex v r =
    if is_high_byte idx rex
    then set_gpr (idx - 4) (bit_or (bit_clear (r.gpr (idx - 4)) 0xFF00) (v <<w 8)) r
    else set_gpr idx (bit_or (bit_clear (r.gpr idx) 0xFF) v) r

abbrev pub read16 : ℕ → Registers → ℕ
read16 idx r = u16 (r.gpr idx)

unfoldable pub write16 : ℕ → ℕ → Registers → Registers
write16 idx v r = set_gpr idx (bit_or (bit_clear (r.gpr idx) 0xFFFF) v) r

abbrev pub read32 : ℕ → Registers → ℕ
read32 idx r = u32 (r.gpr idx)

abbrev pub write32 : ℕ → ℕ → Registers → Registers
write32 idx v r = set_gpr idx v r

abbrev pub read64 : ℕ → Registers → ℕ
read64 idx r = r.gpr idx

abbrev pub write64 : ℕ → ℕ → Registers → Registers
write64 idx v r = set_gpr idx v r

unfoldable pub read_width : ℕ → ℕ → Bool → Registers → ℕ
read_width idx width rex r =
    if width == 1
    then read8 idx rex r
    else if width == 2
    then read16 idx r
    else if width == 4
    then read32 idx r
    else read64 idx r

unfoldable pub write_width : ℕ → ℕ → Bool → ℕ → Registers → Registers
write_width idx width rex val r =
    if width == 1
    then write8 idx rex (u8 val) r
    else if width == 2
    then write16 idx (u16 val) r
    else if width == 4
    then write32 idx (u32 val) r
    else write64 idx val r

-- writeXMM, writeXMMVex and writeYMM.
unfoldable pub write_xmm : ℕ → Lanes → Registers → Registers
write_xmm i v r = record r { xmm = array_set r.xmm i v }

unfoldable pub write_xmm_vex : ℕ → Lanes → Registers → Registers
write_xmm_vex i v r = record r {
  xmm = array_set r.xmm i v;
  ymm_hi = array_set r.ymm_hi i (record { lo = 0; hi = 0 });
}

unfoldable pub write_ymm : ℕ → Lanes → Lanes → Registers → Registers
write_ymm i low high r = record r {
  xmm = array_set r.xmm i low;
  ymm_hi = array_set r.ymm_hi i high;
}

abbrev pub read_ymm : ℕ → Registers → Lanes × Lanes
read_ymm i r = (r.xmm i, r.ymm_hi i)

-- RegRead and RegWrite: an id that they do not know is an error.
unfoldable pub reg_read : ℕ → Registers → Option ℕ
reg_read reg r =
    if reg == 16
    then some r.rip
    else if reg == 17
    then some r.rflags
    else if reg == 18
    then some r.fsbase
    else if reg == 19
    then some r.gsbase
    else if reg == 132
    then some r.mxcsr
    else if leb reg 15
    then some (r.gpr reg)
    else if leb 100 reg && leb reg 115
    then some (r.xmm (reg - 100)).lo
    else if leb 116 reg && leb reg 131
    then some (r.xmm (reg - 116)).lo
    else none

unfoldable pub reg_write : ℕ → ℕ → Registers → Option Registers
reg_write reg val r =
    if reg == 16
    then some (record r { rip = val })
    else if reg == 17
    then some (record r { rflags = val })
    else if reg == 18
    then some (record r { fsbase = val })
    else if reg == 19
    then some (record r { gsbase = val })
    else if reg == 132
    then some (record r { mxcsr = u32 val })
    else if leb reg 15
    then some (set_gpr reg val r)
    else none

-- RegReadXMM to RegWriteYMM, for an index that is not negative.
unfoldable pub reg_read_xmm : ℕ → Registers → Option Lanes
reg_read_xmm n r = if ltb 15 n then none else some (r.xmm n)

unfoldable pub reg_write_xmm : ℕ → Lanes → Registers → Option Registers
unfolding write_xmm
reg_write_xmm n v r = if ltb 15 n then none else some (write_xmm n v r)

unfoldable pub reg_read_ymm : ℕ → Registers → Option (Lanes × Lanes)
reg_read_ymm n r = if ltb 15 n then none else some (read_ymm n r)

unfoldable pub reg_write_ymm : ℕ → Lanes → Lanes → Registers → Option Registers
unfolding write_ymm
reg_write_ymm n low high r = if ltb 15 n then none else some (write_ymm n low high r)
