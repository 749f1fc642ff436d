-- ===== src/Cpu/Machine/Blocks.antt =====
-- compileBlock, cachedBlockAt and executeBlock of internal/cpu/block.go.
use golinux.Base.{
  ℕ, zero, suc, ◌-◌, bit_and, Bool, true, false, ◌&&◌, ◌==◌, if◌then◌else◌, Option, none, some,
  List, [], ◌∷◌,
}
use golinux.Base.Word.{◌+w◌, ◌>>w◌}
use golinux.Cpu.Memory.{page_addr}
use golinux.Cpu.Run.{Outcome, done, failed}
use golinux.Cpu.Registers.{array_set}
use golinux.Cpu.Execute.{Instruction, syscall, cpuid}
use golinux.Cpu.Decode.{Extensions}
use golinux.Cpu.Machine.{Block, Machine, cached_decode}

abbrev pub max_block_instructions : ℕ
max_block_instructions = 64

abbrev pub slot_of : ℕ → ℕ
slot_of start = bit_and (start >>w 1) 1023

-- InsSyscall and InsCpuid; `none` is noInsnHook.
pub data InsnId : Type 0 where
  ins_syscall ins_cpuid : InsnId

unfoldable pub insn_id : Instruction → Option InsnId
insn_id syscall = some ins_syscall
insn_id cpuid = some ins_cpuid
insn_id i = none

abbrev pub has_hook : Option InsnId → Bool
has_hook none = false
has_hook (some i) = true

abbrev pub usable : ℕ → Machine → Option Block → Option Block
usable start m none = none
usable start m (some b) =
    if (b.start == start) && (b.generation == m.generation) then some b else none

abbrev pub last_block : ℕ → Machine → Option Block → Option Block
last_block start m none = none
last_block start m (some b) =
    if (m.cached_block_start == start) && (b.generation == m.generation) then some b else none

abbrev pub use_block : ℕ → Block → Machine → Option Block × Machine
use_block start b m = (some b, record m { cached_block_start = start; cached_block = some b })

abbrev pub from_slot : ℕ → Machine → Option Block → Option Block × Machine
from_slot start m none = (none, m)
from_slot start m (some b) = use_block start b m

abbrev pub from_last : ℕ → Machine → Option Block → Option Block × Machine
from_last start m none = from_slot start m (usable start m (m.block_cache (slot_of start)))
from_last start m (some b) = (some b, m)

-- cachedBlockAt, and the first part of compileBlock.
unfoldable pub cached_block_at : ℕ → Machine → Option Block × Machine
cached_block_at start m = from_last start m (last_block start m m.cached_block)

module _ (ext : Extensions) (fuel : ℕ) where
  -- The rest of a block from `pc` on, for `n` more instructions. The first failure to decode is an
  -- error only where the block is empty.
  abbrev pub extend_block :
      (ℕ → Machine → List ℕ × Machine) → ℕ → Outcome ℕ × Machine → Outcome (List ℕ) × Machine
  extend_block rest pc (failed x, m) = (failed x, m)
  extend_block rest pc (done d, m) =
      let f = m.code d in
      let (ds, m') = rest (pc +w f.len) m in
      if has_hook (insn_id f.decoded.instruction)
      then (done [], m)
      else if f.decoded.ends_block
      then (done (d ∷ []), m)
      else (done (d ∷ ds), m')

  abbrev pub or_empty : Outcome (List ℕ) × Machine → List ℕ × Machine
  or_empty (done ds, m) = (ds, m)
  or_empty (failed x, m) = ([], m)

  unfoldable pub more_block : ℕ → ℕ → ℕ → Machine → List ℕ × Machine
  more_block zero page pc m = ([], m)
  more_block (suc n) page pc m =
      let rest = or_empty (extend_block (more_block n page) pc (cached_decode ext fuel pc m)) in
      if page_addr pc == page then rest else ([], m)

  unfoldable pub block_code : ℕ → Machine → Outcome (List ℕ) × Machine
  block_code start m =
      extend_block (more_block (max_block_instructions - 1) (page_addr start)) start
        (cached_decode ext fuel start m)

  abbrev pub keep_block : ℕ → ℕ → Outcome (List ℕ) × Machine → Outcome (Option Block) × Machine
  keep_block start generation (failed x, m) = (failed x, m)
  keep_block start generation (done [], m) = (done none, m)
  keep_block start generation (done (d ∷ ds), m) =
      let b : Block = record { start = start; generation = generation; instructions = d ∷ ds } in
      (
        done (some b),
        record m {
          block_cache = array_set m.block_cache (slot_of start) (some b);
          cached_block_start = start;
          cached_block = some b;
        },
      )

  abbrev pub or_compile : ℕ → Option Block × Machine → Outcome (Option Block) × Machine
  or_compile start (some b, m) = (done (some b), m)
  or_compile start (none, m) = keep_block start m.generation (block_code start m)

  -- compileBlock.
  unfoldable pub compile_block : ℕ → Machine → Outcome (Option Block) × Machine
  compile_block start m = or_compile start (cached_block_at start m)
