-- ===== src/Cpu/Machine.antt =====
-- The engine of internal/cpu/cpu.go and internal/cpu/block.go with its caches: decoded
-- instructions, tables of them for a page of code, and basic blocks. The Go objects behind
-- pointers stand on heaps here, since blocks and tables share instructions.
pub mod Blocks
pub mod Loop
pub mod Current
pub mod Tables
pub mod Coherent
pub mod Lookup
pub mod Compile
pub mod Building
pub mod Steps
pub mod Running
pub mod BlockRun
pub mod Chaining
pub mod Refinement
pub mod Rounds
pub mod Emulation
pub mod Starting
mod Tests
use golinux.Base.{
  ℕ, zero, suc, ◌+◌, ◌^◌, ◌%◌, ◌/◌, bit_and, Bool, true, false, not, ◌&&◌, ◌==◌, if◌then◌else◌,
  Option, none, some, List, [],
}
use golinux.Base.Map.{find, put}
use golinux.Base.Word.{◌+w◌}
use golinux.Cpu.Memory.{MemType, page_addr, new_memory, consume_code_dirty}
use golinux.Cpu.Run.{Failure, Outcome, done, failed, Run, and_then, ◌>>=◌, return}
use golinux.Cpu.Registers.{array_set}
use golinux.Cpu.Operand.{Engine, Operand, reg, mem, imm, read_operand}
use golinux.Cpu.ModRm.{Cursor}
use golinux.Cpu.Exec.Bits.{BitAction, Captured, bit_operand}
use golinux.Cpu.Execute.{Instruction, bit_test, execute}
use golinux.Cpu.Decode.Prefixes.{Decoded}
use golinux.Cpu.Decode.{Extensions, Fetched, decode_one}

-- basicBlock, with pointers to its instructions.
pub record Block : Type 0 where
  pub start : ℕ
  pub generation : ℕ
  pub instructions : List ℕ

-- `code` and `tables` are the heaps of decoded instructions and of decodedPage arrays, and
-- `next_code` and `next_table` the next pointers.
pub record Machine : Type 0 where
  pub core : Engine
  pub stop_requested : Bool
  pub code : ℕ → Fetched
  pub next_code : ℕ
  pub tables : ℕ → ℕ → Option ℕ
  pub next_table : ℕ
  pub decode_cache : List (ℕ × ℕ)
  pub cached_table_addr : ℕ
  pub cached_table : Option ℕ
  pub block_jit : Bool
  pub block_cache : ℕ → Option Block
  pub generation : ℕ
  pub cached_block_start : ℕ
  pub cached_block : Option Block
  pub trace : ℕ → ℕ
  pub trace_idx : ℕ

abbrev pub set_core : Engine → Machine → Machine
set_core e m = record m { core = e }

-- invalidateCodeCaches. The array of blocks stays; the generation tells which are old.
unfoldable pub invalidate_code_caches : Machine → Machine
invalidate_code_caches m = record m {
  decode_cache = [];
  cached_table = none;
  generation = m.generation +w 1;
  cached_block_start = 0;
  cached_block = none;
}

unfoldable pub set_block_jit : Bool → Machine → Machine
unfolding invalidate_code_caches
set_block_jit true m =
    if m.block_jit then m else invalidate_code_caches (record m { block_jit = true })
set_block_jit false m =
    if m.block_jit then invalidate_code_caches (record m { block_jit = false }) else m

-- `if e.mem.consumeCodeDirty() { e.invalidateCodeCaches() }`, and whether it did.
abbrev pub clean_core : Engine → Engine
clean_core e = record e { space = (consume_code_dirty e.space).1 }

unfoldable pub refresh : Machine → Bool × Machine
refresh m =
    let m' = set_core (clean_core m.core) m in
    if m.core.space.code_dirty then (true, invalidate_code_caches m') else (false, m')

-- e.trace[e.traceIdx] = pc.
unfoldable pub note_trace : ℕ → Machine → Machine
note_trace pc m = record m {
  trace = array_set m.trace m.trace_idx pc;
  trace_idx = (m.trace_idx + 1) % 256;
}

-- The table of a page: the last one used, the one in the cache, or a new one.
abbrev pub use_table : ℕ → ℕ → Machine → ℕ × Machine
use_table pa t m = (t, record m { cached_table_addr = pa; cached_table = some t })

abbrev pub new_table : ℕ → Machine → ℕ × Machine
new_table pa m = use_table pa m.next_table (record m {
  tables = array_set m.tables m.next_table (λ i. none);
  next_table = suc m.next_table;
  decode_cache = put pa m.next_table m.decode_cache;
})

abbrev pub table_search : ℕ → Machine → Option ℕ → ℕ × Machine
table_search pa m none = new_table pa m
table_search pa m (some t) = use_table pa t m

abbrev pub table_of : Option ℕ → ℕ → Machine → ℕ × Machine
table_of none pa m = table_search pa m (find pa m.decode_cache)
table_of (some t) pa m =
    if m.cached_table_addr == pa then (t, m) else table_search pa m (find pa m.decode_cache)

unfoldable pub table_for : ℕ → Machine → ℕ × Machine
table_for pa m = table_of m.cached_table pa m

-- A closure may write to what it captures: the register forms of BT do.
unfoldable pub bit_test_after : BitAction → Operand → Operand → ℕ → Engine → Outcome ℕ → Instruction
bit_test_after action rm offset w e (failed x) = bit_test action rm offset w
bit_test_after action rm offset w e (done bit) =
    let c = bit_operand rm w bit e in bit_test action c.rm offset c.w

unfoldable pub captured_after : Instruction → Engine → Instruction
captured_after (bit_test action rm offset w) e =
    bit_test_after action rm offset w e (read_operand offset w e).0
captured_after i e = i

abbrev pub recapture : Fetched → Engine → Fetched
recapture f e = record f {
  decoded = record f.decoded { instruction = captured_after f.decoded.instruction e };
}

module _ (ext : Extensions) (fuel : ℕ) where
  -- decodeOne at an address, for the engine.
  unfoldable pub decode_at : ℕ → Run Engine Fetched
  decode_at pc e =
      let (r, c) = decode_one ext fuel (record { engine = e; base = pc; position = 0 }) in
      (r, c.engine)

  abbrev pub keep_decoded : ℕ → ℕ → Machine → Outcome Fetched × Engine → Outcome ℕ × Machine
  keep_decoded t i m (done f, e) = (
    done m.next_code,
    record m {
      core = e;
      code = array_set m.code m.next_code f;
      next_code = suc m.next_code;
      tables = array_set m.tables t (array_set (m.tables t) i (some m.next_code));
    },
  )
  keep_decoded t i m (failed x, e) = (failed x, set_core e m)

  -- The entry of a table, or what decoding gives for it.
  abbrev pub entry_or_decode : ℕ → ℕ → Machine → Option ℕ → Outcome ℕ × Machine
  entry_or_decode t pc m (some d) = (done d, m)
  entry_or_decode t pc m none = keep_decoded t (bit_and pc 0xfff) m (decode_at pc m.core)

  -- cachedDecode.
  unfoldable pub cached_decode : ℕ → Machine → Outcome ℕ × Machine
  unfolding table_for
  cached_decode pc m =
      let (t, m') = table_for (page_addr pc) m in
      entry_or_decode t pc m' (m'.tables t (bit_and pc 0xfff))

-- One instruction at `pc`: the end of the instruction is set before it runs, and rip moves there
-- unless the instruction has set rip itself.
abbrev pub fall_through : ℕ → Outcome Bool × Engine → Outcome Bool × Engine
fall_through next (done true, e) = (done true, e)
fall_through next (done false, e) = (done false, record e { regs = record e.regs { rip = next } })
fall_through next (failed x, e) = (failed x, e)

unfoldable pub run_at : ℕ → Fetched → Run Engine Bool
run_at pc f e =
    fall_through (pc +w f.len)
      (execute f.decoded.instruction (record e { cur_instr_end = pc +w f.len }))

-- d.exec for the instruction behind a pointer; its closure is left as the run leaves it.
unfoldable pub run_code : ℕ → ℕ → Run Machine Bool
run_code pc d m =
    let f = m.code d in
    let (r, e) = run_at pc f m.core in
    (
      r,
      record m {
        core = e;
        code = array_set m.code d (recapture f (record m.core { cur_instr_end = pc +w f.len }));
      },
    )
