-- ===== src/Cpu/Machine/Tests.antt =====
-- A small program in an engine with its caches, and the theorems at it.
use golinux.Base.{zero, suc, ◌≡◌, refl, ℕ, arith, true, none, List, [], ◌∷◌}
use golinux.Base.Map.{put, find}
use golinux.Cpu.Machine.{
  invalidate_code_caches, set_block_jit, refresh, note_trace, table_for, bit_test_after,
  captured_after, decode_at, cached_decode, run_at, run_code, Machine,
}
use golinux.Cpu.Machine.Blocks.{insn_id, cached_block_at, more_block, block_code, compile_block}
use golinux.Cpu.Machine.Loop.{
  run_block, execute_block, single, emu_round, emu_loop, Hooks, stopped, emu_start,
}
use golinux.Cpu.Memory.{
  page_addr, lookup_result, lookup_space, first_mapped, map_pages, Space, fresh_page, new_memory,
  mem_map,
}
use golinux.Cpu.Memory.Copy.{
  allowed, page_bytes, write_page, same_bytes, copy_out, write_chunk, copy_in, read_checked_into,
  mem_write,
}
use golinux.Cpu.Operand.{le_from, le_to_u64, Engine}
use golinux.Cpu.ModRm.{fetch, peek_byte, cursor_u8, cursor_i8}
use golinux.Cpu.Decode.{opcode, after_prefixes, decode_one, Extensions}
use golinux.Cpu.Decode.Prefixes.{note_prefix, legacy_prefixes, peek_is}
use golinux.Cpu.Decode.Data.{data_opcode}
use golinux.Cpu.Decode.Flow.{stack_opcode, branch_opcode, accumulator_opcode, flow_opcode}
use golinux.Cpu.Execute.{execute}
use golinux.Cpu.Memory.View.{IsValid}
use golinux.Cpu.Memory.Operations.{map, write, apply_all-IsValid}
use golinux.Cpu.Run.{not_supported, fail}
use golinux.Cpu.ModRm.Reading.{Reads-fail}
use golinux.Cpu.Decode.Reading.{ExtensionsRead}
use golinux.Cpu.Decode.BlockEnds.{ExtensionsEnd, Ends-fail}
use golinux.Cpu.Machine.Coherent.{Coherent}
use golinux.Cpu.Machine.Steps.{NoneMutable, Steps, at_rip}
use golinux.Cpu.Machine.Starting.{
  new_engine, new_engine-Coherent, clone_engine, clone_engine-Coherent,
}
use golinux.Cpu.Machine.Rounds.{HooksCareful}
use golinux.Cpu.Machine.Emulation.{emu_start-Steps}

abbrev blank : Space
blank = record { heap = record { cell = λ q. fresh_page 0; next = 1 }; mem = new_memory }

blank-IsValid : IsValid blank
unfolding find
blank-IsValid = record { cached = λ e. cc; below = tt; apart = λ a b p e f. cc }

-- Other opcodes are refused.
abbrev refuse : Extensions
refuse = record {
  sse = λ op p. fail not_supported;
  x87 = λ op p. fail not_supported;
  vex = λ b p. fail not_supported;
}

refuse-Reads : ExtensionsRead refuse
refuse-Reads = record {
  sse = λ op p. Reads-fail not_supported;
  x87 = λ op p. Reads-fail not_supported;
  vex = λ b p. Reads-fail not_supported;
}

refuse-Ends : ExtensionsEnd refuse
refuse-Ends = record {
  sse = λ op p. Ends-fail not_supported;
  x87 = λ op p. Ends-fail not_supported;
  vex = λ b p. Ends-fail not_supported;
}

abbrev no_hooks : Hooks
no_hooks = record { on_syscall = none; on_cpuid = none; on_unmapped = none }

no_hooks-Careful : HooksCareful no_hooks
no_hooks-Careful = record { syscall = λ h e. cc; cpuid = λ h e. cc; unmapped = λ h e. cc }

-- NOP and JMP -3 at 0x1000: the jump goes back to the NOP.
abbrev program : List ℕ
program = 0x90 ∷ 0xEB ∷ 0xFD ∷ []

abbrev sample : Engine
sample = record {
  regs = record {
    gpr = λ i. 0;
    rip = 0;
    rflags = 2;
    fsbase = 0;
    gsbase = 0;
    xmm = λ i. record { lo = 0; hi = 0 };
    ymm_hi = λ i. record { lo = 0; hi = 0 };
    mxcsr = 0x1F80;
  };
  space = (mem_write 0x1000 program (mem_map 0x1000 0x1000 7 blank).1).1;
  cur_instr_end = 0;
}

sample-IsValid : IsValid sample.space
sample-IsValid =
    apply_all-IsValid (map 0x1000 0x1000 7 ∷ write 0x1000 program ∷ []) blank blank-IsValid

abbrev machine : Machine
machine = new_engine sample true

machine-Coherent : Coherent refuse 16 machine
machine-Coherent = new_engine-Coherent refuse 16 sample true sample-IsValid

abbrev ended : Machine
ended = (emu_start refuse 16 no_hooks 3 4 0x1000 0x1001 machine).1

decoded_two : ended.next_code ≡ 3
unfolding invalidate_code_caches set_block_jit refresh note_trace table_for bit_test_after
    captured_after decode_at cached_decode run_at run_code insn_id cached_block_at more_block
    block_code compile_block run_block execute_block single emu_round emu_loop emu_start page_addr
    lookup_result lookup_space first_mapped map_pages mem_map allowed page_bytes write_page
    same_bytes copy_out write_chunk copy_in mem_write read_checked_into find put le_from le_to_u64
    fetch peek_byte cursor_u8 cursor_i8 opcode after_prefixes decode_one note_prefix legacy_prefixes
    peek_is data_opcode stack_opcode branch_opcode accumulator_opcode flow_opcode execute new_engine
decoded_two = refl

-- NOP and JMP.
ended-NoneMutable : NoneMutable ended
unfolding invalidate_code_caches set_block_jit refresh note_trace table_for bit_test_after
    captured_after decode_at cached_decode run_at run_code insn_id cached_block_at more_block
    block_code compile_block run_block execute_block single emu_round emu_loop emu_start page_addr
    lookup_result lookup_space first_mapped map_pages mem_map allowed page_bytes write_page
    same_bytes copy_out write_chunk copy_in mem_write read_checked_into find put le_from le_to_u64
    fetch peek_byte cursor_u8 cursor_i8 opcode after_prefixes decode_one note_prefix legacy_prefixes
    peek_is data_opcode stack_opcode branch_opcode accumulator_opcode flow_opcode execute new_engine
ended-NoneMutable zero h = refl
ended-NoneMutable (suc zero) h = refl
ended-NoneMutable (suc (suc zero)) h = refl
ended-NoneMutable (suc (suc (suc d))) h = absurd (omega (arith, decoded_two))

emu_start-Steps_example :
    Steps refuse 16 no_hooks
      (at_rip 0x1000 sample)
      (emu_start refuse 16 no_hooks 3 4 0x1000 0x1001 machine).1.core
    × Coherent refuse 16 (emu_start refuse 16 no_hooks 3 4 0x1000 0x1001 machine).1
unfolding new_engine
emu_start-Steps_example =
    emu_start-Steps refuse 16 refuse-Reads refuse-Ends no_hooks no_hooks-Careful 3 4 0x1000 0x1001
      machine machine-Coherent (omega arith) ended-NoneMutable

clone_engine-Coherent_example :
    Coherent refuse 16 (clone_engine machine).0 × Coherent refuse 16 (clone_engine machine).1
clone_engine-Coherent_example =
    clone_engine-Coherent refuse 16 refuse-Reads machine machine-Coherent

-- In one round the block of the NOP and the jump runs, is found again for the jump's target and runs
-- on to 0x1001, where the next round stops.
emu_start_stops : (emu_start refuse 16 no_hooks 3 4 0x1000 0x1001 machine).0 ≡ stopped
unfolding invalidate_code_caches set_block_jit refresh note_trace table_for bit_test_after
    captured_after decode_at cached_decode run_at run_code insn_id cached_block_at more_block
    block_code compile_block run_block execute_block single emu_round emu_loop emu_start page_addr
    lookup_result lookup_space first_mapped map_pages mem_map allowed page_bytes write_page
    same_bytes copy_out write_chunk copy_in mem_write read_checked_into find put le_from le_to_u64
    fetch peek_byte cursor_u8 cursor_i8 opcode after_prefixes decode_one note_prefix legacy_prefixes
    peek_is data_opcode stack_opcode branch_opcode accumulator_opcode flow_opcode execute new_engine
emu_start_stops = refl
