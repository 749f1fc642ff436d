-- ===== src/Cpu/Decode/Tests.antt =====
-- Single instructions, decoded from bytes in memory.
use golinux.Base.{ℕ, ◌≡◌, ◌≢◌, refl, true, false, none, some, List, [], ◌∷◌}
use golinux.Base.Map.{find, put}
use golinux.Base.Int.{pos, negsuc}
use golinux.Cpu.Memory.{
  Space, fresh_page, new_memory, page_addr, first_mapped, map_pages, mem_map, lookup_result,
  lookup_space,
}
use golinux.Cpu.Memory.Copy.{
  copy_in, write_chunk, write_page, page_bytes, same_bytes, allowed, mem_write, read_checked_into,
  copy_out,
}
use golinux.Cpu.Memory.View.{IsValid}
use golinux.Cpu.Memory.Operations.{map, write, apply_all-IsValid}
use golinux.Cpu.Run.{not_supported, done, fail}
use golinux.Cpu.Operand.{reg, mem, base_index, seg_fs, le_from, le_to_u64}
use golinux.Cpu.ModRm.{
  Cursor, fetch, peek_byte, cursor_u8, cursor_i8, cursor_u32, cursor_i32, extend, displacement,
  with_displacement, decode_memory, decode_modrm,
}
use golinux.Cpu.Operand.Careful.{Careful}
use golinux.Cpu.Execute.{Instruction, call_rel, move, movs, execute}
use golinux.Cpu.Execute.CodeKept.{execute-Careful}
use golinux.Cpu.Decode.BlockEnds.{ExtensionsEnd, Ends-fail, decode_one-ends_block}
use golinux.Cpu.Decode.{Extensions, opcode, after_prefixes, decode_one}
use golinux.Cpu.Exec.Strings.{rep_z}
use golinux.Cpu.Decode.Prefixes.{note_prefix, legacy_prefixes, peek_is, width, apply_seg, operands}
use golinux.Cpu.Decode.Data.{decode_move, data_opcode}
use golinux.Cpu.Decode.Flow.{stack_opcode, branch_opcode, flow_opcode}

abbrev blank : Space
blank = record { heap = record { cell = λ q. fresh_page 0; next = 1 }; mem = new_memory }

-- Other opcodes are refused.
abbrev refuse : Extensions
refuse = record {
  sse = λ op p. fail not_supported;
  x87 = λ op p. fail not_supported;
  vex = λ b p. fail not_supported;
}

abbrev code_at : List ℕ → Cursor
code_at bs = record {
  engine = record {
    regs = record {
      gpr = λ i. 0;
      rip = 0x1000;
      rflags = 2;
      fsbase = 0;
      gsbase = 0;
      xmm = λ i. record { lo = 0; hi = 0 };
      ymm_hi = λ i. record { lo = 0; hi = 0 };
      mxcsr = 0x1F80;
    };
    space = (mem_write 0x1000 bs (mem_map 0x1000 0x1000 7 blank).1).1;
    cur_instr_end = 0;
  };
  base = 0x1000;
  position = 0;
}

-- CALL -2, which ends its block.
decode_call :
    (decode_one refuse 16 (code_at (0xE8 ∷ 0xFE ∷ 0xFF ∷ 0xFF ∷ 0xFF ∷ []))).0
    ≡ done (record {
      decoded = record { instruction = call_rel (negsuc 1); ends_block = true };
      len = 5;
    })
unfolding decode_one legacy_prefixes peek_byte note_prefix after_prefixes peek_is cursor_u8 fetch
    opcode data_opcode flow_opcode stack_opcode branch_opcode cursor_i32 cursor_u32 le_to_u64
    le_from mem_write copy_in write_chunk write_page page_bytes same_bytes allowed read_checked_into
    copy_out lookup_result lookup_space page_addr mem_map map_pages first_mapped find put
decode_call = refl

-- MOV RCX, FS:[R8+8], with its segment and REX prefixes.
decode_load :
    (decode_one refuse 16 (code_at (0x64 ∷ 0x49 ∷ 0x8B ∷ 0x48 ∷ 8 ∷ []))).0
    ≡ done (record {
      decoded = record {
        instruction = move (reg 1 true) (mem (base_index (some 8) none 1 (pos 8)) seg_fs) 8;
        ends_block = false;
      };
      len = 5;
    })
unfolding decode_one legacy_prefixes peek_byte note_prefix after_prefixes peek_is cursor_u8 fetch
    opcode data_opcode decode_move operands apply_seg width decode_modrm decode_memory
    with_displacement displacement extend cursor_i8 le_to_u64 le_from mem_write copy_in write_chunk
    write_page page_bytes same_bytes allowed read_checked_into copy_out lookup_result lookup_space
    page_addr mem_map map_pages first_mapped find put
decode_load = refl

abbrev load_bytes : List ℕ
load_bytes = 0x64 ∷ 0x49 ∷ 0x8B ∷ 0x48 ∷ 8 ∷ []

blank-IsValid : IsValid blank
unfolding find
blank-IsValid = record { cached = λ e. cc; below = tt; apart = λ a b p e f. cc }

code_at-IsValid : (bs : List ℕ) → IsValid (code_at bs).engine.space
code_at-IsValid bs =
    apply_all-IsValid (map 0x1000 0x1000 7 ∷ write 0x1000 bs ∷ []) blank blank-IsValid

refuse-Ends : ExtensionsEnd refuse
refuse-Ends = record {
  sse = λ op p. Ends-fail not_supported;
  x87 = λ op p. Ends-fail not_supported;
  vex = λ b p. Ends-fail not_supported;
}

abbrev load : Instruction
load = move (reg 1 true) (mem (base_index (some 8) none 1 (pos 8)) seg_fs) 8

decode_one-ends_block_example :
    execute load (code_at load_bytes).engine ≢ (done true, (code_at []).engine)
unfolding decode_one legacy_prefixes peek_byte note_prefix after_prefixes peek_is cursor_u8 fetch
    opcode data_opcode decode_move operands apply_seg width decode_modrm decode_memory
    with_displacement displacement extend cursor_i8 le_to_u64 le_from mem_write copy_in write_chunk
    write_page page_bytes same_bytes allowed read_checked_into copy_out lookup_result lookup_space
    page_addr mem_map map_pages first_mapped find put
decode_one-ends_block_example =
    decode_one-ends_block refuse refuse-Ends 16 (code_at load_bytes)
      (decode_one refuse 16 (code_at load_bytes)).1
      (record { decoded = record { instruction = load; ends_block = false }; len = 5 }) refl refl
      (code_at load_bytes).engine (code_at []).engine

execute-Careful_example : Careful (execute (movs 1 rep_z))
execute-Careful_example = execute-Careful (movs 1 rep_z)
