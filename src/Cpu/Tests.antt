-- ===== src/Cpu/Tests.antt =====
-- The theorems on instructions at a small machine: one page at 0x1000, with the stack in it.
use golinux.Base.{◌-◌, ◌^◌, ◌%◌, ◌≡◌, refl, true, false, ◌==◌, if◌then◌else◌, arith}
use golinux.Base.Map.{find, put}
use golinux.Base.Int.{pos}
use golinux.Cpu.Flags.{rol, ror}
use golinux.Cpu.Flags.Laws.{byte, word, dword}
use golinux.Cpu.Memory.{
  Space, fresh_page, new_memory, mem_map, page_addr, map_pages, first_mapped, lookup_result,
  lookup_space,
}
use golinux.Cpu.Memory.Copy.{
  copy_in, copy_out, write_chunk, write_page, page_bytes, same_bytes, allowed, read_checked,
  write_checked,
}
use golinux.Cpu.Memory.View.{IsValid}
use golinux.Cpu.Memory.Table.{mem_map-IsValid}
use golinux.Cpu.Registers.{reg_rsp, read_width}
use golinux.Cpu.Run.{done}
use golinux.Cpu.Run.Post.{Post, Ends}
use golinux.Cpu.Operand.{
  Engine, reg, mem, imm, direct, seg_none, eff_addr, address_of, le_from, le_to_u64, le_bytes,
  u64_to_le, read_operand, write_operand,
}
use golinux.Cpu.Operand.Laws.{write_operand-read_operand}
use golinux.Cpu.ModRm.{Rex, Cursor, decode_modrm}
use golinux.Cpu.ModRm.Bounds.{Decoded, decode_modrm-Decoded}
use golinux.Cpu.Exec.Alu.{alu_bin_op, alu_op}
use golinux.Cpu.Exec.Stack.{push64, pop64}
use golinux.Cpu.Exec.Bits.{complement_bit, bit_test_imm, lowest_from, highest_below, leading_from}
use golinux.Cpu.Exec.Bits.Changes.{Tested, bit_test_imm-Tested}
use golinux.Cpu.Exec.Bits.Scans.{Lowest, Highest, bit_searches_lem}
use golinux.Cpu.Exec.Divide.{div_unsigned}
use golinux.Cpu.Exec.Divide.Laws.{Divided, div_unsigned_lem}
use golinux.Cpu.Exec.Shifts.{shift_value}
use golinux.Cpu.Exec.Shifts.Rotate.{rol-ror}
use golinux.Cpu.Exec.Strings.{rep_z, str_index_delta, str_movs}
use golinux.Cpu.Exec.Strings.Progress.{Finished, Stopped, str_movs-progress}
use golinux.Cpu.Execute.{alu, call_rel, ret, jcc, relative, set_rip, do_call, execute}
use golinux.Cpu.Execute.Laws.{call_rel-ret, cmp-jcc}
use golinux.Cpu.Decode.Data.{alu_imm}
use golinux.Cpu.Decode.Data.Fast.{alu_imm_lem}

abbrev blank : Space
blank = record { heap = record { cell = λ q. fresh_page 0; next = 1 }; mem = new_memory }

blank-IsValid : IsValid blank
unfolding find
blank-IsValid = record { cached = λ e. cc; below = tt; apart = λ a b p e f. cc }

abbrev one_page : Space
one_page = (mem_map 0x1000 0x1000 7 blank).1

-- Register 1 is a count of two, and every other register is 0x1100.
abbrev sample : Engine
sample = record {
  regs = record {
    gpr = λ i. if i == 1 then 2 else 0x1100;
    rip = 0x1000;
    rflags = 2;
    fsbase = 0;
    gsbase = 0;
    xmm = λ i. record { lo = 0; hi = 0 };
    ymm_hi = λ i. record { lo = 0; hi = 0 };
    mxcsr = 0x1F80;
  };
  space = one_page;
  cur_instr_end = 0x1005;
}

one_page-IsValid : IsValid sample.space
one_page-IsValid = mem_map-IsValid 0x1000 0x1000 7 blank blank-IsValid

abbrev stored : Engine
stored = (write_operand (mem (direct 0x1010) seg_none) 2 0x12345 sample).1

write_operand-read_operand_example : 0x2345 ≡ 0x12345 % 2 ^ 16
unfolding write_operand read_operand eff_addr address_of le_from le_to_u64 le_bytes u64_to_le
    write_checked read_checked copy_in copy_out write_chunk page_bytes same_bytes allowed page_addr
    lookup_result lookup_space mem_map map_pages first_mapped find put write_page
write_operand-read_operand_example =
    write_operand-read_operand word (mem (direct 0x1010) seg_none) 0x12345 0x2345 sample stored
      one_page-IsValid (omega arith) (omega arith) refl refl

abbrev at_start : Cursor
at_start = record { engine = sample; base = 0x1000; position = 1 }

abbrev rex_b : Rex
rex_b = record { present = true; r = false; x = false; b = true }

decode_modrm_example : Post (Decoded 1 6) (decode_modrm rex_b at_start)
decode_modrm_example = decode_modrm-Decoded rex_b at_start

div_unsigned_example : Divided 8 0x207 3 (div_unsigned 2 7 3 1)
div_unsigned_example = div_unsigned_lem byte 2 7 3 (omega arith)

rol-ror_example : (shift_value ror (shift_value rol 0x81 1 3).result 1 3).result ≡ 0x81
rol-ror_example = rol-ror byte 0x81 3 (omega arith)

str_movs_example :
    Ends
      (Finished (str_index_delta 1 sample.regs) sample)
      (Stopped (str_index_delta 1 sample.regs) sample)
      (str_movs 1 rep_z sample)
str_movs_example = str_movs-progress 1 rep_z sample refl (λ i. ground arith)

alu_imm_example :
    execute (alu_imm 0 (reg 3 false) (0xFFFFFFFFFFFFFFFF) 4) sample
    ≡ execute (alu 0 (reg 3 false) (imm (0xFFFFFFFFFFFFFFFF)) 4) sample
alu_imm_example = alu_imm_lem 0 (reg 3 false) (0xFFFFFFFFFFFFFFFF) 4 sample

-- The machine after a call, and after the return with the end of RET in place.
abbrev called : Engine
called = (execute (call_rel (pos 0x10)) sample).1

abbrev returned : Engine
returned = (execute ret (record called { cur_instr_end = 0x1016 })).1

call_rel-ret_example :
    (called.regs.rip ≡ relative sample (pos 0x10))
    × (returned.regs.rip ≡ 0x1005)
    × (returned.regs.gpr reg_rsp ≡ 0x1100)
unfolding push64 pop64 le_from le_to_u64 le_bytes u64_to_le write_checked read_checked copy_in
    copy_out write_chunk page_bytes same_bytes allowed page_addr lookup_result lookup_space mem_map
    map_pages first_mapped find put write_page execute do_call
call_rel-ret_example =
    call_rel-ret (pos 0x10) 0x1016 true true sample called returned one_page-IsValid (omega arith)
      (omega arith) refl refl

abbrev compared : Engine
compared = (execute (alu 7 (reg 1 false) (reg 3 false) 4) sample).1

cmp-jcc_example :
    execute (jcc 0xC (pos 0x10)) compared
    ≡ (done true, record compared { regs = set_rip (relative compared (pos 0x10)) compared.regs })
unfolding execute alu_bin_op alu_op read_operand read_width
cmp-jcc_example = cmp-jcc dword 1 3 false false (pos 0x10) sample compared false refl

-- The word 0x50 has the bits 4 and 6.
bit_searches_example :
    Lowest 0x50 0 (lowest_from 64 0x50 0)
    × lowest_from 16 0x50 0 ≡ lowest_from 64 0x50 0
    × Highest 0x50 (highest_below 16 0x50)
    × leading_from 16 0x50 0 ≡ 16 - 1 - highest_below 16 0x50
bit_searches_example = bit_searches_lem 16 0x50 (omega arith) (omega arith) (omega arith)

-- BTC of the bit 70 - 64 of RCX.
bit_test_imm_example :
    Tested complement_bit 1 (70 % 64) sample (bit_test_imm complement_bit (reg 1 true) 70 8 sample)
bit_test_imm_example = bit_test_imm-Tested complement_bit 1 70 true sample
