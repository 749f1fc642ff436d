-- ===== src/Cpu/Flags/Tests.antt =====
-- The theorems on flags at concrete operands.
use golinux.Base.{ℕ, ◌≡◌, ltb, leb, ◌==◌, not, ◌+◌, ◌-◌, ◌%◌, arith}
use golinux.Base.Int.{ltb_ℤ}
use golinux.Base.Word.{signed}
use golinux.Cpu.Flags.{
  Flag, flag, add_with_flags_carry, sub_with_flags_borrow, sub_with_flags, eval_cc,
}
use golinux.Cpu.Flags.Laws.{byte, word}
use golinux.Cpu.Flags.Add.{after_add, add_with_flags_carry_lem}
use golinux.Cpu.Flags.Sub.{after_sub, sub_with_flags_borrow_lem}
use golinux.Cpu.Flags.Compare.{unsigned_conditions, signed_conditions}

-- 200 + 100 + 1 on bytes.
add_with_flags_carry_example :
    ((add_with_flags_carry 2 200 100 1 1).result ≡ (200 % 256 + 100 % 256 + 1) % 256)
    × ((f : Flag)
        → flag f (add_with_flags_carry 2 200 100 1 1).rflags
          ≡ after_add f byte (200 % 256) (100 % 256) 1 (flag f 2))
add_with_flags_carry_example = add_with_flags_carry_lem byte 2 200 100 1 (omega arith)

sub_with_flags_borrow_example :
    ((sub_with_flags_borrow 2 5 7 2 1).result ≡ (5 % 65536 + 65536 - 7 % 65536 - 1) % 65536)
    × ((f : Flag)
        → flag f (sub_with_flags_borrow 2 5 7 2 1).rflags
          ≡ after_sub f word (5 % 65536) (7 % 65536) 1 (flag f 2))
sub_with_flags_borrow_example = sub_with_flags_borrow_lem word 2 5 7 1 (omega arith)

-- 0x80 against 1: above without the sign, less with it.
abbrev compared : ℕ
compared = (sub_with_flags 0 0x80 1 1).rflags

unsigned_conditions_example :
    (eval_cc compared 0x2 ≡ ltb 0x80 1)
    × (eval_cc compared 0x3 ≡ leb 1 0x80)
    × (eval_cc compared 0x4 ≡ (0x80 == 1))
    × (eval_cc compared 0x5 ≡ not (0x80 == 1))
    × (eval_cc compared 0x6 ≡ leb 0x80 1)
    × (eval_cc compared 0x7 ≡ ltb 1 0x80)
unsigned_conditions_example = unsigned_conditions byte 0 0x80 1

signed_conditions_example :
    (eval_cc compared 0xC ≡ ltb_ℤ (signed 8 0x80) (signed 8 1))
    × (eval_cc compared 0xD ≡ not (ltb_ℤ (signed 8 0x80) (signed 8 1)))
    × (eval_cc compared 0xE ≡ not (ltb_ℤ (signed 8 1) (signed 8 0x80)))
    × (eval_cc compared 0xF ≡ ltb_ℤ (signed 8 1) (signed 8 0x80))
signed_conditions_example = signed_conditions byte 0 0x80 1
