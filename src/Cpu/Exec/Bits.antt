-- ===== src/Cpu/Exec/Bits.antt =====
-- The bit instructions of internal/cpu/twobyte.go: BT and its relatives, BSF, BSR, TZCNT, LZCNT,
-- POPCNT, BSWAP, SHLD and SHRD, as decodeTwoByte's closures run them.
pub mod Scans
pub mod Changes
use golinux.Base.{
  ℕ, zero, suc, ◌+◌, ◌-◌, ◌*◌, bit_and, bit_or, bit_xor, Bool, false, not, ◌&&◌, ◌==◌,
  if◌then◌else◌,
}
use golinux.Base.Bits.{bit_clear}
use golinux.Base.Word.{◌+w◌, ◌<<w◌, ◌>>w◌, signed, to_word}
use golinux.Cpu.Flags.{cf, pf, af, zf, sf, of, set_flag, mask_width}
use golinux.Cpu.Run.{Run, ◌>>=◌, ◌>>◌, return, get}
use golinux.Cpu.Operand.{
  Engine, Operand, reg, mem, imm, Address, rip_relative, direct, base_index, seg_none, eff_addr,
  read_operand, write_operand, shift_right,
}
use golinux.Cpu.Exec.Alu.{change_flags}

pub data BitAction : Type 0 where
  test_only set_bit reset_bit complement_bit : BitAction

-- What BTS, BTR and BTC write; BT writes nothing.
unfoldable pub bit_changed : BitAction → ℕ → ℕ → ℕ
bit_changed test_only base bit = base
bit_changed set_bit base bit = bit_or base (1 <<w bit)
bit_changed reset_bit base bit = bit_clear base (1 <<w bit)
bit_changed complement_bit base bit = bit_xor base (1 <<w bit)

abbrev pub bit_write : BitAction → Operand → ℕ → ℕ → ℕ → Run Engine (Unit {0})
bit_write test_only rm w base bit = return tt
bit_write set_bit rm w base bit = write_operand rm w (bit_changed set_bit base bit)
bit_write reset_bit rm w base bit = write_operand rm w (bit_changed reset_bit base bit)
bit_write complement_bit rm w base bit = write_operand rm w (bit_changed complement_bit base bit)

-- `(v>>n)&1 != 0`.
abbrev pub bit_is_set : ℕ → ℕ → Bool
bit_is_set v n = not (bit_and (v >>w n) 1 == 0)

-- The bit tested and changed, once operand, width and bit number are settled.
unfoldable pub bit_apply : BitAction → Operand → ℕ → ℕ → Run Engine (Unit {0})
bit_apply action rm w bit = do
  base ← read_operand rm w
  change_flags (set_flag cf (bit_is_set base bit))
  bit_write action rm w base bit

-- What the closure of the register forms captures; a memory operand makes it write to `rm` and `w`.
pub record Captured : Type 0 where
  pub rm : Operand
  pub w : ℕ

-- `rm.addr = ...; rm.ripRelative = false`. Operands with a base or an index do not read `addr`.
unfoldable pub resolved : Address → ℕ → Address
resolved (rip_relative d) a = direct a
resolved (direct b) a = direct a
resolved (base_index base index scale d) a = base_index base index scale d

-- int64(bit) / 8, rounded down.
abbrev pub byte_offset : ℕ → ℕ
byte_offset bit = to_word (shift_right (signed 64 bit) 3)

unfoldable pub bit_operand : Operand → ℕ → ℕ → Engine → Captured
bit_operand (reg i rex) w bit e = record { rm = reg i rex; w = w }
bit_operand (imm v) w bit e = record { rm = imm v; w = 1 }
bit_operand (mem a seg) w bit e = record {
  rm = mem (resolved a (eff_addr a seg e +w byte_offset bit)) seg_none;
  w = 1;
}

abbrev pub bit_number : Operand → ℕ → ℕ → ℕ
bit_number (reg i rex) w bit = bit_and bit (w * 8 - 1)
bit_number (imm v) w bit = bit_and bit 7
bit_number (mem a seg) w bit = bit_and bit 7

-- The register forms return what the closure has captured afterwards.
unfoldable pub bit_test_reg : BitAction → Operand → Operand → ℕ → Run Engine Captured
bit_test_reg action rm offset w = do
  bit ← read_operand offset w
  e ← get
  let c = bit_operand rm w bit e
  bit_apply action c.rm c.w (bit_number rm w bit)
  return c

unfoldable pub bit_test_imm : BitAction → Operand → ℕ → ℕ → Run Engine (Unit {0})
bit_test_imm action rm n w = bit_apply action rm w (bit_and n (w * 8 - 1))

-- `for count < n && (v>>count)&1 == 0 { count++ }`, with `n` rounds left.
unfoldable pub lowest_from : ℕ → ℕ → ℕ → ℕ
lowest_from zero v count = count
lowest_from (suc n) v count = if bit_is_set v count then count else lowest_from n v (count + 1)

-- The search from the top; the last round is at bit 0.
unfoldable pub highest_below : ℕ → ℕ → ℕ
highest_below zero v = 0
highest_below (suc n) v = if bit_is_set v n then n else highest_below n v

unfoldable pub leading_from : ℕ → ℕ → ℕ → ℕ
leading_from zero v count = count
leading_from (suc n) v count = if bit_is_set v n then count else leading_from n v (count + 1)

unfoldable pub count_ones : ℕ → ℕ → ℕ → ℕ
count_ones zero v count = count
count_ones (suc n) v count = if v == 0 then count else count_ones n (v >>w 1) (count + bit_and v 1)

abbrev pub found : Bool → Bool → ℕ → ℕ
found zero_source zero_count r = set_flag zf zero_count (set_flag cf zero_source r)

-- BSF and BSR leave the destination alone for 0. A search within 64 bits finds the bit of any other.
unfoldable pub bit_scan : (ℕ → ℕ) → Operand → ℕ → ℕ → Run Engine (Unit {0})
bit_scan search_bit dst w v = do
  change_flags (set_flag zf (v == 0))
  if v == 0 then return tt else write_operand dst w (search_bit v)

unfoldable pub count_zeros : ℕ → Operand → ℕ → ℕ → Run Engine (Unit {0})
count_zeros count dst w v = do change_flags (found (v == 0) (count == 0)); write_operand dst w count

unfoldable pub scan_forward : Operand → Operand → ℕ → Bool → Run Engine (Unit {0})
scan_forward dst rm w f3 = do
  a ← read_operand rm w
  let v = bit_and a (mask_width w)
  if f3
      then count_zeros (lowest_from (w * 8) v 0) dst w v
      else bit_scan (λ u. lowest_from 64 u 0) dst w v

unfoldable pub scan_reverse : Operand → Operand → ℕ → Bool → Run Engine (Unit {0})
scan_reverse dst rm w f3 = do
  a ← read_operand rm w
  let v = bit_and a (mask_width w)
  if f3
      then count_zeros (leading_from (w * 8) v 0) dst w v
      else bit_scan (highest_below (w * 8)) dst w v

abbrev pub popcnt_flags : ℕ → ℕ → ℕ
popcnt_flags count r = set_flag pf false (
    set_flag af false
      (set_flag sf false (set_flag of false (set_flag cf false (set_flag zf (count == 0) r)))))

unfoldable pub popcnt : Operand → Operand → ℕ → Run Engine (Unit {0})
popcnt dst rm w = do
  a ← read_operand rm w
  let count = count_ones 64 (bit_and a (mask_width w)) 0
  change_flags (popcnt_flags count)
  write_operand dst w count

-- The bytes from `i` on, each put at the mirrored place.
unfoldable pub swap_from : ℕ → ℕ → ℕ → ℕ → ℕ → ℕ
swap_from zero i w v swapped = swapped
swap_from (suc n) i w v swapped =
    swap_from n (suc i) w v (bit_or swapped (bit_and (v >>w (8 * i)) 0xff <<w (8 * (w - 1 - i))))

unfoldable pub bswap : Operand → ℕ → Run Engine (Unit {0})
bswap r w = do v ← read_operand r w; write_operand r w (swap_from w 0 w v 0)

pub record DoubleShift : Type 0 where
  pub result : ℕ
  pub carry : Bool

unfoldable pub shift_left_double : ℕ → ℕ → ℕ → ℕ → DoubleShift
shift_left_double w dst src n = record {
  result = bit_and (bit_or (dst <<w n) (src >>w (w * 8 - n))) (mask_width w);
  carry = bit_is_set dst (w * 8 - n);
}

unfoldable pub shift_right_double : ℕ → ℕ → ℕ → ℕ → DoubleShift
shift_right_double w dst src n = record {
  result = bit_and (bit_or (dst >>w n) (src <<w (w * 8 - n))) (mask_width w);
  carry = bit_is_set dst (n - 1);
}

abbrev pub double_flags : ℕ → ℕ → ℕ → DoubleShift → ℕ → ℕ
double_flags w dst n d r =
    let top = w * 8 - 1 in
    let overflow = (n == 1) && not ((d.result >>w top) == (dst >>w top)) in
    set_flag of overflow (
      set_flag sf (not ((d.result >>w top) == 0))
        (set_flag zf (d.result == 0) (set_flag cf d.carry r)))

unfoldable pub double_shift : Bool → Operand → Operand → ℕ → (Engine → ℕ) → Run Engine (Unit {0})
double_shift left rm other w amount = do
  dst ← read_operand rm w
  src ← read_operand other w
  e ← get
  let n = bit_and (amount e) (w * 8 - 1)
  let d = if left then shift_left_double w dst src n else shift_right_double w dst src n
  if n == 0
      then return tt
      else (do change_flags (double_flags w dst n d); write_operand rm w d.result)
