-- ===== src/Cpu/Registers/Laws.antt =====
-- Reads after writes of the general registers, at every width.
use golinux.Base.{
  ℕ, ◌+◌, ◌-◌, ◌*◌, ◌/◌, ◌%◌, ◌^◌, ◌<◌, ◌≡◌, refl, ap, Bool, if◌then◌else◌, bit_or, arith,
  Bool-cases, inl, inr,
}
use golinux.Base.Bits.{bit_clear}
use golinux.Base.Disjoint.{or_parts, clear_low, replace_byte}
use golinux.Cpu.Registers.{
  Registers, set_gpr, is_high_byte, read8, write8, write16, read_width, write_width,
}
use golinux.Cpu.Flags.Laws.{Width, byte, word, dword, qword, bytes_of, bits_of}

-- Go's `x &^ (2^n - 1) | v` for a value of `n` bits.
replace_low : (n a v : ℕ) → v < 2 ^ n → bit_or (bit_clear a (2 ^ n - 1)) v ≡ a / 2 ^ n * 2 ^ n + v
replace_low n a v small = rw (clear_low n a) (or_parts n (a / 2 ^ n) v small)

-- The register that an access of a width reads or writes.
abbrev pub target : Width → ℕ → Bool → ℕ
target byte idx rex = if is_high_byte idx rex then idx - 4 else idx
target word idx rex = idx
target dword idx rex = idx
target qword idx rex = idx

-- The whole register after a write: x86 keeps the rest of it under a write of 8 or 16 bits, and
-- clears the upper half under one of 32 bits.
abbrev pub written : Width → ℕ → Bool → ℕ → ℕ → ℕ
written byte idx rex v old =
    if is_high_byte idx rex
    then old / 65536 * 65536 + v % 256 * 256 + old % 256
    else old / 256 * 256 + v % 256
written word idx rex v old = old / 65536 * 65536 + v % 65536
written dword idx rex v old = v % 2 ^ 32
written qword idx rex v old = v

-- At any operand width, writeWidth changes one general register, as target says (for a byte
-- without REX and an index of 4 to 7 the register four below), and leaves in it what written
-- says: the high byte or the low byte or 16 bits replaced, the 32-bit value with zeros above, or
-- the whole value.
write_width_lem :
    (w : Width) (idx : ℕ) (rex : Bool) (v : ℕ) (r : Registers)
    → write_width idx (bytes_of w) rex v r
      ≡ set_gpr (target w idx rex) (written w idx rex v (r.gpr (target w idx rex))) r
unfolding write_width write8 write16
write_width_lem byte idx rex v r = elim (Bool-cases (is_high_byte idx rex)) [
  | inl e ↦
      let shifted : v % 256 * 256 % 2 ^ 64 ≡ v % 256 * 256 = omega arith in
      let stored = replace_byte (r.gpr (idx - 4)) (v % 256) (omega arith) in
      rw (e, write8, shifted, stored) refl
  | inr e ↦
      let stored = replace_low 8 (r.gpr idx) (v % 256) (omega arith) in rw (e, write8, stored) refl
]
write_width_lem word idx rex v r =
    ap (λ (x : ℕ). set_gpr idx x r) (replace_low 16 (r.gpr idx) (v % 65536) (omega arith))
write_width_lem dword idx rex v r = refl
write_width_lem qword idx rex v r = refl

pub read_width-write_width :
    (w : Width) (idx : ℕ) (rex : Bool) (v : ℕ) (r : Registers)
    → v < 2 ^ 64
    → read_width idx (bytes_of w) rex (write_width idx (bytes_of w) rex v r) ≡ v % 2 ^ bits_of w
unfolding read_width read8
read_width-write_width w idx rex v r small = rw (write_width_lem w idx rex v r) (go w)
  where
    go :
        (w : Width)
        → read_width idx
            (bytes_of w)
            rex
            (set_gpr (target w idx rex) (written w idx rex v (r.gpr (target w idx rex))) r)
          ≡ v % 2 ^ bits_of w
    go byte = ground arith
    go word = ground arith
    go dword = ground arith
    go qword = ground arith
