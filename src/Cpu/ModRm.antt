-- ===== src/Cpu/ModRm.antt =====
-- internal/cpu/modrm.go: the instruction cursor, and the ModRM, SIB and displacement bytes.
pub mod Bounds
pub mod Reading
use golinux.Base.{
  ℕ, zero, suc, ◌+◌, ◌*◌, ◌/◌, ◌^◌, bit_and, bit_or, Bool, true, false, ◌&&◌, not, ◌==◌,
  if◌then◌else◌, Option, none, some, List, [], ◌∷◌,
}
use golinux.Base.Int.{ℤ, pos}
use golinux.Base.Word.{u16, u32, ◌+w◌, signed}
use golinux.Cpu.Memory.{Space, Fault, prot_exec}
use golinux.Cpu.Memory.Copy.{Result, ok, err, read_checked_into}
use golinux.Cpu.Run.{Failure, fault, Outcome, done, failed, Run, ◌>>=◌, return}
use golinux.Cpu.Operand.{
  Engine, Operand, reg, mem, Address, rip_relative, base_index, SegOverride, seg_none, le_to_u64,
}

pub record Cursor : Type 0 where
  pub engine : Engine
  pub base : ℕ
  pub position : ℕ

abbrev pub with_space : Cursor → Space → Cursor
with_space c s = record c { engine = record c.engine { space = s } }

-- fetch: the position moves only if the bytes could be read.
abbrev pub fetched : Cursor → ℕ → Result (List ℕ) × Space → Outcome (List ℕ) × Cursor
fetched c n (ok bs, s) = (done bs, record (with_space c s) { position = c.position + n })
fetched c n (err x, s) = (failed (fault x), with_space c s)

unfoldable pub fetch : ℕ → Run Cursor (List ℕ)
fetch n c = fetched c n (read_checked_into (c.base +w c.position) n prot_exec c.engine.space)

-- b[0] of a slice that is not empty.
abbrev pub first : List ℕ → ℕ
first [] = 0
first (b ∷ bs) = b

abbrev pub peeked : Cursor → Result (List ℕ) × Space → Outcome ℕ × Cursor
peeked c (ok bs, s) = (done (first bs), with_space c s)
peeked c (err x, s) = (failed (fault x), with_space c s)

unfoldable pub peek_byte : Run Cursor ℕ
peek_byte c = peeked c (read_checked_into (c.base +w c.position) 1 prot_exec c.engine.space)

unfoldable pub cursor_u8 : Run Cursor ℕ
cursor_u8 = do bs ← fetch 1; return (first bs)

unfoldable pub cursor_i8 : Run Cursor ℤ
cursor_i8 = do b ← cursor_u8; return (signed 8 b)

unfoldable pub cursor_u16 : Run Cursor ℕ
cursor_u16 = do bs ← fetch 2; return (u16 (le_to_u64 bs))

unfoldable pub cursor_u32 : Run Cursor ℕ
cursor_u32 = do bs ← fetch 4; return (u32 (le_to_u64 bs))

unfoldable pub cursor_i32 : Run Cursor ℤ
cursor_i32 = do v ← cursor_u32; return (signed 32 v)

unfoldable pub cursor_u64 : Run Cursor ℕ
cursor_u64 = do bs ← fetch 8; return (le_to_u64 bs)

abbrev pub bool_bit : Bool → ℕ
bool_bit true = 1
bool_bit false = 0

-- The REX prefix: whether there is one, and its bits R, X and B.
pub record Rex : Type 0 where
  pub present : Bool
  pub r : Bool
  pub x : Bool
  pub b : Bool

pub record ModRm : Type 0 where
  pub reg_field : ℕ
  pub rm : Operand

-- A field of three bits, with its REX bit above it.
unfoldable pub extend : ℕ → Bool → ℕ
extend raw bit = bit_or raw (bool_bit bit * 8)

-- The displacement after the addressing bytes; `disp` where the mode has none.
unfoldable pub displacement : ℕ → ℤ → Run Cursor ℤ
displacement mod_field disp =
    if mod_field == 1 then cursor_i8 else if mod_field == 2 then cursor_i32 else return disp

-- Base and index are settled: the constant that stands for a base, then the displacement.
unfoldable pub with_displacement : ℕ → ℕ → Bool → Option ℕ → Option ℕ → ℕ → Run Cursor ModRm
with_displacement mod_field reg_field const_base base index scale = do
  constant ← (if const_base then cursor_i32 else return (pos 0))
  d ← displacement mod_field constant
  return (record { reg_field = reg_field; rm = mem (base_index base index scale d) seg_none })

unfoldable pub decode_sib : Rex → ℕ → ℕ → Run Cursor ModRm
decode_sib rex mod_field reg_field = do
  sib ← cursor_u8
  let scale = 2 ^ (sib / 64)
  let index_field = extend (bit_and (sib / 8) 7) rex.x
  let base_raw = bit_and sib 7
  let index = if index_field == 4 then none else some index_field
  let const_base = (base_raw == 5) && (mod_field == 0)
  let base = if const_base then none else some (extend base_raw rex.b)
  with_displacement mod_field reg_field const_base base index scale

-- The r/m field where it is not a register.
unfoldable pub decode_memory : Rex → ℕ → ℕ → ℕ → Run Cursor ModRm
decode_memory rex mod_field reg_field rm_raw =
    if rm_raw == 4
    then decode_sib rex mod_field reg_field
    else if (mod_field == 0) && (rm_raw == 5)
    then (do
      d ← cursor_i32
      return (record { reg_field = reg_field; rm = mem (rip_relative d) seg_none }))
    else with_displacement mod_field reg_field false (some (extend rm_raw rex.b)) none 1

unfoldable pub decode_modrm : Rex → Run Cursor ModRm
decode_modrm rex = do
  b ← cursor_u8
  let mod_field = b / 64
  let reg_field = extend (bit_and (b / 8) 7) rex.r
  let rm_raw = bit_and b 7
  if mod_field == 3
      then return (record { reg_field = reg_field; rm = reg (extend rm_raw rex.b) rex.present })
      else decode_memory rex mod_field reg_field rm_raw
