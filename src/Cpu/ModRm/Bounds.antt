-- ===== src/Cpu/ModRm/Bounds.antt =====
-- What decodeModRM gives, whatever bytes it reads: registers that exist, and a short instruction.
use golinux.Base.{
  ℕ, ◌+◌, ◌*◌, ◌/◌, ◌^◌, ◌≤◌, ◌<◌, ◌≡◌, refl, ap, ◌∙◌, Bool, true, false, bit_and, bit_or, ◌==◌,
  ◌&&◌, if◌then◌else◌, Option, none, some, List, arith,
}
use golinux.Base.Int.{ℤ, pos}
use golinux.Base.Bits.{and_mask}
use golinux.Base.Disjoint.{or_split, or-zero, zero-or}
use golinux.Base.Word.{◌+w◌}
use golinux.Cpu.Memory.{Space, prot_exec}
use golinux.Cpu.Memory.Copy.{Result, ok, err, read_checked_into}
use golinux.Cpu.Run.{Outcome, done, failed, return}
use golinux.Cpu.Run.Post.{Post, Post-bind, Post-if}
use golinux.Cpu.Operand.{Operand, reg, mem, imm, rip_relative, direct, base_index}
use golinux.Cpu.ModRm.{
  Cursor, fetch, fetched, cursor_u8, cursor_i8, cursor_u32, cursor_i32, bool_bit, Rex, ModRm,
  extend, displacement, with_displacement, decode_sib, decode_memory, decode_modrm,
}

-- `int(raw) | boolBit(bit)<<3` is the field with the bit in front.
pub extend_lem : (raw : ℕ) (bit : Bool) → raw < 8 → extend raw bit ≡ raw + bool_bit bit * 8
unfolding extend
extend_lem raw bit small =
    let left : raw ≡ 0 * 2 ^ 3 + raw = omega arith in
    let right : bool_bit bit * 8 ≡ bool_bit bit * 2 ^ 3 + 0 = omega arith in
    ap (λ (x : ℕ). bit_or raw x) right
    ∙ ap (λ (x : ℕ). bit_or x (bool_bit bit * 2 ^ 3 + 0)) left
    ∙ or_split 3 0 (bool_bit bit) raw 0 small (omega arith)
    ∙ rw (or-zero raw, zero-or (bool_bit bit)) (omega arith)

bool_bit-lt : (b : Bool) → bool_bit b < 2
bool_bit-lt true = omega arith
bool_bit-lt false = omega arith

pub extend-lt : (x : ℕ) (bit : Bool) → extend (bit_and x 7) bit < 16
extend-lt x bit = omega (
  arith,
  extend_lem (bit_and x 7) bit (omega (arith, and_mask 3 x)),
  and_mask 3 x,
  bool_bit-lt bit,
)

abbrev pub IsRegister : Option ℕ → Type 0
IsRegister none = Unit {0}
IsRegister (some i) = i < 16

abbrev pub HasRegisters : Operand → Type 0
HasRegisters (reg i rex) = i < 16
HasRegisters (imm v) = Unit {0}
HasRegisters (mem (rip_relative d) seg) = Unit {0}
HasRegisters (mem (direct a) seg) = Unit {0}
HasRegisters (mem (base_index base index scale d) seg) = IsRegister base × IsRegister index

-- The cursor has moved by at least `low` and at most `high` bytes, from position `p`.
abbrev pub Moved : ℕ → ℕ → ℕ → Cursor → Type 0
Moved p low high c = (p + low ≤ c.position) × (c.position ≤ p + high)

abbrev MovedBy : {A : Type 0} → ℕ → ℕ → ℕ → A → Cursor → Type 0
MovedBy p low high a c = Moved p low high c

fetched-moves :
    (n : ℕ) (c : Cursor) (r : Result (List ℕ) × Space)
    → Post (MovedBy c.position n n) (fetched c n r)
fetched-moves n c (ok bs, s) = (omega arith, omega arith)
fetched-moves n c (err x, s) = tt

fetch-moves : (n : ℕ) (c : Cursor) → Post (MovedBy c.position n n) (fetch n c)
unfolding fetch
fetch-moves n c =
    fetched-moves n c (read_checked_into (c.base +w c.position) n prot_exec c.engine.space)

cursor_u8-moves : (c : Cursor) → Post (MovedBy c.position 1 1) (cursor_u8 c)
unfolding cursor_u8
cursor_u8-moves c = Post-bind _ _ (fetch 1 c) _ (fetch-moves 1 c) λ a s q. q

cursor_i8-moves : (c : Cursor) → Post (MovedBy c.position 1 1) (cursor_i8 c)
unfolding cursor_i8
cursor_i8-moves c = Post-bind _ _ (cursor_u8 c) _ (cursor_u8-moves c) λ a s q. q

cursor_i32-moves : (c : Cursor) → Post (MovedBy c.position 4 4) (cursor_i32 c)
unfolding cursor_i32 cursor_u32
cursor_i32-moves c =
    Post-bind (MovedBy c.position 4 4) _ (cursor_u32 c) _
      (Post-bind _ _ (fetch 4 c) _ (fetch-moves 4 c) (λ a s q. q)) λ a s q. q

displacement-moves :
    (m : ℕ) (d : ℤ) (c : Cursor) → Post (MovedBy c.position 0 4) (displacement m d c)
unfolding displacement
displacement-moves m d c =
    Post-if (MovedBy c.position 0 4) (m == 1) cursor_i8 (if m == 2 then cursor_i32 else return d) c
      (λ e. widen (cursor_i8 c) 1 1 (omega arith) (cursor_i8-moves c))
      (λ e.
        Post-if (MovedBy c.position 0 4) (m == 2) cursor_i32 (return d) c
          (λ e'. widen (cursor_i32 c) 4 4 (omega arith) (cursor_i32-moves c))
          (λ e'. (omega arith, omega arith)))
  where
    widen :
        (r : Outcome ℤ × Cursor) (low high : ℕ)
        → high ≤ 4
        → Post (MovedBy c.position low high) r
        → Post (MovedBy c.position 0 4) r
    widen (done a, s) low high h (p, q) = (omega arith, omega arith)
    widen (failed x, s) low high h p = tt

-- Registers that exist, and the bytes taken since position `p`.
abbrev pub Decoded : ℕ → ℕ → ModRm → Cursor → Type 0
Decoded p high m c = Moved p 1 high c × (m.reg_field < 16) × HasRegisters m.rm

-- A constant in place of the base comes with no other displacement.
with_displacement-Decoded :
    (p taken m field : ℕ) (const : Bool) (base index : Option ℕ) (scale : ℕ) (c : Cursor)
    → (const ≡ true → m ≡ 0)
    → Moved p 1 taken c
    → field < 16
    → IsRegister base
    → IsRegister index
    → Post (Decoded p (taken + 4)) (with_displacement m field const base index scale c)
unfolding with_displacement displacement
with_displacement-Decoded p taken m field true base index scale c alone here small b i =
    Post-bind (MovedBy c.position 4 4) (Decoded p (taken + 4)) (cursor_i32 c) _ (cursor_i32-moves c)
      λ k s moved. rw (alone refl, displacement) ((omega arith, omega arith), small, (b, i))
with_displacement-Decoded p taken m field false base index scale c alone here small b i =
    Post-bind (MovedBy c.position 0 4) (Decoded p (taken + 4)) (displacement m (pos 0) c) _
      (displacement-moves m (pos 0) c) λ d s moved. ((omega arith, omega arith), small, (b, i))

none_or_IsRegister : (b : Bool) (i : ℕ) → i < 16 → IsRegister (if b then none else some i)
none_or_IsRegister true i h = tt
none_or_IsRegister false i h = h

decode_sib-Decoded :
    (p m field : ℕ) (rex : Rex) (c : Cursor)
    → Moved p 1 1 c
    → field < 16
    → Post (Decoded p 6) (decode_sib rex m field c)
unfolding decode_sib
decode_sib-Decoded p m field rex c here small =
    Post-bind (MovedBy c.position 1 1) (Decoded p 6) (cursor_u8 c) _ (cursor_u8-moves c)
      λ sib s moved.
        with_displacement-Decoded p 2 m field ((bit_and sib 7 == 5) && (m == 0)) _ _
          (2 ^ (sib / 64)) s (λ both. ground arith) (omega arith, omega arith) small
          (none_or_IsRegister ((bit_and sib 7 == 5) && (m == 0)) _ (extend-lt sib rex.b))
          (none_or_IsRegister (extend (bit_and (sib / 8) 7) rex.x == 4) _
            (extend-lt (sib / 8) rex.x))

decode_memory-Decoded :
    (p m field x : ℕ) (rex : Rex) (c : Cursor)
    → Moved p 1 1 c
    → field < 16
    → Post (Decoded p 6) (decode_memory rex m field (bit_and x 7) c)
unfolding decode_memory
decode_memory-Decoded p m field x rex c here small =
    Post-if (Decoded p 6) (bit_and x 7 == 4) (decode_sib rex m field) _ c
      (λ e. decode_sib-Decoded p m field rex c here small)
      (λ e.
        Post-if (Decoded p 6) ((m == 0) && (bit_and x 7 == 5)) _ _ c
          (λ e'.
            Post-bind (MovedBy c.position 4 4) (Decoded p 6) (cursor_i32 c) _ (cursor_i32-moves c)
              λ d s moved. ((omega arith, omega arith), small, tt))
          (λ e'.
            with_displacement-Decoded p 2 m field false (some (extend (bit_and x 7) rex.b)) none 1 c
              (λ never. cc) (omega arith, omega arith) small (extend-lt x rex.b) tt))

-- When decodeModRM returns, it has consumed from one to six bytes, and every register index of
-- its result is below 16.
pub decode_modrm-Decoded :
    (rex : Rex) (c : Cursor) → Post (Decoded c.position 6) (decode_modrm rex c)
unfolding decode_modrm
decode_modrm-Decoded rex c =
    Post-bind (MovedBy c.position 1 1) (Decoded c.position 6) (cursor_u8 c) _ (cursor_u8-moves c)
      λ b s moved.
        Post-if (Decoded c.position 6) (b / 64 == 3) _ _ s
          (λ e. ((omega arith, omega arith), extend-lt (b / 8) rex.r, extend-lt b rex.b))
          (λ e. decode_memory-Decoded c.position (b / 64) _ b rex s moved (extend-lt (b / 8) rex.r))
