-- ===== src/Cpu/Decode/Prefixes/Reading.antt =====
-- The decoders of addressing bytes, prefixes and immediates only read code.
use golinux.Base.{
  ℕ, zero, suc, ◌+◌, ◌≡◌, ◌≢◌, refl, ap, ◌∙◌, Bool, if◌then◌else◌, Option, none, some,
}
use golinux.Base.Int.{ℤ}
use golinux.Cpu.Memory.{Fault, prot_exec}
use golinux.Cpu.Memory.Copy.{err}
use golinux.Cpu.Memory.View.{view_of, read_view, IsValid}
use golinux.Cpu.Memory.Kept.{Untouched-refl}
use golinux.Cpu.Run.{diverged, Outcome, done, failed, Run, and_then, ◌>>=◌}
use golinux.Cpu.ModRm.{
  Cursor, peek_byte, cursor_u8, cursor_i8, cursor_u16, cursor_u32, cursor_i32, cursor_u64, Rex,
  displacement, with_displacement, decode_sib, decode_memory, decode_modrm,
}
use golinux.Cpu.ModRm.Reading.{
  next_address, Quiet, Similar, Follows, Reads, NeedsByte, Reads-return, Reads-fail, Reads-if,
  Reads-bind, Reads-fetch, peek_byte-Quiet, Reads-peek_byte, NeedsByte-peek_byte, peek_byte-failed,
  bind_quiet, NeedsByte-fetch, NeedsByte-bind, bind-inv,
}
use golinux.Cpu.Decode.Prefixes.{
  Prefix, skip, note_then, note_prefix, legacy_prefixes, tested, peek_is, operands, imm8_signed,
  imm_signed, imm_masked,
}

pub ruleset reading_rules = (Reads-return, Reads-fail, Reads-if, Reads-bind, Reads-fetch)

pub cursor_u8-Reads : Reads cursor_u8
unfolding cursor_u8
cursor_u8-Reads = search reading_rules

pub cursor_i8-Reads : Reads cursor_i8
unfolding cursor_i8
cursor_i8-Reads = search (reading_rules, cursor_u8-Reads)

pub cursor_u16-Reads : Reads cursor_u16
unfolding cursor_u16
cursor_u16-Reads = search reading_rules

pub cursor_u32-Reads : Reads cursor_u32
unfolding cursor_u32
cursor_u32-Reads = search reading_rules

pub cursor_i32-Reads : Reads cursor_i32
unfolding cursor_i32
cursor_i32-Reads = search (reading_rules, cursor_u32-Reads)

pub cursor_u64-Reads : Reads cursor_u64
unfolding cursor_u64
cursor_u64-Reads = search reading_rules

displacement-Reads : (m : ℕ) (d : ℤ) → Reads (displacement m d)
unfolding displacement
displacement-Reads m d = search (reading_rules, cursor_i8-Reads, cursor_i32-Reads)

with_displacement-Reads :
    (m r : ℕ) (const : Bool) (base index : Option ℕ) (scale : ℕ)
    → Reads (with_displacement m r const base index scale)
unfolding with_displacement
with_displacement-Reads m r const base index scale =
    search (reading_rules, displacement-Reads, cursor_i32-Reads)

decode_sib-Reads : (rex : Rex) (m r : ℕ) → Reads (decode_sib rex m r)
unfolding decode_sib
decode_sib-Reads rex m r = search (reading_rules, cursor_u8-Reads, with_displacement-Reads)

decode_memory-Reads : (rex : Rex) (m r n : ℕ) → Reads (decode_memory rex m r n)
unfolding decode_memory
decode_memory-Reads rex m r n =
    search (reading_rules, decode_sib-Reads, with_displacement-Reads, cursor_i32-Reads)

pub decode_modrm-Reads : (rex : Rex) → Reads (decode_modrm rex)
unfolding decode_modrm
decode_modrm-Reads rex = search (reading_rules, cursor_u8-Reads, decode_memory-Reads)

pub operands-Reads : (p : Prefix) → Reads (operands p)
unfolding operands
operands-Reads p = search (reading_rules, decode_modrm-Reads)

pub imm8_signed-Reads : Reads imm8_signed
unfolding imm8_signed
imm8_signed-Reads = search (reading_rules, cursor_i8-Reads)

pub imm_signed-Reads : (w : ℕ) → Reads (imm_signed w)
unfolding imm_signed
imm_signed-Reads w = search (reading_rules, cursor_u16-Reads, cursor_i32-Reads)

pub imm_masked-Reads : (w : ℕ) → Reads (imm_masked w)
unfolding imm_masked
imm_masked-Reads w = search (reading_rules, cursor_u8-Reads, cursor_u16-Reads, cursor_i32-Reads)

pub skip-Reads : Reads skip
skip-Reads = record {
  quiet = λ c v. record {
    space = Untouched-refl c.engine.space v;
    same_base = refl;
    same_regs = refl;
    same_end = refl;
  };
  stable = λ c c' a c₁ s e. (record c' { position = c'.position + 1 }, refl, skipped c c' a c₁ s e);
}
  where
    skipped :
        (c c' : Cursor) (a : Unit {0}) (c₁ : Cursor)
        → Similar c c'
        → skip c ≡ (done a, c₁)
        → Similar c₁ (record c' { position = c'.position + 1 })
    skipped c c' a c₁ s e =
        let end : c₁ ≡ record c { position = c.position + 1 } = cc in
        rw end (record {
          valid = s.valid;
          valid' = s.valid';
          same_base = s.same_base;
          same_position = ap (λ (n : ℕ). n + 1) s.same_position;
          code = s.code;
        })

note_then-Reads :
    (rest : Prefix → Run Cursor Prefix) (p : Prefix) (noted : Option Prefix)
    → ((q : Prefix) → Reads (rest q))
    → Reads (note_then rest p noted)
note_then-Reads rest p none r = Reads-return p
note_then-Reads rest p (some q) r = Reads-bind skip (λ _. rest q) skip-Reads (λ _. r q)

pub legacy_prefixes-Reads : (n : ℕ) (p : Prefix) → Reads (legacy_prefixes n p)
unfolding legacy_prefixes
legacy_prefixes-Reads zero p = Reads-fail diverged
legacy_prefixes-Reads (suc n) p =
    Reads-bind peek_byte (λ b. note_then (λ q. legacy_prefixes n q) p (note_prefix b p))
      Reads-peek_byte
      λ b. note_then-Reads (λ q. legacy_prefixes n q) p (note_prefix b p) (legacy_prefixes-Reads n)

tested_quiet :
    (f : ℕ → Bool) (c : Cursor) (r : Outcome ℕ × Cursor) → Quiet c r.1 → Quiet c (tested f r).1
tested_quiet f c (done b, d) q = q
tested_quiet f c (failed x, d) q = q

pub peek_is-Quiet : (f : ℕ → Bool) (c : Cursor) → IsValid c.engine.space → Quiet c (peek_is f c).1
unfolding peek_is
peek_is-Quiet f c v = tested_quiet f c (peek_byte c) (peek_byte-Quiet c v)

peeked-IsValid :
    (c d : Cursor)
    → Quiet c (peek_byte c).1
    → (o : Outcome ℕ) → peek_byte c ≡ (o, d)
    → IsValid d.engine.space
peeked-IsValid c d q o seen = rw seen at q.space.valid

module _ {A : Type 0} (f : ℕ → Bool) (k : Option ℕ → Run Cursor A)
    (needs : NeedsByte (k none)) where
  -- A look that fails is followed by a failure, so a similar cursor has nothing to follow.
  looked :
      (c c' c₁ : Cursor) (a : A) (r : Outcome ℕ × Cursor)
      → ((b : Option ℕ) → Reads (k b))
      → Similar c c'
      → peek_byte c ≡ r
      → and_then (tested f r) k ≡ (done a, c₁)
      → Follows c₁ a (and_then (peek_is f c') k)
  unfolding peek_is
  looked c c' c₁ a (done b, d) reads s seen h =
      let (d', there, similar) = Reads-peek_byte.stable c c' b d s seen in
      let (c₁', after, same) = (reads (if f b then some b else none)).stable d d' a c₁ similar h in
      (c₁', ap (λ (r : Outcome ℕ × Cursor). and_then (tested f r) k) there ∙ after, same)
  looked c c' c₁ a (failed x, d) reads s seen h =
      let (y, unread) = peek_byte-failed c d x s.valid seen in
      let v : IsValid d.engine.space =
        peeked-IsValid c d (peek_byte-Quiet c s.valid) (failed x) seen in
      absurd (needs.fails d y a c₁ v unread h)

  pub Reads-peek_is : ((b : Option ℕ) → Reads (k b)) → Reads (peek_is f >>= k)
  Reads-peek_is reads = record {
    quiet = λ c v. bind_quiet c (peek_is f c) k (peek_is-Quiet f c v) reads;
    stable = λ c c' a c₁ s h. looked c c' c₁ a (peek_byte c) reads s refl (unfold peek_is in h);
  }

  unseen :
      (c c₁ : Cursor) (x : Fault) (a : A) (r : Outcome ℕ × Cursor)
      → IsValid c.engine.space
      → read_view (view_of c.engine.space) (next_address c) 1 prot_exec ≡ err x
      → peek_byte c ≡ r
      → and_then (tested f r) k ≢ (done a, c₁)
  unseen c c₁ x a (done b, d) v e seen = absurd (NeedsByte-peek_byte.fails c x b d v e seen)
  unseen c c₁ x a (failed y, d) v e seen =
      let (z, unread) = peek_byte-failed c d y v seen in
      needs.fails d z a c₁ (peeked-IsValid c d (peek_byte-Quiet c v) (failed y) seen) unread

  pub NeedsByte-peek_is : NeedsByte (peek_is f >>= k)
  NeedsByte-peek_is = record {
    fails = λ c x a c₁ v e h. unseen c c₁ x a (peek_byte c) v e refl (unfold peek_is in h);
  }
