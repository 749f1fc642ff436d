-- ===== src/Cpu/Machine/Current.antt =====
-- Decoded instructions that are what decoding their address again would give.
use golinux.Base.{
  ℕ, ◌≤◌, ◌<◌, ◌≡◌, refl, sym, ap, ◌∙◌, ◌⊎◌, inl, inr, Bool, true, false, none, arith,
}
use golinux.Cpu.Memory.View.{view_of, IsValid}
use golinux.Cpu.Memory.Kept.{SameCode, CodeKept, CodeKept-trans, Untouched}
use golinux.Cpu.Run.{Outcome, done, failed}
use golinux.Cpu.Operand.{Engine, Operand, reg, mem, imm, read_operand}
use golinux.Cpu.ModRm.{Cursor}
use golinux.Cpu.ModRm.Reading.{Similar}
use golinux.Cpu.Exec.Bits.{BitAction, bit_operand}
use golinux.Cpu.Execute.{Instruction, bit_test}
use golinux.Cpu.Decode.{Extensions, Fetched, decode_one}
use golinux.Cpu.Decode.Reading.{ExtensionsRead, decode_one-Reads}
use golinux.Cpu.Decode.BlockEnds.{
  FallsThrough, EndsRight, plain-FallsThrough, ExtensionsEnd, decode_one-ends_block,
}
use golinux.Cpu.Machine.{Machine, decode_at, bit_test_after, captured_after, recapture}
use golinux.Cpu.Machine.Blocks.{insn_id}

-- The instructions whose closures write to what they capture: the register forms of BT, BTS, BTR
-- and BTC, but where they work on a register.
abbrev pub is_mutable : Instruction → Bool
is_mutable (bit_test action (mem a seg) offset w) = true
is_mutable (bit_test action (imm v) offset w) = true
is_mutable (bit_test action (reg i rex) offset w) = false
is_mutable i = false

-- What a run leaves of an instruction: itself, or one of these again.
pub record Recaptured (f g : Fetched) : Type 0 where
  pub same_len : g.len ≡ f.len
  pub same_ends : g.decoded.ends_block ≡ f.decoded.ends_block
  pub same_id : insn_id g.decoded.instruction ≡ insn_id f.decoded.instruction
  pub same_or_mutable : (g ≡ f) ⊎ (is_mutable g.decoded.instruction ≡ true)

pub Recaptured-refl : (f : Fetched) → Recaptured f f
Recaptured-refl f = record {
  same_len = refl;
  same_ends = refl;
  same_id = refl;
  same_or_mutable = inl refl;
}

bit_test_same :
    (action : BitAction) (rm offset : Operand) (w : ℕ) (e : Engine) (r : Outcome ℕ)
    → (bit_test_after action rm offset w e r ≡ bit_test action rm offset w)
      ⊎ (is_mutable (bit_test_after action rm offset w e r) ≡ true)
unfolding bit_test_after bit_operand
bit_test_same action rm offset w e (failed x) = inl refl
bit_test_same action (reg i rex) offset w e (done bit) = inl refl
bit_test_same action (mem a seg) offset w e (done bit) = inr refl
bit_test_same action (imm v) offset w e (done bit) = inr refl

bit_test_id :
    (action : BitAction) (rm offset : Operand) (w : ℕ) (e : Engine) (r : Outcome ℕ)
    → insn_id (bit_test_after action rm offset w e r) ≡ none
unfolding bit_test_after insn_id
bit_test_id action rm offset w e (failed x) = refl
bit_test_id action rm offset w e (done bit) = refl

captured_same :
    (i : Instruction) (e : Engine)
    → (captured_after i e ≡ i) ⊎ (is_mutable (captured_after i e) ≡ true)
unfolding captured_after
captured_same (bit_test action rm offset w) e =
    bit_test_same action rm offset w e (read_operand offset w e).0
captured_same i e = inl refl

captured_id : (i : Instruction) (e : Engine) → insn_id (captured_after i e) ≡ insn_id i
unfolding captured_after insn_id
captured_id (bit_test action rm offset w) e =
    bit_test_id action rm offset w e (read_operand offset w e).0
captured_id i e = refl

pub recapture-Recaptured : (f : Fetched) (e : Engine) → Recaptured f (recapture f e)
recapture-Recaptured f e = record {
  same_len = refl;
  same_ends = refl;
  same_id = captured_id f.decoded.instruction e;
  same_or_mutable =
      with_instruction f (captured_after f.decoded.instruction e)
        (captured_same f.decoded.instruction e);
}
  where
    with_instruction :
        (f : Fetched) (i : Instruction)
        → ((i ≡ f.decoded.instruction) ⊎ (is_mutable i ≡ true))
        → ((record f { decoded = record f.decoded { instruction = i } } ≡ f)
            ⊎ (is_mutable i ≡ true))
    with_instruction f i (inl same) =
        inl (
          ap (λ (j : Instruction). record f { decoded = record f.decoded { instruction = j } })
            same)
    with_instruction f i (inr p) = inr p

Recaptured-trans : {f g h : Fetched} → Recaptured f g → Recaptured g h → Recaptured f h
Recaptured-trans {f} {g} {h} p q = record {
  same_len = q.same_len ∙ p.same_len;
  same_ends = q.same_ends ∙ p.same_ends;
  same_id = q.same_id ∙ p.same_id;
  same_or_mutable = either q.same_or_mutable p.same_or_mutable;
}
  where
    either :
        ((h ≡ g) ⊎ (is_mutable h.decoded.instruction ≡ true))
        → ((g ≡ f) ⊎ (is_mutable g.decoded.instruction ≡ true))
        → ((h ≡ f) ⊎ (is_mutable h.decoded.instruction ≡ true))
    either (inr m) r = inr m
    either (inl e) (inl e') = inl (e ∙ e')
    either (inl e) (inr m) = inr (ap (λ (k : Fetched). is_mutable k.decoded.instruction) e ∙ m)

mutable-FallsThrough : (i : Instruction) → is_mutable i ≡ true → FallsThrough i
mutable-FallsThrough (bit_test action rm offset w) p =
    plain-FallsThrough (bit_test action rm offset w) refl
mutable-FallsThrough i p = cc

module _ (ext : Extensions) (fuel : ℕ) where
  -- What decoding the address gives now, or an instruction with a state of its own.
  abbrev pub IsFresh : ℕ → Fetched → Engine → Type 0
  IsFresh pc f e =
      (is_mutable f.decoded.instruction ≡ true) ⊎ ((decode_at ext fuel pc e).0 ≡ done f)

  -- Unless changes of code wait to be noticed.
  pub record Current (m : Machine) (pc d : ℕ) : Type 0 where
    pub below : d < m.next_code
    pub ends : EndsRight (m.code d).decoded
    pub fresh : m.core.space.code_dirty ≡ false → IsFresh pc (m.code d) m.core

-- A later state of the engine: memory has changed with care, and instructions as runs change them.
pub record Onward (m m' : Machine) : Type 0 where
  pub space : CodeKept m.core.space m'.core.space
  pub more : m.next_code ≤ m'.next_code
  pub code : (d : ℕ) → d < m.next_code → Recaptured (m.code d) (m'.code d)

pub Onward-trans : {m n o : Machine} → Onward m n → Onward n o → Onward m o
Onward-trans p q = record {
  space = CodeKept-trans p.space q.space;
  more = omega (arith, p.more, q.more);
  code = λ d h. Recaptured-trans (p.code d h) (q.code d (omega (arith, p.more)));
}

-- The same instructions, with another memory.
pub Onward-core :
    (m m' : Machine)
    → CodeKept m.core.space m'.core.space
    → m'.code ≡ m.code
    → m'.next_code ≡ m.next_code
    → Onward m m'
Onward-core m m' k same count = record {
  space = k;
  more = omega (arith, count);
  code = λ d h. rw same (Recaptured-refl (m.code d));
}

module _ (ext : Extensions) (fuel : ℕ) (reads : ExtensionsRead ext) where
  at_start : ℕ → Engine → Cursor
  at_start pc e = record { engine = e; base = pc; position = 0 }

  split_done : (r : Outcome Fetched × Cursor) (f : Fetched) → r.0 ≡ done f → r ≡ (done f, r.1)
  split_done (done g, c) f h = ap (λ (o : Outcome Fetched). (o, c)) h
  split_done (failed x, c) f h = cc

  -- Decoding depends on code alone.
  pub decode_at-SameCode :
      (pc : ℕ) (e e' : Engine) (f : Fetched)
      → IsValid e.space
      → IsValid e'.space
      → SameCode (view_of e.space) (view_of e'.space)
      → (decode_at ext fuel pc e).0 ≡ done f
      → (decode_at ext fuel pc e').0 ≡ done f
  unfolding decode_at at_start
  decode_at-SameCode pc e e' f v v' same h =
      let similar : Similar (at_start pc e) (at_start pc e') = record {
        valid = v;
        valid' = v';
        same_base = refl;
        same_position = refl;
        code = same;
      } in
      let r = decode_one ext fuel (at_start pc e) in
      let (c, after, _) =
        (decode_one-Reads ext reads fuel).stable (at_start pc e) (at_start pc e') f r.1 similar
          (split_done r f h) in
      ap (λ (p : Outcome Fetched × Cursor). p.0) after

  -- Decoding looks pages up and changes nothing else.
  pub decode_at-Untouched :
      (pc : ℕ) (e : Engine) → IsValid e.space → Untouched e.space (decode_at ext fuel pc e).1.space
  unfolding decode_at at_start
  decode_at-Untouched pc e v = ((decode_one-Reads ext reads fuel).quiet (at_start pc e) v).space

  pub decode_at-regs :
      (pc : ℕ) (e : Engine) → IsValid e.space → (decode_at ext fuel pc e).1.regs ≡ e.regs
  unfolding decode_at at_start
  decode_at-regs pc e v = ((decode_one-Reads ext reads fuel).quiet (at_start pc e) v).same_regs

  pub decode_at-cur_instr_end :
      (pc : ℕ) (e : Engine)
      → IsValid e.space
      → (decode_at ext fuel pc e).1.cur_instr_end ≡ e.cur_instr_end
  unfolding decode_at at_start
  decode_at-cur_instr_end pc e v =
      ((decode_one-Reads ext reads fuel).quiet (at_start pc e) v).same_end

  fresh_later :
      (m m' : Machine) (pc : ℕ) (f g : Fetched)
      → IsValid m.core.space
      → Onward m m'
      → m'.core.space.code_dirty ≡ false
      → ((g ≡ f) ⊎ (is_mutable g.decoded.instruction ≡ true))
      → (is_mutable f.decoded.instruction ≡ true) ⊎ ((decode_at ext fuel pc m.core).0 ≡ done f)
      → (is_mutable g.decoded.instruction ≡ true) ⊎ ((decode_at ext fuel pc m'.core).0 ≡ done g)
  fresh_later m m' pc f g v o clean (inr mutable) h = inl mutable
  fresh_later m m' pc f g v o clean (inl same) (inl mutable) =
      inl (ap (λ (k : Fetched). is_mutable k.decoded.instruction) same ∙ mutable)
  fresh_later m m' pc f g v o clean (inl same) (inr h) = inr (
      decode_at-SameCode pc m.core m'.core f v o.space.valid (o.space.code clean) h
      ∙ ap done (sym same))

  ends_later :
      (f g : Fetched)
      → g.decoded.ends_block ≡ f.decoded.ends_block
      → ((g ≡ f) ⊎ (is_mutable g.decoded.instruction ≡ true))
      → EndsRight f.decoded
      → EndsRight g.decoded
  ends_later f g same (inr mutable) ends open_end =
      mutable-FallsThrough g.decoded.instruction mutable
  ends_later f g same (inl e) ends open_end =
      rw (ap (λ (k : Fetched). k.decoded.instruction) e) (ends (sym same ∙ open_end))

  pub Current-Onward :
      (m m' : Machine) (pc d : ℕ)
      → IsValid m.core.space
      → Onward m m'
      → Current ext fuel m pc d
      → Current ext fuel m' pc d
  Current-Onward m m' pc d v o c =
      let r = o.code d c.below in
      record {
        below = omega (arith, c.below, o.more);
        ends = ends_later (m.code d) (m'.code d) r.same_ends r.same_or_mutable c.ends;
        fresh = λ clean.
            fresh_later m m' pc (m.code d) (m'.code d) v o clean r.same_or_mutable
              (c.fresh (o.space.was_clean clean));
      }

module _ (ext : Extensions) (fuel : ℕ) (given : ExtensionsEnd ext) where
  decoded_ends :
      (r : Outcome Fetched × Cursor) (c : Cursor) (f : Fetched)
      → decode_one ext fuel c ≡ r
      → r.0 ≡ done f
      → EndsRight f.decoded
  decoded_ends (done g, c₁) c f h e =
      decode_one-ends_block ext given fuel c c₁ f (h ∙ ap (λ (o : Outcome Fetched). (o, c₁)) e)
  decoded_ends (failed x, c₁) c f h e = cc

  pub decode_at-EndsRight :
      (pc : ℕ) (e : Engine) (f : Fetched)
      → (decode_at ext fuel pc e).0 ≡ done f
      → EndsRight f.decoded
  unfolding decode_at
  decode_at-EndsRight pc e f h =
      let c : Cursor = record { engine = e; base = pc; position = 0 } in
      decoded_ends (decode_one ext fuel c) c f refl h
