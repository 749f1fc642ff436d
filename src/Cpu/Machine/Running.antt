-- ===== src/Cpu/Machine/Running.antt =====
-- One instruction from the caches, and the check for changed code after it.
use golinux.Base.{
  ℕ, ◌+◌, ◌^◌, ◌≤◌, ◌<◌, ◌≡◌, refl, sym, ap, ◌∙◌, Bool, true, false, ◌==◌, if◌then◌else◌, none,
  arith, Bool-cases, inl, inr,
}
use golinux.Base.Map.{find}
use golinux.Base.Word.{◌+w◌}
use golinux.Cpu.Memory.View.{IsValid}
use golinux.Cpu.Memory.Kept.{CodeKept}
use golinux.Cpu.Registers.{array_set}
use golinux.Cpu.Run.{done}
use golinux.Cpu.Operand.{Engine}
use golinux.Cpu.Decode.{Extensions, Fetched}
use golinux.Cpu.Decode.Reading.{ExtensionsRead}
use golinux.Cpu.Decode.BlockEnds.{ExtensionsEnd}
use golinux.Cpu.Machine.{
  Machine, set_core, clean_core, refresh, invalidate_code_caches, recapture, decode_at, run_at,
  run_code,
}
use golinux.Cpu.Machine.Blocks.{insn_id}
use golinux.Cpu.Machine.Loop.{Hooks}
use golinux.Cpu.Machine.Current.{
  is_mutable, IsFresh, Recaptured, Recaptured-refl, recapture-Recaptured, Current, Onward,
  Onward-core,
}
use golinux.Cpu.Machine.Tables.{IsTables, entry}
use golinux.Cpu.Machine.Coherent.{Coherent, SameBlocks, Coherent-same}
use golinux.Cpu.Machine.Steps.{
  executes, notices, earlier, exactly, Follows, one-Follows, with_end, run_at-CodeKept,
}

same_caches :
    (m : Machine) (e : Engine) (code : ℕ → Fetched)
    → SameBlocks m (record m { core = e; code = code })
same_caches m e code = record {
  stop_requested = refl;
  block_jit = refl;
  block_cache = refl;
  generation = refl;
  cached_block_start = refl;
  cached_block = refl;
}

same-IsTables :
    (m : Machine) (e : Engine) (code : ℕ → Fetched)
    → IsTables m
    → IsTables (record m { core = e; code = code })
same-IsTables m e code t = record { cached = t.cached; below = t.below; apart = t.apart }

-- The instruction behind one pointer as its run leaves it.
one-Recaptured :
    (m : Machine) (d : ℕ) (e : Engine) (x : ℕ)
    → Recaptured (m.code x) (array_set m.code d (recapture (m.code d) e) x)
one-Recaptured m d e x = elim (Bool-cases (x == d)) [
  | inr other ↦ rw other (Recaptured-refl (m.code x))
  | inl hit ↦ let same : d ≡ x = ground arith in rw hit (ap_recaptured m d x e same)
]
  where
    ap_recaptured :
        (m : Machine) (d x : ℕ) (e : Engine)
        → d ≡ x
        → Recaptured (m.code x) (recapture (m.code d) e)
    ap_recaptured m d x e same = rw same (recapture-Recaptured (m.code x) e)

run_code-Onward : (pc d : ℕ) (m : Machine) → IsValid m.core.space → Onward m (run_code pc d m).1
unfolding run_code
run_code-Onward pc d m v = record {
  space = run_at-CodeKept pc (m.code d) m.core v;
  more = omega arith;
  code = λ x _. one-Recaptured m d (with_end (pc +w (m.code d).len) m.core) x;
}

module _ (ext : Extensions) (fuel : ℕ) (reads : ExtensionsRead ext) (ends : ExtensionsEnd ext)
    (hooks : Hooks) where
  pub record Ran (m : Machine) (m' : Machine) : Type 0 where
    pub coherent : Coherent ext fuel m'
    pub onward : Onward m m'
    pub blocks : SameBlocks m m'
    pub follows : Follows ext fuel hooks m m'

  -- A current instruction at rip is the one that decoding rip gives.
  pub decoded_now :
      (m : Machine) (pc d : ℕ)
      → m.core.regs.rip ≡ pc
      → IsFresh ext fuel pc (m.code d) m.core
      → is_mutable (m.code d).decoded.instruction ≡ false
      → (decode_at ext fuel m.core.regs.rip m.core).0 ≡ done (m.code d)
  decoded_now m pc d rip fresh plain =
      ap (λ (x : ℕ). (decode_at ext fuel x m.core).0) rip
      ∙ exactly ext fuel pc (m.code d) m.core fresh plain

  pub run_code-Ran :
      (pc d : ℕ) (m : Machine)
      → Coherent ext fuel m
      → m.core.space.code_dirty ≡ false
      → m.core.regs.rip ≡ pc
      → Current ext fuel m pc d
      → insn_id (m.code d).decoded.instruction ≡ none
      → Ran m (run_code pc d m).1
  unfolding run_code entry
  run_code-Ran pc d m c clean rip current hookless =
      let f = m.code d in
      let o = run_code-Onward pc d m c.valid in
      let e' = (run_at pc f m.core).1 in
      let code = array_set m.code d (recapture f (with_end (pc +w f.len) m.core)) in
      let b = same_caches m e' code in
      record {
        coherent =
            Coherent-same ext fuel reads m (record m { core = e'; code = code }) c o b
              (same-IsTables m e' code c.tables) (λ x. refl);
        onward = o;
        blocks = b;
        follows =
            one-Follows ext fuel hooks (earlier m (record m { core = e'; code = code }) o) λ plain.
              executes f (decoded_now m pc d rip (current.fresh clean) (plain d current.below))
                hookless e' (ap (λ (x : ℕ). (run_at x f m.core).1) (sym rip));
      }

  -- Changed code drops the caches. The generation is a word, which must not come round.
  pub record Refreshed (m : Machine) (r : Bool × Machine) : Type 0 where
    pub coherent : Coherent ext fuel r.1
    pub clean : r.1.core.space.code_dirty ≡ false
    pub follows : Follows ext fuel hooks m r.1
    pub same_regs : r.1.core.regs ≡ m.core.regs
    pub same_stop : r.1.stop_requested ≡ m.stop_requested
    pub generation : r.1.generation ≤ m.generation + 1
    pub unchanged : r.0 ≡ false → Onward m r.1 × SameBlocks m r.1

  invalidated :
      (m : Machine)
      → Coherent ext fuel m
      → m.generation + 1 < 2 ^ 64
      → Coherent ext fuel (invalidate_code_caches (set_core (clean_core m.core) m))
  unfolding invalidate_code_caches entry find
  invalidated m c room = record {
    valid = record { cached = c.valid.cached; below = c.valid.below; apart = c.valid.apart };
    tables = record { cached = λ t e. cc; below = λ a t e. cc; apart = λ a b t e. cc };
    entries = λ pc d e. cc;
    slots = λ s b e.
        let old = (c.slots s b e).older in
        record {
          older = omega (arith, old, room);
          chain = λ h. absurd (omega (arith, old, room, h));
        };
    last = λ b e. cc;
    last_start = λ b e. cc;
  }

  cleaned :
      (m : Machine)
      → Coherent ext fuel m
      → m.core.space.code_dirty ≡ false
      → CodeKept m.core.space (clean_core m.core).space
  cleaned m c clean = record {
    valid = record { cached = c.valid.cached; below = c.valid.below; apart = c.valid.apart };
    was_clean = λ _. clean;
    code = λ _. record { cell = λ x k seen exec. seen };
  }

  dropped :
      (m : Machine)
      → Coherent ext fuel m
      → m.generation + 1 < 2 ^ 64
      → Refreshed m (true, invalidate_code_caches (set_core (clean_core m.core) m))
  unfolding invalidate_code_caches
  dropped m c room = record {
    coherent = invalidated m c room;
    clean = refl;
    follows = one-Follows ext fuel hooks (λ h. h) (λ h. notices _ refl);
    same_regs = refl;
    same_stop = refl;
    generation = omega arith;
    unchanged = λ e. cc;
  }

  nothing_new :
      (m : Machine)
      → Coherent ext fuel m
      → m.core.space.code_dirty ≡ false
      → Refreshed m (false, set_core (clean_core m.core) m)
  unfolding entry
  nothing_new m c clean =
      let m' = set_core (clean_core m.core) m in
      let o : Onward m m' = Onward-core m m' (cleaned m c clean) refl refl in
      let b = same_caches m (clean_core m.core) m.code in
      record {
        coherent =
            Coherent-same ext fuel reads m m' c o b
              (same-IsTables m (clean_core m.core) m.code c.tables) (λ x. refl);
        clean = refl;
        follows = one-Follows ext fuel hooks (λ h. h) (λ h. notices _ refl);
        same_regs = refl;
        same_stop = refl;
        generation = omega arith;
        unchanged = λ _. (o, b);
      }

  pub refresh-Refreshed :
      (m : Machine) → Coherent ext fuel m → m.generation + 1 < 2 ^ 64 → Refreshed m (refresh m)
  unfolding refresh
  refresh-Refreshed m c room = either m.core.space.code_dirty refl
    where
      either :
          (b : Bool)
          → m.core.space.code_dirty ≡ b
          → Refreshed m (
              if b
              then (true, invalidate_code_caches (set_core (clean_core m.core) m))
              else (false, set_core (clean_core m.core) m))
      either true e = dropped m c room
      either false e = nothing_new m c e
