-- ===== src/Cpu/Machine/Lookup.antt =====
-- cachedDecode gives current instructions and keeps the caches coherent.
use golinux.Base.{ℕ, ◌≡◌, inl, inr, refl, sym, ap, ◌∙◌, bit_and, Option, none, some, arith}
use golinux.Base.Map.{find}
use golinux.Cpu.Memory.{page_addr}
use golinux.Cpu.Memory.View.{IsValid}
use golinux.Cpu.Memory.Kept.{
  CodeKept-refl, Untouched, Untouched-refl, Untouched-trans, Untouched-CodeKept, SameCode-eq,
}
use golinux.Cpu.Run.{Outcome, done, failed}
use golinux.Cpu.Registers.{array_set}
use golinux.Cpu.Operand.{Engine}
use golinux.Cpu.Decode.{Extensions, Fetched}
use golinux.Cpu.Decode.Reading.{ExtensionsRead}
use golinux.Cpu.Decode.BlockEnds.{ExtensionsEnd}
use golinux.Cpu.Machine.{
  Machine, set_core, table_for, decode_at, keep_decoded, entry_or_decode, cached_decode,
}
use golinux.Cpu.Machine.Current.{
  Recaptured-refl, Current, Onward, Onward-trans, Onward-core, decode_at-SameCode,
  decode_at-Untouched, decode_at-regs, decode_at-cur_instr_end, Current-Onward, decode_at-EndsRight,
}
use golinux.Cpu.Machine.Tables.{
  IsTables, entry, entry_in, SameRest, table_for-TableFor, entry-stored,
}
use golinux.Cpu.Machine.Coherent.{
  Coherent, SameBlocks, SameBlocks-trans, Coherent-same, Coherent-Onward,
}

-- What cachedDecode does but for its result.
pub record Looked (m m' : Machine) : Type 0 where
  pub onward : Onward m m'
  pub blocks : SameBlocks m m'
  pub space : Untouched m.core.space m'.core.space
  pub same_regs : m'.core.regs ≡ m.core.regs
  pub same_end : m'.core.cur_instr_end ≡ m.core.cur_instr_end

pub Looked-trans : {m n o : Machine} → Looked m n → Looked n o → Looked m o
Looked-trans p q = record {
  onward = Onward-trans p.onward q.onward;
  blocks = SameBlocks-trans p.blocks q.blocks;
  space = Untouched-trans p.space q.space;
  same_regs = q.same_regs ∙ p.same_regs;
  same_end = q.same_end ∙ p.same_end;
}

pub Looked-refl : (m : Machine) → IsValid m.core.space → Looked m m
Looked-refl m v = record {
  onward = Onward-core m m (CodeKept-refl m.core.space v) refl refl;
  blocks = record {
    stop_requested = refl;
    block_jit = refl;
    block_cache = refl;
    generation = refl;
    cached_block_start = refl;
    cached_block = refl;
  };
  space = Untouched-refl m.core.space v;
  same_regs = refl;
  same_end = refl;
}

rest_Looked : (m m' : Machine) → IsValid m.core.space → SameRest m m' → Looked m m'
rest_Looked m m' v r =
    let kept : Untouched m.core.space m'.core.space = rw r.core (Untouched-refl m.core.space v) in
    record {
      onward = Onward-core m m' (Untouched-CodeKept kept) r.code r.next_code;
      blocks = record {
        stop_requested = r.stop_requested;
        block_jit = r.block_jit;
        block_cache = r.block_cache;
        generation = r.generation;
        cached_block_start = r.cached_block_start;
        cached_block = r.cached_block;
      };
      space = kept;
      same_regs = ap (λ (e : Engine). e.regs) r.core;
      same_end = ap (λ (e : Engine). e.cur_instr_end) r.core;
    }

module _ (ext : Extensions) (fuel : ℕ) (reads : ExtensionsRead ext) (ends : ExtensionsEnd ext) where
  pub record Found (m : Machine) (pc : ℕ) (r : Outcome ℕ × Machine) : Type 0 where
    pub coherent : Coherent ext fuel r.1
    pub looked : Looked m r.1
    pub current : (d : ℕ) → r.0 ≡ done d → Current ext fuel r.1 pc d

  module _ (m : Machine) (c : Coherent ext fuel m) (pc t : ℕ)
      (here : find (page_addr pc) m.decode_cache ≡ some t) where
    kept-Looked :
        (o : Outcome Fetched) (e : Engine)
        → Untouched m.core.space e.space
        → e.regs ≡ m.core.regs
        → e.cur_instr_end ≡ m.core.cur_instr_end
        → Looked m (keep_decoded ext fuel t (bit_and pc 0xfff) m (o, e)).1
    kept-Looked (failed x) e u regs end = record {
      onward = Onward-core m (set_core e m) (Untouched-CodeKept u) refl refl;
      blocks = record {
        stop_requested = refl;
        block_jit = refl;
        block_cache = refl;
        generation = refl;
        cached_block_start = refl;
        cached_block = refl;
      };
      space = u;
      same_regs = regs;
      same_end = end;
    }
    kept-Looked (done f) e u regs end = record {
      onward = record {
        space = Untouched-CodeKept u;
        more = omega arith;
        code = λ d h.
            let old : array_set m.code m.next_code f d ≡ m.code d = ground arith in
            rw old (Recaptured-refl (m.code d));
      };
      blocks = record {
        stop_requested = refl;
        block_jit = refl;
        block_cache = refl;
        generation = refl;
        cached_block_start = refl;
        cached_block = refl;
      };
      space = u;
      same_regs = regs;
      same_end = end;
    }

    -- The new instruction.
    kept_current :
        (f : Fetched) (e : Engine)
        → Untouched m.core.space e.space
        → (decode_at ext fuel pc m.core).0 ≡ done f
        → Current ext fuel
            (keep_decoded ext fuel t (bit_and pc 0xfff) m (done f, e)).1
            pc
            m.next_code
    kept_current f e u decoded =
        let new : array_set m.code m.next_code f m.next_code ≡ f = ground arith in
        record {
          below = omega arith;
          ends = rw new (decode_at-EndsRight ext fuel ends pc m.core f decoded);
          fresh = λ clean. rw new (
              inr (
                decode_at-SameCode ext fuel reads pc m.core e f c.valid u.valid
                  (SameCode-eq u.same_view) decoded));
        }

    kept_entries :
        (f : Fetched) (e : Engine)
        → Untouched m.core.space e.space
        → (decode_at ext fuel pc m.core).0 ≡ done f
        → Onward m (keep_decoded ext fuel t (bit_and pc 0xfff) m (done f, e)).1
        → (pc' d : ℕ)
        → entry (keep_decoded ext fuel t (bit_and pc 0xfff) m (done f, e)).1 pc' ≡ some d
        → Current ext fuel (keep_decoded ext fuel t (bit_and pc 0xfff) m (done f, e)).1 pc' d
    unfolding entry
    kept_entries f e u decoded o pc' d h =
        let m' = (keep_decoded ext fuel t (bit_and pc 0xfff) m (done f, e)).1 in
        elim (entry-stored m c.tables t pc m.next_code here pc' d h) [
          | inl (place, new) ↦ rw (place, new) (kept_current f e u decoded)
          | inr old ↦ Current-Onward ext fuel reads m m' pc' d c.valid o (c.entries pc' d old)
        ]

    kept-IsTables :
        (o : Outcome Fetched) (e : Engine)
        → IsTables (keep_decoded ext fuel t (bit_and pc 0xfff) m (o, e)).1
    kept-IsTables (failed x) e = record {
      cached = c.tables.cached;
      below = c.tables.below;
      apart = c.tables.apart;
    }
    kept-IsTables (done f) e = record {
      cached = c.tables.cached;
      below = c.tables.below;
      apart = c.tables.apart;
    }

    same_entry : (e : Engine) (pc' : ℕ) → entry (set_core e m) pc' ≡ entry m pc'
    unfolding entry
    same_entry e pc' = refl

    kept :
        (o : Outcome Fetched) (e : Engine)
        → Untouched m.core.space e.space
        → e.regs ≡ m.core.regs
        → e.cur_instr_end ≡ m.core.cur_instr_end
        → (decode_at ext fuel pc m.core).0 ≡ o
        → Found m pc (keep_decoded ext fuel t (bit_and pc 0xfff) m (o, e))
    kept (failed x) e u regs end decoded =
        let l = kept-Looked (failed x) e u regs end in
        record {
          coherent =
              Coherent-same ext fuel reads m (set_core e m) c l.onward l.blocks
                (kept-IsTables (failed x) e) (λ pc'. same_entry e pc');
          looked = l;
          current = λ d h. cc;
        }
    kept (done f) e u regs end decoded =
        let l = kept-Looked (done f) e u regs end in
        let m' = (keep_decoded ext fuel t (bit_and pc 0xfff) m (done f, e)).1 in
        record {
          coherent =
              Coherent-Onward ext fuel reads m m' c l.onward l.blocks (kept-IsTables (done f) e)
                (kept_entries f e u decoded l.onward);
          looked = l;
          current =
              λ d h. let same : m.next_code ≡ d = cc in rw (sym same) (kept_current f e u decoded);
        }

  record_same :
      (m n : Machine) (pc : ℕ) (r : Outcome ℕ × Machine) → Looked m n → Found n pc r → Found m pc r
  record_same m n pc r l f = record {
    coherent = f.coherent;
    looked = Looked-trans l f.looked;
    current = f.current;
  }

  entry_of_table :
      (m : Machine) (pc t : ℕ) (o : Option ℕ)
      → find (page_addr pc) m.decode_cache ≡ some t
      → m.tables t (bit_and pc 0xfff) ≡ o
      → entry m pc ≡ o
  unfolding entry
  entry_of_table m pc t o here h = ap (entry_in m.tables (bit_and pc 0xfff)) here ∙ h

  looked_up :
      (m : Machine) (c : Coherent ext fuel m) (pc t : ℕ) (o : Option ℕ)
      → find (page_addr pc) m.decode_cache ≡ some t
      → m.tables t (bit_and pc 0xfff) ≡ o
      → Found m pc (entry_or_decode ext fuel t pc m o)
  looked_up m c pc t none here h =
      let r = decode_at ext fuel pc m.core in
      kept m c pc t here r.0 r.1 (decode_at-Untouched ext fuel reads pc m.core c.valid)
        (decode_at-regs ext fuel reads pc m.core c.valid)
        (decode_at-cur_instr_end ext fuel reads pc m.core c.valid) refl
  looked_up m c pc t (some d) here h = record {
    coherent = c;
    looked = Looked-refl m c.valid;
    current = λ d' e.
        let same : d ≡ d' = cc in
        rw (sym same) (c.entries pc d (entry_of_table m pc t (some d) here h));
  }

  -- cachedDecode.
  pub cached_decode-Found :
      (pc : ℕ) (m : Machine) → Coherent ext fuel m → Found m pc (cached_decode ext fuel pc m)
  unfolding cached_decode
  cached_decode-Found pc m c =
      let r = table_for (page_addr pc) m in
      let f = table_for-TableFor (page_addr pc) m c.tables in
      let l : Looked m r.1 = rest_Looked m r.1 c.valid f.rest in
      let c' : Coherent ext fuel r.1 =
        Coherent-same ext fuel reads m r.1 c l.onward l.blocks f.tables f.same_entry in
      record_same m r.1 pc (entry_or_decode ext fuel r.0 pc r.1 (r.1.tables r.0 (bit_and pc 0xfff)))
        l (looked_up r.1 c' pc r.0 (r.1.tables r.0 (bit_and pc 0xfff)) f.here refl)
