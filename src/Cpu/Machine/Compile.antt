-- ===== src/Cpu/Machine/Compile.antt =====
-- compileBlock and cachedBlockAt give blocks of current instructions.
use golinux.Base.{
  ℕ, ◌≡◌, refl, sym, ap, ◌∙◌, ◌&&◌, ◌==◌, Option, none, some, arith, Bool-cases, inl, inr,
}
use golinux.Cpu.Memory.Kept.{Untouched, Untouched-refl, Untouched-trans, Untouched-CodeKept}
use golinux.Cpu.Memory.View.{IsValid}
use golinux.Cpu.Decode.{Extensions}
use golinux.Cpu.Decode.Reading.{ExtensionsRead}
use golinux.Cpu.Decode.BlockEnds.{ExtensionsEnd}
use golinux.Cpu.Machine.{Block, Machine}
use golinux.Cpu.Machine.Blocks.{slot_of, usable, last_block, from_slot, from_last, cached_block_at}
use golinux.Cpu.Machine.Current.{Onward, Onward-trans, Onward-core, Current-Onward}
use golinux.Cpu.Machine.Tables.{entry}
use golinux.Cpu.Machine.Coherent.{BlockCurrent, Coherent, BlockCurrent-Onward}
use golinux.Cpu.Machine.Lookup.{Looked}

-- The guest's state stays as it is but for the page looked up last.
pub record Idle (m m' : Machine) : Type 0 where
  pub onward : Onward m m'
  pub space : Untouched m.core.space m'.core.space
  pub same_regs : m'.core.regs ≡ m.core.regs
  pub same_end : m'.core.cur_instr_end ≡ m.core.cur_instr_end
  pub generation : m'.generation ≡ m.generation
  pub stop_requested : m'.stop_requested ≡ m.stop_requested

pub Looked-Idle : {m m' : Machine} → Looked m m' → Idle m m'
Looked-Idle l = record {
  onward = l.onward;
  space = l.space;
  same_regs = l.same_regs;
  same_end = l.same_end;
  generation = l.blocks.generation;
  stop_requested = l.blocks.stop_requested;
}

pub Idle-trans : {m n o : Machine} → Idle m n → Idle n o → Idle m o
Idle-trans p q = record {
  onward = Onward-trans p.onward q.onward;
  space = Untouched-trans p.space q.space;
  same_regs = q.same_regs ∙ p.same_regs;
  same_end = q.same_end ∙ p.same_end;
  generation = q.generation ∙ p.generation;
  stop_requested = q.stop_requested ∙ p.stop_requested;
}

-- Other blocks in the cache, and all else the same.
abbrev pub with_blocks : Machine → (ℕ → Option Block) → ℕ → Option Block → Machine
with_blocks m cache start last = record m {
  block_cache = cache;
  cached_block_start = start;
  cached_block = last;
}

with_blocks-Onward :
    (m : Machine) (cache : ℕ → Option Block) (start : ℕ) (last : Option Block)
    → IsValid m.core.space
    → Onward m (with_blocks m cache start last)
with_blocks-Onward m cache start last v =
    Onward-core m (with_blocks m cache start last)
      (Untouched-CodeKept (Untouched-refl m.core.space v)) refl refl

pub with_blocks-Idle :
    (m : Machine) (cache : ℕ → Option Block) (start : ℕ) (last : Option Block)
    → IsValid m.core.space
    → Idle m (with_blocks m cache start last)
with_blocks-Idle m cache start last v = record {
  onward = with_blocks-Onward m cache start last v;
  space = Untouched-refl m.core.space v;
  same_regs = refl;
  same_end = refl;
  generation = refl;
  stop_requested = refl;
}

pub Idle-refl : (m : Machine) → IsValid m.core.space → Idle m m
Idle-refl m v = with_blocks-Idle m m.block_cache m.cached_block_start m.cached_block v

module _ (ext : Extensions) (fuel : ℕ) (reads : ExtensionsRead ext) (ends : ExtensionsEnd ext) where
  -- A block that may be run now.
  pub record Ready (m : Machine) (b : Block) : Type 0 where
    pub current : BlockCurrent ext fuel m b
    pub now : b.generation ≡ m.generation

  pub with_blocks-Coherent :
      (m : Machine) (cache : ℕ → Option Block) (start : ℕ) (b : Block)
      → Coherent ext fuel m
      → BlockCurrent ext fuel m b
      → b.start ≡ start
      → ((s : ℕ) (k : Block) → cache s ≡ some k → BlockCurrent ext fuel m k)
      → Coherent ext fuel (with_blocks m cache start (some b))
  unfolding entry
  with_blocks-Coherent m cache start b c current begins slots =
      let m' = with_blocks m cache start (some b) in
      let o = with_blocks-Onward m cache start (some b) c.valid in
      record {
        valid = c.valid;
        tables = record {
          cached = c.tables.cached;
          below = c.tables.below;
          apart = c.tables.apart;
        };
        entries = λ pc d e. Current-Onward ext fuel reads m m' pc d c.valid o (c.entries pc d e);
        slots = λ s k e. BlockCurrent-Onward ext fuel reads m m' k c.valid o refl (slots s k e);
        last = λ k e.
            let same : b ≡ k = cc in
            rw (sym same) (BlockCurrent-Onward ext fuel reads m m' b c.valid o refl current);
        last_start =
            λ k e. let same : b ≡ k = cc in ap (λ (x : Block). x.start) (sym same) ∙ begins;
      }

  pub with_blocks-Ready :
      (m : Machine) (cache : ℕ → Option Block) (start : ℕ) (last : Option Block) (b : Block)
      → IsValid m.core.space
      → Ready m b
      → Ready (with_blocks m cache start last) b
  with_blocks-Ready m cache start last b v r = record {
    current =
        BlockCurrent-Onward ext fuel reads m (with_blocks m cache start last) b v
          (with_blocks-Onward m cache start last v) refl r.current;
    now = r.now;
  }

  pub record AtBlock (m : Machine) (start : ℕ) (r : Option Block × Machine) : Type 0 where
    pub coherent : Coherent ext fuel r.1
    pub idle : Idle m r.1
    pub ready : (b : Block) → r.0 ≡ some b → Ready r.1 b × (b.start ≡ start)

  no_block : (m : Machine) (start : ℕ) → Coherent ext fuel m → AtBlock m start (none, m)
  no_block m start c = record { coherent = c; idle = Idle-refl m c.valid; ready = λ b e. cc }

  at_slot :
      (m : Machine) (start : ℕ) (o : Option Block)
      → Coherent ext fuel m
      → m.block_cache (slot_of start) ≡ o
      → AtBlock m start (from_slot start m (usable start m o))
  at_slot m start none c e = no_block m start c
  at_slot m start (some b) c e =
      elim (Bool-cases ((b.start == start) && (b.generation == m.generation))) [
        | inr other ↦ rw other (no_block m start c)
        | inl hit ↦
            let begins : b.start ≡ start = ground arith in
            let now : b.generation ≡ m.generation = ground arith in
            let current = c.slots (slot_of start) b e in
            rw hit (record {
              coherent = with_blocks-Coherent m m.block_cache start b c current begins c.slots;
              idle = with_blocks-Idle m m.block_cache start (some b) c.valid;
              ready = λ k h.
                  let same : b ≡ k = cc in
                  rw (sym same) (
                    with_blocks-Ready m m.block_cache start (some b) b c.valid
                        (record { current = current; now = now }),
                    begins,
                  );
            })
      ]

  at_last :
      (m : Machine) (start : ℕ) (o : Option Block)
      → Coherent ext fuel m
      → m.cached_block ≡ o
      → AtBlock m start (from_last start m (last_block start m o))
  at_last m start none c e = at_slot m start (m.block_cache (slot_of start)) c refl
  at_last m start (some b) c e =
      elim (Bool-cases ((m.cached_block_start == start) && (b.generation == m.generation))) [
        | inr other ↦ rw other (at_slot m start (m.block_cache (slot_of start)) c refl)
        | inl hit ↦
            let begins : m.cached_block_start ≡ start = ground arith in
            let now : b.generation ≡ m.generation = ground arith in
            rw hit (record {
              coherent = c;
              idle = Idle-refl m c.valid;
              ready = λ k h.
                  let same : b ≡ k = cc in
                  rw (sym same)
                    (record { current = c.last b e; now = now }, c.last_start b e ∙ begins);
            })
      ]

  pub cached_block_at-AtBlock :
      (start : ℕ) (m : Machine) → Coherent ext fuel m → AtBlock m start (cached_block_at start m)
  unfolding cached_block_at
  cached_block_at-AtBlock start m c = at_last m start m.cached_block c refl
