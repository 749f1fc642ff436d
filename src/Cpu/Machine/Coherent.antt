-- ===== src/Cpu/Machine/Coherent.antt =====
-- The caches of the engine hold what decoding would give, whatever the guest has written.
use golinux.Base.{ℕ, ◌≤◌, ◌≡◌, sym, ap, ◌∙◌, false, Option, none, some, List, [], ◌∷◌}
use golinux.Base.Word.{◌+w◌}
use golinux.Cpu.Memory.View.{IsValid}
use golinux.Cpu.Decode.{Extensions, Fetched}
use golinux.Cpu.Decode.Reading.{ExtensionsRead}
use golinux.Cpu.Machine.{Block, Machine}
use golinux.Cpu.Machine.Blocks.{insn_id}
use golinux.Cpu.Machine.Current.{Recaptured, Current, Onward, Current-Onward}
use golinux.Cpu.Machine.Tables.{IsTables, entry}

-- Only the last instruction of a block may end it.
abbrev pub LeadsOn : List ℕ → Fetched → Type 0
LeadsOn [] f = Unit {0}
LeadsOn (d ∷ ds) f = f.decoded.ends_block ≡ false

module _ (ext : Extensions) (fuel : ℕ) where
  -- Instructions that follow one another from `pc` on, none of them for a hook.
  abbrev pub Chain : Machine → ℕ → List ℕ → Type 0
  Chain m pc [] = Unit {0}
  Chain m pc (d ∷ ds) =
      Current ext fuel m pc d
      × (insn_id (m.code d).decoded.instruction ≡ none)
      × LeadsOn ds (m.code d)
      × Chain m (pc +w (m.code d).len) ds

  -- A block of this generation is such a chain; older ones do not count.
  pub record BlockCurrent (m : Machine) (b : Block) : Type 0 where
    pub older : b.generation ≤ m.generation
    pub chain : b.generation ≡ m.generation → Chain m b.start b.instructions

  pub record Coherent (m : Machine) : Type 0 where
    pub valid : IsValid m.core.space
    pub tables : IsTables m
    pub entries : (pc d : ℕ) → entry m pc ≡ some d → Current ext fuel m pc d
    pub slots : (s : ℕ) (b : Block) → m.block_cache s ≡ some b → BlockCurrent m b
    pub last : (b : Block) → m.cached_block ≡ some b → BlockCurrent m b
    pub last_start : (b : Block) → m.cached_block ≡ some b → b.start ≡ m.cached_block_start

-- The blocks and the flags are left alone.
pub record SameBlocks (m m' : Machine) : Type 0 where
  pub stop_requested : m'.stop_requested ≡ m.stop_requested
  pub block_jit : m'.block_jit ≡ m.block_jit
  pub block_cache : m'.block_cache ≡ m.block_cache
  pub generation : m'.generation ≡ m.generation
  pub cached_block_start : m'.cached_block_start ≡ m.cached_block_start
  pub cached_block : m'.cached_block ≡ m.cached_block

pub SameBlocks-trans : {m n o : Machine} → SameBlocks m n → SameBlocks n o → SameBlocks m o
SameBlocks-trans p q = record {
  stop_requested = q.stop_requested ∙ p.stop_requested;
  block_jit = q.block_jit ∙ p.block_jit;
  block_cache = q.block_cache ∙ p.block_cache;
  generation = q.generation ∙ p.generation;
  cached_block_start = q.cached_block_start ∙ p.cached_block_start;
  cached_block = q.cached_block ∙ p.cached_block;
}

module _ (ext : Extensions) (fuel : ℕ) (reads : ExtensionsRead ext) where
  leads_later : (ds : List ℕ) (f g : Fetched) → Recaptured f g → LeadsOn ds f → LeadsOn ds g
  leads_later [] f g r l = tt
  leads_later (d ∷ ds) f g r l = r.same_ends ∙ l

  pub Chain-Onward :
      (m m' : Machine) (pc : ℕ) (ds : List ℕ)
      → IsValid m.core.space
      → Onward m m'
      → Chain ext fuel m pc ds
      → Chain ext fuel m' pc ds
  Chain-Onward m m' pc [] v o c = tt
  Chain-Onward m m' pc (d ∷ ds) v o (c, hookless, leads, rest) =
      let r = o.code d c.below in
      (
        Current-Onward ext fuel reads m m' pc d v o c,
        r.same_id ∙ hookless,
        leads_later ds (m.code d) (m'.code d) r leads,
        rw r.same_len (Chain-Onward m m' (pc +w (m.code d).len) ds v o rest),
      )

  pub BlockCurrent-Onward :
      (m m' : Machine) (b : Block)
      → IsValid m.core.space
      → Onward m m'
      → m'.generation ≡ m.generation
      → BlockCurrent ext fuel m b
      → BlockCurrent ext fuel m' b
  BlockCurrent-Onward m m' b v o same c = record {
    older = rw same c.older;
    chain = λ e. Chain-Onward m m' b.start b.instructions v o (c.chain (e ∙ same));
  }

  -- A change that leaves the blocks, and tables whose entries are current.
  pub Coherent-Onward :
      (m m' : Machine)
      → Coherent ext fuel m
      → Onward m m'
      → SameBlocks m m'
      → IsTables m'
      → ((pc d : ℕ) → entry m' pc ≡ some d → Current ext fuel m' pc d)
      → Coherent ext fuel m'
  Coherent-Onward m m' c o b tables entries = record {
    valid = o.space.valid;
    tables = tables;
    entries = entries;
    slots = λ s k e.
        BlockCurrent-Onward m m' k c.valid o b.generation
          (c.slots s k (ap (λ (f : ℕ → Option Block). f s) (sym b.block_cache) ∙ e));
    last = λ k e.
        BlockCurrent-Onward m m' k c.valid o b.generation (c.last k (sym b.cached_block ∙ e));
    last_start = λ k e. c.last_start k (sym b.cached_block ∙ e) ∙ sym b.cached_block_start;
  }

  -- A change of memory and of instructions, with the caches as they are.
  pub Coherent-same :
      (m m' : Machine)
      → Coherent ext fuel m
      → Onward m m'
      → SameBlocks m m'
      → IsTables m'
      → ((pc : ℕ) → entry m' pc ≡ entry m pc)
      → Coherent ext fuel m'
  Coherent-same m m' c o b tables same = Coherent-Onward m m' c o b tables λ pc d e.
      Current-Onward ext fuel reads m m' pc d c.valid o (c.entries pc d (sym (same pc) ∙ e))
