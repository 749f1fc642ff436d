-- ===== src/Cpu/Machine/Building.antt =====
-- The blocks that compileBlock builds.
use golinux.Base.{
  ℕ, zero, suc, ◌-◌, ◌≡◌, refl, sym, ◌∙◌, false, ◌==◌, Option, none, some, List, [], ◌∷◌, arith,
  Bool-cases, inl, inr,
}
use golinux.Base.Word.{◌+w◌}
use golinux.Cpu.Memory.{page_addr}
use golinux.Cpu.Run.{Outcome, done, failed}
use golinux.Cpu.Registers.{array_set}
use golinux.Cpu.Decode.{Extensions, Fetched}
use golinux.Cpu.Decode.Reading.{ExtensionsRead}
use golinux.Cpu.Decode.BlockEnds.{ExtensionsEnd}
use golinux.Cpu.Machine.{Block, Machine, cached_decode}
use golinux.Cpu.Machine.Blocks.{
  InsnId, insn_id, has_hook, max_block_instructions, slot_of, cached_block_at, extend_block,
  or_empty, more_block, block_code, keep_block, or_compile, compile_block,
}
use golinux.Cpu.Machine.Current.{Current-Onward}
use golinux.Cpu.Machine.Coherent.{LeadsOn, Chain, BlockCurrent, Coherent}
use golinux.Cpu.Machine.Lookup.{Looked, Looked-trans, Found, cached_decode-Found, Looked-refl}
use golinux.Cpu.Machine.Compile.{
  Idle, Looked-Idle, Idle-trans, with_blocks-Coherent, with_blocks-Ready, with_blocks-Idle, Ready,
  AtBlock, cached_block_at-AtBlock,
}

no_hook : (o : Option InsnId) → has_hook o ≡ false → o ≡ none
no_hook none h = refl
no_hook (some i) h = cc

module _ (ext : Extensions) (fuel : ℕ) (reads : ExtensionsRead ext) (ends : ExtensionsEnd ext) where
  record Built (m : Machine) (pc : ℕ) (r : List ℕ × Machine) : Type 0 where
    coherent : Coherent ext fuel r.1
    looked : Looked m r.1
    chain : Chain ext fuel r.1 pc r.0

  record Begun (m : Machine) (pc : ℕ) (r : Outcome (List ℕ) × Machine) : Type 0 where
    coherent : Coherent ext fuel r.1
    looked : Looked m r.1
    chain : (ds : List ℕ) → r.0 ≡ done ds → Chain ext fuel r.1 pc ds

  nothing-Built : (m : Machine) (pc : ℕ) → Coherent ext fuel m → Built m pc ([], m)
  nothing-Built m pc c = record { coherent = c; looked = Looked-refl m c.valid; chain = tt }

  leads_on : (ds : List ℕ) (f : Fetched) → f.decoded.ends_block ≡ false → LeadsOn ds f
  leads_on [] f e = tt
  leads_on (d ∷ ds) f e = e

  Begun-nothing :
      (m m₁ : Machine) (pc : ℕ) → Coherent ext fuel m₁ → Looked m m₁ → Begun m pc (done [], m₁)
  Begun-nothing m m₁ pc c l = record {
    coherent = c;
    looked = l;
    chain = λ ds e. let same : [] ≡ ds = cc in rw (sym same) tt;
  }

  -- One instruction more, and what follows it.
  extended :
      (rest : ℕ → Machine → List ℕ × Machine) (m : Machine) (pc : ℕ) (r : Outcome ℕ × Machine)
      → ((pc' : ℕ) (m' : Machine) → Coherent ext fuel m' → Built m' pc' (rest pc' m'))
      → Found ext fuel reads ends m pc r
      → Begun m pc (extend_block ext fuel rest pc r)
  extended rest m pc (failed x, m₁) built f = record {
    coherent = f.coherent;
    looked = f.looked;
    chain = λ ds e. cc;
  }
  extended rest m pc (done d, m₁) built f =
      let i = (m₁.code d).decoded.instruction in
      elim (Bool-cases (has_hook (insn_id i))) [
        | inl hook ↦ rw hook (Begun-nothing m m₁ pc f.coherent f.looked)
        | inr plain ↦ elim (Bool-cases (m₁.code d).decoded.ends_block) [
          | inl last ↦
              rw (plain, last)
                (record {
                  coherent = f.coherent;
                  looked = f.looked;
                  chain = λ ds e.
                      let same : d ∷ [] ≡ ds = cc in
                      rw (sym same) (f.current d refl, no_hook (insn_id i) plain, tt, tt);
                })
          | inr leads ↦
              let pc' = pc +w (m₁.code d).len in
              let m₂ = (rest pc' m₁).1 in
              let b = built pc' m₁ f.coherent in
              let o = b.looked.onward in
              let same_code = o.code d (f.current d refl).below in
              rw (plain, leads)
                (record {
                  coherent = b.coherent;
                  looked = Looked-trans f.looked b.looked;
                  chain = λ ds e.
                      let same : d ∷ (rest pc' m₁).0 ≡ ds = cc in
                      rw (sym same) (
                        Current-Onward ext fuel reads m₁ m₂ pc d f.coherent.valid o
                            (f.current d refl),
                        same_code.same_id ∙ no_hook (insn_id i) plain,
                        leads_on (rest pc' m₁).0 (m₂.code d) (same_code.same_ends ∙ leads),
                        rw same_code.same_len b.chain,
                      );
                })
        ]
      ]

  emptied :
      (m : Machine) (pc : ℕ) (r : Outcome (List ℕ) × Machine)
      → Begun m pc r
      → Built m pc (or_empty ext fuel r)
  emptied m pc (done ds, m₁) b = record {
    coherent = b.coherent;
    looked = b.looked;
    chain = b.chain ds refl;
  }
  emptied m pc (failed x, m₁) b = record { coherent = b.coherent; looked = b.looked; chain = tt }

  more_block-Built :
      (n page pc : ℕ) (m : Machine)
      → Coherent ext fuel m
      → Built m pc (more_block ext fuel n page pc m)
  unfolding more_block
  more_block-Built zero page pc m c = nothing-Built m pc c
  more_block-Built (suc n) page pc m c = elim (Bool-cases (page_addr pc == page)) [
    | inr other ↦ rw other (nothing-Built m pc c)
    | inl inside ↦ rw inside (
        emptied m pc _ (
          extended (more_block ext fuel n page) m pc (cached_decode ext fuel pc m)
            (λ pc' m' c'. more_block-Built n page pc' m' c')
            (cached_decode-Found ext fuel reads ends pc m c)))
  ]

  block_code-Begun :
      (start : ℕ) (m : Machine) → Coherent ext fuel m → Begun m start (block_code ext fuel start m)
  unfolding block_code
  block_code-Begun start m c =
      extended (more_block ext fuel (max_block_instructions - 1) (page_addr start)) m start
        (cached_decode ext fuel start m)
        (λ pc' m' c'. more_block-Built (max_block_instructions - 1) (page_addr start) pc' m' c')
        (cached_decode-Found ext fuel reads ends start m c)

  pub record Compiled (m : Machine) (r : Outcome (Option Block) × Machine) : Type 0 where
    pub coherent : Coherent ext fuel r.1
    pub idle : Idle m r.1
    pub ready : (b : Block) → r.0 ≡ done (some b) → Ready ext fuel reads ends r.1 b

  kept_slots :
      (m : Machine) (start : ℕ) (b : Block)
      → Coherent ext fuel m
      → BlockCurrent ext fuel m b
      → (s : ℕ) (k : Block) → array_set m.block_cache (slot_of start) (some b) s ≡ some k
      → BlockCurrent ext fuel m k
  kept_slots m start b c current s k e = elim (Bool-cases (s == slot_of start)) [
    | inl here ↦ let same : b ≡ k = ground arith in rw (sym same) current
    | inr other ↦ c.slots s k (ground arith)
  ]

  built_block :
      (m : Machine) (start : ℕ) (r : Outcome (List ℕ) × Machine)
      → Begun m start r
      → Compiled m (keep_block ext fuel start m.generation r)
  built_block m start (failed x, m₁) b = record {
    coherent = b.coherent;
    idle = Looked-Idle b.looked;
    ready = λ k e. cc;
  }
  built_block m start (done [], m₁) b = record {
    coherent = b.coherent;
    idle = Looked-Idle b.looked;
    ready = λ k e. cc;
  }
  built_block m start (done (d ∷ ds), m₁) b =
      let k : Block = record { start = start; generation = m.generation; instructions = d ∷ ds } in
      let same = b.looked.blocks.generation in
      let current : BlockCurrent ext fuel m₁ k = record {
        older = omega (arith, same);
        chain = λ e. b.chain (d ∷ ds) refl;
      } in
      let ready : Ready ext fuel reads ends m₁ k = record { current = current; now = sym same } in
      let cache = array_set m₁.block_cache (slot_of start) (some k) in
      record {
        coherent =
            with_blocks-Coherent ext fuel reads ends m₁ cache start k b.coherent current refl
              (kept_slots m₁ start k b.coherent current);
        idle =
            Idle-trans (Looked-Idle b.looked)
              (with_blocks-Idle m₁ cache start (some k) b.coherent.valid);
        ready = λ k' e.
            let it : k ≡ k' = cc in
            rw (sym it) (
              with_blocks-Ready ext fuel reads ends m₁ cache start (some k) k b.coherent.valid
                ready);
      }

  or_Compiled :
      (m : Machine) (start : ℕ) (r : Option Block × Machine)
      → AtBlock ext fuel reads ends m start r
      → Compiled m (or_compile ext fuel start r)
  or_Compiled m start (some b, m₁) a = record {
    coherent = a.coherent;
    idle = a.idle;
    ready = λ k e. let same : b ≡ k = cc in rw (sym same) (a.ready b refl).0;
  }
  or_Compiled m start (none, m₁) a =
      let b =
        built_block m₁ start (block_code ext fuel start m₁)
          (block_code-Begun start m₁ a.coherent) in
      record { coherent = b.coherent; idle = Idle-trans a.idle b.idle; ready = b.ready }

  -- compileBlock, whether the block was in the cache or is new.
  pub compile_block-Compiled :
      (start : ℕ) (m : Machine) → Coherent ext fuel m → Compiled m (compile_block ext fuel start m)
  unfolding compile_block
  compile_block-Compiled start m c =
      or_Compiled m start (cached_block_at start m)
        (cached_block_at-AtBlock ext fuel reads ends start m c)
