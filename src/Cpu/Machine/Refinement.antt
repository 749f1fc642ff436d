-- ===== src/Cpu/Machine/Refinement.antt =====
-- EmuStart with its caches and blocks against runs that decode each instruction afresh.
use golinux.Base.{
  ℕ, zero, suc, ◌+◌, ◌^◌, ◌≤◌, ◌<◌, ◌≡◌, refl, ◌∙◌, true, false, ◌==◌, Option, none, some, arith,
  Bool-cases, inl, inr,
}
use golinux.Cpu.Run.{Outcome, done, failed}
use golinux.Cpu.Decode.{Extensions}
use golinux.Cpu.Decode.Reading.{ExtensionsRead}
use golinux.Cpu.Decode.BlockEnds.{ExtensionsEnd}
use golinux.Cpu.Machine.{Block, Machine, note_trace}
use golinux.Cpu.Machine.Blocks.{cached_block_at}
use golinux.Cpu.Machine.Loop.{
  Hooks, Ended, finished, completed, chained, at_until, run_block, next_block, after_block,
  execute_block,
}
use golinux.Cpu.Machine.Coherent.{Coherent}
use golinux.Cpu.Machine.Compile.{Idle, Ready, AtBlock, cached_block_at-AtBlock}
use golinux.Cpu.Machine.Steps.{Follows, Follows-refl, Follows-trans}
use golinux.Cpu.Machine.BlockRun.{BlockRun, Idle-Follows, note_trace-Idle, note_trace-Coherent}
use golinux.Cpu.Machine.Chaining.{Ready-traced, run_block-BlockRun}

same_number : (a b : ℕ) → (a == b) ≡ true → a ≡ b
same_number a b h = ground arith

module _ (ext : Extensions) (fuel : ℕ) (reads : ExtensionsRead ext) (ends : ExtensionsEnd ext)
    (hooks : Hooks) where
  -- A state that steps lead to, with at most `k` generations of code passed.
  pub record Runs (k : ℕ) (m n : Machine) : Type 0 where
    pub coherent : Coherent ext fuel n
    pub follows : Follows ext fuel hooks m n
    pub generation : n.generation ≤ m.generation + k

  pub Runs-trans : {j k : ℕ} {m n o : Machine} → Runs j m n → Runs k n o → Runs (j + k) m o
  Runs-trans {j} {k} {m} {n} {o} p q = record {
    coherent = q.coherent;
    follows = Follows-trans ext fuel hooks p.follows q.follows;
    generation = omega (arith, p.generation, q.generation);
  }

  pub Runs-more : {j k : ℕ} {m n : Machine} → j ≤ k → Runs j m n → Runs k m n
  Runs-more {j} {k} {m} {n} h p = record {
    coherent = p.coherent;
    follows = p.follows;
    generation = omega (arith, p.generation, h);
  }

  pub Runs-here : (k : ℕ) (m : Machine) → Coherent ext fuel m → Runs k m m
  Runs-here k m c = record {
    coherent = c;
    follows = Follows-refl ext fuel hooks;
    generation = omega arith;
  }

  pub idle_runs : {m n : Machine} → Idle m n → Coherent ext fuel n → Runs 0 m n
  idle_runs {m} {n} i c = record {
    coherent = c;
    follows = Idle-Follows ext fuel reads ends hooks m n i;
    generation = omega (arith, i.generation);
  }

  block_runs :
      {m : Machine} {r : Outcome Ended × Machine}
      → BlockRun ext fuel reads ends hooks m r
      → Runs 1 m r.1
  block_runs b = record { coherent = b.coherent; follows = b.follows; generation = b.generation }

  abbrev pub Going : Machine → Block → Type 0
  Going m b =
      Coherent ext fuel m
      × (m.core.space.code_dirty ≡ false)
      × Ready ext fuel reads ends m b
      × (m.generation + 1 < 2 ^ 64)

  -- The next block of the cache, entered in the trace.
  onto :
      (n : Machine) (again : Block → Machine → Outcome (Unit {0}) × Machine)
      (r : Option Block × Machine)
      → AtBlock ext fuel reads ends n n.core.regs.rip r
      → n.core.space.code_dirty ≡ false
      → n.generation + 1 < 2 ^ 64
      → ((b : Block) (o : Machine) → Going o b → Runs 1 o (again b o).1)
      → Runs 1 n (next_block again r).1
  onto n again (none, o) a clean room k =
      Runs-more {j = 0} (omega arith) (idle_runs a.idle a.coherent)
  onto n again (some c, o) a clean room k =
      let pc = o.core.regs.rip in
      let i = note_trace-Idle pc o a.coherent.valid in
      let o' = note_trace pc o in
      let c' = note_trace-Coherent ext fuel reads ends hooks pc o a.coherent in
      Runs-trans (idle_runs a.idle a.coherent) (
        Runs-trans (idle_runs i c') (
          k c o' (
            c',
            i.space.same_dirty ∙ a.idle.space.same_dirty ∙ clean,
            Ready-traced ext fuel reads ends hooks pc o c a.coherent.valid (a.ready c refl).0,
            omega (arith, i.generation, a.idle.generation, room),
          )))

  -- After a block, if `again` does its part for the block that follows.
  followed :
      (until : ℕ) (m : Machine) (again : Block → Machine → Outcome (Unit {0}) × Machine)
      (r : Outcome Ended × Machine)
      → BlockRun ext fuel reads ends hooks m r
      → m.generation + 1 < 2 ^ 64
      → ((b : Block) (n : Machine) → Going n b → Runs 1 n (again b n).1)
      → Runs 1 m (after_block until again r).1
  followed until m again (failed x, n) b room k = block_runs b
  followed until m again (done finished, n) b room k = block_runs b
  followed until m again (done (chained c), n) b room k =
      let (clean, same, ready) = b.goes in
      let now : Runs 0 m n = record {
        coherent = b.coherent;
        follows = b.follows;
        generation = omega (arith, same);
      } in
      Runs-trans now (k c n (b.coherent, clean, ready, omega (arith, same, room)))
  followed until m again (done completed, n) b room k =
      let (clean, same) = b.goes in
      let now : Runs 0 m n = record {
        coherent = b.coherent;
        follows = b.follows;
        generation = omega (arith, same);
      } in
      elim (Bool-cases (at_until until n)) [
        | inl arrived ↦ rw arrived (block_runs b)
        | inr away ↦ rw away (
            Runs-trans now (
              onto n again (cached_block_at n.core.regs.rip n)
                (cached_block_at-AtBlock ext fuel reads ends n.core.regs.rip n b.coherent) clean
                (omega (arith, same, room)) k))
      ]

  -- executeBlock, for as many blocks as it goes on to.
  pub execute_block-Runs :
      (n until : ℕ) (b : Block) (m : Machine) → Going m b → Runs 1 m (execute_block n until b m).1
  unfolding execute_block
  execute_block-Runs zero until b m (c, clean, ready, room) = Runs-here 1 m c
  execute_block-Runs (suc n) until b m (c, clean, ready, room) =
      elim (Bool-cases (m.core.regs.rip == b.start)) [
        | inr elsewhere ↦ rw elsewhere (Runs-here 1 m c)
        | inl there ↦
            let rip : m.core.regs.rip ≡ b.start = same_number m.core.regs.rip b.start there in
            rw there (
              followed until m (execute_block n until)
                (run_block until true b.start b.instructions m)
                (run_block-BlockRun ext fuel reads ends hooks until true b.start b.instructions m c
                  clean (ready.current.chain ready.now) rip room)
                room (λ c' m' g. execute_block-Runs n until c' m' g))
      ]
