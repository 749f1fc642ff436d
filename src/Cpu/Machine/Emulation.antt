-- ===== src/Cpu/Machine/Emulation.antt =====
-- EmuStart with its caches and blocks against runs that decode each instruction afresh.
use golinux.Base.{
  ℕ, zero, suc, ◌+◌, ◌*◌, ◌^◌, ◌≤◌, ◌<◌, ◌≡◌, refl, ap, ◌∙◌, Bool, true, false, ◌||◌, if◌then◌else◌,
  Option, none, some, arith, Bool-cases, inl, inr,
}
use golinux.Cpu.Memory.Kept.{CodeKept-refl}
use golinux.Cpu.Run.{Outcome, done, failed}
use golinux.Cpu.Registers.{Registers}
use golinux.Cpu.Decode.{Extensions}
use golinux.Cpu.Decode.Reading.{ExtensionsRead}
use golinux.Cpu.Decode.BlockEnds.{ExtensionsEnd}
use golinux.Cpu.Machine.{Block, Machine, note_trace, refresh}
use golinux.Cpu.Machine.Blocks.{compile_block}
use golinux.Cpu.Machine.Loop.{
  Hooks, at_until, execute_block, Round, goes_on, stopped, error, single, after_blocks,
  run_compiled, emu_round, or_again, emu_loop, emu_start,
}
use golinux.Cpu.Machine.Coherent.{Coherent}
use golinux.Cpu.Machine.Building.{Compiled, compile_block-Compiled}
use golinux.Cpu.Machine.Steps.{Steps, NoneMutable, at_rip}
use golinux.Cpu.Machine.Running.{Refreshed, refresh-Refreshed}
use golinux.Cpu.Machine.BlockRun.{note_trace-Idle, note_trace-Coherent}
use golinux.Cpu.Machine.Refinement.{
  Runs, Runs-trans, Runs-more, Runs-here, idle_runs, execute_block-Runs,
}
use golinux.Cpu.Machine.Rounds.{HooksCareful, hooked-Coherent, failing, single-Runs}

module _ (ext : Extensions) (fuel : ℕ) (reads : ExtensionsRead ext) (ends : ExtensionsEnd ext)
    (hooks : Hooks) (careful : HooksCareful hooks) where
  after_running :
      (m : Machine) (r : Outcome (Unit {0}) × Machine)
      → Runs ext fuel reads ends hooks 1 m r.1
      → Runs ext fuel reads ends hooks 1 m (after_blocks ext fuel hooks r).1
  after_running m (done u, n) r = r
  after_running m (failed x, n) r =
      Runs-trans ext fuel reads ends hooks r
        (failing ext fuel reads ends hooks careful x n r.coherent)

  -- A round with a block, or without where there is none.
  compiled_runs :
      (n until pc : ℕ) (m : Machine) (r : Outcome (Option Block) × Machine)
      → Compiled ext fuel reads ends m r
      → m.core.regs.rip ≡ pc
      → m.core.space.code_dirty ≡ false
      → m.stop_requested ≡ false
      → m.generation + 1 < 2 ^ 64
      → Runs ext fuel reads ends hooks 1 m (run_compiled ext fuel hooks n until pc r).1
  compiled_runs n until pc m (failed x, o) a rip clean running room =
      Runs-more ext fuel reads ends hooks {j = 0} (omega arith) (
        Runs-trans ext fuel reads ends hooks (idle_runs ext fuel reads ends hooks a.idle a.coherent)
          (failing ext fuel reads ends hooks careful x o a.coherent))
  compiled_runs n until pc m (done none, o) a rip clean running room =
      Runs-more ext fuel reads ends hooks {j = 0} (omega arith) (
        Runs-trans ext fuel reads ends hooks (idle_runs ext fuel reads ends hooks a.idle a.coherent)
          (single-Runs ext fuel reads ends hooks careful pc o a.coherent
            (ap (λ (r : Registers). r.rip) a.idle.same_regs ∙ rip) (a.idle.space.same_dirty ∙ clean)
            (a.idle.stop_requested ∙ running)))
  compiled_runs n until pc m (done (some b), o) a rip clean running room =
      Runs-trans ext fuel reads ends hooks (idle_runs ext fuel reads ends hooks a.idle a.coherent) (
        after_running o (execute_block n until b o) (
          execute_block-Runs ext fuel reads ends hooks n until b o (
            a.coherent,
            a.idle.space.same_dirty ∙ clean,
            a.ready b refl,
            omega (arith, a.idle.generation, room),
          )))

  running_of : (a b : Bool) → (a || b) ≡ false → a ≡ false
  running_of a b h = ground arith

  -- A round of EmuStart.
  emu_round-Runs :
      (n until : ℕ) (m : Machine)
      → Coherent ext fuel m
      → m.generation + 2 < 2 ^ 64
      → Runs ext fuel reads ends hooks 2 m (emu_round ext fuel hooks n until m).1
  unfolding emu_round
  emu_round-Runs n until m c room = elim (Bool-cases (m.stop_requested || at_until until m)) [
    | inl stop ↦ rw stop (Runs-here ext fuel reads ends hooks 2 m c)
    | inr go ↦
        let pc = m.core.regs.rip in
        let i = note_trace-Idle pc m c.valid in
        let t = note_trace pc m in
        let ct = note_trace-Coherent ext fuel reads ends hooks pc m c in
        let o = (refresh t).1 in
        let f =
          refresh-Refreshed ext fuel reads ends hooks t ct (omega (arith, i.generation, room)) in
        let rip : o.core.regs.rip ≡ pc =
          ap (λ (r : Registers). r.rip) (f.same_regs ∙ i.same_regs) in
        let running =
          f.same_stop ∙ i.stop_requested ∙ running_of m.stop_requested (at_until until m) go in
        let first_part : Runs ext fuel reads ends hooks 1 m o =
          Runs-trans ext fuel reads ends hooks (idle_runs ext fuel reads ends hooks i ct)
            (refreshed t (refresh t) f) in
        rw go (
          Runs-trans ext fuel reads ends hooks first_part (
            by_mode n until pc o o.block_jit f.coherent rip f.clean running
              (omega (arith, f.generation, i.generation, room))))
  ]
    where
      refreshed :
          (t : Machine) (r : Bool × Machine)
          → Refreshed ext fuel reads ends hooks t r
          → Runs ext fuel reads ends hooks 1 t r.1
      refreshed t r f = record {
        coherent = f.coherent;
        follows = f.follows;
        generation = f.generation;
      }

      by_mode :
          (n until pc : ℕ) (o : Machine) (jit : Bool)
          → Coherent ext fuel o
          → o.core.regs.rip ≡ pc
          → o.core.space.code_dirty ≡ false
          → o.stop_requested ≡ false
          → o.generation + 1 < 2 ^ 64
          → Runs ext fuel reads ends hooks 1 o
              (if jit
                then run_compiled ext fuel hooks n until pc (compile_block ext fuel pc o)
                else single ext fuel hooks pc o).1
      by_mode n until pc o true c rip clean running room =
          compiled_runs n until pc o (compile_block ext fuel pc o)
            (compile_block-Compiled ext fuel reads ends pc o c) rip clean running room
      by_mode n until pc o false c rip clean running room =
          Runs-more ext fuel reads ends hooks {j = 0} (omega arith)
            (single-Runs ext fuel reads ends hooks careful pc o c rip clean running)

  again :
      (k : ℕ) (m : Machine) (f : Machine → Round × Machine) (r : Round × Machine)
      → ((o : Machine)
          → Runs ext fuel reads ends hooks 2 m o
          → Runs ext fuel reads ends hooks k o (f o).1)
      → Runs ext fuel reads ends hooks 2 m r.1
      → Runs ext fuel reads ends hooks (2 + k) m (or_again ext fuel hooks f r).1
  again k m f (goes_on, o) next_rounds r = Runs-trans ext fuel reads ends hooks r (next_rounds o r)
  again k m f (stopped, o) next_rounds r = Runs-more ext fuel reads ends hooks (omega arith) r
  again k m f (error x, o) next_rounds r = Runs-more ext fuel reads ends hooks (omega arith) r

  emu_loop-Runs :
      (rounds n until : ℕ) (m : Machine)
      → Coherent ext fuel m
      → m.generation + 2 * rounds < 2 ^ 64
      → Runs ext fuel reads ends hooks (2 * rounds) m (emu_loop ext fuel hooks rounds n until m).1
  unfolding emu_loop
  emu_loop-Runs zero n until m c room = Runs-here ext fuel reads ends hooks 0 m c
  emu_loop-Runs (suc rounds) n until m c room =
      let count : 2 + 2 * rounds ≤ 2 * suc rounds = omega arith in
      Runs-more ext fuel reads ends hooks count (
        again (2 * rounds) m (emu_loop ext fuel hooks rounds n until)
          (emu_round ext fuel hooks n until m)
          (λ o r. emu_loop-Runs rounds n until o r.coherent (omega (arith, r.generation, room)))
          (emu_round-Runs n until m c (omega (arith, room))))

  -- The caches of decoded instructions and of blocks are sound for code that the guest changes.
  -- From a coherent engine, with hooks that are careful with code, with decoders of the vector,
  -- VEX and x87 opcodes that only read and that mark their branches, while the generation of
  -- code stays below 2^64, and where by the end the engine has decoded no BT, BTS, BTR or BTC
  -- with a register offset and an operand that is no register, EmuStart with the caches, in any
  -- number of rounds, with or without block compilation and whether it stops or fails, takes the
  -- engine only along steps of the engine without caches: each instruction that it runs at rip,
  -- or calls a hook for, is the one that decoding the memory at rip gives at that moment; the
  -- other steps are page lookups, the noting of an instruction's end, the notice of codeDirty
  -- and the calls of the hook for faults. It leaves the engine coherent.
  pub emu_start-Steps :
      (rounds n begin until : ℕ) (m : Machine)
      → Coherent ext fuel m
      → m.generation + 2 * rounds < 2 ^ 64
      → NoneMutable (emu_start ext fuel hooks rounds n begin until m).1
      → Steps ext fuel hooks
          (at_rip begin m.core)
          (emu_start ext fuel hooks rounds n begin until m).1.core
        × Coherent ext fuel (emu_start ext fuel hooks rounds n begin until m).1
  unfolding emu_start
  emu_start-Steps rounds n begin until m c room plain =
      let start : Machine = record m { core = at_rip begin m.core; stop_requested = false } in
      let ready =
        hooked-Coherent ext fuel reads ends hooks careful m (at_rip begin m.core) false c
          (CodeKept-refl m.core.space c.valid) in
      let r = emu_loop-Runs rounds n until start ready room in (r.follows.steps plain, r.coherent)
