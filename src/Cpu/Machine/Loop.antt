-- ===== src/Cpu/Machine/Loop.antt =====
-- executeBlock of internal/cpu/block.go, and EmuStart with handleFault of internal/cpu/cpu.go.
use golinux.Base.{
  ℕ, zero, suc, Bool, true, false, not, ◌&&◌, ◌||◌, ◌==◌, if◌then◌else◌, Option, none, some, List,
  [], ◌∷◌,
}
use golinux.Base.Word.{◌+w◌}
use golinux.Cpu.Memory.{Fault}
use golinux.Cpu.Run.{Failure, fault, not_supported, diverged, Outcome, done, failed}
use golinux.Cpu.Operand.{Engine}
use golinux.Cpu.Decode.{Extensions}
use golinux.Cpu.Machine.{Block, Machine, set_core, refresh, note_trace, cached_decode, run_code}
use golinux.Cpu.Machine.Blocks.{
  InsnId, ins_syscall, ins_cpuid, insn_id, cached_block_at, compile_block,
}

-- How the loop over a block's instructions ends: executeBlock returns, the instructions are done,
-- or a block goes on after a branch.
pub data Ended : Type 0 where
  finished completed : Ended
  chained : Block → Ended

-- `until != 0 && e.regs.rip == until`.
abbrev pub at_until : ℕ → Machine → Bool
at_until until m = not (until == 0) && (m.core.regs.rip == until)

abbrev pub trace_unless : Bool → ℕ → Machine → Machine
trace_unless true pc m = m
trace_unless false pc m = note_trace pc m

-- After a branch to a cached block. With no `until` the inner loop goes on over the instructions
-- that it has; with one it is left for the new block.
abbrev pub after_branch :
    ℕ → (Machine → Outcome Ended × Machine) → Option Block × Machine → Outcome Ended × Machine
after_branch until rest (none, m) = (done finished, m)
after_branch until rest (some b, m) =
    let m' = note_trace m.core.regs.rip m in if until == 0 then rest m' else (done (chained b), m')

-- What follows an instruction: an error, new code, a branch, or the next instruction.
abbrev pub after_clean :
    ℕ → (Machine → Outcome Ended × Machine) → Bool → Bool × Machine → Outcome Ended × Machine
after_clean until rest branched (true, m) = (done finished, m)
after_clean until rest false (false, m) = rest m
after_clean until rest true (false, m) =
    if at_until until m
    then (done finished, m)
    else after_branch until rest (cached_block_at m.core.regs.rip m)

abbrev pub after_run :
    ℕ → (Machine → Outcome Ended × Machine) → Outcome Bool × Machine → Outcome Ended × Machine
after_run until rest (failed x, m) = (failed x, m)
after_run until rest (done branched, m) = after_clean until rest branched (refresh m)

-- The instructions of a block from the one at `pc` on; the first is in the trace already.
unfoldable pub run_block : ℕ → Bool → ℕ → List ℕ → Machine → Outcome Ended × Machine
run_block until first pc [] m = (done completed, m)
run_block until first pc (d ∷ ds) m =
    let rest = run_block until false (pc +w (m.code d).len) ds in
    if m.stop_requested || at_until until m
    then (done finished, m)
    else after_run until rest (run_code pc d (trace_unless first pc m))

abbrev pub next_block :
    (Block → Machine → Outcome (Unit {0}) × Machine)
    → Option Block × Machine
    → Outcome (Unit {0}) × Machine
next_block again (none, m) = (done tt, m)
next_block again (some b, m) = again b (note_trace m.core.regs.rip m)

abbrev pub after_block :
    ℕ
    → (Block → Machine → Outcome (Unit {0}) × Machine)
    → Outcome Ended × Machine
    → Outcome (Unit {0}) × Machine
after_block until again (failed x, m) = (failed x, m)
after_block until again (done finished, m) = (done tt, m)
after_block until again (done (chained b), m) = again b m
after_block until again (done completed, m) =
    if at_until until m then (done tt, m) else next_block again (cached_block_at m.core.regs.rip m)

-- executeBlock goes from block to block for as long as the cache has them; `diverged` stands for
-- the blocks past the fuel.
unfoldable pub execute_block : ℕ → ℕ → Block → Machine → Outcome (Unit {0}) × Machine
execute_block zero until b m = (failed diverged, m)
execute_block (suc n) until b m =
    let rest =
      after_block until (execute_block n until) (run_block until true b.start b.instructions m) in
    if m.core.regs.rip == b.start then rest else (done tt, m)

-- A callback: the engine that it leaves, and whether it has called EmuStop.
pub record Answer : Type 0 where
  pub after : Engine
  pub stop : Bool

pub record FaultAnswer : Type 0 where
  pub answer : Answer
  pub handled : Bool

-- The callbacks that HookInsn and HookMemUnmapped have installed.
pub record Hooks : Type 0 where
  pub on_syscall : Option (Engine → Answer)
  pub on_cpuid : Option (Engine → Answer)
  pub on_unmapped : Option (Fault → Engine → FaultAnswer)

abbrev pub answered : Answer → Machine → Machine
answered a m = record m { core = a.after; stop_requested = a.stop || m.stop_requested }

pub data Round : Type 0 where
  goes_on stopped : Round
  error : Failure → Round

module _ (ext : Extensions) (fuel : ℕ) (hooks : Hooks) where
  -- handleFault, and what the loop does with its answer.
  abbrev pub resolve : Option (Fault → Engine → FaultAnswer) → Failure → Machine → Round × Machine
  resolve (some h) (fault f) m =
      let a = h f m.core in (if a.handled then goes_on else error (fault f), answered a.answer m)
  resolve h x m = (error x, m)

  abbrev pub on_failure : Failure → Machine → Round × Machine
  on_failure x m = resolve hooks.on_unmapped x m

  -- SYSCALL goes on after the instruction, unless the callback has stopped the engine; the
  -- callback of CPUID sets rip itself.
  abbrev pub skip_syscall : Machine → Machine
  skip_syscall m =
      if m.stop_requested
      then m
      else set_core (record m.core { regs = record m.core.regs { rip = m.core.cur_instr_end } }) m

  abbrev pub hooked : (Machine → Machine) → Option (Engine → Answer) → Machine → Round × Machine
  hooked then_do none m = (error not_supported, m)
  hooked then_do (some h) m = (goes_on, then_do (answered (h m.core) m))

  abbrev pub after_single : Outcome Bool × Machine → Round × Machine
  after_single (done branched, m) = (goes_on, m)
  after_single (failed x, m) = on_failure x m

  abbrev pub at_end : ℕ → Machine → Machine
  at_end next m = set_core (record m.core { cur_instr_end = next }) m

  abbrev pub dispatch : Option InsnId → ℕ → ℕ → Machine → Round × Machine
  dispatch (some ins_syscall) pc d m =
      hooked skip_syscall hooks.on_syscall (at_end (pc +w (m.code d).len) m)
  dispatch (some ins_cpuid) pc d m =
      hooked (λ n. n) hooks.on_cpuid (at_end (pc +w (m.code d).len) m)
  dispatch none pc d m = after_single (run_code pc d m)

  abbrev pub run_single : ℕ → Outcome ℕ × Machine → Round × Machine
  run_single pc (failed x, m) = on_failure x m
  run_single pc (done d, m) = dispatch (insn_id (m.code d).decoded.instruction) pc d m

  unfoldable pub single : ℕ → Machine → Round × Machine
  single pc m = run_single pc (cached_decode ext fuel pc m)

  abbrev pub after_blocks : Outcome (Unit {0}) × Machine → Round × Machine
  after_blocks (done u, m) = (goes_on, m)
  after_blocks (failed x, m) = on_failure x m

  abbrev pub run_compiled : ℕ → ℕ → ℕ → Outcome (Option Block) × Machine → Round × Machine
  run_compiled n until pc (failed x, m) = on_failure x m
  run_compiled n until pc (done none, m) = single pc m
  run_compiled n until pc (done (some b), m) = after_blocks (execute_block n until b m)

  -- A round of the loop of EmuStart; `n` bounds the blocks that one round may run.
  unfoldable pub emu_round : ℕ → ℕ → Machine → Round × Machine
  emu_round n until m =
      let pc = m.core.regs.rip in
      let m' = (refresh (note_trace pc m)).1 in
      if m.stop_requested || at_until until m
      then (stopped, m)
      else if m'.block_jit
      then run_compiled n until pc (compile_block ext fuel pc m')
      else single pc m'

  abbrev pub or_again : (Machine → Round × Machine) → Round × Machine → Round × Machine
  or_again again (goes_on, m) = again m
  or_again again (stopped, m) = (stopped, m)
  or_again again (error x, m) = (error x, m)

  -- The loop for at most `rounds` rounds; it goes on past them.
  unfoldable pub emu_loop : ℕ → ℕ → ℕ → Machine → Round × Machine
  emu_loop zero n until m = (goes_on, m)
  emu_loop (suc rounds) n until m = or_again (emu_loop rounds n until) (emu_round n until m)

  -- EmuStart.
  unfoldable pub emu_start : ℕ → ℕ → ℕ → ℕ → Machine → Round × Machine
  unfolding emu_loop
  emu_start rounds n begin until m = emu_loop rounds n until (record m {
    core = record m.core { regs = record m.core.regs { rip = begin } };
    stop_requested = false;
  })
