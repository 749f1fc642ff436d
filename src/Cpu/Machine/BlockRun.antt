-- ===== src/Cpu/Machine/BlockRun.antt =====
-- executeBlock runs current instructions.
use golinux.Base.{ℕ, ◌+◌, ◌≤◌, ◌≡◌, refl, sym, ap, ◌∙◌, Bool, true, false, arith}
use golinux.Base.Word.{◌+w◌}
use golinux.Cpu.Memory.View.{IsValid}
use golinux.Cpu.Memory.Kept.{CodeKept-refl, Untouched-refl}
use golinux.Cpu.Run.{Outcome, done, failed}
use golinux.Cpu.Operand.{Engine}
use golinux.Cpu.Execute.{execute}
use golinux.Cpu.Decode.{Extensions}
use golinux.Cpu.Decode.Reading.{ExtensionsRead}
use golinux.Cpu.Decode.BlockEnds.{ExtensionsEnd}
use golinux.Cpu.Machine.{Machine, fall_through, run_at, run_code, note_trace}
use golinux.Cpu.Machine.Loop.{Hooks, Ended, finished, completed, chained}
use golinux.Cpu.Machine.Current.{Onward-core}
use golinux.Cpu.Machine.Tables.{entry}
use golinux.Cpu.Machine.Coherent.{Coherent, Coherent-same}
use golinux.Cpu.Machine.Compile.{Idle, Ready}
use golinux.Cpu.Machine.Steps.{
  looks, earlier, Follows, Follows-refl, Follows-trans, one-Follows, with_end,
}

-- The trace does not matter.
pub note_trace-Idle : (pc : ℕ) (m : Machine) → IsValid m.core.space → Idle m (note_trace pc m)
unfolding note_trace
note_trace-Idle pc m v = record {
  onward = Onward-core m (note_trace pc m) (CodeKept-refl m.core.space v) refl refl;
  space = Untouched-refl m.core.space v;
  same_regs = refl;
  same_end = refl;
  generation = refl;
  stop_requested = refl;
}

-- What an instruction's result says of rip and of the instruction.
fell :
    (n : ℕ) (r : Outcome Bool × Engine) (e : Engine)
    → fall_through n r ≡ (done false, e)
    → e.regs.rip ≡ n
fell n (done true, e₁) e h = cc
fell n (done false, e₁) e h = ap (λ (p : Outcome Bool × Engine). p.1.regs.rip) (sym h)
fell n (failed x, e₁) e h = cc

jumped :
    (n : ℕ) (r : Outcome Bool × Engine) (e : Engine)
    → fall_through n r ≡ (done true, e)
    → r ≡ (done true, e)
jumped n (done true, e₁) e h = h
jumped n (done false, e₁) e h = cc
jumped n (failed x, e₁) e h = cc

run_code-core :
    (pc d : ℕ) (m m' : Machine) (o : Outcome Bool)
    → run_code pc d m ≡ (o, m')
    → run_at pc (m.code d) m.core ≡ (o, m'.core)
unfolding run_code
run_code-core pc d m m' o h = ap (λ (r : Outcome Bool × Machine). (r.0, r.1.core)) h

pub run_code-rip :
    (pc d : ℕ) (m m' : Machine)
    → run_code pc d m ≡ (done false, m')
    → m'.core.regs.rip ≡ pc +w (m.code d).len
unfolding run_at
run_code-rip pc d m m' h = fell _ _ m'.core (run_code-core pc d m m' (done false) h)

pub run_code-branched :
    (pc d : ℕ) (m m' : Machine)
    → run_code pc d m ≡ (done true, m')
    → execute (m.code d).decoded.instruction (with_end (pc +w (m.code d).len) m.core)
      ≡ (done true, m'.core)
unfolding run_at
run_code-branched pc d m m' h = jumped _ _ m'.core (run_code-core pc d m m' (done true) h)

module _ (ext : Extensions) (fuel : ℕ) (reads : ExtensionsRead ext) (ends : ExtensionsEnd ext)
    (hooks : Hooks) where
  pub note_trace-Coherent :
      (pc : ℕ) (m : Machine) → Coherent ext fuel m → Coherent ext fuel (note_trace pc m)
  unfolding note_trace entry
  note_trace-Coherent pc m c =
      Coherent-same ext fuel reads m (note_trace pc m) c
        (Onward-core m (note_trace pc m) (CodeKept-refl m.core.space c.valid) refl refl)
        (record {
          stop_requested = refl;
          block_jit = refl;
          block_cache = refl;
          generation = refl;
          cached_block_start = refl;
          cached_block = refl;
        })
        (record { cached = c.tables.cached; below = c.tables.below; apart = c.tables.apart })
        (λ x. refl)

  -- How a block goes on.
  abbrev pub Goes : Machine → Outcome Ended × Machine → Type 0
  Goes m (done completed, m') = (m'.core.space.code_dirty ≡ false) × (m'.generation ≡ m.generation)
  Goes m (done (chained b), m') =
      (m'.core.space.code_dirty ≡ false)
      × (m'.generation ≡ m.generation)
      × Ready ext fuel reads ends m' b
  Goes m (done finished, m') = Unit {0}
  Goes m (failed x, m') = Unit {0}

  pub record BlockRun (m : Machine) (r : Outcome Ended × Machine) : Type 0 where
    pub coherent : Coherent ext fuel r.1
    pub follows : Follows ext fuel hooks m r.1
    pub generation : r.1.generation ≤ m.generation + 1
    pub stop_requested : r.1.stop_requested ≡ m.stop_requested
    pub goes : Goes m r

  pub Goes-from :
      (m n : Machine) (r : Outcome Ended × Machine)
      → n.generation ≡ m.generation
      → Goes n r
      → Goes m r
  Goes-from m n (done completed, m') e (clean, same) = (clean, same ∙ e)
  Goes-from m n (done (chained b), m') e (clean, same, ready) = (clean, same ∙ e, ready)
  Goes-from m n (done finished, m') e g = tt
  Goes-from m n (failed x, m') e g = tt

  -- What happens before is more steps.
  pub run_from :
      (m n : Machine) (r : Outcome Ended × Machine)
      → Follows ext fuel hooks m n
      → n.generation ≡ m.generation
      → n.stop_requested ≡ m.stop_requested
      → BlockRun n r
      → BlockRun m r
  run_from m n r s g stop b = record {
    coherent = b.coherent;
    follows = Follows-trans ext fuel hooks s b.follows;
    generation = omega (arith, g, b.generation);
    stop_requested = b.stop_requested ∙ stop;
    goes = Goes-from m n r g b.goes;
  }

  pub Idle-Follows : (m n : Machine) → Idle m n → Follows ext fuel hooks m n
  Idle-Follows m n i =
      one-Follows ext fuel hooks (earlier m n i.onward) (λ h. looks n.core i.space i.same_regs)

  pub ended :
      (m : Machine) → Coherent ext fuel m → (o : Outcome Ended) → Goes m (o, m) → BlockRun m (o, m)
  ended m c o g = record {
    coherent = c;
    follows = Follows-refl ext fuel hooks;
    generation = omega arith;
    stop_requested = refl;
    goes = g;
  }
