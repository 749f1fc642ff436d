-- ===== src/Cpu/Machine/Rounds.antt =====
-- The rounds of EmuStart, with its hooks.
use golinux.Base.{
  ℕ, ◌≡◌, refl, sym, ap, ◌∙◌, Bool, false, ◌||◌, Option, none, some, arith, Bool-cases, inl, inr,
}
use golinux.Base.Word.{◌+w◌}
use golinux.Cpu.Memory.{Fault}
use golinux.Cpu.Memory.View.{IsValid}
use golinux.Cpu.Memory.Kept.{CodeKept, CodeKept-refl, Untouched-refl}
use golinux.Cpu.Run.{Failure, fault, Outcome, done, failed}
use golinux.Cpu.Registers.{Registers}
use golinux.Cpu.Operand.{Engine}
use golinux.Cpu.Decode.{Extensions}
use golinux.Cpu.Decode.Reading.{ExtensionsRead}
use golinux.Cpu.Decode.BlockEnds.{ExtensionsEnd}
use golinux.Cpu.Machine.{Machine, decode_at, run_code, cached_decode}
use golinux.Cpu.Machine.Blocks.{InsnId, ins_syscall, ins_cpuid, insn_id}
use golinux.Cpu.Machine.Loop.{
  Answer, FaultAnswer, Hooks, answered, resolve, on_failure, skip_syscall, after_single, at_end,
  hooked, dispatch, run_single, single,
}
use golinux.Cpu.Machine.Current.{Current, Onward, Onward-core, Current-Onward}
use golinux.Cpu.Machine.Tables.{entry}
use golinux.Cpu.Machine.Coherent.{Coherent, BlockCurrent-Onward}
use golinux.Cpu.Machine.Lookup.{Found, cached_decode-Found}
use golinux.Cpu.Machine.Compile.{Looked-Idle}
use golinux.Cpu.Machine.Steps.{
  Step, looks, repairs, calls_syscall, calls_cpuid, NoneMutable, one-Follows, with_end,
  after_syscall,
}
use golinux.Cpu.Machine.Running.{decoded_now, Ran, run_code-Ran}
use golinux.Cpu.Machine.Refinement.{Runs, Runs-trans, Runs-here, idle_runs}

-- The hooks change memory as the engine's methods do.
pub record HooksCareful (hooks : Hooks) : Type 0 where
  pub syscall :
      (h : Engine → Answer)
      → hooks.on_syscall ≡ some h
      → (e : Engine) → IsValid e.space
      → CodeKept e.space (h e).after.space
  pub cpuid :
      (h : Engine → Answer)
      → hooks.on_cpuid ≡ some h
      → (e : Engine) → IsValid e.space
      → CodeKept e.space (h e).after.space
  pub unmapped :
      (h : Fault → Engine → FaultAnswer)
      → hooks.on_unmapped ≡ some h
      → (x : Fault) (e : Engine) → IsValid e.space
      → CodeKept e.space (h x e).answer.after.space

module _ (ext : Extensions) (fuel : ℕ) (reads : ExtensionsRead ext) (ends : ExtensionsEnd ext)
    (hooks : Hooks) (careful : HooksCareful hooks) where
  hook_same :
      (m : Machine) (e : Engine) (stop : Bool)
      → CodeKept m.core.space e.space
      → Onward m (record m { core = e; stop_requested = stop })
  hook_same m e stop k = Onward-core m (record m { core = e; stop_requested = stop }) k refl refl

  -- An engine that a hook has changed, with the caches as they are.
  pub hooked-Coherent :
      (m : Machine) (e : Engine) (stop : Bool)
      → Coherent ext fuel m
      → CodeKept m.core.space e.space
      → Coherent ext fuel (record m { core = e; stop_requested = stop })
  unfolding entry
  hooked-Coherent m e stop c k =
      let n : Machine = record m { core = e; stop_requested = stop } in
      let o = hook_same m e stop k in
      record {
        valid = k.valid;
        tables = record {
          cached = c.tables.cached;
          below = c.tables.below;
          apart = c.tables.apart;
        };
        entries = λ pc d h. Current-Onward ext fuel reads m n pc d c.valid o (c.entries pc d h);
        slots = λ s b h. BlockCurrent-Onward ext fuel reads m n b c.valid o refl (c.slots s b h);
        last = λ b h. BlockCurrent-Onward ext fuel reads m n b c.valid o refl (c.last b h);
        last_start = c.last_start;
      }

  resolved :
      (o : Option (Fault → Engine → FaultAnswer)) (x : Failure) (m : Machine)
      → hooks.on_unmapped ≡ o
      → Coherent ext fuel m
      → Runs ext fuel reads ends hooks 0 m (resolve ext fuel hooks o x m).1
  resolved (some h) (fault f) m e c =
      let a = (h f m.core).answer in
      record {
        coherent =
            hooked-Coherent m a.after (a.stop || m.stop_requested) c
              (careful.unmapped h e f m.core c.valid);
        follows = one-Follows ext fuel hooks (λ h. h) (λ plain. repairs f h e a.after refl);
        generation = omega arith;
      }
  resolved none x m e c = Runs-here ext fuel reads ends hooks 0 m c
  resolved (some h) x m e c = Runs-here ext fuel reads ends hooks 0 m c

  pub failing :
      (x : Failure) (m : Machine)
      → Coherent ext fuel m
      → Runs ext fuel reads ends hooks 0 m (on_failure ext fuel hooks x m).1
  failing x m c = resolved hooks.on_unmapped x m refl c

  called :
      (m : Machine) (e : Engine) (stop : Bool)
      → Coherent ext fuel m
      → CodeKept m.core.space e.space
      → (NoneMutable m → Step ext fuel hooks m.core e)
      → Runs ext fuel reads ends hooks 0 m (record m { core = e; stop_requested = stop })
  called m e stop c k s = record {
    coherent = hooked-Coherent m e stop c k;
    follows = one-Follows ext fuel hooks (λ h. h) s;
    generation = omega arith;
  }

  -- What skip_syscall makes of a hook's answer, when the engine was not to stop.
  syscall_ends :
      (a : Answer) (m : Machine)
      → m.stop_requested ≡ false
      → skip_syscall ext fuel hooks (answered a m)
        ≡ record m { core = after_syscall a; stop_requested = a.stop }
  syscall_ends a m running = elim (Bool-cases a.stop) [
    | inl s ↦ rw s refl
    | inr s ↦ rw (s, running) refl
  ]

  noted :
      (m : Machine) (end : ℕ)
      → Coherent ext fuel m
      → Runs ext fuel reads ends hooks 0 m (at_end ext fuel hooks end m)
  noted m end c =
      called m (with_end end m.core) m.stop_requested c (CodeKept-refl m.core.space c.valid)
        (λ plain. looks (with_end end m.core) (Untouched-refl m.core.space c.valid) refl)

  module _ (m : Machine) (c : Coherent ext fuel m) (pc d : ℕ) (rip : m.core.regs.rip ≡ pc)
      (clean : m.core.space.code_dirty ≡ false) (running : m.stop_requested ≡ false)
      (current : Current ext fuel m pc d) where
    decoded_here : NoneMutable m → (decode_at ext fuel m.core.regs.rip m.core).0 ≡ done (m.code d)
    decoded_here plain =
        decoded_now ext fuel reads ends hooks m pc d rip (current.fresh clean)
          (plain d current.below)

    end_here : (m.core.regs.rip +w (m.code d).len) ≡ (pc +w (m.code d).len)
    end_here = ap (λ (x : ℕ). x +w (m.code d).len) rip

    abbrev ended_core : Engine
    ended_core = with_end (pc +w (m.code d).len) m.core

    hooks_syscall :
        (o : Option (Engine → Answer))
        → hooks.on_syscall ≡ o
        → insn_id (m.code d).decoded.instruction ≡ some ins_syscall
        → Runs ext fuel reads ends hooks 0 m
            (hooked ext fuel hooks
              (skip_syscall ext fuel hooks)
              o
              (at_end ext fuel hooks (pc +w (m.code d).len) m)).1
    hooks_syscall none e i = noted m (pc +w (m.code d).len) c
    hooks_syscall (some h) e i =
        let a = h ended_core in
        let kept = careful.syscall h e ended_core c.valid in
        rw (syscall_ends a (at_end ext fuel hooks (pc +w (m.code d).len) m) running) (
          called m (after_syscall a) a.stop c (after_kept a kept) (λ plain.
            calls_syscall (m.code d) h (decoded_here plain) i e (after_syscall a)
              (ap (λ (x : ℕ). after_syscall (h (with_end x m.core))) (sym end_here))))
      where
        after_kept :
            (a : Answer)
            → CodeKept m.core.space a.after.space
            → CodeKept m.core.space (after_syscall a).space
        after_kept a k = elim (Bool-cases a.stop) [ inl s ↦ rw s k | inr s ↦ rw s k ]

    hooks_cpuid :
        (o : Option (Engine → Answer))
        → hooks.on_cpuid ≡ o
        → insn_id (m.code d).decoded.instruction ≡ some ins_cpuid
        → Runs ext fuel reads ends hooks 0 m
            (hooked ext fuel hooks (λ n. n) o (at_end ext fuel hooks (pc +w (m.code d).len) m)).1
    hooks_cpuid none e i = noted m (pc +w (m.code d).len) c
    hooks_cpuid (some h) e i =
        let a = h ended_core in
        called m a.after (a.stop || m.stop_requested) c (careful.cpuid h e ended_core c.valid)
          (λ plain.
            calls_cpuid (m.code d) h (decoded_here plain) i e a.after
              (ap (λ (x : ℕ). (h (with_end x m.core)).after) (sym end_here)))

    ran_single :
        (r : Outcome Bool × Machine)
        → Ran ext fuel reads ends hooks m r.1
        → Runs ext fuel reads ends hooks 0 m (after_single ext fuel hooks r).1
    ran_single (done b, n) r = record {
      coherent = r.coherent;
      follows = r.follows;
      generation = omega (arith, r.blocks.generation);
    }
    ran_single (failed x, n) r =
        let now : Runs ext fuel reads ends hooks 0 m n = record {
          coherent = r.coherent;
          follows = r.follows;
          generation = omega (arith, r.blocks.generation);
        } in
        Runs-trans ext fuel reads ends hooks now (failing x n r.coherent)

    dispatched :
        (o : Option InsnId)
        → insn_id (m.code d).decoded.instruction ≡ o
        → Runs ext fuel reads ends hooks 0 m (dispatch ext fuel hooks o pc d m).1
    dispatched (some ins_syscall) i = hooks_syscall hooks.on_syscall refl i
    dispatched (some ins_cpuid) i = hooks_cpuid hooks.on_cpuid refl i
    dispatched none i =
        ran_single (run_code pc d m)
          (run_code-Ran ext fuel reads ends hooks pc d m c clean rip current i)

  found_single :
      (pc : ℕ) (m : Machine) (r : Outcome ℕ × Machine)
      → Found ext fuel reads ends m pc r
      → m.core.regs.rip ≡ pc
      → m.core.space.code_dirty ≡ false
      → m.stop_requested ≡ false
      → Runs ext fuel reads ends hooks 0 m (run_single ext fuel hooks pc r).1
  found_single pc m (failed x, n) f rip clean running =
      Runs-trans ext fuel reads ends hooks
        (idle_runs ext fuel reads ends hooks (Looked-Idle f.looked) f.coherent)
        (failing x n f.coherent)
  found_single pc m (done d, n) f rip clean running =
      Runs-trans ext fuel reads ends hooks
        (idle_runs ext fuel reads ends hooks (Looked-Idle f.looked) f.coherent)
        (dispatched n f.coherent pc d (ap (λ (r : Registers). r.rip) f.looked.same_regs ∙ rip)
          (f.looked.space.same_dirty ∙ clean) (f.looked.blocks.stop_requested ∙ running)
          (f.current d refl) (insn_id (n.code d).decoded.instruction) refl)

  -- A round without a block.
  pub single-Runs :
      (pc : ℕ) (m : Machine)
      → Coherent ext fuel m
      → m.core.regs.rip ≡ pc
      → m.core.space.code_dirty ≡ false
      → m.stop_requested ≡ false
      → Runs ext fuel reads ends hooks 0 m (single ext fuel hooks pc m).1
  unfolding single
  single-Runs pc m c rip clean running =
      found_single pc m (cached_decode ext fuel pc m)
        (cached_decode-Found ext fuel reads ends pc m c) rip clean running
