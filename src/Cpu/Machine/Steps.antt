-- ===== src/Cpu/Machine/Steps.antt =====
-- What a run of the engine is made of when nothing is cached.
use golinux.Base.{
  ℕ, ◌≡◌, ◌<◌, inl, inr, sym, ap, ◌∙◌, arith, refl, Bool, true, false, if◌then◌else◌, none, some,
}
use mathlib.Core.Bool.{false≢true}
use golinux.Base.Word.{◌+w◌}
use golinux.Cpu.Memory.{Fault}
use golinux.Cpu.Memory.View.{IsValid}
use golinux.Cpu.Memory.Kept.{CodeKept, Untouched}
use golinux.Cpu.Run.{Outcome, done, failed}
use golinux.Cpu.Operand.{Engine}
use golinux.Cpu.Execute.{execute}
use golinux.Cpu.Execute.CodeKept.{execute-Careful}
use golinux.Cpu.Decode.{Extensions, Fetched}
use golinux.Cpu.Machine.{Machine, decode_at, clean_core, fall_through, run_at}
use golinux.Cpu.Machine.Blocks.{ins_syscall, ins_cpuid, insn_id}
use golinux.Cpu.Machine.Loop.{Answer, FaultAnswer, Hooks}
use golinux.Cpu.Machine.Current.{is_mutable, IsFresh, Onward}

abbrev pub at_rip : ℕ → Engine → Engine
at_rip rip e = record e { regs = record e.regs { rip = rip } }

abbrev pub with_end : ℕ → Engine → Engine
with_end end e = record e { cur_instr_end = end }

-- SYSCALL goes on at the next instruction, unless its hook stops the engine.
abbrev pub after_syscall : Answer → Engine
after_syscall a = if a.stop then a.after else at_rip a.after.cur_instr_end a.after

module _ (ext : Extensions) (fuel : ℕ) (hooks : Hooks) where
  -- `executes`: the instruction runs that decoding rip gives now. `looks`: a page is looked up, or
  -- the end of an instruction is noted. `notices`: codeDirty is cleared. The others are the calls
  -- of the three hooks.
  pub data Step (e : Engine) : Engine → Type 0 where
    executes :
        (f : Fetched)
        → (decode_at ext fuel e.regs.rip e).0 ≡ done f
        → insn_id f.decoded.instruction ≡ none
        → (e' : Engine) → e' ≡ (run_at e.regs.rip f e).1
        → Step e e'
    looks : (e' : Engine) → Untouched e.space e'.space → e'.regs ≡ e.regs → Step e e'
    notices : (e' : Engine) → e' ≡ clean_core e → Step e e'
    calls_syscall :
        (f : Fetched) (h : Engine → Answer)
        → (decode_at ext fuel e.regs.rip e).0 ≡ done f
        → insn_id f.decoded.instruction ≡ some ins_syscall
        → hooks.on_syscall ≡ some h
        → (e' : Engine) → e' ≡ after_syscall (h (with_end (e.regs.rip +w f.len) e))
        → Step e e'
    calls_cpuid :
        (f : Fetched) (h : Engine → Answer)
        → (decode_at ext fuel e.regs.rip e).0 ≡ done f
        → insn_id f.decoded.instruction ≡ some ins_cpuid
        → hooks.on_cpuid ≡ some h
        → (e' : Engine) → e' ≡ (h (with_end (e.regs.rip +w f.len) e)).after
        → Step e e'
    repairs :
        (x : Fault) (h : Fault → Engine → FaultAnswer)
        → hooks.on_unmapped ≡ some h
        → (e' : Engine) → e' ≡ (h x e).answer.after
        → Step e e'

  pub data Steps (e : Engine) : Engine → Type 0 where
    here : Steps e e
    next : {e' e'' : Engine} → Steps e e' → Step e' e'' → Steps e e''

  pub Steps-trans : {e e' e'' : Engine} → Steps e e' → Steps e' e'' → Steps e e''
  Steps-trans s here = s
  Steps-trans s (next t u) = next (Steps-trans s t) u

  pub one_step : {e e' : Engine} → Step e e' → Steps e e'
  one_step s = next here s

-- No instruction that the engine has decoded is a register form of BT, BTS, BTR or BTC on an
-- operand that is no register.
abbrev pub NoneMutable : Machine → Type 0
NoneMutable m = (d : ℕ) → d < m.next_code → is_mutable (m.code d).decoded.instruction ≡ false

-- An engine's heap grows, so that what it has at the end it had on the way.
pub earlier : (m n : Machine) → Onward m n → NoneMutable n → NoneMutable m
earlier m n o none_left d h =
    let r = o.code d h in
    let plain = none_left d (omega (arith, o.more)) in
    elim r.same_or_mutable [
      | inl same ↦ sym (ap (λ (f : Fetched). is_mutable f.decoded.instruction) same) ∙ plain
      | inr mutable ↦ absurd (false≢true (sym plain ∙ mutable))
    ]

-- The exact instruction, where it is none of these.
pub exactly :
    (ext : Extensions) (fuel : ℕ) (pc : ℕ) (f : Fetched) (e : Engine)
    → IsFresh ext fuel pc f e
    → is_mutable f.decoded.instruction ≡ false
    → (decode_at ext fuel pc e).0 ≡ done f
exactly ext fuel pc f e (inl mutable) plain = absurd (false≢true (sym plain ∙ mutable))
exactly ext fuel pc f e (inr now) plain = now

module _ (ext : Extensions) (fuel : ℕ) (hooks : Hooks) where
  -- Where the engine has decoded none of these up to `n`, steps lead from `m` to `n`.
  pub record Follows (m n : Machine) : Type 0 where
    pub earlier_none : NoneMutable n → NoneMutable m
    pub steps : NoneMutable n → Steps ext fuel hooks m.core n.core

  pub Follows-refl : {m : Machine} → Follows m m
  Follows-refl = record { earlier_none = λ h. h; steps = λ h. here }

  pub Follows-trans : {m n o : Machine} → Follows m n → Follows n o → Follows m o
  Follows-trans p q = record {
    earlier_none = λ h. p.earlier_none (q.earlier_none h);
    steps = λ h. Steps-trans ext fuel hooks (p.steps (q.earlier_none h)) (q.steps h);
  }

  pub one-Follows :
      {m n : Machine}
      → (NoneMutable n → NoneMutable m)
      → (NoneMutable m → Step ext fuel hooks m.core n.core)
      → Follows m n
  one-Follows none_before s = record {
    earlier_none = none_before;
    steps = λ h. one_step ext fuel hooks (s (none_before h));
  }

fall_through-space : (n : ℕ) (r : Outcome Bool × Engine) → (fall_through n r).1.space ≡ r.1.space
fall_through-space n (done true, e) = refl
fall_through-space n (done false, e) = refl
fall_through-space n (failed x, e) = refl

-- An instruction that runs is careful with code.
pub run_at-CodeKept :
    (pc : ℕ) (f : Fetched) (e : Engine) → IsValid e.space → CodeKept e.space (run_at pc f e).1.space
unfolding run_at
run_at-CodeKept pc f e v =
    rw (fall_through-space (pc +w f.len) (execute f.decoded.instruction (with_end (pc +w f.len) e)))
      ((execute-Careful f.decoded.instruction).at (with_end (pc +w f.len) e) v)
