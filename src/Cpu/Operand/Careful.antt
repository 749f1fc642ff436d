-- ===== src/Cpu/Operand/Careful.antt =====
-- Methods of the engine that change code only where `codeDirty` reports it: one rule for each way
-- to build a method.
use golinux.Base.{ℕ, Bool, true, false, if◌then◌else◌, Option, none, some, List}
use golinux.Cpu.Memory.{Space, Fault}
use golinux.Cpu.Memory.Copy.{Result, ok, err, read_checked, write_checked}
use golinux.Cpu.Memory.View.{IsValid}
use golinux.Cpu.Memory.Kept.{
  CodeKept, CodeKept-refl, CodeKept-trans, Untouched-CodeKept, read_checked-Untouched,
  write_checked-CodeKept,
}
use golinux.Cpu.Run.{Failure, Outcome, done, failed, Run, and_then, ◌>>=◌, return, fail, get}
use golinux.Cpu.Registers.{Registers}
use golinux.Cpu.Operand.{
  Engine, Operand, reg, mem, imm, from_result, from_option, modify_regs, load, store, eff_addr,
  read_operand, write_operand, lea_addr,
}

-- From a valid memory, whether the method returns or fails.
pub record Careful {A : Type 0} (m : Run Engine A) : Type 0 where
  pub at : (e : Engine) → IsValid e.space → CodeKept e.space (m e).1.space

module _ {A : Type 0} where
  pub Careful-return : (a : A) → Careful {A = A} (return a)
  Careful-return a = record { at = λ e v. CodeKept-refl e.space v }

  pub Careful-fail : (x : Failure) → Careful {A = A} (fail x)
  Careful-fail x = record { at = λ e v. CodeKept-refl e.space v }

  pub Careful-if :
      (b : Bool) (m n : Run Engine A) → Careful m → Careful n → Careful (if b then m else n)
  Careful-if true m n p q = p
  Careful-if false m n p q = q

  pub Careful-get :
      (f : Engine → Run Engine A) → ((e : Engine) → Careful (f e)) → Careful (get >>= f)
  Careful-get f p = record { at = λ e v. (p e).at e v }

pub Careful-modify : (f : Registers → Registers) → Careful (modify_regs f)
Careful-modify f = record { at = λ e v. CodeKept-refl e.space v }

module _ {A B : Type 0} where
  then_kept :
      (e : Engine) (r : Outcome A × Engine) (f : A → Run Engine B)
      → CodeKept e.space r.1.space
      → ((a : A) → Careful (f a))
      → CodeKept e.space (and_then r f).1.space
  then_kept e (done a, e') f k p = CodeKept-trans k ((p a).at e' k.valid)
  then_kept e (failed x, e') f k p = k

  pub Careful-bind :
      (m : Run Engine A) (f : A → Run Engine B)
      → Careful m
      → ((a : A) → Careful (f a))
      → Careful (m >>= f)
  Careful-bind m f p q = record { at = λ e v. then_kept e (m e) f (p.at e v) q }

  pub Careful-then :
      (m : Run Engine A) (n : Run Engine B) → Careful m → Careful n → Careful (m >>= λ _. n)
  Careful-then m n p q = Careful-bind m (λ _. n) p (λ _. q)

loaded :
    (e : Engine) (r : Result (List ℕ) × Space)
    → CodeKept e.space r.1
    → CodeKept e.space (from_result e r).1.space
loaded e (ok a, s) k = k
loaded e (err x, s) k = k

pub Careful-load : (a n perm : ℕ) → Careful (load a n perm)
Careful-load a n perm = record {
  at = λ e v.
      loaded e (read_checked a n perm e.space)
        (Untouched-CodeKept (read_checked-Untouched a n perm e.space v));
}

stored :
    (e : Engine) (r : Option Fault × Space)
    → CodeKept e.space r.1
    → CodeKept e.space (from_option e r).1.space
stored e (none, s) k = k
stored e (some x, s) k = k

pub Careful-store : (a : ℕ) (bs : List ℕ) (perm : ℕ) → Careful (store a bs perm)
Careful-store a bs perm = record {
  at = λ e v.
      stored e (write_checked a bs perm e.space) (write_checked-CodeKept a bs perm e.space v);
}

pub Careful-read_operand : (o : Operand) (w : ℕ) → Careful (read_operand o w)
unfolding read_operand
Careful-read_operand (reg i rex) w = record { at = λ e v. CodeKept-refl e.space v }
Careful-read_operand (imm u) w = record { at = λ e v. CodeKept-refl e.space v }
Careful-read_operand (mem a seg) w = record {
  at = λ e v.
      (Careful-bind _ _ (Careful-load (eff_addr a seg e) w 1) (λ buf. Careful-return _)).at e v;
}

pub Careful-write_operand : (o : Operand) (w val : ℕ) → Careful (write_operand o w val)
unfolding write_operand
Careful-write_operand (reg i rex) w val = record { at = λ e v. CodeKept-refl e.space v }
Careful-write_operand (imm u) w val = Careful-fail _
Careful-write_operand (mem a seg) w val = record {
  at = λ e v. (Careful-store (eff_addr a seg e) _ 2).at e v;
}

pub Careful-lea_addr : (o : Operand) → Careful (lea_addr o)
unfolding lea_addr
Careful-lea_addr (reg i rex) = Careful-fail _
Careful-lea_addr (imm u) = Careful-fail _
Careful-lea_addr (mem a seg) = record { at = λ e v. CodeKept-refl e.space v }

pub ruleset careful_rules = (
  Careful-return, Careful-fail, Careful-if, Careful-get, Careful-modify, Careful-bind, Careful-load,
  Careful-store, Careful-read_operand, Careful-write_operand, Careful-lea_addr,
)
