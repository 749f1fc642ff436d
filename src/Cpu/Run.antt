-- ===== src/Cpu/Run.antt =====
-- Methods that change a state and may return an error.
pub mod Post
use golinux.Cpu.Memory.{Fault}

-- The errors that the methods return, without their texts, a run-time panic of Go, and a loop that goes on past the rounds modelled.
pub data Failure : Type 0 where
  fault : Fault → Failure
  bad_operand division_by_zero division_overflow not_supported panicked diverged : Failure

pub data Outcome {ℓ} (A : Type ℓ) : Type ℓ where
  done : A → Outcome A
  failed : Failure → Outcome A

-- What a method returns, and the state after it, also after an error.
abbrev pub Run : Type 0 → Type 0 → Type 0
Run S A = S → Outcome A × S

abbrev pub and_then : {S A B : Type 0} → Outcome A × S → (A → Run S B) → Outcome B × S
and_then (done a, s) f = f a s
and_then (failed x, s) f = (failed x, s)

infixl 5 ◌>>=◌ ◌>>◌
abbrev pub ◌>>=◌ : {S A B : Type 0} → Run S A → (A → Run S B) → Run S B
◌>>=◌ m f s = and_then (m s) f

abbrev pub ◌>>◌ : {S B : Type 0} → Run S (Unit {0}) → Run S B → Run S B
m >> k = m >>= λ _. k

abbrev pub return : {S A : Type 0} → A → Run S A
return a s = (done a, s)

abbrev pub fail : {S A : Type 0} → Failure → Run S A
fail x s = (failed x, s)

-- The state itself.
abbrev pub get : {S : Type 0} → Run S S
get s = (done s, s)

abbrev pub modify : {S : Type 0} → (S → S) → Run S (Unit {0})
modify f s = (done tt, f s)
