-- ===== src/Cpu/Run/Post.antt =====
-- Postconditions of methods that may fail.
use golinux.Base.{◌≡◌, refl, Bool, true, false, if◌then◌else◌}
use golinux.Cpu.Run.{Outcome, done, failed, Run, and_then}

-- If the method returns, `P` holds of the value and of the state after it.
abbrev pub Post : {S A : Type 0} → (A → S → Type 0) → Outcome A × S → Type 0
Post P (done a, s) = P a s
Post P (failed x, s) = Unit {0}

pub Post-bind :
    {S A B : Type 0} (Q : A → S → Type 0) (P : B → S → Type 0) (r : Outcome A × S) (f : A → Run S B)
    → Post Q r
    → ((a : A) (s : S) → Q a s → Post P (f a s))
    → Post P (and_then r f)
Post-bind Q P (done a, s) f q k = k a s q
Post-bind Q P (failed x, s) f q k = tt

pub Post-if :
    {S A : Type 0} (P : A → S → Type 0) (b : Bool) (f g : Run S A) (s : S)
    → (b ≡ true → Post P (f s))
    → (b ≡ false → Post P (g s))
    → Post P ((if b then f else g) s)
Post-if P true f g s p q = p refl
Post-if P false f g s p q = q refl

-- As `Post`, with `F` for the state that an error leaves.
abbrev pub Ends : {S A : Type 0} → (A → S → Type 0) → (S → Type 0) → Outcome A × S → Type 0
Ends P F (done a, s) = P a s
Ends P F (failed x, s) = F s

pub Ends-bind :
    {S A B : Type 0} (Q : A → S → Type 0) (P : B → S → Type 0) (F : S → Type 0) (r : Outcome A × S)
    (f : A → Run S B)
    → Ends Q F r
    → ((a : A) (s : S) → Q a s → Ends P F (f a s))
    → Ends P F (and_then r f)
Ends-bind Q P F (done a, s) f q k = k a s q
Ends-bind Q P F (failed x, s) f q k = q
