-- ===== src/Cpu/Exec/Strings/Progress.antt =====
-- How far a string instruction has got when it ends, also by a fault.
use golinux.Base.{
  ℕ, zero, suc, ◌+◌, ◌-◌, ◌*◌, ◌%◌, ◌^◌, ◌≤◌, ◌<◌, ◌≡◌, refl, ap, ◌∙◌, sym, Bool, true, false,
  Option, none, some, List, arith, if◌then◌else◌,
}
use mathlib.Core.Bool.{false≢true}
use golinux.Cpu.Memory.{Space, Fault, prot_read, prot_write}
use golinux.Cpu.Memory.Copy.{Result, ok, err, read_checked, write_checked}
use golinux.Cpu.Run.{Outcome, done, failed, Run, and_then, return}
use golinux.Cpu.Run.Post.{Ends, Ends-bind}
use golinux.Cpu.Registers.{Registers, reg_rcx, reg_rsi, reg_rdi}
use golinux.Cpu.Operand.{Engine, from_result, from_option, load, store}
use golinux.Cpu.Exec.Strings.{
  RepKind, rep_none, rep_z, rep_nz, is_rep, rounds, advance, count_down, str_index_delta,
  rep_iterations, movs_round, str_movs, stos_round,
}

unfoldable pub iterate : ℕ → (Registers → Registers) → Registers → Registers
iterate zero step r = r
iterate (suc k) step r = iterate k step (step r)

abbrev Keeps : {A : Type 0} → Engine → A → Engine → Type 0
Keeps e a e' = e'.regs ≡ e.regs

abbrev KeepsOnFault : Engine → Engine → Type 0
KeepsOnFault e e' = e'.regs ≡ e.regs

loaded :
    (e : Engine) (r : Result (List ℕ) × Space) → Ends (Keeps e) (KeepsOnFault e) (from_result e r)
loaded e (ok bs, s) = refl
loaded e (err x, s) = refl

stored : (e : Engine) (r : Option Fault × Space) → Ends (Keeps e) (KeepsOnFault e) (from_option e r)
stored e (none, s) = refl
stored e (some x, s) = refl

-- A round takes its step, or faults and leaves the registers.
abbrev Steps : (Registers → Registers) → Engine → Bool → Engine → Type 0
Steps step e stop e' = (stop ≡ false) × (e'.regs ≡ step e.regs)

abbrev pub movs_step : ℕ → RepKind → Registers → Registers
movs_step delta rep r = count_down rep (advance reg_rdi delta (advance reg_rsi delta r))

abbrev pub stos_step : ℕ → RepKind → Registers → Registers
stos_step delta rep r = count_down rep (advance reg_rdi delta r)

movs_round-Steps :
    (w delta : ℕ) (rep : RepKind) (e : Engine)
    → Ends (Steps (movs_step delta rep) e) (KeepsOnFault e) (movs_round w delta rep e)
unfolding movs_round
movs_round-Steps w delta rep e =
    Ends-bind (Keeps e) (Steps (movs_step delta rep) e) (KeepsOnFault e)
      (load (e.regs.gpr reg_rsi) w prot_read e) _
      (loaded e (read_checked (e.regs.gpr reg_rsi) w prot_read e.space))
      λ buf e₁ same.
        Ends-bind (Keeps e) (Steps (movs_step delta rep) e) (KeepsOnFault e)
          (store (e.regs.gpr reg_rdi) buf prot_write e₁) _
          (via e e₁ same (write_checked (e.regs.gpr reg_rdi) buf prot_write e₁.space))
          λ u e₂ same'. (refl, ap (movs_step delta rep) same')
  where
    via :
        (e e₁ : Engine)
        → e₁.regs ≡ e.regs
        → (r : Option Fault × Space) → Ends (Keeps e) (KeepsOnFault e) (from_option e₁ r)
    via e e₁ same (none, s) = same
    via e e₁ same (some x, s) = same

stos_round-Steps :
    (buf : List ℕ) (delta : ℕ) (rep : RepKind) (e : Engine)
    → Ends (Steps (stos_step delta rep) e) (KeepsOnFault e) (stos_round buf delta rep e)
unfolding stos_round
stos_round-Steps buf delta rep e =
    Ends-bind (Keeps e) (Steps (stos_step delta rep) e) (KeepsOnFault e)
      (store (e.regs.gpr reg_rdi) buf prot_write e) _
      (stored e (write_checked (e.regs.gpr reg_rdi) buf prot_write e.space))
      λ u e₂ same'. (refl, ap (stos_step delta rep) same')

-- All rounds are taken, or a fault stops after fewer.
abbrev pub AllTaken : {A : Type 0} → ℕ → (Registers → Registers) → Registers → A → Engine → Type 0
AllTaken n step r a e = e.regs ≡ iterate n step r

abbrev pub SomeTaken : ℕ → (Registers → Registers) → Registers → Engine → Type 0
SomeTaken n step r e = (k : ℕ) × (k < n) × (e.regs ≡ iterate k step r)

one_more :
    {A : Type 0} (step : Registers → Registers) (n : ℕ) (a b : Registers) (r : Outcome A × Engine)
    → a ≡ step b
    → Ends (AllTaken n step a) (SomeTaken n step a) r
    → Ends (AllTaken (suc n) step b) (SomeTaken (suc n) step b) r
unfolding iterate
one_more step n a b (done x, e) same h = h ∙ ap (iterate n step) same
one_more step n a b (failed x, e) same (k, below, h) =
    (suc k, omega arith, h ∙ ap (iterate k step) same)

after_round :
    (step : Registers → Registers) (n : ℕ) (e : Engine) (rest : Run Engine (Unit {0}))
    → ((e₁ : Engine) → Ends (AllTaken n step e₁.regs) (SomeTaken n step e₁.regs) (rest e₁))
    → (r : Outcome Bool × Engine) → Ends (Steps step e) (KeepsOnFault e) r
    → Ends
        (AllTaken (suc n) step e.regs)
        (SomeTaken (suc n) step e.regs)
        (and_then r (λ stop. if stop then return tt else rest))
unfolding iterate
after_round step n e rest later (done true, e₁) (goes_on, same) = absurd (false≢true (sym goes_on))
after_round step n e rest later (done false, e₁) (goes_on, same) =
    one_more step n e₁.regs e.regs (rest e₁) same (later e₁)
after_round step n e rest later (failed x, e₁) same = (0, omega arith, same)

rounds-taken :
    (step : Registers → Registers) (body : Run Engine Bool)
    → ((e : Engine) → Ends (Steps step e) (KeepsOnFault e) (body e))
    → (n : ℕ) (e : Engine)
    → Ends (AllTaken n step e.regs) (SomeTaken n step e.regs) (rounds n body e)
unfolding rounds iterate
rounds-taken step body keeps zero e = refl
rounds-taken step body keeps (suc n) e =
    after_round step n e (rounds n body) (λ e₁. rounds-taken step body keeps n e₁) (body e)
      (keeps e)

further :
    (k delta a : ℕ) → ((a + delta) % 2 ^ 64 + k * delta) % 2 ^ 64 ≡ (a + suc k * delta) % 2 ^ 64
further k delta a =
    let more : suc k * delta ≡ delta + k * delta = grind arith in omega (arith, more)

-- RSI, RDI and RCX after `k` rounds under REP from those of `r`.
abbrev pub Progress : ℕ → ℕ → Registers → Registers → Type 0
Progress k delta r r' =
    (r'.gpr reg_rsi ≡ (r.gpr reg_rsi + k * delta) % 2 ^ 64)
    × (r'.gpr reg_rdi ≡ (r.gpr reg_rdi + k * delta) % 2 ^ 64)
    × (r'.gpr reg_rcx ≡ r.gpr reg_rcx - k)

abbrev pub AreWords : Registers → Type 0
AreWords r = (i : ℕ) → r.gpr i < 2 ^ 64

iterate-movs_step :
    (k delta : ℕ) (r : Registers)
    → r.gpr reg_rsi < 2 ^ 64
    → r.gpr reg_rdi < 2 ^ 64
    → r.gpr reg_rcx < 2 ^ 64
    → k ≤ r.gpr reg_rcx
    → Progress k delta r (iterate k (movs_step delta rep_z) r)
unfolding iterate
iterate-movs_step zero delta r a b c h = (omega arith, omega arith, omega arith)
iterate-movs_step (suc k) delta r a b c h =
    let (p, q, s) =
      iterate-movs_step k delta (movs_step delta rep_z r) (omega arith) (omega arith) (omega arith)
        (omega arith) in
    (p ∙ further k delta (r.gpr reg_rsi), q ∙ further k delta (r.gpr reg_rdi), s ∙ omega arith)

repeating :
    (delta : ℕ) (rep : RepKind) → is_rep rep ≡ true → movs_step delta rep ≡ movs_step delta rep_z
repeating delta rep_none on = absurd (false≢true on)
repeating delta rep_z on = refl
repeating delta rep_nz on = refl

repeated :
    (rep : RepKind) (r : Registers) → is_rep rep ≡ true → rep_iterations rep r ≡ r.gpr reg_rcx
unfolding rep_iterations
repeated rep r on = rw on refl

abbrev pub Finished : {A : Type 0} → ℕ → Engine → A → Engine → Type 0
Finished delta e a e' = Progress (e.regs.gpr reg_rcx) delta e.regs e'.regs

abbrev pub Stopped : ℕ → Engine → Engine → Type 0
Stopped delta e e' = (k : ℕ) × (k < e.regs.gpr reg_rcx) × Progress k delta e.regs e'.regs

taken-progress :
    {A : Type 0} (delta : ℕ) (e : Engine) (r : Outcome A × Engine)
    → AreWords e.regs
    → Ends
        (AllTaken (e.regs.gpr reg_rcx) (movs_step delta rep_z) e.regs)
        (SomeTaken (e.regs.gpr reg_rcx) (movs_step delta rep_z) e.regs)
        r
    → Ends (Finished delta e) (Stopped delta e) r
taken-progress delta e (done a, e') words h = rw h (
    iterate-movs_step (e.regs.gpr reg_rcx) delta e.regs (words _) (words _) (words _) (omega arith))
taken-progress delta e (failed x, e') words (k, below, h) =
    (k, below, rw h (iterate-movs_step k delta e.regs (words _) (words _) (words _) (omega arith)))

-- With 64-bit registers, a REP MOVS that returns has gone on by RCX rounds, as Finished says:
-- RSI and RDI have moved by RCX steps and RCX is 0; one that fails has gone on by some number of
-- rounds below RCX, as Stopped says, with RSI, RDI and RCX those after that many rounds.
pub str_movs-progress :
    (w : ℕ) (rep : RepKind) (e : Engine)
    → is_rep rep ≡ true
    → AreWords e.regs
    → Ends
        (Finished (str_index_delta w e.regs) e)
        (Stopped (str_index_delta w e.regs) e)
        (str_movs w rep e)
unfolding str_movs
str_movs-progress w rep e on words =
    let delta = str_index_delta w e.regs in
    rw (repeated rep e.regs on) (
      taken-progress delta e (rounds (e.regs.gpr reg_rcx) (movs_round w delta rep) e) words (
        rw (sym (repeating delta rep on)) (
          rounds-taken (movs_step delta rep) (movs_round w delta rep) (movs_round-Steps w delta rep)
            (e.regs.gpr reg_rcx) e)))
