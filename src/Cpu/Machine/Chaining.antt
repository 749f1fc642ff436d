-- ===== src/Cpu/Machine/Chaining.antt =====
-- The loop over a block's instructions, and executeBlock from block to block.
use golinux.Base.{
  ℕ, ◌+◌, ◌^◌, ◌<◌, ◌≡◌, refl, sym, ap, ◌∙◌, Bool, true, false, ◌||◌, ◌==◌, Option, none, some,
  List, [], ◌∷◌, arith, Bool-cases, inl, inr,
}
use golinux.Base.Word.{◌+w◌}
use golinux.Cpu.Memory.View.{IsValid}
use golinux.Cpu.Run.{Outcome, done, failed}
use golinux.Cpu.Registers.{Registers}
use golinux.Cpu.Decode.{Extensions}
use golinux.Cpu.Decode.Reading.{ExtensionsRead}
use golinux.Cpu.Decode.BlockEnds.{ExtensionsEnd}
use golinux.Cpu.Machine.{Block, Machine, run_code, note_trace, refresh}
use golinux.Cpu.Machine.Blocks.{insn_id, cached_block_at}
use golinux.Cpu.Machine.Loop.{
  Hooks, Ended, finished, completed, chained, at_until, trace_unless, after_branch, after_clean,
  after_run, run_block,
}
use golinux.Cpu.Machine.Current.{Current}
use golinux.Cpu.Machine.Coherent.{LeadsOn, Chain, Coherent, Chain-Onward, BlockCurrent-Onward}
use golinux.Cpu.Machine.Compile.{Idle, Idle-refl, Ready, AtBlock, cached_block_at-AtBlock}
use golinux.Cpu.Machine.Steps.{Follows, Follows-refl, Follows-trans}
use golinux.Cpu.Machine.Running.{Ran, run_code-Ran, Refreshed, refresh-Refreshed}
use golinux.Cpu.Machine.BlockRun.{
  note_trace-Idle, note_trace-Coherent, run_code-rip, run_code-branched, BlockRun, run_from,
  Idle-Follows, ended,
}

module _ (ext : Extensions) (fuel : ℕ) (reads : ExtensionsRead ext) (ends : ExtensionsEnd ext)
    (hooks : Hooks) where
  -- A later state of one generation, with no change of code to be noticed.
  record Reached (m n : Machine) : Type 0 where
    coherent : Coherent ext fuel n
    clean : n.core.space.code_dirty ≡ false
    follows : Follows ext fuel hooks m n
    generation : n.generation ≡ m.generation
    stop_requested : n.stop_requested ≡ m.stop_requested

  Reached-run :
      {m n : Machine} {r : Outcome Ended × Machine}
      → Reached m n
      → BlockRun ext fuel reads ends hooks n r
      → BlockRun ext fuel reads ends hooks m r
  Reached-run {m} {n} {r} p b =
      run_from ext fuel reads ends hooks m n r p.follows p.generation p.stop_requested b

  Reached-Idle : {m n o : Machine} → Reached m n → Idle n o → Coherent ext fuel o → Reached m o
  Reached-Idle {m} {n} {o} p i c = record {
    coherent = c;
    clean = i.space.same_dirty ∙ p.clean;
    follows = Follows-trans ext fuel hooks p.follows (Idle-Follows ext fuel reads ends hooks n o i);
    generation = i.generation ∙ p.generation;
    stop_requested = i.stop_requested ∙ p.stop_requested;
  }

  traced : {m n : Machine} (pc : ℕ) → Reached m n → Reached m (note_trace pc n)
  traced {m} {n} pc p =
      Reached-Idle p (note_trace-Idle pc n p.coherent.valid)
        (note_trace-Coherent ext fuel reads ends hooks pc n p.coherent)

  stops_at : {m n : Machine} → Reached m n → BlockRun ext fuel reads ends hooks m (done finished, n)
  stops_at {m} {n} p =
      Reached-run p (ended ext fuel reads ends hooks n p.coherent (done finished) tt)

  -- The rest of a block does its part where the block leads to it.
  abbrev Continues : ℕ → List ℕ → (Machine → Outcome Ended × Machine) → Type 0
  Continues pc ds rest =
      (n : Machine)
      → Coherent ext fuel n
      → n.core.space.code_dirty ≡ false
      → Chain ext fuel n pc ds
      → n.core.regs.rip ≡ pc
      → n.generation + 1 < 2 ^ 64
      → BlockRun ext fuel reads ends hooks n (rest n)

  -- With no instruction left, the loop is done wherever rip is.
  abbrev Completes : List ℕ → (Machine → Outcome Ended × Machine) → Type 0
  Completes ds rest = ds ≡ [] → (n : Machine) → rest n ≡ (done completed, n)

  pub Ready-traced :
      (pc : ℕ) (n : Machine) (b : Block)
      → IsValid n.core.space
      → Ready ext fuel reads ends n b
      → Ready ext fuel reads ends (note_trace pc n) b
  Ready-traced pc n b v r =
      let i = note_trace-Idle pc n v in
      record {
        current =
            BlockCurrent-Onward ext fuel reads n (note_trace pc n) b v i.onward i.generation
              r.current;
        now = r.now ∙ sym i.generation;
      }

  branched :
      (until : ℕ) (m n : Machine) (rest : Machine → Outcome Ended × Machine)
      (r : Option Block × Machine)
      → Reached m n
      → ((o : Machine) → rest o ≡ (done completed, o))
      → AtBlock ext fuel reads ends n n.core.regs.rip r
      → BlockRun ext fuel reads ends hooks m (after_branch until rest r)
  branched until m n rest (none, o) p completes a = stops_at (Reached-Idle p a.idle a.coherent)
  branched until m n rest (some b, o) p completes a =
      let q = traced o.core.regs.rip (Reached-Idle p a.idle a.coherent) in
      let o' = note_trace o.core.regs.rip o in
      elim (Bool-cases (until == 0)) [
        | inl free ↦
            rw (free, completes o')
              (Reached-run q
                (ended ext fuel reads ends hooks o' q.coherent (done completed) (q.clean, refl)))
        | inr bound ↦ rw bound (
            Reached-run q (
              ended ext fuel reads ends hooks o' q.coherent (done (chained b)) (
                q.clean,
                refl,
                Ready-traced o.core.regs.rip o b a.coherent.valid (a.ready b refl).0,
              )))
      ]

  -- After the check for changed code.
  checked :
      (until pc : ℕ) (ds : List ℕ) (m n : Machine) (rest : Machine → Outcome Ended × Machine)
      (b : Bool) (r : Bool × Machine)
      → Follows ext fuel hooks m n
      → n.generation ≡ m.generation
      → n.stop_requested ≡ m.stop_requested
      → Coherent ext fuel n
      → Refreshed ext fuel reads ends hooks n r
      → Chain ext fuel n pc ds
      → (b ≡ false → n.core.regs.rip ≡ pc)
      → (b ≡ true → ds ≡ [])
      → n.generation + 1 < 2 ^ 64
      → Continues pc ds rest
      → Completes ds rest
      → BlockRun ext fuel reads ends hooks m (after_clean until rest b r)
  checked until pc ds m n rest b (true, o) s g stop c f chain rip last room go completes = record {
    coherent = f.coherent;
    follows = Follows-trans ext fuel hooks s f.follows;
    generation = omega (arith, f.generation, g);
    stop_requested = f.same_stop ∙ stop;
    goes = tt;
  }
  checked until pc ds m n rest false (false, o) s g stop c f chain rip last room go completes =
      let (on, blocks) = f.unchanged refl in
      let same = blocks.generation in
      Reached-run
        (record {
          coherent = f.coherent;
          clean = f.clean;
          follows = Follows-trans ext fuel hooks s f.follows;
          generation = same ∙ g;
          stop_requested = f.same_stop ∙ stop;
        })
        (go o f.coherent f.clean (Chain-Onward ext fuel reads n o pc ds c.valid on chain)
          (ap (λ (r : Registers). r.rip) f.same_regs ∙ rip refl) (omega (arith, same, room)))
  checked until pc ds m n rest true (false, o) s g stop c f chain rip last room go completes =
      let (on, blocks) = f.unchanged refl in
      let p : Reached m o = record {
        coherent = f.coherent;
        clean = f.clean;
        follows = Follows-trans ext fuel hooks s f.follows;
        generation = blocks.generation ∙ g;
        stop_requested = f.same_stop ∙ stop;
      } in
      elim (Bool-cases (at_until until o)) [
        | inl arrived ↦ rw arrived (stops_at p)
        | inr away ↦ rw away (
            branched until m o rest (cached_block_at o.core.regs.rip o) p (completes (last refl))
              (cached_block_at-AtBlock ext fuel reads ends o.core.regs.rip o f.coherent))
      ]

  -- A branch is the last instruction of its block.
  branch_last :
      (ds : List ℕ) (pc d : ℕ) (m n : Machine)
      → LeadsOn ds (m.code d)
      → Current ext fuel m pc d
      → run_code pc d m ≡ (done true, n)
      → ds ≡ []
  branch_last [] pc d m n leads c h = refl
  branch_last (x ∷ xs) pc d m n leads c h = absurd (c.ends leads _ _ (run_code-branched pc d m n h))

  Ran-at :
      (pc d : ℕ) (m n : Machine) (o : Outcome Bool)
      → Coherent ext fuel m
      → m.core.space.code_dirty ≡ false
      → m.core.regs.rip ≡ pc
      → Current ext fuel m pc d
      → insn_id (m.code d).decoded.instruction ≡ none
      → run_code pc d m ≡ (o, n)
      → Ran ext fuel reads ends hooks m n
  Ran-at pc d m n o c clean rip current plain h =
      rw (ap (λ (r : Outcome Bool × Machine). r.1) h) at
        (run_code-Ran ext fuel reads ends hooks pc d m c clean rip current plain)

  -- One instruction of a block, from the state `n` that `m` has reached.
  stepped :
      (until pc d : ℕ) (ds : List ℕ) (m n : Machine) (rest : Machine → Outcome Ended × Machine)
      (r : Outcome Bool × Machine)
      → Reached m n
      → Chain ext fuel n pc (d ∷ ds)
      → n.core.regs.rip ≡ pc
      → n.generation + 1 < 2 ^ 64
      → Continues (pc +w (n.code d).len) ds rest
      → Completes ds rest
      → run_code pc d n ≡ r
      → BlockRun ext fuel reads ends hooks m (after_run until rest r)
  stepped until pc d ds m n rest (failed x, o) p (current, plain, leads, chain) rip room go
        completes h =
      let ran = Ran-at pc d n o (failed x) p.coherent p.clean rip current plain h in
      record {
        coherent = ran.coherent;
        follows = Follows-trans ext fuel hooks p.follows ran.follows;
        generation = omega (arith, ran.blocks.generation, p.generation);
        stop_requested = ran.blocks.stop_requested ∙ p.stop_requested;
        goes = tt;
      }
  stepped until pc d ds m n rest (done b, o) p (current, plain, leads, chain) rip room go completes
        h =
      let ran = Ran-at pc d n o (done b) p.coherent p.clean rip current plain h in
      let pc' = pc +w (n.code d).len in
      checked until pc' ds m o rest b (refresh o)
        (Follows-trans ext fuel hooks p.follows ran.follows) (ran.blocks.generation ∙ p.generation)
        (ran.blocks.stop_requested ∙ p.stop_requested) ran.coherent
        (refresh-Refreshed ext fuel reads ends hooks o ran.coherent
          (omega (arith, ran.blocks.generation, room)))
        (Chain-Onward ext fuel reads n o pc' ds p.coherent.valid ran.onward chain)
        (λ e. run_code-rip pc d n o (h ∙ ap (λ (c : Bool). (done c, o)) e))
        (λ e. branch_last ds pc d n o leads current (h ∙ ap (λ (c : Bool). (done c, o)) e))
        (omega (arith, ran.blocks.generation, room)) go completes

  traced_unless :
      (first : Bool) (pc : ℕ) {m n : Machine} → Reached m n → Reached m (trace_unless first pc n)
  traced_unless true pc p = p
  traced_unless false pc p = traced pc p

  unless_Idle :
      (first : Bool) (pc : ℕ) (m : Machine)
      → IsValid m.core.space
      → Idle m (trace_unless first pc m)
  unless_Idle true pc m v = Idle-refl m v
  unless_Idle false pc m v = note_trace-Idle pc m v

  start_here : (m : Machine) → Coherent ext fuel m → m.core.space.code_dirty ≡ false → Reached m m
  start_here m c clean = record {
    coherent = c;
    clean = clean;
    follows = Follows-refl ext fuel hooks;
    generation = refl;
    stop_requested = refl;
  }

  nothing_left : (until pc : ℕ) (ds : List ℕ) → Completes ds (run_block until false pc ds)
  unfolding run_block
  nothing_left until pc [] e n = refl
  nothing_left until pc (d ∷ ds) e n = cc

  -- The loop over the instructions of a block.
  pub run_block-BlockRun :
      (until : ℕ) (first : Bool) (pc : ℕ) (ds : List ℕ) (m : Machine)
      → Coherent ext fuel m
      → m.core.space.code_dirty ≡ false
      → Chain ext fuel m pc ds
      → m.core.regs.rip ≡ pc
      → m.generation + 1 < 2 ^ 64
      → BlockRun ext fuel reads ends hooks m (run_block until first pc ds m)
  unfolding run_block
  run_block-BlockRun until first pc [] m c clean chain rip room =
      ended ext fuel reads ends hooks m c (done completed) (clean, refl)
  run_block-BlockRun until first pc (d ∷ ds) m c clean chain rip room =
      elim (Bool-cases (m.stop_requested || at_until until m)) [
        | inl stop ↦ rw stop (stops_at (start_here m c clean))
        | inr go ↦
            let n = trace_unless first pc m in
            let i = unless_Idle first pc m c.valid in
            let p = traced_unless first pc (start_here m c clean) in
            let same_len = (i.onward.code d chain.0.below).same_len in
            let pc' = pc +w (m.code d).len in
            rw go (
              stepped until pc d ds m n (run_block until false pc' ds) (run_code pc d n) p
                (Chain-Onward ext fuel reads m n pc (d ∷ ds) c.valid i.onward chain)
                (ap (λ (r : Registers). r.rip) i.same_regs ∙ rip)
                (omega (arith, i.generation, room))
                (continues until (pc +w (n.code d).len) pc' ds (ap (λ (k : ℕ). pc +w k) same_len)
                  (λ o c' clean' chain' rip' room'.
                    run_block-BlockRun until false pc' ds o c' clean' chain' rip' room'))
                (nothing_left until pc' ds) refl)
      ]
    where
      continues :
          (until pc₁ pc₂ : ℕ) (ds : List ℕ)
          → pc₁ ≡ pc₂
          → Continues pc₂ ds (run_block until false pc₂ ds)
          → Continues pc₁ ds (run_block until false pc₂ ds)
      continues until pc₁ pc₂ ds same k n c clean chain rip room =
          k n c clean (rw same at chain) (rip ∙ same) room
