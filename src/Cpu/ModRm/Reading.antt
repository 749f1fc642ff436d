-- ===== src/Cpu/ModRm/Reading.antt =====
-- Decoders: what they change, and what their result depends on. One rule for each way to build one.
use golinux.Base.{
  ℕ, zero, suc, ◌+◌, ◌≡◌, ◌≢◌, refl, ap, ◌∙◌, sym, Bool, true, false, if◌then◌else◌, List, arith,
  Bool-cases, Option-cases, inl, inr,
}
use golinux.Base.Word.{◌+w◌}
use golinux.Cpu.Memory.{Space, Fault, prot_exec}
use golinux.Cpu.Memory.Copy.{Result, ok, err, allowed, read_checked, read_checked_into}
use golinux.Cpu.Memory.View.{View, view_of, read_view, IsValid}
use golinux.Cpu.Memory.Reads.{copy_out-eq-read_view}
use golinux.Cpu.Memory.Dirty.{executable}
use golinux.Cpu.Memory.Fast.{read_checked_into-eq-read_checked}
use golinux.Cpu.Memory.Checked.{cons_ok-inv}
use golinux.Cpu.Memory.Kept.{
  SameCode, SameCode-trans, SameCode-eq, Untouched, Untouched-refl, Untouched-trans,
  read_checked_into-Untouched,
}
use golinux.Cpu.Run.{Failure, Outcome, done, failed, Run, and_then, ◌>>=◌, return, fail, get}
use golinux.Cpu.ModRm.{Cursor, with_space, first, fetched, peeked, fetch, peek_byte}

-- The bytes that may be fetched from one view are the same in another with the same code.
read_view-SameCode :
    (v w : View) (a n : ℕ) (bs : List ℕ)
    → SameCode v w
    → read_view v a n prot_exec ≡ ok bs
    → read_view w a n prot_exec ≡ ok bs
unfolding read_view allowed
read_view-SameCode v w a zero bs same h = h
read_view-SameCode v w a (suc n) bs same h = elim (Option-cases (v a)) [
  | inl e ↦ ground arith
  | inr (c, e) ↦ elim (Bool-cases (executable c)) [
    | inl exec ↦
        let there = same.cell a c e exec in
        let (ys, rest, split) =
          cons_ok-inv c.byte (read_view v (a +w 1) n prot_exec) bs (ground arith) in
        let below = read_view-SameCode v w (a +w 1) n ys same rest in ground arith
    | inr plain ↦ ground arith
  ]
]

-- What a decoder may change: the page looked up last, and its position.
pub record Quiet (c c₁ : Cursor) : Type 0 where
  pub space : Untouched c.engine.space c₁.engine.space
  pub same_base : c₁.base ≡ c.base
  pub same_regs : c₁.engine.regs ≡ c.engine.regs
  pub same_end : c₁.engine.cur_instr_end ≡ c.engine.cur_instr_end

-- Two cursors at one address, where the code of the first memory is there in the second.
pub record Similar (c c' : Cursor) : Type 0 where
  pub valid : IsValid c.engine.space
  pub valid' : IsValid c'.engine.space
  pub same_base : c'.base ≡ c.base
  pub same_position : c'.position ≡ c.position
  pub code : SameCode (view_of c.engine.space) (view_of c'.engine.space)

abbrev pub Follows : {A : Type 0} → Cursor → A → Outcome A × Cursor → Type 0
Follows c₁ a r = (c₁' : Cursor) × (r ≡ (done a, c₁')) × Similar c₁ c₁'

pub record Reads {A : Type 0} (m : Run Cursor A) : Type 0 where
  pub quiet : (c : Cursor) → IsValid c.engine.space → Quiet c (m c).1
  pub stable :
      (c c' : Cursor) (a : A) (c₁ : Cursor)
      → Similar c c'
      → m c ≡ (done a, c₁)
      → Follows c₁ a (m c')

Quiet-refl : (c : Cursor) → IsValid c.engine.space → Quiet c c
Quiet-refl c v = record {
  space = Untouched-refl c.engine.space v;
  same_base = refl;
  same_regs = refl;
  same_end = refl;
}

Quiet-trans : {c d f : Cursor} → Quiet c d → Quiet d f → Quiet c f
Quiet-trans p q = record {
  space = Untouched-trans p.space q.space;
  same_base = q.same_base ∙ p.same_base;
  same_regs = q.same_regs ∙ p.same_regs;
  same_end = q.same_end ∙ p.same_end;
}

module _ {A : Type 0} where
  pub Reads-return : (a : A) → Reads {A = A} (return a)
  Reads-return a = record {
    quiet = λ c v. Quiet-refl c v;
    stable = λ c c' b c₁ s e. (c', cc, ground (arith, s));
  }

  pub Reads-position : (f : ℕ → A) → Reads {A = A} (get >>= λ c. return (f c.position))
  Reads-position f = record {
    quiet = λ c v. Quiet-refl c v;
    stable = λ c c' b c₁ s e.
        let value : f c.position ≡ b = cc in
        let end : c ≡ c₁ = cc in
        (
          c',
          ap (λ (n : ℕ). (done (f n), c')) s.same_position ∙ ap (λ (x : A). (done x, c')) value,
          rw (sym end) s,
        );
  }

  pub Reads-fail : (x : Failure) → Reads {A = A} (fail x)
  Reads-fail x = record { quiet = λ c v. Quiet-refl c v; stable = λ c c' b c₁ s e. cc }

  pub Reads-if : (b : Bool) (m n : Run Cursor A) → Reads m → Reads n → Reads (if b then m else n)
  Reads-if true m n p q = p
  Reads-if false m n p q = q

module _ {A B : Type 0} where
  pub bind_quiet :
      (c : Cursor) (r : Outcome A × Cursor) (f : A → Run Cursor B)
      → Quiet c r.1
      → ((a : A) → Reads (f a))
      → Quiet c (and_then r f).1
  bind_quiet c (done a, d) f k p = Quiet-trans k ((p a).quiet d k.space.valid)
  bind_quiet c (failed x, d) f k p = k

  pub bind-inv :
      (r : Outcome A × Cursor) (f : A → Run Cursor B) (b : B) (c₁ : Cursor)
      → and_then r f ≡ (done b, c₁)
      → (a : A) × (d : Cursor) × (r ≡ (done a, d)) × (f a d ≡ (done b, c₁))
  bind-inv (done a, d) f b c₁ h = (a, d, refl, h)
  bind-inv (failed x, d) f b c₁ h = cc

  pub Reads-bind :
      (m : Run Cursor A) (f : A → Run Cursor B)
      → Reads m
      → ((a : A) → Reads (f a))
      → Reads (m >>= f)
  Reads-bind m f p q = record {
    quiet = λ c v. bind_quiet c (m c) f (p.quiet c v) q;
    stable = λ c c' b c₁ s e.
        let (a, d, first_part, rest) = bind-inv (m c) f b c₁ e in
        let (d', there, similar) = p.stable c c' a d s first_part in
        let (c₁', after, same) = (q a).stable d d' b c₁ similar rest in
        (c₁', ap (λ (r : Outcome A × Cursor). and_then r f) there ∙ after, same);
  }

-- Where the next byte of a cursor stands.
abbrev pub next_address : Cursor → ℕ
next_address c = c.base +w c.position

pub code_read : (c : Cursor) → ℕ → Result (List ℕ) × Space
code_read c n = read_checked_into (next_address c) n prot_exec c.engine.space

pub code_read-eq-read_view :
    (c : Cursor) (n : ℕ)
    → IsValid c.engine.space
    → (code_read c n).0 ≡ read_view (view_of c.engine.space) (next_address c) n prot_exec
unfolding code_read read_checked
code_read-eq-read_view c n v =
    let a : ℕ = next_address c in
    ap (λ (r : Result (List ℕ) × Space). r.0)
      (read_checked_into-eq-read_checked a n prot_exec c.engine.space v)
    ∙ copy_out-eq-read_view n a n prot_exec c.engine.space v (omega arith) (omega arith)

code_read-Untouched :
    (c : Cursor) (n : ℕ) → IsValid c.engine.space → Untouched c.engine.space (code_read c n).1
unfolding code_read
code_read-Untouched c n v =
    read_checked_into-Untouched (next_address c) n prot_exec c.engine.space v

-- What one cursor fetches, a similar one fetches.
code_read-Similar :
    (c c' : Cursor) (n : ℕ) (bs : List ℕ)
    → Similar c c'
    → (code_read c n).0 ≡ ok bs
    → (code_read c' n).0 ≡ ok bs
code_read-Similar c c' n bs s h =
    let here : read_view (view_of c.engine.space) (next_address c) n prot_exec ≡ ok bs =
      sym (code_read-eq-read_view c n s.valid) ∙ h in
    let there =
      read_view-SameCode (view_of c.engine.space) (view_of c'.engine.space) (next_address c) n bs
        s.code here in
    code_read-eq-read_view c' n s.valid'
    ∙ ap (λ (a : ℕ). read_view (view_of c'.engine.space) a n prot_exec)
        (ap (λ (b : ℕ). b +w c'.position) s.same_base ∙ ap (λ (p : ℕ). c.base +w p) s.same_position)
    ∙ there

moved_quiet :
    (c : Cursor) (p : ℕ) (s : Space)
    → Untouched c.engine.space s
    → Quiet c (record (with_space c s) { position = p })
moved_quiet c p s u = record { space = u; same_base = refl; same_regs = refl; same_end = refl }

moved-Similar :
    (c c' : Cursor) (p : ℕ) (s s' : Space)
    → Similar c c'
    → Untouched c.engine.space s
    → Untouched c'.engine.space s'
    → Similar
        (record (with_space c s) { position = p })
        (record (with_space c' s') { position = p })
moved-Similar c c' p s s' m u u' = record {
  valid = u.valid;
  valid' = u'.valid;
  same_base = m.same_base;
  same_position = refl;
  code =
      SameCode-trans (SameCode-eq (sym u.same_view))
        (SameCode-trans m.code (SameCode-eq u'.same_view));
}

moved-Similar_here :
    (c c' : Cursor) (s s' : Space)
    → Similar c c'
    → Untouched c.engine.space s
    → Untouched c'.engine.space s'
    → Similar (with_space c s) (with_space c' s')
moved-Similar_here c c' s s' m u u' = record {
  valid = u.valid;
  valid' = u'.valid;
  same_base = m.same_base;
  same_position = m.same_position;
  code =
      SameCode-trans (SameCode-eq (sym u.same_view))
        (SameCode-trans m.code (SameCode-eq u'.same_view));
}

fetched_quiet :
    (c : Cursor) (n : ℕ) (r : Result (List ℕ) × Space)
    → Untouched c.engine.space r.1
    → Quiet c (fetched c n r).1
fetched_quiet c n (ok bs, s) u = moved_quiet c (c.position + n) s u
fetched_quiet c n (err x, s) u = moved_quiet c c.position s u

fetched-Follows :
    (c c' c₁ : Cursor) (n : ℕ) (bs : List ℕ) (r r' : Result (List ℕ) × Space)
    → Similar c c'
    → Untouched c.engine.space r.1
    → Untouched c'.engine.space r'.1
    → ((cs : List ℕ) → r.0 ≡ ok cs → r'.0 ≡ ok cs)
    → fetched c n r ≡ (done bs, c₁)
    → Follows c₁ bs (fetched c' n r')
fetched-Follows c c' c₁ n bs (err x, s) r' m u u' same h = cc
fetched-Follows c c' c₁ n bs (ok cs, s) (ok ds, s') m u u' same h =
    let e : ds ≡ bs = cc (same cs refl) in
    let end : c₁ ≡ record (with_space c s) { position = c.position + n } = cc in
    (
      record (with_space c' s') { position = c'.position + n },
      ap (λ (xs : List ℕ). (done xs, record (with_space c' s') { position = c'.position + n })) e,
      rw (end, m.same_position) (moved-Similar c c' (c.position + n) s s' m u u'),
    )
fetched-Follows c c' c₁ n bs (ok cs, s) (err x, s') m u u' same h = cc (same cs refl)

pub Reads-fetch : (n : ℕ) → Reads (fetch n)
unfolding fetch code_read
Reads-fetch n = record {
  quiet = λ c v. fetched_quiet c n (code_read c n) (code_read-Untouched c n v);
  stable = λ c c' bs c₁ s e.
      fetched-Follows c c' c₁ n bs (code_read c n) (code_read c' n) s
        (code_read-Untouched c n s.valid) (code_read-Untouched c' n s.valid')
        (λ cs. code_read-Similar c c' n cs s) e;
}

-- A byte that can be fetched, and the outcome of a look at it.
peeked_quiet :
    (c : Cursor) (r : Result (List ℕ) × Space)
    → Untouched c.engine.space r.1
    → Quiet c (peeked c r).1
peeked_quiet c (ok bs, s) u = moved_quiet c c.position s u
peeked_quiet c (err x, s) u = moved_quiet c c.position s u

pub peek_byte-Quiet : (c : Cursor) → IsValid c.engine.space → Quiet c (peek_byte c).1
unfolding peek_byte code_read
peek_byte-Quiet c v = peeked_quiet c (code_read c 1) (code_read-Untouched c 1 v)

peeked-Follows :
    (c c' c₁ : Cursor) (b : ℕ) (r r' : Result (List ℕ) × Space)
    → Similar c c'
    → Untouched c.engine.space r.1
    → Untouched c'.engine.space r'.1
    → ((cs : List ℕ) → r.0 ≡ ok cs → r'.0 ≡ ok cs)
    → peeked c r ≡ (done b, c₁)
    → Follows c₁ b (peeked c' r')
peeked-Follows c c' c₁ b (err x, s) r' m u u' same h = cc
peeked-Follows c c' c₁ b (ok cs, s) (ok ds, s') m u u' same h =
    let e : ds ≡ cs = cc (same cs refl) in
    let value : first cs ≡ b = cc in
    let end : c₁ ≡ with_space c s = cc in
    (
      with_space c' s',
      ap (λ (x : ℕ). (done x, with_space c' s')) (ap first e ∙ value),
      rw (end) (moved-Similar_here c c' s s' m u u'),
    )
peeked-Follows c c' c₁ b (ok cs, s) (err x, s') m u u' same h = cc (same cs refl)

pub Reads-peek_byte : Reads peek_byte
unfolding peek_byte code_read
Reads-peek_byte = record {
  quiet = λ c v. peeked_quiet c (code_read c 1) (code_read-Untouched c 1 v);
  stable = λ c c' b c₁ s e.
      peeked-Follows c c' c₁ b (code_read c 1) (code_read c' 1) s (code_read-Untouched c 1 s.valid)
        (code_read-Untouched c' 1 s.valid') (λ cs. code_read-Similar c c' 1 cs s) e;
}

-- A decoder that fails where the next byte cannot be fetched.
pub record NeedsByte {A : Type 0} (m : Run Cursor A) : Type 0 where
  pub fails :
      (c : Cursor) (x : Fault) (a : A) (c₁ : Cursor)
      → IsValid c.engine.space
      → read_view (view_of c.engine.space) (next_address c) 1 prot_exec ≡ err x
      → m c ≢ (done a, c₁)

fetched_nothing :
    (c : Cursor) (r : Result (List ℕ) × Space) (x : Fault) (bs : List ℕ) (c₁ : Cursor)
    → r.0 ≡ err x
    → fetched c 1 r ≢ (done bs, c₁)
fetched_nothing c (ok cs, s) x bs c₁ e = cc
fetched_nothing c (err y, s) x bs c₁ e = λ h. cc

pub NeedsByte-fetch : NeedsByte (fetch 1)
unfolding fetch code_read
NeedsByte-fetch = record {
  fails =
      λ c x bs c₁ v e. fetched_nothing c (code_read c 1) x bs c₁ (code_read-eq-read_view c 1 v ∙ e);
}

-- A look at a byte that cannot be fetched, and what it leaves.
peeked-failed :
    (c d : Cursor) (x : Failure) (r : Result (List ℕ) × Space)
    → Untouched c.engine.space r.1
    → r.0 ≡ read_view (view_of c.engine.space) (next_address c) 1 prot_exec
    → peeked c r ≡ (failed x, d)
    → (y : Fault) × (read_view (view_of d.engine.space) (next_address d) 1 prot_exec ≡ err y)
peeked-failed c d x (ok bs, s) u e h = cc
peeked-failed c d x (err y, s) u e h =
    let end : d ≡ with_space c s = cc in (y, rw (end, u.same_view) (sym e))

pub peek_byte-failed :
    (c d : Cursor) (x : Failure)
    → IsValid c.engine.space
    → peek_byte c ≡ (failed x, d)
    → (y : Fault) × (read_view (view_of d.engine.space) (next_address d) 1 prot_exec ≡ err y)
unfolding peek_byte code_read
peek_byte-failed c d x v h =
    peeked-failed c d x (code_read c 1) (code_read-Untouched c 1 v) (code_read-eq-read_view c 1 v) h

peeked-unread :
    (c d : Cursor) (b : ℕ) (x : Fault) (r : Result (List ℕ) × Space)
    → r.0 ≡ err x
    → peeked c r ≢ (done b, d)
peeked-unread c d b x (ok bs, s) e = cc
peeked-unread c d b x (err y, s) e = λ h. cc

pub NeedsByte-peek_byte : NeedsByte peek_byte
unfolding peek_byte code_read
NeedsByte-peek_byte = record {
  fails = λ c x b c₁ v e. peeked-unread c c₁ b x (code_read c 1) (code_read-eq-read_view c 1 v ∙ e);
}

pub NeedsByte-bind :
    {A B : Type 0} (m : Run Cursor A) (f : A → Run Cursor B) → NeedsByte m → NeedsByte (m >>= f)
NeedsByte-bind m f p = record {
  fails = λ c x b c₁ v e h.
      let (a, d, first_part, rest) = bind-inv (m c) f b c₁ h in p.fails c x a d v e first_part;
}
