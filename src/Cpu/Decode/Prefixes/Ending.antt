-- ===== src/Cpu/Decode/Prefixes/Ending.antt =====
-- The loop over legacy prefixes ends at the first byte that is none.
use golinux.Base.{
  ℕ, zero, suc, ◌+◌, ◌^◌, ◌<◌, ◌≡◌, ◌≢◌, refl, ap, ◌∙◌, sym, none, some, Option-cases, inl, inr,
  List, arith,
}
use golinux.Base.Word.{◌+w◌}
use golinux.Cpu.Memory.{Space, prot_exec}
use golinux.Cpu.Memory.Copy.{Result, ok, err, read_checked, read_checked_into}
use golinux.Cpu.Memory.View.{View, view_of, read_view, IsValid}
use golinux.Cpu.Memory.Reads.{copy_out-eq-read_view}
use golinux.Cpu.Memory.Fast.{read_checked_into-eq-read_checked}
use golinux.Cpu.Memory.Checked.{read_checked-IsValid, read_checked-view}
use golinux.Cpu.Run.{diverged, Outcome, failed, and_then}
use golinux.Cpu.ModRm.{Cursor, first, peeked, peek_byte}
use golinux.Cpu.Decode.Prefixes.{Prefix, note_then, note_prefix, legacy_prefixes}

-- The byte at an address is no legacy prefix, or cannot be fetched.
abbrev pub StopsAt : View → ℕ → Type 0
StopsAt v a =
    (bs : List ℕ)
    → read_view v a 1 prot_exec ≡ ok bs
    → (p : Prefix) → note_prefix (first bs) p ≡ none

one_byte :
    (a : ℕ) (s : Space)
    → IsValid s
    → a < 2 ^ 64
    → (read_checked_into a 1 prot_exec s).0 ≡ read_view (view_of s) a 1 prot_exec
unfolding read_checked
one_byte a s v small =
    ap (λ (r : Result (List ℕ) × Space). r.0) (read_checked_into-eq-read_checked a 1 prot_exec s v)
    ∙ copy_out-eq-read_view 1 a 1 prot_exec s v small (omega arith)

after_byte-IsValid : (a : ℕ) (s : Space) → IsValid s → IsValid (read_checked_into a 1 prot_exec s).1
after_byte-IsValid a s v =
    rw (read_checked_into-eq-read_checked a 1 prot_exec s v)
      (read_checked-IsValid a 1 prot_exec s v)

after_byte-view :
    (a : ℕ) (s : Space) → IsValid s → view_of (read_checked_into a 1 prot_exec s).1 ≡ view_of s
after_byte-view a s v =
    rw (read_checked_into-eq-read_checked a 1 prot_exec s v) (read_checked-view a 1 prot_exec s v)

-- What a round leaves to the rest of the loop.
round :
    (rest : Prefix → Cursor → Outcome Prefix × Cursor) (p : Prefix) (c : Cursor)
    (r : Result (List ℕ) × Space)
    → ((bs : List ℕ) (q : Prefix)
        → r.0 ≡ ok bs
        → note_prefix (first bs) p ≡ some q
        → (rest q
            (record c { engine = record c.engine { space = r.1 }; position = c.position + 1 })).0
          ≢ failed diverged)
    → (and_then (peeked c r) (λ b. note_then rest p (note_prefix b p))).0 ≢ failed diverged
round rest p c (err x, s) f = λ e. cc
round rest p c (ok bs, s) f = elim (Option-cases (note_prefix (first bs) p)) [
  | inl e ↦ rw e (λ h. cc)
  | inr (q, e) ↦ rw e (f bs q refl e)
]

-- In a valid memory, if the byte that lies k after the cursor is no legacy prefix or cannot be
-- fetched, then the loop over the legacy prefixes ends with any fuel above k.
legacy_prefixes-ends :
    (n k : ℕ) (p : Prefix) (c : Cursor)
    → IsValid c.engine.space
    → k < n
    → StopsAt (view_of c.engine.space) ((c.base +w c.position) +w k)
    → (legacy_prefixes n p c).0 ≢ failed diverged
unfolding legacy_prefixes peek_byte
legacy_prefixes-ends zero k p c v less stop = omega arith
legacy_prefixes-ends (suc n) zero p c v less stop =
    let a : ℕ = c.base +w c.position in
    let s : Space = c.engine.space in
    let same : a +w 0 ≡ a = omega arith in
    round (λ q. legacy_prefixes n q) p c (read_checked_into a 1 prot_exec s)
      λ bs q read noted.
        let seen : read_view (view_of s) (a +w 0) 1 prot_exec ≡ ok bs =
          ap (λ (x : ℕ). read_view (view_of s) x 1 prot_exec) same
          ∙ sym (one_byte a s v (omega arith))
          ∙ read in
        let none_noted = stop bs seen p in λ h. cc
legacy_prefixes-ends (suc n) (suc k) p c v less stop =
    let a : ℕ = c.base +w c.position in
    let s : Space = c.engine.space in
    let next : a +w suc k ≡ (c.base +w (c.position + 1)) +w k = omega arith in
    round (λ q. legacy_prefixes n q) p c (read_checked_into a 1 prot_exec s)
      λ bs q read noted.
        legacy_prefixes-ends n k q
          (record c {
            engine = record c.engine { space = (read_checked_into a 1 prot_exec s).1 };
            position = c.position + 1;
          })
          (after_byte-IsValid a s v) (omega arith)
          λ cs e. stop cs (
            ap (λ (x : ℕ). read_view (view_of s) x 1 prot_exec) next
            ∙ ap (λ (w : View). read_view w ((c.base +w (c.position + 1)) +w k) 1 prot_exec)
                (sym (after_byte-view a s v))
            ∙ e)
