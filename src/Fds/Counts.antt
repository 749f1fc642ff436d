-- ===== src/Fds/Counts.antt =====
-- The reference counts against the descriptors that there are.
use golinux.Base.{
  ℕ, ◌+◌, ◌≡◌, refl, Bool, true, false, ◌==◌, ◌||◌, none, some, List, [], ◌∷◌, arith, Bool-cases,
  Option-cases, inl, inr,
}
use golinux.Base.Map.{
  find, put, delete, Unique, put-Unique, delete-Unique, tally, tally-put, tally-delete,
  tally-positive,
}
use golinux.Fds.{FileRefs, Table, incr, decr_and_maybe_close, close}

unfoldable pub has : ℕ → List ℕ → Bool
has f [] = false
has f (g ∷ gs) = (g == f) || has f gs

-- The counts of a table and of the descriptors `others` that lead to a file from other tables; a
-- file that has been closed has no reference left.
pub record IsCounted (others : ℕ → ℕ) (t : Table) (r : FileRefs) : Type 0 where
  pub unique : Unique t.entries
  pub counted : (f : ℕ) → r.counts f ≡ tally f t.entries + others f
  pub gone : (f : ℕ) → has f r.closed ≡ true → r.counts f ≡ 0

-- Where the counts are right, no open descriptor leads to a file that has been closed.
pub open-not_closed :
    (others : ℕ → ℕ) (t : Table) (r : FileRefs) (fd f : ℕ)
    → IsCounted others t r
    → find fd t.entries ≡ some f
    → has f r.closed ≡ false
open-not_closed others t r fd f c here = elim (Bool-cases (has f r.closed)) [
  | inl e ↦ absurd (omega (arith, tally-positive fd f t.entries here, c.counted f, c.gone f e))
  | inr e ↦ e
]

pub put-IsCounted :
    (others : ℕ → ℕ) (t t' : Table) (r : FileRefs) (fd f : ℕ)
    → IsCounted others t r
    → find fd t.entries ≡ none
    → has f r.closed ≡ false
    → t'.entries ≡ put fd f t.entries
    → IsCounted others t' (incr f r)
unfolding incr
put-IsCounted others t t' r fd f c free alive e = record {
  unique = rw e (put-Unique fd f t.entries c.unique);
  counted = λ g. rw e (ground (arith, tally-put g fd f t.entries free, c.counted g));
  gone = λ g closed. ground (arith, c.gone g closed);
}

pub close-open :
    (fd f : ℕ) (t : Table) (r : FileRefs)
    → find fd t.entries ≡ some f
    → close fd t r ≡ (
      true,
      record t { entries = delete fd t.entries; cloexec = delete fd t.cloexec },
      decr_and_maybe_close f r,
    )
unfolding close
close-open fd f t r e = rw (e, close)

pub close-shut :
    (fd : ℕ) (t : Table) (r : FileRefs) → find fd t.entries ≡ none → close fd t r ≡ (false, t, r)
unfolding close
close-shut fd t r e = rw (e, close)

delete-IsCounted :
    (others : ℕ → ℕ) (t t' : Table) (r : FileRefs) (fd f : ℕ)
    → IsCounted others t r
    → find fd t.entries ≡ some f
    → t'.entries ≡ delete fd t.entries
    → IsCounted others t' (decr_and_maybe_close f r)
unfolding decr_and_maybe_close has
delete-IsCounted others t t' r fd f c here e = record {
  unique = rw e (delete-Unique fd t.entries c.unique);
  counted = λ g. rw e (ground (arith, tally-delete g fd f t.entries c.unique here, c.counted g));
  gone = λ g closed. ground (arith, c.gone g, c.counted f, tally-positive fd f t.entries here);
}

-- Close keeps the counts right, whether the descriptor is open or not.
pub close-IsCounted :
    (others : ℕ → ℕ) (t : Table) (r : FileRefs) (fd : ℕ)
    → IsCounted others t r
    → IsCounted others (close fd t r).1 (close fd t r).2
close-IsCounted others t r fd c = elim (Option-cases (find fd t.entries)) [
  | inl e ↦ rw (close-shut fd t r e) c
  | inr (f, e) ↦ rw (close-open fd f t r e) (delete-IsCounted others t _ r fd f c e refl)
]
