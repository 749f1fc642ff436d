-- ===== src/Fds/Processes.antt =====
-- All processes whose tables share one `fileRefs`, and the steps that the system calls take on them.
use golinux.Base.{
  ℕ, ◌+◌, ◌-◌, ◌^◌, ◌<◌, ◌≡◌, ◌≢◌, refl, Bool, false, none, some, List, ◌∷◌, ◌++◌, arith,
  Option-cases, inl, inr, ◌==◌, Bool-cases,
}
use golinux.Base.Map.{find}
use golinux.Fds.{
  FileRefs, Table, set_cloexec, alloc, dup, dup2, raise_next, close, close_on_exec, close_all,
  clone,
}
use golinux.Fds.Counts.{IsCounted, has, open-not_closed, close-IsCounted}
use golinux.Fds.Closing.{close_on_exec-IsCounted}
use golinux.Fds.Dup.{HasRoom, raise_next-entries, alloc_lem, dup2_lem}
use golinux.Fds.Room.{close-HasRoom, close_on_exec-HasRoom, dup2-HasRoom}

pub record System : Type 0 where
  pub tables : List Table
  pub refs : FileRefs

-- A call of one process on its table.
pub data Call (t : Table) (r : FileRefs) : Table → FileRefs → Type 0 where
  opens :
      (f : ℕ)
      → has f r.closed ≡ false
      → t.next + 1 < 2 ^ 63
      → Call t r (alloc f t r).1 (alloc f t r).2
  dups : (oldfd : ℕ) → t.next + 1 < 2 ^ 63 → Call t r (dup oldfd t r).1 (dup oldfd t r).2
  dups_onto :
      (oldfd newfd : ℕ)
      → newfd < 2 ^ 64
      → newfd ≢ 2 ^ 63 - 1
      → Call t r (dup2 oldfd newfd t r).1 (dup2 oldfd newfd t r).2
  closes : (fd : ℕ) → Call t r (close fd t r).1 (close fd t r).2
  marks : (fd : ℕ) (val : Bool) → Call t r (set_cloexec fd val t) r
  execs : Call t r (close_on_exec t r).0 (close_on_exec t r).1

-- What a call keeps, with the references of all other tables in `others`.
pub record Sound (others : ℕ → ℕ) (t : Table) (r : FileRefs) : Type 0 where
  pub counts : IsCounted others t r
  pub room : HasRoom t

dup-open :
    (oldfd f : ℕ) (t : Table) (r : FileRefs)
    → find oldfd t.entries ≡ some f
    → dup oldfd t r ≡ (some (alloc f t r).0, (alloc f t r).1, (alloc f t r).2)
unfolding dup
dup-open oldfd f t r e = rw (e, dup) refl

dup-shut :
    (oldfd : ℕ) (t : Table) (r : FileRefs)
    → find oldfd t.entries ≡ none
    → dup oldfd t r ≡ (none, t, r)
unfolding dup
dup-shut oldfd t r e = rw (e, dup) refl

alloc-Sound :
    (others : ℕ → ℕ) (t : Table) (r : FileRefs) (f : ℕ)
    → Sound others t r
    → has f r.closed ≡ false
    → t.next + 1 < 2 ^ 63
    → Sound others (alloc f t r).1 (alloc f t r).2
alloc-Sound others t r f s alive more =
    let (free, got, counts, room) = alloc_lem others t r f 0 s.counts s.room more alive in
    record { counts = counts; room = room }

entries-IsCounted :
    (others : ℕ → ℕ) (t t' : Table) (r : FileRefs)
    → IsCounted others t r
    → t'.entries ≡ t.entries
    → IsCounted others t' r
entries-IsCounted others t t' r c e = record {
  unique = rw e c.unique;
  counted = λ f. rw e (c.counted f);
  gone = c.gone;
}

dup2-IsCounted :
    (others : ℕ → ℕ) (oldfd newfd : ℕ) (t : Table) (r : FileRefs)
    → IsCounted others t r
    → IsCounted others (dup2 oldfd newfd t r).1 (dup2 oldfd newfd t r).2
unfolding dup2
dup2-IsCounted others oldfd newfd t r c = elim (Option-cases (find oldfd t.entries)) [
  | inl e ↦ rw (e, dup2) c
  | inr (f, e) ↦ elim (Bool-cases (newfd == oldfd)) [
    | inl same ↦
        rw (e, same, dup2)
          (entries-IsCounted others t (raise_next newfd t) r c (raise_next-entries newfd t))
    | inr differ ↦ (dup2_lem others t r oldfd newfd f 0 c e (ground arith)).2
  ]
]

pub Call-Sound :
    (others : ℕ → ℕ) (t : Table) (r : FileRefs) {t' : Table} {r' : FileRefs}
    → Call t r t' r'
    → Sound others t r
    → Sound others t' r'
Call-Sound others t r (opens f alive more) s = alloc-Sound others t r f s alive more
Call-Sound others t r (dups oldfd more) s = elim (Option-cases (find oldfd t.entries)) [
  | inl e ↦ rw (dup-shut oldfd t r e) s
  | inr (f, e) ↦
      rw (dup-open oldfd f t r e)
        (alloc-Sound others t r f s (open-not_closed others t r oldfd f s.counts e) more)
]
Call-Sound others t r (dups_onto oldfd newfd word fits) s = record {
  counts = dup2-IsCounted others oldfd newfd t r s.counts;
  room = dup2-HasRoom oldfd newfd t r word fits s.room;
}
Call-Sound others t r (closes fd) s = record {
  counts = close-IsCounted others t r fd s.counts;
  room = close-HasRoom fd t r s.room;
}
Call-Sound others t r (marks fd val) s = record {
  counts = record { unique = s.counts.unique; counted = s.counts.counted; gone = s.counts.gone };
  room = record { small = s.room.small; above = s.room.above };
}
Call-Sound others t r execs s = record {
  counts = close_on_exec-IsCounted others t r s.counts;
  room = close_on_exec-HasRoom t r s.room;
}

-- A step of the system: a call of one process, a fork, or an exit.
pub data Step (s : System) : System → Type 0 where
  calls :
      (before after : List Table) (t : Table) {t' : Table} {r' : FileRefs}
      → s.tables ≡ before ++ (t ∷ after)
      → Call t s.refs t' r'
      → Step s (record { tables = before ++ (t' ∷ after); refs = r' })
  forks :
      (before after : List Table) (t : Table)
      → s.tables ≡ before ++ (t ∷ after)
      → Step s (record {
        tables = before ++ (t ∷ (clone t s.refs).0 ∷ after);
        refs = (clone t s.refs).1;
      })
  exits :
      (before after : List Table) (t : Table)
      → s.tables ≡ before ++ (t ∷ after)
      → Step s (record { tables = before ++ after; refs = (close_all t s.refs).1 })

pub data Reachable (s : System) : System → Type 0 where
  start : Reachable s s
  next : {s' s'' : System} → Reachable s s' → Step s' s'' → Reachable s s''
