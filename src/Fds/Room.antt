-- ===== src/Fds/Room.antt =====
-- `next` stays above every descriptor in use, under each operation.
use golinux.Base.{
  ℕ, ◌-◌, ◌^◌, ◌<◌, ◌≡◌, ◌≢◌, refl, sym, ◌∙◌, ltb, Bool, true, false, ◌==◌, some, List, [], ◌∷◌,
  arith, Option-cases, Bool-cases, inl, inr,
}
use native.Mathlib.Decide.{ℕ_discrete}
use golinux.Base.Word.{◌+w◌}
use golinux.Base.Map.{find, find-put, find-delete, Unique}
use golinux.Fds.{
  FileRefs, Table, bias, close, close_marked, close_on_exec, raise_next, replace, vacate, dup2,
  clone,
}
use golinux.Fds.Counts.{close-open, close-shut}
use golinux.Fds.Dup.{HasRoom, get-vacate, dup2-open}
use golinux.Fds.Fork.{find-clone}

pub close-HasRoom : (fd : ℕ) (t : Table) (r : FileRefs) → HasRoom t → HasRoom (close fd t r).1
close-HasRoom fd t r h = elim (Option-cases (find fd t.entries)) [
  | inl e ↦ rw (close-shut fd t r e) h
  | inr (f, e) ↦ rw (close-open fd f t r e) (record {
    small = h.small;
    above = λ x g here. ground (arith, find-delete x fd t.entries, h.above x g);
  })
]

close_marked-HasRoom :
    (m : List (ℕ × Bool)) (t : Table) (r : FileRefs) → HasRoom t → HasRoom (close_marked m t r).0
unfolding close_marked
close_marked-HasRoom [] t r h = h
close_marked-HasRoom ((fd, true) ∷ m) t r h =
    close_marked-HasRoom m (close fd t r).1 (close fd t r).2 (close-HasRoom fd t r h)
close_marked-HasRoom ((fd, false) ∷ m) t r h = close_marked-HasRoom m t r h

pub close_on_exec-HasRoom : (t : Table) (r : FileRefs) → HasRoom t → HasRoom (close_on_exec t r).0
unfolding close_on_exec
close_on_exec-HasRoom t r h = close_marked-HasRoom t.cloexec t r h

next-vacate : (fd : ℕ) (t : Table) (r : FileRefs) → (vacate fd t r).0.next ≡ t.next
next-vacate fd t r = elim (Option-cases (find fd t.entries)) [
  | inl e ↦ rw (vacate, e) refl
  | inr (f, e) ↦ rw (vacate, e, close-open fd f t r e) refl
]

raise_next-HasRoom :
    (newfd : ℕ) (t : Table)
    → newfd < 2 ^ 64
    → newfd ≢ 2 ^ 63 - 1
    → t.next < 2 ^ 63
    → ((fd f : ℕ) → find fd t.entries ≡ some f → fd ≢ newfd → bias fd < bias t.next)
    → HasRoom (raise_next newfd t)
raise_next-HasRoom newfd t word fits small above =
    elim (Bool-cases (ltb (bias t.next) (bias (newfd +w 1)))) [
      | inl e ↦
          rw (raise_next, e)
            (record {
              small = ground arith;
              above = λ fd f here. elim (ℕ_discrete fd newfd) [
                | yes same ↦ ground arith
                | no differ ↦ ground (arith, above fd f here differ)
              ];
            })
      | inr e ↦
          rw (raise_next, e)
            (record {
              small = small;
              above = λ fd f here. elim (ℕ_discrete fd newfd) [
                | yes same ↦ ground arith
                | no differ ↦ above fd f here differ
              ];
            })
    ]

pub dup2-HasRoom :
    (oldfd newfd : ℕ) (t : Table) (r : FileRefs)
    → newfd < 2 ^ 64
    → newfd ≢ 2 ^ 63 - 1
    → HasRoom t
    → HasRoom (dup2 oldfd newfd t r).1
unfolding dup2 replace
dup2-HasRoom oldfd newfd t r word fits h = elim (Option-cases (find oldfd t.entries)) [
  | inl e ↦ rw (e, dup2) h
  | inr (f, e) ↦ elim (Bool-cases (newfd == oldfd)) [
    | inl same ↦
        rw (e, same, dup2)
          (raise_next-HasRoom newfd t word fits h.small (λ x g here differ. h.above x g here))
    | inr differ ↦ rw (dup2-open oldfd newfd f t r e differ) (
        raise_next-HasRoom newfd (replace newfd f t r).0 word fits
          (rw (next-vacate newfd t r) h.small)
          (λ x g here other. rw (next-vacate newfd t r) (
            ground (
              arith,
              find-put x newfd f (vacate newfd t r).0.entries,
              get-vacate newfd x t r,
              h.above x g,
            ))))
  ]
]

pub clone-HasRoom :
    (t : Table) (r : FileRefs) → Unique t.entries → HasRoom t → HasRoom (clone t r).0
unfolding clone
clone-HasRoom t r u h = record {
  small = h.small;
  above = λ fd f e. h.above fd f (sym (find-clone t r fd u) ∙ e);
}
