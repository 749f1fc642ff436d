-- ===== src/Fds/Dup.antt =====
-- Alloc, Dup, Dup2 and Clone: which descriptor they give, and that the counts stay right.
use golinux.Base.{
  ℕ, ◌+◌, ◌^◌, ◌<◌, ◌≡◌, ◌≢◌, refl, ◌∙◌, false, ◌==◌, if◌then◌else◌, none, some, arith,
  Option-cases, inl, inr,
}
use golinux.Base.Map.{find, find-put, find-delete}
use golinux.Fds.{FileRefs, Table, get, alloc, bias, vacate, replace, raise_next, dup2}
use golinux.Fds.Counts.{IsCounted, has, open-not_closed, put-IsCounted, close-IsCounted, close-open}

-- `next` is a nonnegative int, and above every descriptor in use.
pub record HasRoom (t : Table) : Type 0 where
  pub small : t.next < 2 ^ 63
  pub above : (fd f : ℕ) → find fd t.entries ≡ some f → bias fd < bias t.next

next-free : (t : Table) → HasRoom t → find t.next t.entries ≡ none
next-free t h = elim (Option-cases (find t.next t.entries)) [
  | inl e ↦ e
  | inr (f, e) ↦ absurd (omega (arith, h.above t.next f e))
]

-- Where the counts are right and the next descriptor is above all in use and below 2^63 - 1,
-- Alloc of a file that has not been closed gives a descriptor that was free, leaves every other
-- as it was, keeps the counts right, and the next descriptor above all in use.
pub alloc_lem :
    (others : ℕ → ℕ) (t : Table) (r : FileRefs) (f x : ℕ)
    → IsCounted others t r
    → HasRoom t
    → t.next + 1 < 2 ^ 63
    → has f r.closed ≡ false
    → (get t (alloc f t r).0 ≡ none)
      × (get (alloc f t r).1 x ≡ (if (alloc f t r).0 == x then some f else get t x))
      × IsCounted others (alloc f t r).1 (alloc f t r).2
      × HasRoom (alloc f t r).1
unfolding alloc
alloc_lem others t r f x c h more alive = (
  next-free t h,
  find-put x t.next f t.entries,
  put-IsCounted others t _ r t.next f c (next-free t h) alive refl,
  record {
    small = omega arith;
    above = λ fd g e. ground (arith, find-put fd t.next f t.entries, h.above fd g, h.small);
  },
)

pub get-vacate :
    (fd x : ℕ) (t : Table) (r : FileRefs)
    → get (vacate fd t r).0 x ≡ (if fd == x then none else get t x)
get-vacate fd x t r = elim (Option-cases (find fd t.entries)) [
  | inl e ↦ rw (vacate, e) (ground arith)
  | inr (f, e) ↦ rw (vacate, e, close-open fd f t r e) (find-delete x fd t.entries)
]

vacate-IsCounted :
    (others : ℕ → ℕ) (fd : ℕ) (t : Table) (r : FileRefs)
    → IsCounted others t r
    → IsCounted others (vacate fd t r).0 (vacate fd t r).1
vacate-IsCounted others fd t r c = elim (Option-cases (find fd t.entries)) [
  | inl e ↦ rw (vacate, e) c
  | inr (f, e) ↦ rw (vacate, e) (close-IsCounted others t r fd c)
]

pub dup2-open :
    (oldfd newfd f : ℕ) (t : Table) (r : FileRefs)
    → find oldfd t.entries ≡ some f
    → (newfd == oldfd) ≡ false
    → dup2 oldfd newfd t r
      ≡ (some newfd, raise_next newfd (replace newfd f t r).0, (replace newfd f t r).1)
unfolding dup2
dup2-open oldfd newfd f t r e differ = rw (e, differ, dup2)

pub raise_next-entries : (newfd : ℕ) (t : Table) → (raise_next newfd t).entries ≡ t.entries
raise_next-entries newfd t = ground arith

-- Where the counts are right, Dup2 of an open descriptor onto another number returns that
-- number, which then leads to the same file, leaves every other descriptor as it was, and keeps
-- the counts right.
pub dup2_lem :
    (others : ℕ → ℕ) (t : Table) (r : FileRefs) (oldfd newfd f x : ℕ)
    → IsCounted others t r
    → get t oldfd ≡ some f
    → oldfd ≢ newfd
    → ((dup2 oldfd newfd t r).0 ≡ some newfd)
      × (get (dup2 oldfd newfd t r).1 x ≡ (if newfd == x then some f else get t x))
      × IsCounted others (dup2 oldfd newfd t r).1 (dup2 oldfd newfd t r).2
unfolding replace
dup2_lem others t r oldfd newfd f x c here differ =
    let t' = (vacate newfd t r).0 in
    let r' = (vacate newfd t r).1 in
    let c' = vacate-IsCounted others newfd t r c in
    let kept : find oldfd t'.entries ≡ some f = ground (arith, get-vacate newfd oldfd t r) in
    let free : find newfd t'.entries ≡ none = ground (arith, get-vacate newfd newfd t r) in
    rw (dup2-open oldfd newfd f t r here (ground arith)) (
      refl,
      rw (raise_next-entries newfd (replace newfd f t r).0)
          (find-put x newfd f t'.entries ∙ ground (arith, get-vacate newfd x t r)),
      put-IsCounted others t' _ r' newfd f c' free (open-not_closed others t' r' oldfd f c' kept)
          (raise_next-entries newfd (replace newfd f t r).0),
    )
