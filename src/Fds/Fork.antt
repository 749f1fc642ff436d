-- ===== src/Fds/Fork.antt =====
-- Clone, which fork() uses: the child's table against the parent's, and the counts of both.
use golinux.Base.{
  ℕ, ◌+◌, ◌≡◌, refl, ap, ◌∙◌, Bool, true, false, Option, none, some, List, [], ◌∷◌, arith,
}
use golinux.Base.Map.{find, put, find-put, Unique, put-Unique, tally, tally-put}
use golinux.Fds.{FileRefs, Table, get, is_cloexec, set_or, incr, clone_entries, clone_marks, clone}
use golinux.Fds.Counts.{IsCounted, has}

abbrev or_else {ℓ} : {A : Type ℓ} → Option A → Option A → Option A
or_else none y = y
or_else (some x) y = some x

or_else-none {ℓ} : {A : Type ℓ} (x : Option A) → or_else x none ≡ x
or_else-none none = refl
or_else-none (some x) = refl

clone_entries-counts :
    (m out : List (ℕ × ℕ)) (r : FileRefs) (f : ℕ)
    → (clone_entries m out r).1.counts f ≡ r.counts f + tally f m
unfolding clone_entries tally incr
clone_entries-counts [] out r f = omega arith
clone_entries-counts ((k, g) ∷ m) out r f =
    clone_entries-counts m (put k g out) (incr g r) f ∙ ground arith

clone_entries-closed :
    (m out : List (ℕ × ℕ)) (r : FileRefs) → (clone_entries m out r).1.closed ≡ r.closed
unfolding clone_entries incr
clone_entries-closed [] out r = refl
clone_entries-closed ((k, g) ∷ m) out r = clone_entries-closed m (put k g out) (incr g r)

clone_entries-Unique :
    (m out : List (ℕ × ℕ)) (r : FileRefs) → Unique out → Unique (clone_entries m out r).0
unfolding clone_entries
clone_entries-Unique [] out r u = u
clone_entries-Unique ((k, g) ∷ m) out r u =
    clone_entries-Unique m (put k g out) (incr g r) (put-Unique k g out u)

find-clone_entries :
    (m out : List (ℕ × ℕ)) (r : FileRefs) (x : ℕ)
    → Unique m
    → find x (clone_entries m out r).0 ≡ or_else (find x m) (find x out)
unfolding clone_entries find
find-clone_entries [] out r x u = refl
find-clone_entries ((k, g) ∷ m) out r x u =
    find-clone_entries m (put k g out) (incr g r) x u.1 ∙ ground (arith, find-put x k g out)

find-clone_marks :
    (m out : List (ℕ × Bool)) (x : ℕ)
    → Unique m
    → find x (clone_marks m out) ≡ or_else (find x m) (find x out)
unfolding clone_marks find
find-clone_marks [] out x u = refl
find-clone_marks ((k, on) ∷ m) out x u =
    find-clone_marks m (put k on out) x u.1 ∙ ground (arith, find-put x k on out)

tally-clone_entries :
    (m out : List (ℕ × ℕ)) (r : FileRefs) (f : ℕ)
    → Unique m
    → ((k g : ℕ) → find k m ≡ some g → find k out ≡ none)
    → tally f (clone_entries m out r).0 ≡ tally f out + tally f m
unfolding clone_entries find tally
tally-clone_entries [] out r f u apart = omega arith
tally-clone_entries ((k, g) ∷ m) out r f u apart =
    let free : find k out ≡ none = apart k g (ground arith) in
    let here = tally-put f k g out free in
    tally-clone_entries m (put k g out) (incr g r) f u.1
      (λ j h e. ground (arith, find-put j k g out, apart j h))
    ∙ omega arith

-- Where the counts are right, after Clone they are right for the child, with the parent's
-- references among the others, and for the parent, with the child's among the others.
pub clone-IsCounted :
    (others : ℕ → ℕ) (t : Table) (r : FileRefs)
    → IsCounted others t r
    → IsCounted (λ f. tally f t.entries + others f) (clone t r).0 (clone t r).1
      × IsCounted (λ f. tally f (clone t r).0.entries + others f) t (clone t r).1
unfolding clone tally find
clone-IsCounted others t r c =
    let m = t.entries in
    let same : (f : ℕ) → tally f (clone_entries m [] r).0 ≡ tally f m =
      λ f. tally-clone_entries m [] r f c.unique (λ k g e. refl) ∙ omega arith in
    let more = clone_entries-counts m [] r in
    let alive : (f : ℕ)
        → has f (clone_entries m [] r).1.closed ≡ true
        → (clone_entries m [] r).1.counts f ≡ 0 =
      λ f closed.
        let was : has f r.closed ≡ true = rw (clone_entries-closed m [] r) at closed in
        omega (arith, c.gone f was, c.counted f, more f) in
    (
      record {
        unique = clone_entries-Unique m [] r tt;
        counted = λ f. omega (arith, same f, more f, c.counted f);
        gone = alive;
      },
      record {
        unique = c.unique;
        counted = λ f. omega (arith, same f, more f, c.counted f);
        gone = alive;
      },
    )

pub find-clone :
    (t : Table) (r : FileRefs) (fd : ℕ)
    → Unique t.entries
    → find fd (clone t r).0.entries ≡ find fd t.entries
unfolding clone find
find-clone t r fd u = find-clone_entries t.entries [] r fd u ∙ or_else-none (find fd t.entries)

-- Where no descriptor has two entries or two flags, the child's descriptors and flags after
-- Clone are the parent's.
pub get-clone :
    (t : Table) (r : FileRefs) (fd : ℕ)
    → Unique t.entries
    → Unique t.cloexec
    → (get (clone t r).0 fd ≡ get t fd) × (is_cloexec (clone t r).0 fd ≡ is_cloexec t fd)
unfolding clone find
get-clone t r fd u u' = (
  find-clone t r fd u,
  ap (set_or false) (find-clone_marks t.cloexec [] fd u' ∙ or_else-none (find fd t.cloexec)),
)
