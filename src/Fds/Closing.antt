-- ===== src/Fds/Closing.antt =====
-- What Close, CloseOnExec and CloseAll leave open, and when a file itself is closed.
use golinux.Base.{
  ℕ, ◌+◌, ◌≡◌, refl, ap, ◌∙◌, Bool, true, false, ◌==◌, ◌||◌, ◌&&◌, if◌then◌else◌, none, some, List,
  [], ◌∷◌, arith, Option-cases, inl, inr,
}
use golinux.Base.Map.{find, find-delete, Unique, tally, tally-positive}
use golinux.Fds.{
  FileRefs, Table, get, is_cloexec, set_or, decr_and_maybe_close, close, close_marked,
  close_on_exec, close_each, close_all,
}
use golinux.Fds.Counts.{IsCounted, close-IsCounted, close-open, close-shut}

-- Where the counts are right, Close of an open descriptor closes its file if no other
-- descriptor, in this table or in another, leads to it, and else closes no file.
pub close-closed :
    (others : ℕ → ℕ) (t : Table) (r : FileRefs) (fd f : ℕ)
    → IsCounted others t r
    → get t fd ≡ some f
    → (close fd t r).2.closed
      ≡ (if tally f t.entries + others f == 1 then f ∷ r.closed else r.closed)
unfolding decr_and_maybe_close
close-closed others t r fd f c here =
    rw (close-open fd f t r here) (ground (arith, c.counted f, tally-positive fd f t.entries here))

get-close :
    (fd x : ℕ) (t : Table) (r : FileRefs)
    → get (close fd t r).1 x ≡ (if fd == x then none else get t x)
get-close fd x t r = elim (Option-cases (find fd t.entries)) [
  | inl e ↦ rw (close-shut fd t r e) (ground arith)
  | inr (f, e) ↦ rw (close-open fd f t r e) (find-delete x fd t.entries)
]

close_marked-IsCounted :
    (others : ℕ → ℕ) (m : List (ℕ × Bool)) (t : Table) (r : FileRefs)
    → IsCounted others t r
    → IsCounted others (close_marked m t r).0 (close_marked m t r).1
unfolding close_marked
close_marked-IsCounted others [] t r c = c
close_marked-IsCounted others ((fd, true) ∷ m) t r c =
    close_marked-IsCounted others m _ _ (close-IsCounted others t r fd c)
close_marked-IsCounted others ((fd, false) ∷ m) t r c = close_marked-IsCounted others m t r c

-- Whether a list of marks names a descriptor.
unfoldable marked : ℕ → List (ℕ × Bool) → Bool
marked x [] = false
marked x ((fd, on) ∷ m) = (on && (fd == x)) || marked x m

get-close_marked :
    (m : List (ℕ × Bool)) (t : Table) (r : FileRefs) (x : ℕ)
    → get (close_marked m t r).0 x ≡ (if marked x m then none else get t x)
unfolding close_marked marked
get-close_marked [] t r x = refl
get-close_marked ((fd, true) ∷ m) t r x =
    get-close_marked m (close fd t r).1 (close fd t r).2 x ∙ ground (arith, get-close fd x t r)
get-close_marked ((fd, false) ∷ m) t r x = get-close_marked m t r x

marked-find : (x : ℕ) (m : List (ℕ × Bool)) → Unique m → marked x m ≡ set_or false (find x m)
unfolding marked find
marked-find x [] u = refl
marked-find x ((fd, on) ∷ m) u = ground (arith, marked-find x m u.1)

-- Where no descriptor has two flags, CloseOnExec closes the descriptors with the flag and leaves
-- every other as it was.
pub get-close_on_exec :
    (t : Table) (r : FileRefs) (x : ℕ)
    → Unique t.cloexec
    → get (close_on_exec t r).0 x ≡ (if is_cloexec t x then none else get t x)
unfolding close_on_exec
get-close_on_exec t r x u =
    get-close_marked t.cloexec t r x
    ∙ ap (λ (b : Bool). if b then none else get t x) (marked-find x t.cloexec u)

pub close_on_exec-IsCounted :
    (others : ℕ → ℕ) (t : Table) (r : FileRefs)
    → IsCounted others t r
    → IsCounted others (close_on_exec t r).0 (close_on_exec t r).1
unfolding close_on_exec
close_on_exec-IsCounted others t r c = close_marked-IsCounted others t.cloexec t r c

close_each-IsCounted :
    (others : ℕ → ℕ) (m : List (ℕ × ℕ)) (t : Table) (r : FileRefs)
    → IsCounted others t r
    → IsCounted others (close_each m t r).0 (close_each m t r).1
unfolding close_each
close_each-IsCounted others [] t r c = c
close_each-IsCounted others ((fd, f) ∷ m) t r c =
    close_each-IsCounted others m _ _ (close-IsCounted others t r fd c)

get-close_each :
    (m : List (ℕ × ℕ)) (t : Table) (r : FileRefs) (x : ℕ)
    → (find x m ≡ none → get t x ≡ none)
    → get (close_each m t r).0 x ≡ none
unfolding close_each find
get-close_each [] t r x shut = shut refl
get-close_each ((fd, f) ∷ m) t r x shut =
    get-close_each m (close fd t r).1 (close fd t r).2 x
      λ absent. ground (arith, get-close fd x t r)

none_found : (m : List (ℕ × ℕ)) → ((x : ℕ) → find x m ≡ none) → m ≡ []
unfolding find
none_found [] h = refl
none_found ((k, v) ∷ m) h = let e = h k in absurd (ground arith)

pub close_all-IsCounted :
    (others : ℕ → ℕ) (t : Table) (r : FileRefs)
    → IsCounted others t r
    → IsCounted others (close_all t r).0 (close_all t r).1
unfolding close_all
close_all-IsCounted others t r c = close_each-IsCounted others t.entries t r c

-- Where the counts are right, CloseAll leaves no descriptor open, and each file counted by the
-- other tables' references alone.
pub close_all-entries :
    (others : ℕ → ℕ) (t : Table) (r : FileRefs)
    → IsCounted others t r
    → ((close_all t r).0.entries ≡ []) × ((f : ℕ) → (close_all t r).1.counts f ≡ others f)
unfolding close_all tally
close_all-entries others t r c =
    let empty : (close_all t r).0.entries ≡ [] =
      none_found _ λ x. get-close_each t.entries t r x λ absent. absent in
    (
      empty,
      λ f.
          (close_all-IsCounted others t r c).counted f
          ∙ ap (λ (m : List (ℕ × ℕ)). tally f m + others f) empty
          ∙ omega arith,
    )
