-- ===== src/Fds.antt =====
-- internal/fds/fds.go: the file descriptor tables and the reference counts that they share.
-- A descriptor is a Go int, kept as its 64-bit pattern; a `File` is the number of its object.
-- `counts` gives 0 where the Go map has no key. An association list stands for a Go map in any
-- order, so a loop over its keys is one over the list.
pub mod Counts
pub mod Closing
pub mod Dup
pub mod Fork
pub mod Room
pub mod Processes
pub mod Invariant
mod Tests
use golinux.Base.{
  ℕ, suc, ◌+◌, ◌-◌, ◌%◌, ◌^◌, Bool, true, false, ltb, ◌==◌, if◌then◌else◌, Option, none, some, List,
  [], ◌∷◌,
}
use golinux.Base.Map.{find, put, delete}
use golinux.Base.Word.{◌+w◌}

-- fileRefs, with the files whose Close has been called, the last first.
pub record FileRefs : Type 0 where
  pub counts : ℕ → ℕ
  pub closed : List ℕ

pub record Table : Type 0 where
  pub entries : List (ℕ × ℕ)
  pub next : ℕ
  pub cloexec : List (ℕ × Bool)

abbrev pub set_count : FileRefs → ℕ → ℕ → FileRefs
set_count r f n = record r { counts = λ g. if g == f then n else r.counts g }

unfoldable pub incr : ℕ → FileRefs → FileRefs
incr f r = set_count r f (suc (r.counts f))

-- A count of 0 or less deletes the key, so `-` may stop at 0.
unfoldable pub decr_and_maybe_close : ℕ → FileRefs → FileRefs
decr_and_maybe_close f r =
    let left = r.counts f - 1 in
    let dropped = set_count r f left in
    if left == 0 then record dropped { closed = f ∷ r.closed } else dropped

-- The three files of a new table: stdin, stdout and stderr.
unfoldable pub new_table : ℕ → ℕ → ℕ → Table × FileRefs
new_table stdin stdout stderr = (
  record { entries = put 2 stderr (put 1 stdout (put 0 stdin [])); next = 3; cloexec = [] },
  incr stderr (incr stdout (incr stdin (record { counts = λ f. 0; closed = [] }))),
)

abbrev pub get : Table → ℕ → Option ℕ
get t fd = find fd t.entries

abbrev pub set_cloexec : ℕ → Bool → Table → Table
set_cloexec fd val t = record t {
  cloexec = if val then put fd true t.cloexec else delete fd t.cloexec;
}

abbrev pub set_or : Bool → Option Bool → Bool
set_or missing none = missing
set_or missing (some on) = on

abbrev pub is_cloexec : Table → ℕ → Bool
is_cloexec t fd = set_or false (find fd t.cloexec)

unfoldable pub alloc : ℕ → Table → FileRefs → ℕ × Table × FileRefs
alloc f t r = (t.next, record t { entries = put t.next f t.entries; next = t.next +w 1 }, incr f r)

unfoldable pub close : ℕ → Table → FileRefs → Bool × Table × FileRefs
close fd t r = elim (find fd t.entries) [
  | none ↦ (false, t, r)
  | some f ↦ (
    true,
    record t { entries = delete fd t.entries; cloexec = delete fd t.cloexec },
    decr_and_maybe_close f r,
  )
]

-- The loops of CloseOnExec and CloseAll, over the keys that the maps had at the start.
unfoldable pub close_marked : List (ℕ × Bool) → Table → FileRefs → Table × FileRefs
close_marked [] t r = (t, r)
close_marked ((fd, on) ∷ m) t r =
    let (flag, t', r') = if on then close fd t r else (false, t, r) in close_marked m t' r'

unfoldable pub close_on_exec : Table → FileRefs → Table × FileRefs
close_on_exec t r = close_marked t.cloexec t r

unfoldable pub close_each : List (ℕ × ℕ) → Table → FileRefs → Table × FileRefs
close_each [] t r = (t, r)
close_each ((fd, f) ∷ m) t r = let (was_open, t', r') = close fd t r in close_each m t' r'

unfoldable pub close_all : Table → FileRefs → Table × FileRefs
close_all t r = close_each t.entries t r

-- Entries: the descriptors that are open.
unfoldable pub open_fds : List (ℕ × ℕ) → List ℕ
open_fds [] = []
open_fds ((fd, f) ∷ m) = fd ∷ open_fds m

-- The two loops of Clone, into the maps of the new table.
unfoldable pub clone_entries : List (ℕ × ℕ) → List (ℕ × ℕ) → FileRefs → List (ℕ × ℕ) × FileRefs
clone_entries [] out r = (out, r)
clone_entries ((fd, f) ∷ m) out r = clone_entries m (put fd f out) (incr f r)

unfoldable pub clone_marks : List (ℕ × Bool) → List (ℕ × Bool) → List (ℕ × Bool)
clone_marks [] out = out
clone_marks ((fd, on) ∷ m) out = clone_marks m (put fd on out)

unfoldable pub clone : Table → FileRefs → Table × FileRefs
clone t r =
    let (entries, r') = clone_entries t.entries [] r in
    (record { entries = entries; next = t.next; cloexec = clone_marks t.cloexec [] }, r')

unfoldable pub dup : ℕ → Table → FileRefs → Option ℕ × Table × FileRefs
dup oldfd t r = elim (find oldfd t.entries) [
  | none ↦ (none, t, r)
  | some f ↦ let (fd, t', r') = alloc f t r in (some fd, t', r')
]

-- `<` on Go ints, kept as their bit patterns.
abbrev pub bias : ℕ → ℕ
bias a = (a + 2 ^ 63) % 2 ^ 64

abbrev pub raise_next : ℕ → Table → Table
raise_next newfd t =
    if ltb (bias t.next) (bias (newfd +w 1)) then record t { next = newfd +w 1 } else t

-- newfd given to the file `f`, after its occupant is closed.
abbrev pub vacate : ℕ → Table → FileRefs → Table × FileRefs
vacate newfd t r = elim (find newfd t.entries) [
  | none ↦ (t, r)
  | some g ↦ ((close newfd t r).1, (close newfd t r).2)
]

unfoldable pub replace : ℕ → ℕ → Table → FileRefs → Table × FileRefs
replace newfd f t r =
    let (t', r') = vacate newfd t r in (record t' { entries = put newfd f t'.entries }, incr f r')

unfoldable pub dup2 : ℕ → ℕ → Table → FileRefs → Option ℕ × Table × FileRefs
dup2 oldfd newfd t r = elim (find oldfd t.entries) [
  | none ↦ (none, t, r)
  | some f ↦
      let (t', r') = if newfd == oldfd then (t, r) else replace newfd f t r in
      (some newfd, raise_next newfd t', r')
]
