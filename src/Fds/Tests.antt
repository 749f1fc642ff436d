-- ===== src/Fds/Tests.antt =====
-- The theorems on descriptors at a table whose descriptor 3 shares the file of stdout.
use golinux.Base.{ℕ, ◌≡◌, refl, false, true, ◌==◌, ◌+◌, if◌then◌else◌, none, some, [], ◌∷◌, arith}
use golinux.Base.Map.{find, put, tally}
use golinux.Fds.{
  FileRefs, Table, get, set_cloexec, is_cloexec, incr, new_table, alloc, close, close_on_exec,
  clone, dup2,
}
use golinux.Fds.Counts.{IsCounted, has}
use golinux.Fds.Closing.{close-closed, get-close_on_exec}
use golinux.Fds.Dup.{HasRoom, alloc_lem, dup2_lem}
use golinux.Fds.Processes.{System, calls, forks, closes, Reachable, start, next}
use golinux.Fds.Invariant.{IsSound, Reachable-IsSound, Reachable-open}

-- stdin, stdout and stderr are the files 10, 11 and 12.
abbrev table : Table
table = (new_table 10 11 12).0

abbrev refs : FileRefs
refs = (new_table 10 11 12).1

abbrev nobody : ℕ → ℕ
nobody f = 0

table-IsCounted : IsCounted nobody table refs
unfolding new_table put find tally incr has
table-IsCounted = record {
  unique = (refl, (refl, (refl, tt)));
  counted = λ f. ground arith;
  gone = λ f closed. cc;
}

table-HasRoom : HasRoom table
unfolding new_table put find
table-HasRoom = record { small = omega arith; above = λ fd f e. ground arith }

close-closed_example :
    (close 1 table refs).2.closed
    ≡ (if tally 11 table.entries + 0 == 1 then 11 ∷ refs.closed else refs.closed)
unfolding new_table put find
close-closed_example = close-closed nobody table refs 1 11 table-IsCounted refl

abbrev marked_table : Table
marked_table = set_cloexec 1 true table

get-close_on_exec_example :
    get (close_on_exec marked_table refs).0 1
    ≡ (if is_cloexec marked_table 1 then none else get marked_table 1)
unfolding new_table put find
get-close_on_exec_example = get-close_on_exec marked_table refs 1 (refl, tt)

alloc_example :
    (get table (alloc 13 table refs).0 ≡ none)
    × (get (alloc 13 table refs).1 3
        ≡ (if (alloc 13 table refs).0 == 3 then some 13 else get table 3))
    × IsCounted nobody (alloc 13 table refs).1 (alloc 13 table refs).2
    × HasRoom (alloc 13 table refs).1
unfolding new_table has incr
alloc_example = alloc_lem nobody table refs 13 3 table-IsCounted table-HasRoom (omega arith) refl

dup2_example :
    ((dup2 1 2 table refs).0 ≡ some 2)
    × (get (dup2 1 2 table refs).1 2 ≡ (if 2 == 2 then some 11 else get table 2))
    × IsCounted nobody (dup2 1 2 table refs).1 (dup2 1 2 table refs).2
unfolding new_table put find
dup2_example = dup2_lem nobody table refs 1 2 11 2 table-IsCounted refl (λ e. omega arith)

-- One process, which forks; then the child closes its stdout.
abbrev alone : System
alone = record { tables = table ∷ []; refs = refs }

alone-IsSound : IsSound alone
alone-IsSound = record {
  counted = λ f. omega (arith, table-IsCounted.counted f);
  gone = table-IsCounted.gone;
  each = ((table-IsCounted.unique, table-HasRoom), tt);
}

abbrev child : Table
child = (clone table refs).0

abbrev shared : FileRefs
shared = (clone table refs).1

abbrev closed : System
closed = record { tables = table ∷ (close 1 child shared).1 ∷ []; refs = (close 1 child shared).2 }

alone-closed : Reachable alone closed
alone-closed =
    next (next start (forks [] [] table refl)) (calls (table ∷ []) [] child refl (closes 1))

Reachable-IsSound_example : IsSound closed
Reachable-IsSound_example = Reachable-IsSound alone alone-IsSound alone-closed

Reachable-open_example : has 11 closed.refs.closed ≡ false
unfolding new_table put find
Reachable-open_example =
    Reachable-open alone closed [] ((close 1 child shared).1 ∷ []) table 1 11 alone-IsSound
      alone-closed refl refl
