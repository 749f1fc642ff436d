-- ===== src/Fds/Invariant.antt =====
-- The reference counts in every state that the steps of the processes lead to.
use golinux.Base.{ℕ, ◌+◌, ◌≡◌, true, false, some, List, [], ◌∷◌, ◌++◌, arith}
use golinux.Base.Map.{Unique, tally}
use golinux.Fds.{FileRefs, Table, get, clone}
use golinux.Fds.Counts.{IsCounted, has, open-not_closed}
use golinux.Fds.Closing.{close_all-entries, close_all-IsCounted}
use golinux.Fds.Dup.{HasRoom}
use golinux.Fds.Fork.{clone-IsCounted}
use golinux.Fds.Room.{clone-HasRoom}
use golinux.Fds.Processes.{
  System, Step, calls, forks, exits, Reachable, start, next, Sound, Call-Sound,
}

abbrev pub total : ℕ → List Table → ℕ
total f [] = 0
total f (t ∷ ts) = tally f t.entries + total f ts

abbrev pub Each : List Table → Type 0
Each [] = Unit {0}
Each (t ∷ ts) = (Unique t.entries × HasRoom t) × Each ts

-- The counts are the numbers of descriptors over all tables.
pub record IsSound (s : System) : Type 0 where
  pub counted : (f : ℕ) → s.refs.counts f ≡ total f s.tables
  pub gone : (f : ℕ) → has f s.refs.closed ≡ true → s.refs.counts f ≡ 0
  pub each : Each s.tables

total-append : (f : ℕ) (ts us : List Table) → total f (ts ++ us) ≡ total f ts + total f us
total-append f [] us = omega arith
total-append f (t ∷ ts) us = omega (arith, total-append f ts us)

Each-split : (ts us : List Table) → Each (ts ++ us) → Each ts × Each us
Each-split [] us e = (tt, e)
Each-split (t ∷ ts) us (here, e) = let (l, r) = Each-split ts us e in ((here, l), r)

Each-append : (ts us : List Table) → Each ts → Each us → Each (ts ++ us)
Each-append [] us l r = r
Each-append (t ∷ ts) us (here, l) r = (here, Each-append ts us l r)

-- The references of the tables around one.
abbrev around : List Table → List Table → ℕ → ℕ
around before after f = total f before + total f after

IsSound-Sound :
    (s : System) (before after : List Table) (t : Table)
    → s.tables ≡ before ++ (t ∷ after)
    → IsSound s
    → Sound (around before after) t s.refs × Each before × Each after
IsSound-Sound s before after t e i =
    let (l, ((unique, room), r)) = Each-split before (t ∷ after) (rw e at i.each) in
    (
      record {
        counts = record {
          unique = unique;
          counted = λ f.
              let whole : s.refs.counts f ≡ total f (before ++ (t ∷ after)) = rw e at i.counted f in
              omega (arith, whole, total-append f before (t ∷ after));
          gone = i.gone;
        };
        room = room;
      },
      l,
      r,
    )

Sound-IsSound :
    (before after : List Table) (t : Table) (r : FileRefs)
    → Sound (around before after) t r
    → Each before
    → Each after
    → IsSound (record { tables = before ++ (t ∷ after); refs = r })
Sound-IsSound before after t r s l u = record {
  counted = λ f. omega (arith, total-append f before (t ∷ after), s.counts.counted f);
  gone = s.counts.gone;
  each = Each-append before (t ∷ after) l ((s.counts.unique, s.room), u);
}

IsCounted-others :
    (others others' : ℕ → ℕ) (t : Table) (r : FileRefs)
    → ((f : ℕ) → others f ≡ others' f)
    → IsCounted others t r
    → IsCounted others' t r
IsCounted-others others others' t r same c = record {
  unique = c.unique;
  counted = λ f. omega (arith, same f, c.counted f);
  gone = c.gone;
}

Step-IsSound : (s : System) {s' : System} → IsSound s → Step s s' → IsSound s'
Step-IsSound s i (calls before after t e call) =
    let (sound, l, u) = IsSound-Sound s before after t e i in
    Sound-IsSound before after _ _ (Call-Sound (around before after) t s.refs call sound) l u
Step-IsSound s i (forks before after t e) =
    let (sound, l, u) = IsSound-Sound s before after t e i in
    let (of_child, of_parent) = clone-IsCounted (around before after) t s.refs sound.counts in
    let child = (clone t s.refs).0 in
    Sound-IsSound before (child ∷ after) t (clone t s.refs).1
      (record { counts = IsCounted-others _ _ t _ (λ f. omega arith) of_parent; room = sound.room })
      l ((of_child.unique, clone-HasRoom t s.refs sound.counts.unique sound.room), u)
Step-IsSound s i (exits before after t e) =
    let (sound, l, u) = IsSound-Sound s before after t e i in
    let (empty, counts) = close_all-entries (around before after) t s.refs sound.counts in
    record {
      counted = λ f. omega (arith, counts f, total-append f before after);
      gone = (close_all-IsCounted (around before after) t s.refs sound.counts).gone;
      each = Each-append before after l u;
    }

-- Every state is sound that a sound system of processes which share their counts leads to by
-- forks, exits and these calls on one table: close, the setting of a flag, exec, alloc of a file
-- that has not been closed and dup, both while the next descriptor is below 2^63 - 1, and dup2
-- onto any 64-bit number but 2^63 - 1. Sound means that each file's count is the number of
-- descriptors that lead to it over all tables, a closed file has none, no descriptor stands
-- twice in a table, and in each table the next descriptor is above all in use.
pub Reachable-IsSound : (s : System) {s' : System} → IsSound s → Reachable s s' → IsSound s'
Reachable-IsSound s i start = i
Reachable-IsSound s i (next {s' = s'} path step) = Step-IsSound s' (Reachable-IsSound s i path) step

-- From a sound system of processes that share their counts, no descriptor of any process leads
-- to a file that has been closed, along any sequence of steps, which are forks, exits and these
-- calls on one table: close, the setting of a flag, exec, alloc of a file that has not been
-- closed and dup, both while the next descriptor is below 2^63 - 1, and dup2 onto any 64-bit
-- number but 2^63 - 1.
pub Reachable-open :
    (s s' : System) (before after : List Table) (t : Table) (fd f : ℕ)
    → IsSound s
    → Reachable s s'
    → s'.tables ≡ before ++ (t ∷ after)
    → get t fd ≡ some f
    → has f s'.refs.closed ≡ false
Reachable-open s s' before after t fd f i path e here =
    let (sound, l, u) = IsSound-Sound s' before after t e (Reachable-IsSound s i path) in
    open-not_closed (around before after) t s'.refs fd f sound.counts here
