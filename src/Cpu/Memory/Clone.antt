-- ===== src/Cpu/Memory/Clone.antt =====
-- `Clone`, which fork() uses: the child starts with the parent's bytes in pages of its own.
use golinux.Base.{
  ℕ, suc, ◌%◌, ◌≤◌, ◌<◌, ◌≡◌, refl, ap, ◌∙◌, ◌==◌, none, some, List, [], ◌∷◌, arith, Bool-cases,
  Option-cases, inl, inr,
}
use mathlib.Core.Path.{fun_ext}
use mathlib.Core.Bool.{false≢true}
use golinux.Base.Map.{find, put, find-put}
use golinux.Cpu.Memory.{Page, Heap, Space, page_addr, write_cell, clone_pages, clone}
use golinux.Cpu.Memory.View.{view, view_of, AllBelow, IsValid}
use golinux.Cpu.Memory.Table.{find-below, AllBelow-mono, put-AllBelow}

-- One page copied to a new object.
abbrev copied_cell : Heap → ℕ → Heap
copied_cell h p = record (write_cell h h.next (h.cell p)) { next = suc h.next }

pub record Copied (m : List (ℕ × ℕ)) (h : Heap) (m' : List (ℕ × ℕ)) (h' : Heap) : Type 0 where
  pub grows : h.next ≤ h'.next
  pub kept : (q : ℕ) → q < h.next → h'.cell q ≡ h.cell q
  pub fresh : (a q : ℕ) → find a m' ≡ some q → (h.next ≤ q) × (q < h'.next)
  pub absent : (a : ℕ) → find a m ≡ none → find a m' ≡ none
  pub same : (a p : ℕ) → find a m ≡ some p → (q : ℕ) × (find a m' ≡ some q) × (h'.cell q ≡ h.cell p)
  pub apart : (a b q : ℕ) → find a m' ≡ some q → find b m' ≡ some q → a ≡ b
  pub below : AllBelow h'.next m'

module _ (b p : ℕ) (m : List (ℕ × ℕ)) (h : Heap) (below : p < h.next) (m' : List (ℕ × ℕ))
    (h' : Heap) (rest : Copied m (copied_cell h p) m' h') where
  own : h'.cell h.next ≡ h.cell p
  own = rest.kept h.next (omega arith) ∙ ground arith

  kept_after : (q : ℕ) → q < h.next → h'.cell q ≡ h.cell q
  kept_after q older = rest.kept q (omega arith) ∙ ground arith

  fresh_after : (a q : ℕ) → find a (put b h.next m') ≡ some q → (h.next ≤ q) × (q < h'.next)
  fresh_after a q here = ground (arith, find-put a b h.next m', rest.fresh a q, rest.grows)

  absent_after : (a : ℕ) → find a ((b, p) ∷ m) ≡ none → find a (put b h.next m') ≡ none
  unfolding find
  absent_after a gone = ground (arith, find-put a b h.next m', rest.absent a)

  apart_after :
      (a c q : ℕ) → find a (put b h.next m') ≡ some q → find c (put b h.next m') ≡ some q → a ≡ c
  apart_after a c q here there = ground (
    arith,
    find-put a b h.next m',
    find-put c b h.next m',
    rest.fresh a q,
    rest.fresh c q,
    rest.apart a c q,
  )

  same_after :
      (older : AllBelow h.next m)
      → (a q : ℕ) → find a ((b, p) ∷ m) ≡ some q
      → (k : ℕ) × (find a (put b h.next m') ≡ some k) × (h'.cell k ≡ h.cell q)
  unfolding find
  same_after older a q here = elim (Bool-cases (b == a)) [
    | inl hit ↦ (h.next, ground (arith, find-put a b h.next m'), own ∙ ground arith)
    | inr miss ↦
        let there : find a m ≡ some q = ground arith in
        let (k, found, equal) = rest.same a q there in
        let q_older : q < h.next = find-below h.next a q m older there in
        (k, ground (arith, find-put a b h.next m'), equal ∙ ground arith)
  ]

clone_pages-Copied :
    (m : List (ℕ × ℕ)) (h : Heap)
    → AllBelow h.next m
    → Copied m h (clone_pages m h).0 (clone_pages m h).1
unfolding clone_pages find
clone_pages-Copied [] h below = record {
  grows = omega arith;
  kept = λ q _. refl;
  fresh = λ a q e. ground arith;
  absent = λ a e. e;
  same = λ a p e. ground arith;
  apart = λ a b q e e'. ground arith;
  below = tt;
}
clone_pages-Copied ((b, p) ∷ m) h (p_below, below) =
    let rest =
      clone_pages-Copied m (copied_cell h p)
        (AllBelow-mono h.next (suc h.next) m (omega arith) below) in
    let m' = (clone_pages m (copied_cell h p)).0 in
    let h' = (clone_pages m (copied_cell h p)).1 in
    record {
      grows = omega (arith, rest.grows);
      kept = kept_after b p m h p_below m' h' rest;
      fresh = fresh_after b p m h p_below m' h' rest;
      absent = absent_after b p m h p_below m' h' rest;
      same = same_after b p m h p_below m' h' rest below;
      apart = apart_after b p m h p_below m' h' rest;
      below = put-AllBelow h'.next b h.next m' (omega (arith, rest.grows)) rest.below;
    }

-- The parent and the child, each with the heap after the clone.
abbrev pub parent : Space → Space
parent s = (clone s).0

abbrev pub child : Space → Space
child s = record { heap = (clone s).0.heap; mem = (clone s).1 }

pub copied : (s : Space) → IsValid s → Copied s.pages s.heap (child s).pages (child s).heap
unfolding clone
copied s v = clone_pages-Copied s.pages s.heap v.below

parent-pages : (s : Space) → (parent s).pages ≡ s.pages
unfolding clone
parent-pages s = refl

pub parent-view : (s : Space) → IsValid s → view_of (parent s) ≡ view_of s
unfolding clone view
parent-view s v = fun_ext λ x. elim (Option-cases (find (page_addr x) s.pages)) [
  | inl e ↦ rw e
  | inr (p, e) ↦
      let old : p < s.heap.next = find-below s.heap.next (page_addr x) p s.pages v.below e in
      rw e (
        ap (λ (c : Page). some (record { byte = c.bytes (x % 0x1000); perm = c.perm }))
          ((copied s v).kept p old))
]

pub child-view : (s : Space) → IsValid s → view_of (child s) ≡ view_of s
unfolding clone view
child-view s v = fun_ext λ x. elim (Option-cases (find (page_addr x) s.pages)) [
  | inl e ↦ rw (e, (copied s v).absent (page_addr x) e)
  | inr (p, e) ↦
      let (q, found, equal) = (copied s v).same (page_addr x) p e in
      rw (e, found)
        (ap (λ (c : Page). some (record { byte = c.bytes (x % 0x1000); perm = c.perm })) equal)
]

pub parent-IsValid : (s : Space) → IsValid s → IsValid (parent s)
unfolding clone
parent-IsValid s v = record {
  cached = v.cached;
  below = AllBelow-mono s.heap.next (parent s).heap.next s.pages (copied s v).grows v.below;
  apart = v.apart;
}

pub child-IsValid : (s : Space) → IsValid s → IsValid (child s)
unfolding clone
child-IsValid s v = record {
  cached = λ e. absurd (false≢true e);
  below = (copied s v).below;
  apart = (copied s v).apart;
}

-- Clone of a valid memory leaves the parent valid and gives a valid child, and both have the
-- view that the parent had.
pub clone_lem :
    (s : Space)
    → IsValid s
    → IsValid (parent s)
      × IsValid (child s)
      × (view_of (parent s) ≡ view_of s)
      × (view_of (child s) ≡ view_of s)
clone_lem s v = (parent-IsValid s v, child-IsValid s v, parent-view s v, child-view s v)
