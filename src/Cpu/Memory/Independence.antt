-- ===== src/Cpu/Memory/Independence.antt =====
-- Writes on one side of a `Clone` against the other side's view.
use golinux.Base.{
  ℕ, zero, suc, ◌-◌, ◌<◌, ◌≡◌, refl, ap, ◌∙◌, some, List, [], ◌∷◌, length, take, arith, Bool-cases,
  Option-cases, inl, inr,
}
use mathlib.Core.Path.{fun_ext}
use golinux.Base.Map.{find}
use golinux.Cpu.Memory.{Heap, Space, page_addr, lookup_space, clone}
use golinux.Cpu.Memory.Copy.{allowed, write_chunk, copy_in, write_checked}
use golinux.Cpu.Memory.View.{
  view, view_of, IsValid, lookup_space-heap, lookup_space-pages, lookup_space-IsValid,
}
use golinux.Cpu.Memory.Reads.{chunk}
use golinux.Cpu.Memory.Writes.{copy_in-unmapped, copy_in-denied, copy_in-chunk, write_chunk-IsValid}
use golinux.Cpu.Memory.Table.{find-below}
use golinux.Cpu.Memory.Clone.{
  copied, parent, child, child-IsValid, child-view, parent-IsValid, parent-view,
}

-- Two page tables with no page in common.
abbrev Disjoint : List (ℕ × ℕ) → List (ℕ × ℕ) → Type 0
Disjoint m m' = (a b p : ℕ) → find a m ≡ some p → find b m' ≡ some p → ⊥

view-write_chunk :
    (other : List (ℕ × ℕ)) (p off a : ℕ) (cs : List ℕ) (s : Space)
    → Disjoint other s.pages
    → find a s.pages ≡ some p
    → view (write_chunk p off cs s).heap other ≡ view s.heap other
unfolding write_chunk view
view-write_chunk other p off a cs s apart here = fun_ext λ x.
    elim (Option-cases (find (page_addr x) other)) [
      | inl e ↦ rw e
      | inr (q, e) ↦ rw e (ground (arith, apart (page_addr x) a p))
    ]

write_chunk-pages : (p off : ℕ) (cs : List ℕ) (s : Space) → (write_chunk p off cs s).pages ≡ s.pages
unfolding write_chunk
write_chunk-pages p off cs s = refl

copy_in-other :
    (other : List (ℕ × ℕ)) (fuel a : ℕ) (bs : List ℕ) (perm : ℕ) (s : Space)
    → IsValid s
    → Disjoint other s.pages
    → view (copy_in fuel a bs perm s).1.heap other ≡ view s.heap other
unfolding copy_in
copy_in-other other fuel a [] perm s v apart = refl
copy_in-other other zero a (b ∷ bs) perm s v apart = refl
copy_in-other other (suc fuel) a (b ∷ bs) perm s v apart =
    let s' = lookup_space s (page_addr a) in
    let v' : IsValid s' = lookup_space-IsValid s (page_addr a) v in
    let same = ap (λ (h : Heap). view h other) (lookup_space-heap s (page_addr a)) in
    let table : s'.pages ≡ s.pages = lookup_space-pages s (page_addr a) in
    let apart' : Disjoint other s'.pages = rw table apart in
    elim (Option-cases (find (page_addr a) s.pages)) [
      | inl e ↦ rw (copy_in-unmapped fuel a b bs perm s v e) same
      | inr (p, e) ↦ elim (Bool-cases (allowed perm (s'.heap.cell p).perm)) [
        | inl may ↦
            let off = a - page_addr a in
            let cs = take (chunk a (length bs)) (b ∷ bs) in
            rw (copy_in-chunk fuel a b bs perm s v p e may) (
              copy_in-other other fuel _ _ perm (write_chunk p off cs s')
                (write_chunk-IsValid p off cs s' v') (rw (write_chunk-pages p off cs s') apart')
              ∙ view-write_chunk other p off (page_addr a) cs s' apart' (rw table e)
              ∙ same)
        | inr no_write ↦ rw (copy_in-denied fuel a b bs perm s v p e no_write) same
      ]
    ]

parent_child-Disjoint : (s : Space) → IsValid s → Disjoint s.pages (child s).pages
parent_child-Disjoint s v a b p here there =
    let old : p < s.heap.next = find-below s.heap.next a p s.pages v.below here in
    let (new, below) = (copied s v).fresh b p there in absurd (omega arith)

-- After a Clone of a valid memory, a checked write of any bytes at any address through the child
-- leaves the parent's view as it was before the Clone, and one through the parent leaves the
-- child's view so.
pub clone-write_checked :
    (s : Space) (a : ℕ) (bs : List ℕ) (perm : ℕ)
    → IsValid s
    → (view (write_checked a bs perm (child s)).1.heap (parent s).pages ≡ view_of s)
      × (view (write_checked a bs perm (parent s)).1.heap (child s).pages ≡ view_of s)
unfolding write_checked clone
clone-write_checked s a bs perm v = (
  copy_in-other s.pages (length bs) a bs perm (child s) (child-IsValid s v)
        (parent_child-Disjoint s v)
      ∙ parent-view s v,
  copy_in-other (child s).pages (length bs) a bs perm (parent s) (parent-IsValid s v)
        (λ x y p e e'. parent_child-Disjoint s v y x p e' e)
      ∙ child-view s v,
)
