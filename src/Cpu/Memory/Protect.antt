-- ===== src/Cpu/Memory/Protect.antt =====
-- MemProtect against the view.
use golinux.Base.{
  ℕ, zero, suc, ◌+◌, ◌-◌, ◌%◌, ◌^◌, ◌<◌, ◌≡◌, ◌∙◌, leb, ◌&&◌, if◌then◌else◌, Option, none, some,
  List, arith, Option-cases, inl, inr,
}
use golinux.Base.Map.{find}
use golinux.Cpu.Memory.{
  Heap, Space, page_addr, write_cell, rounds, range_end, protect_pages, mem_protect,
}
use golinux.Cpu.Memory.View.{Cell, view, view_of, IsValid, page_addr_lem}
use golinux.Cpu.Memory.Mapping.{within, touched}

abbrev pub with_perm : ℕ → Option Cell → Option Cell
with_perm perms none = none
with_perm perms (some c) = some (record c { perm = perms })

module _ (perms : ℕ) (m : List (ℕ × ℕ))
    (apart : (a b p : ℕ) → find a m ≡ some p → find b m ≡ some p → a ≡ b) where
  protect_one-view :
      (a p x : ℕ) (h : Heap)
      → a % 0x1000 ≡ 0
      → find a m ≡ some p
      → view (write_cell h p (record (h.cell p) { perm = perms })) m x
        ≡ (if within a 1 x then with_perm perms (view h m x) else view h m x)
  unfolding view
  protect_one-view a p x h aligned here = elim (Option-cases (find (page_addr x) m)) [
    | inl e ↦ rw (e, view) (ground arith)
    | inr (q, e) ↦ rw (e, view) (ground (arith, page_addr_lem x, apart (page_addr x) a p))
  ]

  protect_none-view :
      (a x : ℕ) (h : Heap)
      → a % 0x1000 ≡ 0
      → find a m ≡ none
      → view h m x ≡ (if within a 1 x then with_perm perms (view h m x) else view h m x)
  unfolding view
  protect_none-view a x h aligned gone = elim (Option-cases (find (page_addr x) m)) [
    | inl e ↦ rw (e, view) (ground arith)
    | inr (q, e) ↦ rw (e, view) (ground (arith, page_addr_lem x))
  ]

  protect_pages-view :
      (n a x : ℕ) (h : Heap)
      → a % 0x1000 ≡ 0
      → view (protect_pages n a perms m h) m x
        ≡ (if within a n x then with_perm perms (view h m x) else view h m x)
  unfolding protect_pages
  protect_pages-view zero a x h aligned = ground arith
  protect_pages-view (suc n) a x h aligned = elim (Option-cases (find a m)) [
    | inl e ↦
        rw (e, protect_pages)
          (protect_pages-view n (a + 0x1000) x h (omega arith)
            ∙ ground (arith, protect_none-view a x h aligned e))
    | inr (p, e) ↦
        rw (e, protect_pages)
          (protect_pages-view n (a + 0x1000) x (write_cell h p (record (h.cell p) { perm = perms }))
              (omega arith)
            ∙ ground (arith, protect_one-view a p x h aligned e))
  ]

-- In a valid memory, MemProtect of a range of some size whose end lies at least a page below
-- 2^64 gives the mapped addresses on the pages that the range touches the new protection and
-- leaves their bytes, and leaves the rest of the view as it was.
pub mem_protect-view :
    (addr size perms : ℕ) (s : Space) (x : ℕ)
    → IsValid s
    → 0 < size
    → addr + size + 0x1000 < 2 ^ 64
    → view_of (mem_protect addr size perms s) x ≡ (
        if leb (page_addr addr) (page_addr x) && leb (page_addr x) (page_addr (addr + size - 1))
        then with_perm perms (view_of s x)
        else view_of s x)
unfolding mem_protect
mem_protect-view addr size perms s x v some_size small =
    let base = page_addr addr in
    protect_pages-view perms s.pages v.apart (rounds base (range_end addr size)) base x s.heap
      (omega (arith, page_addr_lem addr))
    ∙ rw (touched addr size x some_size small)
