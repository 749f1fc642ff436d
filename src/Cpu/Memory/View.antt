-- ===== src/Cpu/Memory/View.antt =====
-- The address space as the guest sees it: at each address a byte and its protection, or nothing;
-- and reads and writes of it one byte at a time.
use golinux.Base.{
  ℕ, zero, suc, ◌-◌, ◌%◌, ◌<◌, ◌≡◌, true, false, ◌==◌, if◌then◌else◌, Option, none, some, List, [],
  ◌∷◌, length, arith,
}
use golinux.Base.Bits.{and_mask}
use golinux.Base.Map.{find}
use golinux.Base.Word.{◌+w◌}
use golinux.Cpu.Memory.{Heap, Space, Fault, page_addr, lookup_result, lookup_space}
use golinux.Cpu.Memory.Copy.{Result, ok, err, allowed, fault_at}

pub record Cell : Type 0 where
  pub byte : ℕ
  pub perm : ℕ

abbrev pub View : Type 0
View = ℕ → Option Cell

abbrev pub cell_at : Heap → ℕ → Option ℕ → Option Cell
cell_at h off none = none
cell_at h off (some p) = some (record { byte = (h.cell p).bytes off; perm = (h.cell p).perm })

unfoldable pub view : Heap → List (ℕ × ℕ) → View
view h pages a = cell_at h (a % 0x1000) (find (page_addr a) pages)

abbrev pub view_of : Space → View
view_of s = view s.heap s.pages

abbrev pub with_byte : ℕ → Option Cell → Option Cell
with_byte b none = none
with_byte b (some c) = some (record c { byte = b })

-- One byte of the view replaced; an address with no page stays without.
unfoldable pub poke : View → ℕ → ℕ → View
poke v a b x = if x == a then with_byte b (v x) else v x

abbrev pub cons_ok : ℕ → Result (List ℕ) → Result (List ℕ)
cons_ok x (ok xs) = ok (x ∷ xs)
cons_ok x (err e) = err e

-- Reads byte by byte. The first address that may not be read is the fault.
unfoldable pub read_view : View → ℕ → ℕ → ℕ → Result (List ℕ)
read_view v a zero perm = ok []
read_view v a (suc n) perm =
    let rest = read_view v (a +w 1) n perm in
    elim (v a) [
      | none ↦ err (fault_at false perm a (suc n))
      | some c ↦
          if allowed perm c.perm then cons_ok c.byte rest else err (fault_at false perm a (suc n))
    ]

-- Writes byte by byte, up to the first address that may not be written.
unfoldable pub write_view : View → ℕ → List ℕ → ℕ → Option Fault × View
write_view v a [] perm = (none, v)
write_view v a (b ∷ bs) perm =
    let rest = write_view (poke v a b) (a +w 1) bs perm in
    let denied : Option Fault × View = (some (fault_at true perm a (suc (length bs))), v) in
    elim (v a) [ none ↦ denied | some c ↦ if allowed perm c.perm then rest else denied ]

-- Every pointer of a page table has been allocated.
abbrev pub AllBelow : ℕ → List (ℕ × ℕ) → Type 0
AllBelow n [] = Unit {0}
AllBelow n ((a, p) ∷ m) = (p < n) × AllBelow n m

-- The cache holds what the map holds, and no two addresses share a page.
pub record IsValid (s : Space) : Type 0 where
  pub cached : s.cached_ok ≡ true → find s.cached_addr s.pages ≡ some s.cached_page
  pub below : AllBelow s.heap.next s.pages
  pub apart : (a b p : ℕ) → find a s.pages ≡ some p → find b s.pages ≡ some p → a ≡ b

pub page_addr_lem : (a : ℕ) → page_addr a ≡ a - a % 0x1000
unfolding page_addr
page_addr_lem a = omega (arith, and_mask 12 a)

-- In a valid memory, lookupPage gives what the page table holds, whether its one-entry cache
-- answers or not.
pub lookup_result-eq-find : (s : Space) (pa : ℕ) → IsValid s → lookup_result s pa ≡ find pa s.pages
unfolding lookup_result
lookup_result-eq-find s pa v = ground (arith, v.cached)

pub lookup_space-view : (s : Space) (pa : ℕ) → view_of (lookup_space s pa) ≡ view_of s
unfolding lookup_space
lookup_space-view s pa = ground arith

pub lookup_space-IsValid : (s : Space) (pa : ℕ) → IsValid s → IsValid (lookup_space s pa)
unfolding lookup_space
lookup_space-IsValid s pa v = ground arith

pub lookup_space-heap : (s : Space) (pa : ℕ) → (lookup_space s pa).heap ≡ s.heap
unfolding lookup_space
lookup_space-heap s pa = ground arith

pub lookup_space-pages : (s : Space) (pa : ℕ) → (lookup_space s pa).pages ≡ s.pages
unfolding lookup_space
lookup_space-pages s pa = ground arith
