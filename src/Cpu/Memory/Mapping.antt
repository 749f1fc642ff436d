-- ===== src/Cpu/Memory/Mapping.antt =====
-- MemMap and MemUnmap as changes of the view.
use golinux.Base.{
  ℕ, zero, suc, ◌+◌, ◌-◌, ◌*◌, ◌%◌, ◌^◌, ◌<◌, ◌≡◌, refl, sym, ◌↔◌, ◌∙◌, Bool, true, false, ◌&&◌,
  ltb, leb, if◌then◌else◌, Option, none, some, List, arith, Option-cases, inl, inr, Bool-cases,
}
use golinux.Base.Bits.{and_mask}
use golinux.Base.Map.{find, delete, find-put, find-delete}
use golinux.Base.Word.{◌+w◌, ◌-w◌}
use golinux.Cpu.Memory.{
  Heap, Space, page_addr, misaligned, rounds, first_mapped, map_one, map_pages, mem_map, MapError,
  unmap_pages, mem_unmap, range_end,
}
use golinux.Cpu.Memory.View.{Cell, view, view_of, IsValid, page_addr_lem}
use golinux.Cpu.Memory.Reads.{view-page}
use golinux.Cpu.Memory.Table.{
  find-below, mem_map-misaligned, mem_map-occupied, mem_map-free, IsTable, IsValid-IsTable,
  put-IsTable,
}

-- Whether `x` lies on one of the `n` pages from `a` on.
abbrev pub within : ℕ → ℕ → ℕ → Bool
within a n x = leb a x && ltb x (a + n * 0x1000)

abbrev pub zeroed : ℕ → Option Cell
zeroed perms = some (record { byte = 0; perm = perms })

map_one-view :
    (a perms x : ℕ) (s : Space)
    → IsTable s.heap.next s.pages
    → a % 0x1000 ≡ 0
    → view_of (map_one a perms s) x ≡ (if within a 1 x then zeroed perms else view_of s x)
unfolding view
map_one-view a perms x s t aligned = elim (Option-cases (find (page_addr x) s.pages)) [
  | inl e ↦
      rw (find-put (page_addr x) a s.heap.next s.pages, e, view) (ground (arith, page_addr_lem x))
  | inr (p, e) ↦
      rw (find-put (page_addr x) a s.heap.next s.pages, e, view)
        (ground (arith, page_addr_lem x, find-below s.heap.next (page_addr x) p s.pages t.below e))
]

map_pages-view :
    (n a perms x : ℕ) (s : Space)
    → IsTable s.heap.next s.pages
    → a % 0x1000 ≡ 0
    → view_of (map_pages n a perms s) x ≡ (if within a n x then zeroed perms else view_of s x)
unfolding map_pages
map_pages-view zero a perms x s t aligned = ground arith
map_pages-view (suc n) a perms x s t aligned =
    map_pages-view n (a + 0x1000) perms x (map_one a perms s) (put-IsTable s.heap.next a s.pages t)
      (omega arith)
    ∙ ground (arith, map_one-view a perms x s t aligned)

unmap_pages-view :
    (n a x : ℕ) (h : Heap) (m : List (ℕ × ℕ))
    → a % 0x1000 ≡ 0
    → view h (unmap_pages n a m) x ≡ (if within a n x then none else view h m x)
unfolding unmap_pages
unmap_pages-view zero a x h m aligned = ground arith
unmap_pages-view (suc n) a x h m aligned =
    unmap_pages-view n (a + 0x1000) x h (delete a m) (omega arith) ∙ ground (arith, one)
  where
    one : view h (delete a m) x ≡ (if within a 1 x then none else view h m x)
    one = unfold view in rw (find-delete (page_addr x) a m) (ground (arith, page_addr_lem x))

aligned_parts :
    (addr size : ℕ)
    → misaligned addr size ≡ false
    → (addr % 0x1000 ≡ 0) × (0 < size) × (size % 0x1000 ≡ 0)
aligned_parts addr size e = ground (arith, and_mask 12 addr, and_mask 12 size)

-- The pages of an aligned range that does not wrap are its addresses.
rounds_cover :
    (addr size x : ℕ)
    → addr + size < 2 ^ 64
    → size % 0x1000 ≡ 0
    → within addr (rounds addr (addr +w size)) x ≡ leb addr x && ltb x (addr + size)
rounds_cover addr size x small whole = ground arith

-- In a valid memory, when MemMap of a range that ends below 2^64 returns no error, the range
-- reads as zeros with the given protection, and the rest of the view is as it was.
pub mem_map-view :
    (addr size perms : ℕ) (s : Space)
    → IsValid s
    → addr + size < 2 ^ 64
    → (mem_map addr size perms s).0 ≡ none
    → (x : ℕ)
    → view_of (mem_map addr size perms s).1 x
      ≡ (if leb addr x && ltb x (addr + size) then zeroed perms else view_of s x)
mem_map-view addr size perms s v small done x = elim (Bool-cases (misaligned addr size)) [
  | inl e ↦ absurd (refused (rw (mem_map-misaligned addr size perms s e) at done))
  | inr e ↦ elim (Option-cases (first_mapped (rounds addr (addr +w size)) addr s.pages)) [
    | inr (a, f) ↦ absurd (refused (rw (mem_map-occupied addr size perms a s e f) at done))
    | inl f ↦
        let (at_page, some_size, whole) = aligned_parts addr size e in
        rw (mem_map-free addr size perms s e f) (
          map_pages-view (rounds addr (addr +w size)) addr perms x s (IsValid-IsTable s v) at_page
          ∙ rw (rounds_cover addr size x small whole))
  ]
]
  where
    refused : {e : MapError} → ¬ (some e ≡ none)
    refused h = cc

-- When MemMap returns an error, it has changed nothing.
pub mem_map_atomic :
    (addr size perms : ℕ) (s : Space) (e : MapError)
    → (mem_map addr size perms s).0 ≡ some e
    → (mem_map addr size perms s).1 ≡ s
unfolding mem_map
mem_map_atomic addr size perms s e h = ground arith

first_mapped-view :
    (n a x : ℕ) (h : Heap) (m : List (ℕ × ℕ))
    → first_mapped n a m ≡ none
    → a % 0x1000 ≡ 0
    → within a n x ≡ true
    → view h m x ≡ none
unfolding first_mapped
first_mapped-view zero a x h m free aligned here = absurd (ground arith)
first_mapped-view (suc n) a x h m free aligned here = elim (Option-cases (find a m)) [
  | inr (p, e) ↦ ground arith
  | inl e ↦ elim (Bool-cases (ltb x (a + 0x1000))) [
    | inl near ↦
        let same : page_addr x ≡ a = ground (arith, page_addr_lem x) in unfold view in rw (same, e)
    | inr far ↦ first_mapped-view n (a + 0x1000) x h m (ground arith) (omega arith) (ground arith)
  ]
]

none-ne-some {ℓ} : {A : Type ℓ} {x : A} → ¬ (none ≡ some x)
none-ne-some h = cc

view-first_mapped :
    (n a : ℕ) (h : Heap) (m : List (ℕ × ℕ))
    → a % 0x1000 ≡ 0
    → ((x : ℕ) → within a n x ≡ true → view h m x ≡ none)
    → first_mapped n a m ≡ none
unfolding first_mapped
view-first_mapped zero a h m aligned free = refl
view-first_mapped (suc n) a h m aligned free = elim (Option-cases (find a m)) [
  | inr (p, e) ↦
      let base : page_addr a ≡ a = omega (arith, page_addr_lem a) in
      let shown = view-page h m a p (rw base e) in
      absurd (none-ne-some (sym (free a (ground arith)) ∙ shown))
  | inl e ↦
      rw (e, first_mapped)
        (view-first_mapped n (a + 0x1000) h m (omega arith) (λ x here. free x (ground arith)))
]

-- MemMap of an aligned range of some size that ends exactly at 2^64 returns no error and maps
-- nothing.
mem_map_wraps :
    (addr size perms : ℕ) (s : Space)
    → misaligned addr size ≡ false
    → addr + size ≡ 2 ^ 64
    → (mem_map addr size perms s).0 ≡ none
      × ((x : ℕ) → view_of (mem_map addr size perms s).1 x ≡ view_of s x)
unfolding map_pages first_mapped
mem_map_wraps addr size perms s e whole =
    let nothing : rounds addr (addr +w size) ≡ 0 = omega arith in
    rw (mem_map-free addr size perms s e (rw nothing)) (rw nothing (refl, λ x. refl))

-- MemMap of an aligned range of some size that ends below 2^64 returns no error exactly when no
-- address of the range is mapped.
pub mem_map_succeeds_iff :
    (addr size perms : ℕ) (s : Space)
    → misaligned addr size ≡ false
    → addr + size < 2 ^ 64
    → ((mem_map addr size perms s).0 ≡ none)
      ↔ ((x : ℕ) → leb addr x && ltb x (addr + size) ≡ true → view_of s x ≡ none)
mem_map_succeeds_iff addr size perms s e small = (free, succeeds)
  where
    n : ℕ
    n = rounds addr (addr +w size)

    parts : (addr % 0x1000 ≡ 0) × (0 < size) × (size % 0x1000 ≡ 0)
    parts = aligned_parts addr size e

    cover : (x : ℕ) → within addr n x ≡ leb addr x && ltb x (addr + size)
    cover x = rounds_cover addr size x small parts.2

    free :
        (mem_map addr size perms s).0 ≡ none
        → (x : ℕ) → leb addr x && ltb x (addr + size) ≡ true
        → view_of s x ≡ none
    free done x here = elim (Option-cases (first_mapped n addr s.pages)) [
      | inr (a, f) ↦
          absurd (none-ne-some (sym (rw (mem_map-occupied addr size perms a s e f) at done)))
      | inl f ↦ first_mapped-view n addr x s.heap s.pages f parts.0 (cover x ∙ here)
    ]

    succeeds :
        ((x : ℕ) → leb addr x && ltb x (addr + size) ≡ true → view_of s x ≡ none)
        → (mem_map addr size perms s).0 ≡ none
    succeeds all =
        let f =
          view-first_mapped n addr s.heap s.pages parts.0
            (λ x here. all x (sym (cover x) ∙ here)) in
        rw (mem_map-free addr size perms s e f)

pub touched :
    (addr size x : ℕ)
    → 0 < size
    → addr + size + 0x1000 < 2 ^ 64
    → within (page_addr addr) (rounds (page_addr addr) (range_end addr size)) x
      ≡ leb (page_addr addr) (page_addr x) && leb (page_addr x) (page_addr (addr + size - 1))
touched addr size x some_size small =
    let last : addr +w size -w 1 ≡ addr + size - 1 = omega arith in
    rw last (ground (arith, page_addr_lem addr, page_addr_lem x, page_addr_lem (addr + size - 1)))

-- MemUnmap of a range of some size whose end lies at least a page below 2^64 leaves nothing on
-- the pages that the range touches, and the rest of the view as it was.
pub mem_unmap-view :
    (addr size : ℕ) (s : Space) (x : ℕ)
    → 0 < size
    → addr + size + 0x1000 < 2 ^ 64
    → view_of (mem_unmap addr size s) x ≡ (
        if leb (page_addr addr) (page_addr x) && leb (page_addr x) (page_addr (addr + size - 1))
        then none
        else view_of s x)
unfolding mem_unmap
mem_unmap-view addr size s x some_size small =
    let base = page_addr addr in
    unmap_pages-view (rounds base (range_end addr size)) base x s.heap s.pages
      (omega (arith, page_addr_lem addr))
    ∙ rw (touched addr size x some_size small)
