-- ===== src/Cpu/Memory/Table.antt =====
-- The page table under MemMap, MemUnmap, MemProtect and Clone: the laws of the Go map, and that
-- every operation keeps the memory valid.
use golinux.Base.{
  ℕ, zero, suc, ◌+◌, ◌≤◌, ◌<◌, ◌≡◌, refl, true, false, none, some, List, [], ◌∷◌, arith,
  Option-cases, inl, inr, Bool-cases,
}
use golinux.Cpu.Memory.{
  Heap, Space, page_addr, first_mapped, map_one, map_pages, mem_map, misaligned, rounds, invalidate,
  not_aligned, already_mapped, unmap_pages, mem_unmap, protect_pages, mem_protect,
}
use golinux.Cpu.Memory.View.{IsValid, AllBelow}
use golinux.Base.Map.{find, put, delete, find-put, find-delete}
use golinux.Base.Word.{◌+w◌}

pub AllBelow-mono : (n k : ℕ) (m : List (ℕ × ℕ)) → n ≤ k → AllBelow n m → AllBelow k m
AllBelow-mono n k [] h b = tt
AllBelow-mono n k ((a, p) ∷ m) h b = (omega arith, AllBelow-mono n k m h b.1)

pub find-below : (n k p : ℕ) (m : List (ℕ × ℕ)) → AllBelow n m → find k m ≡ some p → p < n
unfolding find
find-below n k p [] b e = cc
find-below n k p ((j, q) ∷ m) b e = ground (arith, find-below n k p m b.1)

pub put-AllBelow : (n j p : ℕ) (m : List (ℕ × ℕ)) → p < n → AllBelow n m → AllBelow n (put j p m)
unfolding put
put-AllBelow n j p [] h b = (h, tt)
put-AllBelow n j p ((i, w) ∷ m) h b = ground (arith, put-AllBelow n j p m h b.1)

delete-AllBelow : (n j : ℕ) (m : List (ℕ × ℕ)) → AllBelow n m → AllBelow n (delete j m)
unfolding delete
delete-AllBelow n j [] b = tt
delete-AllBelow n j ((i, w) ∷ m) b = ground (arith, delete-AllBelow n j m b.1)

-- A page table whose pointers are allocated and not shared.
pub record IsTable (next : ℕ) (pages : List (ℕ × ℕ)) : Type 0 where
  pub below : AllBelow next pages
  pub apart : (a b p : ℕ) → find a pages ≡ some p → find b pages ≡ some p → a ≡ b

pub IsValid-IsTable : (s : Space) → IsValid s → IsTable s.heap.next s.pages
IsValid-IsTable s v = record { below = v.below; apart = v.apart }

pub put-IsTable : (n a : ℕ) (m : List (ℕ × ℕ)) → IsTable n m → IsTable (suc n) (put a n m)
put-IsTable n a m t = record {
  below =
      put-AllBelow (suc n) a n m (omega arith) (AllBelow-mono n (suc n) m (omega arith) t.below);
  apart = λ b c p e f. ground (
    arith,
    find-put b a n m,
    find-put c a n m,
    find-below n b p m t.below,
    find-below n c p m t.below,
    t.apart b c p,
  );
}

delete-IsTable : (n a : ℕ) (m : List (ℕ × ℕ)) → IsTable n m → IsTable n (delete a m)
delete-IsTable n a m t = record {
  below = delete-AllBelow n a m t.below;
  apart = λ b c p e f. ground (arith, find-delete b a m, find-delete c a m, t.apart b c p);
}

map_pages-IsTable :
    (n a perms : ℕ) (s : Space)
    → IsTable s.heap.next s.pages
    → IsTable (map_pages n a perms s).heap.next (map_pages n a perms s).pages
unfolding map_pages
map_pages-IsTable zero a perms s t = t
map_pages-IsTable (suc n) a perms s t =
    map_pages-IsTable n (a + 0x1000) perms (map_one a perms s) (put-IsTable s.heap.next a s.pages t)

unmap_pages-IsTable :
    (n next a : ℕ) (m : List (ℕ × ℕ)) → IsTable next m → IsTable next (unmap_pages n a m)
unfolding unmap_pages
unmap_pages-IsTable zero next a m t = t
unmap_pages-IsTable (suc n) next a m t =
    unmap_pages-IsTable n next (a + 0x1000) (delete a m) (delete-IsTable next a m t)

protect_pages-next :
    (n a perms : ℕ) (m : List (ℕ × ℕ)) (h : Heap) → (protect_pages n a perms m h).next ≡ h.next
unfolding protect_pages
protect_pages-next zero a perms m h = refl
protect_pages-next (suc n) a perms m h = elim (Option-cases (find a m)) [
  | inl e ↦ rw (e, protect_pages) (protect_pages-next n (a + 0x1000) perms m h)
  | inr (p, e) ↦ rw (e, protect_pages) (protect_pages-next n (a + 0x1000) perms m _)
]

pub mem_map-misaligned :
    (addr size perms : ℕ) (s : Space)
    → misaligned addr size ≡ true
    → mem_map addr size perms s ≡ (some not_aligned, s)
unfolding mem_map
mem_map-misaligned addr size perms s e = rw (e, mem_map)

pub mem_map-occupied :
    (addr size perms a : ℕ) (s : Space)
    → misaligned addr size ≡ false
    → first_mapped (rounds addr (addr +w size)) addr s.pages ≡ some a
    → mem_map addr size perms s ≡ (some (already_mapped a), s)
unfolding mem_map
mem_map-occupied addr size perms a s e f = rw (e, f, mem_map)

pub mem_map-free :
    (addr size perms : ℕ) (s : Space)
    → misaligned addr size ≡ false
    → first_mapped (rounds addr (addr +w size)) addr s.pages ≡ none
    → mem_map addr size perms s
      ≡ (none, invalidate (map_pages (rounds addr (addr +w size)) addr perms s))
unfolding mem_map
mem_map-free addr size perms s e f = rw (e, f, mem_map)

-- MemMap keeps a memory valid, whether it succeeds or not.
pub mem_map-IsValid :
    (addr size perms : ℕ) (s : Space) → IsValid s → IsValid (mem_map addr size perms s).1
mem_map-IsValid addr size perms s v = elim (Bool-cases (misaligned addr size)) [
  | inl e ↦ rw (mem_map-misaligned addr size perms s e) v
  | inr e ↦ elim (Option-cases (first_mapped (rounds addr (addr +w size)) addr s.pages)) [
    | inr (a, f) ↦ rw (mem_map-occupied addr size perms a s e f) v
    | inl f ↦
        let t = map_pages-IsTable (rounds addr (addr +w size)) addr perms s (IsValid-IsTable s v) in
        rw (mem_map-free addr size perms s e f)
          (record { cached = λ x. cc; below = t.below; apart = t.apart })
  ]
]

-- MemUnmap keeps a memory valid.
pub mem_unmap-IsValid : (addr size : ℕ) (s : Space) → IsValid s → IsValid (mem_unmap addr size s)
unfolding mem_unmap
mem_unmap-IsValid addr size s v =
    let t = unmap_pages-IsTable _ s.heap.next (page_addr addr) s.pages (IsValid-IsTable s v) in
    record { cached = λ e. cc; below = t.below; apart = t.apart }

-- MemProtect keeps a memory valid.
pub mem_protect-IsValid :
    (addr size perms : ℕ) (s : Space) → IsValid s → IsValid (mem_protect addr size perms s)
unfolding mem_protect
mem_protect-IsValid addr size perms s v = record {
  cached = λ e. cc;
  below = rw protect_pages-next v.below;
  apart = v.apart;
}
