-- ===== src/Cpu/Memory/Tests.antt =====
-- The theorems on memory at a small address space: pages at 0x1000 (rwx) and 0x2000 (r).
use golinux.Base.{
  ◌↔◌, true, ℕ, ◌≡◌, refl, ltb, leb, ◌&&◌, if◌then◌else◌, none, some, List, [], ◌∷◌, arith,
}
use golinux.Base.Map.{find, put}
use golinux.Cpu.Memory.{
  Space, page_addr, new_memory, fresh_page, first_mapped, map_pages, mem_map, mem_unmap,
  mem_protect, lookup_result, lookup_space, consume_code_dirty,
}
use golinux.Cpu.Memory.Copy.{
  ok, allowed, same_bytes, page_bytes, copy_out, write_chunk, copy_in, write_checked, mem_read,
  mem_write,
}
use golinux.Cpu.Memory.View.{view, view_of, read_view, write_view, IsValid}
use golinux.Cpu.Memory.Reads.{copy_out-eq-read_view}
use golinux.Cpu.Memory.Writes.{outcome, copy_in-eq-write_view}
use golinux.Cpu.Memory.RoundTrip.{mem_write-mem_read}
use golinux.Cpu.Memory.Table.{mem_map-IsValid}
use golinux.Cpu.Memory.Mapping.{zeroed, mem_map-view, mem_map_succeeds_iff, mem_unmap-view}
use golinux.Cpu.Memory.Protect.{with_perm, mem_protect-view}
use golinux.Cpu.Memory.Dirty.{copy_in-clean}
use golinux.Cpu.Memory.Operations.{map, write, read, clone_child, apply_all, apply_all-IsValid}
use golinux.Cpu.Memory.Clone.{parent, child}
use golinux.Cpu.Memory.Independence.{clone-write_checked}

abbrev empty_space : Space
empty_space = record { heap = record { cell = λ q. fresh_page 0; next = 1 }; mem = new_memory }

empty_space-IsValid : IsValid empty_space
unfolding find
empty_space-IsValid = record { cached = λ e. cc; below = tt; apart = λ a b p e f. cc }

abbrev two_pages : Space
two_pages = (mem_map 0x2000 0x1000 1 (mem_map 0x1000 0x1000 7 empty_space).1).1

two_pages-IsValid : IsValid two_pages
two_pages-IsValid =
    mem_map-IsValid 0x2000 0x1000 1 _
      (mem_map-IsValid 0x1000 0x1000 7 empty_space empty_space-IsValid)

-- The same with `codeDirty` consumed.
abbrev quiet : Space
quiet = (consume_code_dirty two_pages).1

quiet-IsValid : IsValid quiet
quiet-IsValid = record {
  cached = two_pages-IsValid.cached;
  below = two_pages-IsValid.below;
  apart = two_pages-IsValid.apart;
}

abbrev three_bytes : List ℕ
three_bytes = 7 ∷ 8 ∷ 9 ∷ []

-- A read across both pages.
copy_out_example : (copy_out 4 0x1ffe 4 1 two_pages).0 ≡ read_view (view_of two_pages) 0x1ffe 4 1
copy_out_example =
    copy_out-eq-read_view 4 0x1ffe 4 1 two_pages two_pages-IsValid (omega arith) (omega arith)

-- A write that faults at the second page.
copy_in_example :
    outcome (copy_in 3 0x1ffe three_bytes 2 two_pages)
    ≡ write_view (view_of two_pages) 0x1ffe three_bytes 2
copy_in_example =
    copy_in-eq-write_view 3 0x1ffe three_bytes 2 two_pages two_pages-IsValid (omega arith)
      (omega arith)

mem_write-mem_read_example :
    (mem_read 0x1ffe 3 (mem_write 0x1ffe three_bytes two_pages).1).0 ≡ ok three_bytes
unfolding mem_write copy_in mem_map find put page_addr lookup_result lookup_space allowed
    first_mapped map_pages write_chunk
mem_write-mem_read_example =
    mem_write-mem_read 0x1ffe three_bytes two_pages two_pages-IsValid (omega arith) (omega arith)
      refl

-- Zeros written over the zeros of an executable page.
copy_in-clean_example :
    view_of (copy_in 1 0x1000 (0 ∷ []) 2 quiet).1 0x1000 ≡ some (record { byte = 0; perm = 7 })
unfolding copy_in mem_map find put page_addr lookup_result lookup_space allowed first_mapped
    map_pages write_chunk same_bytes page_bytes view
copy_in-clean_example =
    copy_in-clean 1 0x1000 (0 ∷ []) 2 quiet 0x1000 (record { byte = 0; perm = 7 }) quiet-IsValid
      refl refl refl

mem_map-view_example :
    view_of (mem_map 0x4000 0x2000 3 two_pages).1 0x5fff
    ≡ (if leb 0x4000 0x5fff && ltb 0x5fff 0x6000 then zeroed 3 else view_of two_pages 0x5fff)
unfolding mem_map first_mapped find put map_pages
mem_map-view_example =
    mem_map-view 0x4000 0x2000 3 two_pages two_pages-IsValid (omega arith) refl 0x5fff

mem_unmap-view_example : view_of (mem_unmap 0x1800 0x10 two_pages) 0x1000 ≡ (
    if leb (page_addr 0x1800) (page_addr 0x1000) && leb (page_addr 0x1000) (page_addr 0x180f)
    then none
    else view_of two_pages 0x1000)
mem_unmap-view_example = mem_unmap-view 0x1800 0x10 two_pages 0x1000 (omega arith) (omega arith)

clone-write_checked_example :
    (view (write_checked 0x1000 three_bytes 2 (child two_pages)).1.heap (parent two_pages).pages
      ≡ view_of two_pages)
    × (view (write_checked 0x1000 three_bytes 2 (parent two_pages)).1.heap (child two_pages).pages
        ≡ view_of two_pages)
clone-write_checked_example = clone-write_checked two_pages 0x1000 three_bytes 2 two_pages-IsValid

mem_protect-view_example : view_of (mem_protect 0x1800 0x10 1 two_pages) 0x1000 ≡ (
    if leb (page_addr 0x1800) (page_addr 0x1000) && leb (page_addr 0x1000) (page_addr 0x180f)
    then with_perm 1 (view_of two_pages 0x1000)
    else view_of two_pages 0x1000)
mem_protect-view_example =
    mem_protect-view 0x1800 0x10 1 two_pages 0x1000 two_pages-IsValid (omega arith) (omega arith)

apply_all_example : IsValid (
    apply_all
      (map 0x3000 0x2000 3 ∷ write 0x3ffe (1 ∷ 2 ∷ 3 ∷ []) ∷ clone_child ∷ read 0x3ffe 3 ∷ [])
      two_pages)
apply_all_example =
    apply_all-IsValid
      (map 0x3000 0x2000 3 ∷ write 0x3ffe (1 ∷ 2 ∷ 3 ∷ []) ∷ clone_child ∷ read 0x3ffe 3 ∷ [])
      two_pages two_pages-IsValid

mem_map_succeeds_example :
    ((mem_map 0x4000 0x1000 3 two_pages).0 ≡ none)
    ↔ ((x : ℕ) → leb 0x4000 x && ltb x 0x5000 ≡ true → view_of two_pages x ≡ none)
mem_map_succeeds_example = mem_map_succeeds_iff 0x4000 0x1000 3 two_pages refl (omega arith)
