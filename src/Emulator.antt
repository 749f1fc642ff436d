-- ===== src/Emulator.antt =====
-- internal/emulator/emulator.go: the address space of a process: brk, mmap and the segments of an image. A Process
-- has the engine's memory and the fields for these; the methods of Engine forward to the memory.
pub mod Heap
mod Tests
use golinux.Base.{
  ℕ, ◌+◌, ◌-◌, ◌^◌, bit_and, bit_or, Bool, not, ◌&&◌, ◌||◌, ltb, leb, ◌==◌, if◌then◌else◌, Option,
  none, some, List, [], ◌∷◌,
}
use golinux.Base.Word.{◌+w◌, ◌-w◌, to_word}
use golinux.Cpu.Memory.{Space, MapError, page_addr, mem_map, mem_unmap, mem_protect}
use golinux.Cpu.Memory.Copy.{mem_write}
use golinux.Cpu.Memory.{Fault}
use golinux.Cpu.Operand.{u64_to_le}
use golinux.Elf.{ElfError, ProgramHeader, pt_load, is_pie, Result, ok, error, panic, ran_out, Image}
use golinux.Elf.Load.{Segment, load_segments}
use golinux.Elf.Tables.{Rela, relocations}

pub record Process : Type 0 where
  pub space : Space
  pub brk_start : ℕ
  pub brk_cur : ℕ
  pub brk_mapped_end : ℕ
  pub mmap_next : ℕ

abbrev pub mmap_max : ℕ
mmap_max = 0x6fffffff0000

abbrev pub page_align_down : ℕ → ℕ
page_align_down x = page_addr x

unfoldable pub page_align_up : ℕ → ℕ
page_align_up x = page_addr (x +w 0xfff)

abbrev pub bit_if : ℕ → ℕ → ℕ → ℕ
bit_if value mask bit = if bit_and value mask == 0 then 0 else bit

-- PROT_READ, PROT_WRITE and PROT_EXEC are 1, 2 and 4, and so are the engine's bits.
unfoldable pub prot_to_engine : ℕ → ℕ
prot_to_engine prot = bit_or (bit_or (bit_if prot 1 1) (bit_if prot 2 2)) (bit_if prot 4 4)

abbrev pub grown : ℕ → Process → Option MapError × Space → ℕ × Process
grown addr p (some e, s) = (p.brk_cur, record p { space = s })
grown addr p (none, s) =
    (addr, record p { space = s; brk_mapped_end = page_align_up addr; brk_cur = addr })

unfoldable pub do_brk : ℕ → Process → ℕ × Process
do_brk addr p =
    let need_end = page_align_up addr in
    if (addr == 0) || ltb addr p.brk_start
    then (p.brk_cur, p)
    else if ltb p.brk_mapped_end need_end
    then grown addr p (mem_map p.brk_mapped_end (need_end -w p.brk_mapped_end) 3 p.space)
    else (addr, record p { brk_cur = addr })

-- mmap reports a failed MemMap, or an arena that is used up.
pub data MmapError : Type 0 where
  not_mapped : MapError → MmapError
  exhausted : MmapError

pub data Mapped : Type 0 where
  at : ℕ → Mapped
  refused : MmapError → Mapped

abbrev pub placed : ℕ → ℕ → Process → Option MapError × Space → Mapped × Process
placed base next p (some e, s) = (refused (not_mapped e), record p { space = s })
placed base next p (none, s) = (at base, record p { space = s; mmap_next = next })

-- MAP_FIXED replaces what is there; other mappings go to the next free place of the arena.
unfoldable pub place : ℕ → ℕ → ℕ → ℕ → Process → Mapped × Process
place addr length perms flags p =
    let base = page_align_down addr in
    let next = p.mmap_next +w length in
    if not (bit_and flags 0x10 == 0) && not (addr == 0)
    then placed base p.mmap_next p (mem_map base length perms (mem_unmap base length p.space))
    else if ltb mmap_max next
    then (refused exhausted, p)
    else placed p.mmap_next next p (mem_map p.mmap_next length perms p.space)

abbrev pub fill : Mapped × Process → Option (List ℕ) → Mapped × Process
fill (at base, p) (some bytes) = (at base, record p { space = (mem_write base bytes p.space).1 })
fill r none = r
fill (refused e, p) (some bytes) = (refused e, p)

-- What a descriptor's file gives at an offset, or none if it is not open, cannot be read so, or fails.
module _ (read_file : ℕ → ℕ → ℕ → Option (List ℕ)) where
  unfoldable pub do_mmap : ℕ → ℕ → ℕ → ℕ → ℕ → ℕ → Process → Mapped × Process
  do_mmap addr length₀ prot flags fd offset p =
      let length = page_align_up length₀ in
      let r = place addr length (prot_to_engine prot) flags p in
      fill r (if bit_and flags 0x20 == 0 then read_file fd length offset else none)

unfoldable pub do_munmap : ℕ → ℕ → Process → Process
do_munmap addr length p = record p {
  space = mem_unmap (page_align_down addr) (page_align_up length) p.space;
}

unfoldable pub do_mprotect : ℕ → ℕ → ℕ → Process → Process
do_mprotect addr length prot p = record p {
  space = mem_protect (page_align_down addr) (page_align_up length) (prot_to_engine prot) p.space;
}

-- PF_R, PF_W and PF_X are 4, 2 and 1.
unfoldable pub segment_perms : ℕ → ℕ
segment_perms flags =
    let perms =
      prot_to_engine (bit_or (bit_or (bit_if flags 4 1) (bit_if flags 2 2)) (bit_if flags 1 4)) in
    if perms == 0 then 7 else perms

-- How far the image goes, 0 where the code returns no address; or why loading failed. `cut_off` is no behaviour of
-- the code: it comes from a loop cut off.
pub data Loaded : Type 0 where
  top_at : ℕ → Loaded
  image_error : ElfError → Loaded
  write_fault : Fault → Loaded
  image_panic cut_off : Loaded

abbrev pub with_image :
    {A : Type 0} → Result A → Process → (A → Loaded × Process) → Loaded × Process
with_image (ok a) p next = next a
with_image (error x) p next = (image_error x, p)
with_image panic p next = (image_panic, p)
with_image ran_out p next = (cut_off, p)

abbrev pub segment_end : ℕ → Segment → ℕ
segment_end bias seg = page_align_up (seg.vaddr +w bias +w seg.memsz)

abbrev pub mapped_segment : ℕ → Segment → Process → Option Fault × Space
mapped_segment bias seg p =
    let base = page_align_down (seg.vaddr +w bias) in
    mem_write (seg.vaddr +w bias) seg.bytes
      (mem_map base (segment_end bias seg -w base) (segment_perms seg.flags) p.space).1

abbrev pub after_write :
    Option Fault × Space → Process → (Process → Loaded × Process) → Loaded × Process
after_write (some x, s) p next = (write_fault x, record p { space = s })
after_write (none, s) p next = next (record p { space = s })

unfoldable pub map_each : ℕ → ℕ → List Segment → Process → Loaded × Process
map_each bias top [] p = (top_at top, p)
map_each bias top (seg ∷ segs) p =
    let end = segment_end bias seg in
    after_write (mapped_segment bias seg p) p
      (λ q. map_each bias (if ltb top end then end else top) segs q)

unfoldable pub apply_each : ℕ → List Rela → Process → Loaded × Process
apply_each bias [] p = (top_at 0, p)
apply_each bias (r ∷ rs) p =
    if r.type == 8
    then after_write (mem_write (bias +w r.offset) (u64_to_le (bias +w to_word r.addend) 8) p.space)
        p (λ q. apply_each bias rs q)
    else apply_each bias rs p

unfoldable pub map_segments : ℕ → Image → ℕ → Process → Loaded × Process
map_segments max_alloc img bias p =
    with_image (load_segments max_alloc img) p (λ segs. map_each bias 0 segs p)

unfoldable pub apply_relocations : Image → ℕ → Process → Loaded × Process
apply_relocations img bias p = with_image (relocations img) p (λ rs. apply_each bias rs p)

abbrev pub holds_headers : ℕ → ProgramHeader → Bool
holds_headers phoff ph =
    (ph.type == pt_load) && (leb ph.offset phoff && ltb phoff (ph.offset +w ph.filesz))

unfoldable pub find_headers : ℕ → ℕ → List ProgramHeader → ℕ
find_headers phoff bias [] = phoff +w bias
find_headers phoff bias (ph ∷ phs) =
    if holds_headers phoff ph
    then (ph.vaddr -w ph.offset) +w phoff +w bias
    else find_headers phoff bias phs

unfoldable pub phdr_runtime_addr : Image → ℕ → ℕ
phdr_runtime_addr img bias =
    if is_pie img then bias +w img.phoff else find_headers img.phoff bias img.segments
