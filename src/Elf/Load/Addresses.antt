-- ===== src/Elf/Load/Addresses.antt =====
-- Where a virtual address lies in the file and in the loaded segments.
use golinux.Base.{
  false, ltb, if◌then◌else◌, ℕ, zero, suc, ◌+◌, ◌-◌, ◌≤◌, ◌<◌, ◌≡◌, true, ◌==◌, some, List, [], ◌∷◌,
  length, get_or, get_elem?,
}
use golinux.Elf.{ProgramHeader, Image, pt_load}
use golinux.Elf.Load.{Segment, covers}

-- How many of the first `n` headers are PT_LOAD.
abbrev pub loads : ℕ → List ProgramHeader → ℕ
loads n [] = 0
loads zero (ph ∷ phs) = 0
loads (suc n) (ph ∷ phs) = if ph.type == pt_load then suc (loads n phs) else loads n phs

-- The header `ph` covers `v`, `off` is where the file has the byte for `v`, and the segment `s` that
-- is loaded for `ph` has that byte at `v`, or ends before it.
pub record Holds (img : Image) (v off : ℕ) (ph : ProgramHeader) (s : Segment) : Type 0 where
  pub load : (ph.type == pt_load) ≡ true
  pub from : ph.vaddr ≤ v
  pub below : v - ph.vaddr < ph.filesz
  pub position : off ≡ ph.offset + (v - ph.vaddr)
  pub inside : off < length img.bytes
  pub same_vaddr : s.vaddr ≡ ph.vaddr
  pub same_memsz : s.memsz ≡ ph.memsz
  pub byte :
      get_or s.bytes (v - ph.vaddr) 0
      ≡ (if ltb (v - ph.vaddr) ph.memsz then get_or img.bytes off 0 else 0)

-- The first of the headers that covers `v`, and the segment that is loaded for it.
pub record Located (img : Image) (phs : List ProgramHeader) (ss : List Segment) (v off : ℕ)
    : Type 0 where
  pub index : ℕ
  pub ph : ProgramHeader
  pub s : Segment
  pub header : get_elem? phs index ≡ some ph
  pub first :
      (i : ℕ) (other : ProgramHeader)
      → i < index
      → get_elem? phs i ≡ some other
      → covers v other ≡ false
  pub segment : get_elem? ss (loads index phs) ≡ some s
  pub holds : Holds img v off ph s
