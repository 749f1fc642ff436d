-- ===== src/Elf/Tests.antt =====
-- The theorems on a small file: the ELF header, one PT_LOAD header, one PT_DYNAMIC header, and a dynamic section.
use golinux.Base.{
  ℕ, zero, suc, ◌+◌, ◌-◌, ◌*◌, ◌/◌, ◌%◌, ◌≤◌, ◌<◌, ◌≡◌, ◌≢◌, refl, Bool, true, false, List, [], ◌∷◌,
  ◌++◌, ltb, ◌&&◌, length, arith,
}
use golinux.Elf.{
  Result, ok, error, panic, ran_out, slice, little_endian, program_header, Image, interp_of,
  read_headers, image_of, parse_bytes,
}
use golinux.Elf.Headers.{IsBytes, header_table, parse_bytes-header_table}
use golinux.Elf.Load.{Segment, padded, load_segment, load_each, load_segments}
use golinux.Elf.Load.Laws.{AreLoaded, load_segments-AreLoaded}
use golinux.Elf.Tables.{relocations}
use golinux.Elf.Tables.Termination.{relocations-ends}

-- A little-endian integer of `n` bytes.
abbrev bytes_le : ℕ → ℕ → List ℕ
bytes_le zero v = []
bytes_le (suc n) v = v % 256 ∷ bytes_le n (v / 256)

abbrev magic : List ℕ
magic = 127 ∷ 69 ∷ 76 ∷ 70 ∷ 2 ∷ 1 ∷ 1 ∷ 0 ∷ bytes_le 8 0

abbrev ehdr : List ℕ
ehdr =
    magic
    ++ (bytes_le 2 2
        ++ (bytes_le 2 0x3E
            ++ (bytes_le 4 1
                ++ (bytes_le 8 0x400000
                    ++ (bytes_le 8 64
                        ++ (bytes_le 8 0 ++ (bytes_le 6 64 ++ (bytes_le 2 56 ++ bytes_le 8 1))))))))

-- The whole file at 0x400000, with 8 bytes more in memory.
abbrev phdr : List ℕ
phdr =
    bytes_le 4 1
    ++ (bytes_le 4 5
        ++ (bytes_le 8 0
            ++ (bytes_le 8 0x400000
                ++ (bytes_le 8 0 ++ (bytes_le 8 120 ++ (bytes_le 8 128 ++ bytes_le 8 4096))))))

abbrev file : List ℕ
file = ehdr ++ phdr

abbrev all_bytes : List ℕ → Bool
all_bytes [] = true
all_bytes (b ∷ bs) = ltb b 256 && all_bytes bs

both_true : (a b : Bool) → a && b ≡ true → (a ≡ true) × (b ≡ true)
both_true true b h = (refl, h)
both_true false b h = cc

all_bytes-IsBytes : (bs : List ℕ) → all_bytes bs ≡ true → IsBytes bs
all_bytes-IsBytes [] h = tt
all_bytes-IsBytes (b ∷ bs) h =
    let (small, rest) = both_true (ltb b 256) (all_bytes bs) h in
    (ground (arith, small), all_bytes-IsBytes bs rest)

abbrev image_or_empty : Result Image → Image
image_or_empty (ok img) = img
image_or_empty (error x) = image_of [] []
image_or_empty panic = image_of [] []
image_or_empty ran_out = image_of [] []

abbrev parsed : Image
parsed = image_or_empty (parse_bytes file [])

parse_bytes_example :
    (parsed.segments ≡ header_table file 64 56 1 0) × (0 < 1 → 64 + (1 - 1) * 56 + 56 ≤ length file)
unfolding parse_bytes read_headers little_endian slice interp_of program_header
parse_bytes_example =
    parse_bytes-header_table file [] parsed (omega arith) (all_bytes-IsBytes file refl) refl

relocations-ends_example : relocations parsed ≢ ran_out
unfolding parse_bytes read_headers little_endian slice interp_of program_header
relocations-ends_example = relocations-ends parsed (omega arith)

abbrev segment : Segment
segment = record { vaddr = 0x400000; memsz = 128; bytes = padded 128 file; flags = 5 }

load_segments_example : AreLoaded parsed parsed.segments (segment ∷ [])
unfolding parse_bytes read_headers little_endian slice interp_of program_header load_segments
    load_each load_segment padded
load_segments_example =
    load_segments-AreLoaded 0x1000000000000 parsed (segment ∷ [])
      (omega arith, omega arith, omega arith, tt) refl
