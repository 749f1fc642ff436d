-- ===== src/Elf/Load.antt =====
-- The segments to map, and where a virtual address lies in the file.
pub mod Laws
pub mod Addresses
use golinux.Base.{
  ℕ, ◌+◌, ◌-◌, ◌^◌, Bool, not, ◌&&◌, ltb, leb, ◌==◌, if◌then◌else◌, Option, none, some, List, [],
  ◌∷◌, ◌++◌, length, take, drop, replicate,
}
use golinux.Base.Word.{◌+w◌, ◌-w◌}
use golinux.Elf.{
  load_out_of_range, Result, ok, panic, ◌>>=◌, return, require, slice, ProgramHeader, Image,
  pt_load,
}

pub record Segment : Type 0 where
  pub vaddr : ℕ
  pub memsz : ℕ
  pub bytes : List ℕ
  pub flags : ℕ

-- make([]byte, n) and then copy: the bytes of `src`, cut or filled up with zeros to `n`.
unfoldable pub padded : ℕ → List ℕ → List ℕ
padded n src = take n src ++ replicate (n - length src) 0

abbrev pub segment_of : ProgramHeader → List ℕ → Segment
segment_of ph src = record {
  vaddr = ph.vaddr;
  memsz = ph.memsz;
  bytes = padded ph.memsz src;
  flags = ph.flags;
}

-- `make` panics on a length past the run-time limit `max_alloc` of the platform.
module _ (max_alloc : ℕ) where
  unfoldable pub load_segment : Image → ProgramHeader → Result Segment
  load_segment img ph =
      let end = ph.offset +w ph.filesz in
      require (leb end (length img.bytes)) load_out_of_range (
        if ltb max_alloc ph.memsz
        then panic
        else (do src ← slice img.bytes ph.offset end; return (segment_of ph src)))

  unfoldable pub load_each : Image → List ProgramHeader → Result (List Segment)
  load_each img [] = ok []
  load_each img (ph ∷ phs) =
      if ph.type == pt_load
      then (do s ← load_segment img ph; rest ← load_each img phs; return (s ∷ rest))
      else load_each img phs

  unfoldable pub load_segments : Image → Result (List Segment)
  load_segments img = load_each img img.segments

unfoldable pub covers : ℕ → ProgramHeader → Bool
covers v ph = (ph.type == pt_load) && (leb ph.vaddr v && ltb v (ph.vaddr +w ph.filesz))

unfoldable pub find_offset : ℕ → List ProgramHeader → Option ℕ
find_offset v [] = none
find_offset v (ph ∷ phs) =
    if covers v ph then some (ph.offset +w (v -w ph.vaddr)) else find_offset v phs

unfoldable pub vaddr_to_file_offset : Image → ℕ → Option ℕ
vaddr_to_file_offset img v = find_offset v img.segments
