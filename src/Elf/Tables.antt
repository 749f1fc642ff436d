-- ===== src/Elf/Tables.antt =====
-- The dynamic section and the relocation tables.
pub mod Termination
use golinux.Base.{
  ℕ, zero, suc, ◌+◌, ◌*◌, ◌/◌, ◌%◌, ◌^◌, Bool, true, false, not, ◌&&◌, ltb, leb, ◌==◌,
  if◌then◌else◌, Option, none, some, List, [], ◌∷◌, ◌++◌, length,
}
use golinux.Base.Int.{ℤ}
use golinux.Base.Word.{◌+w◌, u32, signed}
use golinux.Elf.{
  dynamic_out_of_range, unbacked_table, table_out_of_range, Result, ok, ran_out, ◌>>=◌, return,
  require, slice, little_endian, ProgramHeader, Image, pt_dynamic,
}
use golinux.Elf.Load.{vaddr_to_file_offset}

abbrev pub dt_pltrelsz : ℕ
dt_pltrelsz = 2

abbrev pub dt_rela : ℕ
dt_rela = 7

abbrev pub dt_relasz : ℕ
dt_relasz = 8

abbrev pub dt_pltrel : ℕ
dt_pltrel = 20

abbrev pub dt_jmprel : ℕ
dt_jmprel = 23

-- A tag is kept as its bit pattern: it is only compared with constants.
pub record DynEntry : Type 0 where
  pub tag : ℕ
  pub val : ℕ

pub record Rela : Type 0 where
  pub offset : ℕ
  pub type : ℕ
  pub sym : ℕ
  pub addend : ℤ

-- An 8-byte integer of the file.
abbrev pub word_at : List ℕ → ℕ → Result ℕ
word_at bytes off = do raw ← slice bytes off (off +w 8); return (little_endian raw)

abbrev pub then_entries : {A : Type 0} → Result (List A) → Option A → Result (List A)
then_entries rest none = ok []
then_entries rest (some a) = rest >>= λ more. ok (a ∷ more)

-- `for off := ...; off+size <= end; off += size`, where an entry of `none` breaks the loop.
unfoldable pub entries : {A : Type 0} → ℕ → (ℕ → Result (Option A)) → ℕ → ℕ → ℕ → Result (List A)
entries size read end zero off = ran_out
entries size read end (suc n) off =
    let rest = entries size read end n (off +w size) in
    if leb (off +w size) end then read off >>= then_entries rest else ok []

-- Every round reads at least one byte that no other round reads.
abbrev pub rounds : List ℕ → ℕ
rounds bytes = suc (length bytes)

unfoldable pub read_dyn : List ℕ → ℕ → Result (Option DynEntry)
read_dyn bytes off = do
  tag ← word_at bytes off
  val ← word_at bytes (off +w 8)
  return (if tag == 0 then none else some (record { tag = tag; val = val }))

unfoldable pub find_dynamic : List ProgramHeader → Option ProgramHeader
find_dynamic [] = none
find_dynamic (ph ∷ phs) = if ph.type == pt_dynamic then some ph else find_dynamic phs

abbrev pub dynamic_entries : Image → Option ProgramHeader → Result (List DynEntry)
dynamic_entries img none = ok []
dynamic_entries img (some dyn) =
    let end = dyn.offset +w dyn.filesz in
    require (leb end (length img.bytes)) dynamic_out_of_range
      (entries 16 (read_dyn img.bytes) end (rounds img.bytes) dyn.offset)

unfoldable pub parse_dynamic : Image → Result (List DynEntry)
parse_dynamic img = dynamic_entries img (find_dynamic img.segments)

unfoldable pub read_rela : List ℕ → ℕ → Result (Option Rela)
read_rela bytes off = do
  offset ← word_at bytes off
  info ← word_at bytes (off +w 8)
  addend ← word_at bytes (off +w 16)
  return (
      some (record {
        offset = offset;
        type = u32 info;
        sym = info / 2 ^ 32;
        addend = signed 64 addend;
      }))

abbrev pub rela_entries : Image → ℕ → Option ℕ → Result (List Rela)
rela_entries img size none = Result.error unbacked_table
rela_entries img size (some off) =
    let end = off +w size in
    require (leb end (length img.bytes)) table_out_of_range
      (entries 24 (read_rela img.bytes) end (rounds img.bytes) off)

unfoldable pub read_rela_table : Image → ℕ → ℕ → Result (List Rela)
read_rela_table img vaddr size =
    if size == 0 then ok [] else rela_entries img size (vaddr_to_file_offset img vaddr)

pub record TableTags : Type 0 where
  pub rela_vaddr : ℕ
  pub rela_size : ℕ
  pub jmprel_vaddr : ℕ
  pub pltrelsz : ℕ
  pub pltrel_is_rela : Bool

unfoldable pub note_tag : DynEntry → TableTags → TableTags
note_tag e t =
    if e.tag == dt_rela
    then record t { rela_vaddr = e.val }
    else if e.tag == dt_relasz
    then record t { rela_size = e.val }
    else if e.tag == dt_jmprel
    then record t { jmprel_vaddr = e.val }
    else if e.tag == dt_pltrelsz
    then record t { pltrelsz = e.val }
    else if e.tag == dt_pltrel
    then record t { pltrel_is_rela = e.val == dt_rela }
    else t

unfoldable pub note_tags : List DynEntry → TableTags → TableTags
note_tags [] t = t
note_tags (e ∷ es) t = note_tags es (note_tag e t)

abbrev pub no_tags : TableTags
no_tags = record {
  rela_vaddr = 0;
  rela_size = 0;
  jmprel_vaddr = 0;
  pltrelsz = 0;
  pltrel_is_rela = false;
}

abbrev pub table_if : Bool → Image → ℕ → ℕ → Result (List Rela)
table_if b img vaddr size = if b then read_rela_table img vaddr size else ok []

abbrev pub rela_table : Image → TableTags → Result (List Rela)
rela_table img t =
    table_if (not (t.rela_vaddr == 0) && not (t.rela_size == 0)) img t.rela_vaddr t.rela_size

abbrev pub plt_table : Image → TableTags → Result (List Rela)
plt_table img t =
    table_if (not (t.jmprel_vaddr == 0) && (not (t.pltrelsz == 0) && t.pltrel_is_rela)) img
      t.jmprel_vaddr t.pltrelsz

abbrev pub both_tables : Image → TableTags → Result (List Rela)
both_tables img t = do rela ← rela_table img t; plt ← plt_table img t; return (rela ++ plt)

unfoldable pub relocations : Image → Result (List Rela)
relocations img = do found ← parse_dynamic img; both_tables img (note_tags found no_tags)
