-- ===== src/Elf.antt =====
-- internal/elfload/elf.go: the header and the program header table of an ELF64 file. Its tables are in the children.
pub mod Headers
pub mod Load
pub mod Tables
mod Tests
use golinux.Base.{
  ℕ, zero, suc, ◌+◌, ◌-◌, ◌*◌, ◌^◌, Bool, true, false, not, ◌&&◌, ◌||◌, ltb, leb, ◌==◌,
  if◌then◌else◌, List, [], ◌∷◌, ◌++◌, length, take, drop,
}
use golinux.Base.Word.{◌+w◌, ◌*w◌}

-- The errors that the package returns, without their texts.
pub data ElfError : Type 0 where
  not_elf only_64_bit only_little_endian only_x86_64 truncated_table interp_out_of_range : ElfError
  load_out_of_range dynamic_out_of_range unbacked_table table_out_of_range : ElfError

-- A function returns a value or an error, or panics. `ran_out` is no behaviour of the code: it marks a loop cut off.
pub data Result (A : Type 0) : Type 0 where
  ok : A → Result A
  error : ElfError → Result A
  panic ran_out : Result A

infixl 5 ◌>>=◌
abbrev pub ◌>>=◌ : {A B : Type 0} → Result A → (A → Result B) → Result B
ok a >>= f = f a
error x >>= f = error x
panic >>= f = panic
ran_out >>= f = ran_out

abbrev pub return : {A : Type 0} → A → Result A
return = ok

-- An early return when a check fails.
abbrev pub require : {A : Type 0} → Bool → ElfError → Result A → Result A
require b x r = if b then r else error x

-- data[lo:hi]. Every slice of the package ends within the length of its data or starts past it.
unfoldable pub slice : List ℕ → ℕ → ℕ → Result (List ℕ)
slice bytes lo hi =
    if leb lo hi && leb hi (length bytes) then ok (take (hi - lo) (drop lo bytes)) else panic

-- binary.LittleEndian
unfoldable pub little_endian : List ℕ → ℕ
little_endian [] = 0
little_endian (b ∷ bs) = b + 256 * little_endian bs

-- The integer of `n` bytes at an offset within `data`.
abbrev pub field : List ℕ → ℕ → ℕ → ℕ
field bytes off n = little_endian (take n (drop off bytes))

pub record ProgramHeader : Type 0 where
  pub type : ℕ
  pub flags : ℕ
  pub offset : ℕ
  pub vaddr : ℕ
  pub paddr : ℕ
  pub filesz : ℕ
  pub memsz : ℕ
  pub align : ℕ

pub record Image : Type 0 where
  pub path : List ℕ
  pub bytes : List ℕ
  pub type : ℕ
  pub entry : ℕ
  pub phoff : ℕ
  pub phentsize : ℕ
  pub phnum : ℕ
  pub segments : List ProgramHeader
  pub interp : List ℕ

abbrev pub et_dyn : ℕ
et_dyn = 3

abbrev pub pt_load : ℕ
pt_load = 1

abbrev pub pt_dynamic : ℕ
pt_dynamic = 2

abbrev pub pt_interp : ℕ
pt_interp = 3

abbrev pub ehdr_size : ℕ
ehdr_size = 64

abbrev pub phdr_size : ℕ
phdr_size = 56

unfoldable pub is_pie : Image → Bool
is_pie img = img.type == et_dyn

unfoldable pub program_header : List ℕ → ProgramHeader
program_header d = record {
  type = field d 0 4;
  flags = field d 4 4;
  offset = field d 8 8;
  vaddr = field d 16 8;
  paddr = field d 24 8;
  filesz = field d 32 8;
  memsz = field d 40 8;
  align = field d 48 8;
}

-- The position of the first byte `c`, or -1, is looked for only to cut a string there.
unfoldable pub before : ℕ → List ℕ → List ℕ
before c [] = []
before c (b ∷ bs) = if b == c then [] else b ∷ before c bs

unfoldable pub interp_of : List ℕ → ProgramHeader → List ℕ → Result (List ℕ)
interp_of bytes ph interp =
    if ph.type == pt_interp
    then (let end = ph.offset +w ph.filesz in
        require (leb end (length bytes)) interp_out_of_range
          (do raw ← slice bytes ph.offset end; return (before 0 raw)))
    else ok interp

-- `off+phdrSize > len(data)` on signed integers: a sum from 2^63 on is negative.
abbrev pub is_past : ℕ → List ℕ → Bool
is_past end bytes = ltb end (2 ^ 63) && ltb (length bytes) end

abbrev pub header_offset : Image → ℕ → ℕ
header_offset img i = img.phoff +w (i *w img.phentsize)

-- The loop over the program header table, with `n` rounds left from round `i` on.
unfoldable pub read_headers : ℕ → ℕ → Image → Result Image
read_headers zero i img = ok img
read_headers (suc n) i img = do
  let off = header_offset img i
  raw ←
      require (not (is_past (off +w phdr_size) img.bytes)) truncated_table
        (slice img.bytes off (off +w phdr_size))
  let ph = program_header raw
  interp ← interp_of img.bytes ph img.interp
  read_headers n (suc i) (record img { segments = img.segments ++ ph ∷ []; interp = interp })

-- "\x7fELF", read as a little-endian integer.
abbrev pub is_magic : List ℕ → Bool
is_magic bytes = field bytes 0 4 == 0x464C457F

-- "<mem>" stands for an empty path.
abbrev pub path_or_mem : List ℕ → List ℕ
path_or_mem [] = 60 ∷ 109 ∷ 101 ∷ 109 ∷ 62 ∷ []
path_or_mem (c ∷ path) = c ∷ path

abbrev pub image_of : List ℕ → List ℕ → Image
image_of bytes path = record {
  path = path_or_mem path;
  bytes = bytes;
  type = field bytes 16 2;
  entry = field bytes 24 8;
  phoff = field bytes 32 8;
  phentsize = field bytes 54 2;
  phnum = field bytes 56 2;
  segments = [];
  interp = [];
}

unfoldable pub parse_bytes : List ℕ → List ℕ → Result Image
parse_bytes bytes path = require (leb ehdr_size (length bytes) && is_magic bytes) not_elf (
    require (field bytes 4 1 == 2) only_64_bit (
      require (field bytes 5 1 == 1) only_little_endian (
        require (field bytes 18 2 == 0x3E) only_x86_64
          (read_headers (field bytes 56 2) 0 (image_of bytes path)))))
