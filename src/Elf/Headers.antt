-- ===== src/Elf/Headers.antt =====
-- The program header table that a parsed image has.
use golinux.Base.{
  ℕ, zero, suc, ◌+◌, ◌-◌, ◌*◌, ◌^◌, ◌≤◌, ◌<◌, ◌≡◌, refl, ap, ◌∙◌, sym, Bool, true, false, not, ◌&&◌,
  leb, ◌==◌, List, [], ◌∷◌, ◌++◌, length, take, drop, arith,
}
use mathlib.Core.List.{append-nil, append_assoc}
use native.Mathlib.Nat.{mod-eq_of_lt, one-le-pow, pow-suc}
use golinux.Base.Word.{◌+w◌, ◌*w◌}
use golinux.Elf.{
  ElfError, not_elf, only_64_bit, only_little_endian, only_x86_64, truncated_table, Result, ok,
  error, panic, ran_out, ◌>>=◌, require, slice, little_endian, field, ProgramHeader, Image,
  ehdr_size, program_header, interp_of, is_past, header_offset, read_headers, is_magic, image_of,
  parse_bytes,
}

abbrev pub IsBytes : List ℕ → Type 0
IsBytes [] = Unit {0}
IsBytes (b ∷ bs) = (b < 256) × IsBytes bs

drop-IsBytes : (n : ℕ) (bs : List ℕ) → IsBytes bs → IsBytes (drop n bs)
drop-IsBytes zero bs p = p
drop-IsBytes (suc n) [] p = tt
drop-IsBytes (suc n) (b ∷ bs) (p, q) = drop-IsBytes n bs q

little_endian-lt : (n : ℕ) (bs : List ℕ) → IsBytes bs → little_endian (take n bs) < 256 ^ n
unfolding little_endian
little_endian-lt zero bs p = omega arith
little_endian-lt (suc n) [] p = omega (arith, one-le-pow (suc n) 256)
little_endian-lt (suc n) (b ∷ bs) (p, q) = omega (arith, little_endian-lt n bs q, pow-suc 256 n)

-- The headers of `n` entries from entry `i` on, read at offsets that do not wrap around.
abbrev pub header_table : List ℕ → ℕ → ℕ → ℕ → ℕ → List ProgramHeader
header_table bytes phoff size zero i = []
header_table bytes phoff size (suc n) i =
    program_header (take 56 (drop (phoff + i * size) bytes))
    ∷ header_table bytes phoff size n (suc i)

slice-inv :
    (bytes src : List ℕ) (lo hi : ℕ)
    → slice bytes lo hi ≡ ok src
    → (lo ≤ hi) × (hi ≤ length bytes) × (src ≡ take (hi - lo) (drop lo bytes))
unfolding slice
slice-inv bytes src lo hi h = ground arith

bind-inv :
    {A B : Type 0} (r : Result A) (f : A → Result B) (b : B)
    → (r >>= f) ≡ ok b
    → (a : A) × (r ≡ ok a) × (f a ≡ ok b)
bind-inv (ok a) f b h = (a, refl, h)
bind-inv (error x) f b h = cc
bind-inv panic f b h = cc
bind-inv ran_out f b h = cc

require-inv :
    {A : Type 0} (b : Bool) (x : ElfError) (r : Result A) (a : A) → require b x r ≡ ok a → r ≡ ok a
require-inv true x r a h = h
require-inv false x r a h = cc

-- The image that a round leaves.
abbrev after_round : Image → List ℕ → List ℕ → Image
after_round img raw interp = record img {
  segments = img.segments ++ program_header raw ∷ [];
  interp = interp;
}

IsTable : Image → ℕ → ℕ → Image → Type 0
IsTable img n i out =
    (out.segments ≡ img.segments ++ header_table img.bytes img.phoff img.phentsize n i)
    × (0 < n → img.phoff + (i + n - 1) * img.phentsize + 56 ≤ length img.bytes)

within :
    (n i : ℕ) (img : Image)
    → (0 < n → img.phoff + (suc i + n - 1) * img.phentsize + 56 ≤ length img.bytes)
    → img.phoff + i * img.phentsize + 56 ≤ length img.bytes
    → img.phoff + (i + suc n - 1) * img.phentsize + 56 ≤ length img.bytes
within zero i img last here = let e : i + 1 - 1 ≡ i = omega arith in rw e here
within (suc n) i img last here =
    let e : i + suc (suc n) - 1 ≡ suc i + suc n - 1 = omega arith in rw e (last (omega arith))

rounds-IsTable :
    (n i : ℕ) (img out : Image)
    → length img.bytes < 2 ^ 63
    → img.phentsize < 2 ^ 16
    → i + n < 2 ^ 16
    → img.phoff + i * img.phentsize < 2 ^ 64
    → read_headers n i img ≡ ok out
    → IsTable img n i out
unfolding read_headers IsTable
rounds-IsTable zero i img out p q r s h =
    let same : out ≡ img = cc in
    (ap (λ (m : Image). m.segments) same ∙ sym (append-nil img.segments), λ u. omega arith)
rounds-IsTable (suc n) i img out p q r s h =
    let off : ℕ = header_offset img i in
    let (raw, read, h₁) =
      bind-inv
        (require (not (is_past (off +w 56) img.bytes)) truncated_table
          (slice img.bytes off (off +w 56)))
        (λ raw. interp_of img.bytes (program_header raw) img.interp >>= λ interp.
          read_headers n (suc i) (after_round img raw interp))
        out h in
    let (interp, found, h₂) =
      bind-inv (interp_of img.bytes (program_header raw) img.interp)
        (λ interp. read_headers n (suc i) (after_round img raw interp)) out h₁ in
    let (ordered, inside, bytes_read) = slice-inv img.bytes raw off (off +w 56) (
      require-inv (not (is_past (off +w 56) img.bytes)) truncated_table
        (slice img.bytes off (off +w 56)) raw read) in
    let product : i * img.phentsize < 2 ^ 32 = grind arith in
    let small : i *w img.phentsize ≡ i * img.phentsize = mod-eq_of_lt (omega (arith, product)) in
    let same : off ≡ img.phoff + i * img.phentsize = omega (arith, small) in
    let long : off +w 56 - off ≡ 56 = omega arith in
    let bytes_here : raw ≡ take 56 (drop (img.phoff + i * img.phentsize) img.bytes) =
      bytes_read
      ∙ ap (λ (k : ℕ). take k (drop off img.bytes)) long
      ∙ ap (λ (k : ℕ). take 56 (drop k img.bytes)) same in
    let later : List ProgramHeader = header_table img.bytes img.phoff img.phentsize n (suc i) in
    let further : suc i * img.phentsize ≡ i * img.phentsize + img.phentsize = omega arith in
    let (rest, last) =
      rounds-IsTable n (suc i) (after_round img raw interp) out p q (omega arith)
        (omega (arith, same, further)) h₂ in
    (
      rest
          ∙ append_assoc img.segments (program_header raw ∷ []) later
          ∙ ap (λ (d : List ℕ). img.segments ++ program_header d ∷ later) bytes_here,
      λ positive. within n i img last (omega (arith, same)),
    )

-- When ParseBytes of a byte string shorter than 2^63 succeeds, the image's headers are those of
-- the table that the header names: e_phnum of them, read e_phentsize apart from e_phoff on; and
-- if there is one, the whole table lies within the bytes.
pub parse_bytes-header_table :
    (bytes path : List ℕ) (img : Image)
    → length bytes < 2 ^ 63
    → IsBytes bytes
    → parse_bytes bytes path ≡ ok img
    → (img.segments ≡ header_table bytes (field bytes 32 8) (field bytes 54 2) (field bytes 56 2) 0)
      × (0 < field bytes 56 2
          → field bytes 32 8 + (field bytes 56 2 - 1) * field bytes 54 2 + 56 ≤ length bytes)
unfolding parse_bytes IsTable
parse_bytes-header_table bytes path img p q h =
    let h₁ = require-inv (leb ehdr_size (length bytes) && is_magic bytes) not_elf _ img h in
    let h₂ = require-inv (field bytes 4 1 == 2) only_64_bit _ img h₁ in
    let h₃ = require-inv (field bytes 5 1 == 1) only_little_endian _ img h₂ in
    let h₄ = require-inv (field bytes 18 2 == 0x3E) only_x86_64 _ img h₃ in
    let (table, last) =
      rounds-IsTable (field bytes 56 2) 0 (image_of bytes path) img p
        (little_endian-lt 2 (drop 54 bytes) (drop-IsBytes 54 bytes q))
        (omega (arith, little_endian-lt 2 (drop 56 bytes) (drop-IsBytes 56 bytes q)))
        (omega (arith, little_endian-lt 8 (drop 32 bytes) (drop-IsBytes 32 bytes q))) h₄ in
    let same : 0 + field bytes 56 2 - 1 ≡ field bytes 56 2 - 1 = omega arith in
    (table, λ u. let end = last u in rw same at end)
