-- ===== src/Elf/Tables/Termination.antt =====
-- The loops over the dynamic section and the relocation tables end.
use golinux.Base.{
  ℕ, zero, suc, ◌+◌, ◌^◌, ◌≤◌, ◌<◌, ◌≡◌, ◌≢◌, refl, Bool, true, false, not, ◌&&◌, leb, ◌==◌, Option,
  none, some, List, ◌∷◌, ◌++◌, length, arith, Bool-cases, inl, inr, ◌⊎◌,
}
use golinux.Base.Word.{◌+w◌}
use golinux.Elf.{
  ElfError, dynamic_out_of_range, table_out_of_range, Result, ok, error, panic, ran_out, ◌>>=◌,
  require, slice, little_endian, ProgramHeader, Image,
}
use golinux.Elf.Load.{vaddr_to_file_offset}
use golinux.Elf.Tables.{
  word_at, entries, then_entries, rounds, read_dyn, find_dynamic, dynamic_entries, parse_dynamic,
  read_rela, rela_entries, read_rela_table, TableTags, note_tags, no_tags, table_if, rela_table,
  plt_table, both_tables, relocations,
}

abbrev Ended : {A : Type 0} → Result A → Type 0
Ended (ok a) = Unit {0}
Ended (error x) = Unit {0}
Ended panic = Unit {0}
Ended ran_out = ⊥

Ended-bind :
    {A B : Type 0} (r : Result A) (f : A → Result B)
    → Ended r
    → ((a : A) → r ≡ ok a → Ended (f a))
    → Ended (r >>= f)
Ended-bind (ok a) f p q = q a refl
Ended-bind (error x) f p q = tt
Ended-bind panic f p q = tt
Ended-bind ran_out f p q = p

Ended-require :
    {A : Type 0} (b : Bool) (x : ElfError) (r : Result A)
    → (b ≡ true → Ended r)
    → Ended (require b x r)
Ended-require true x r p = p refl
Ended-require false x r p = tt

slice-Ended : (bytes : List ℕ) (lo hi : ℕ) → Ended (slice bytes lo hi)
unfolding slice
slice-Ended bytes lo hi = elim (Bool-cases (leb lo hi && leb hi (length bytes))) [
  | inl e ↦ rw e tt
  | inr e ↦ rw e tt
]

slice-within :
    (bytes src : List ℕ) (lo hi : ℕ) → slice bytes lo hi ≡ ok src → (lo ≤ hi) × (hi ≤ length bytes)
unfolding slice
slice-within bytes src lo hi h = ground arith

word_at-Ended : (bytes : List ℕ) (off : ℕ) → Ended (word_at bytes off)
word_at-Ended bytes off =
    Ended-bind (slice bytes off (off +w 8)) (λ raw. ok (little_endian raw))
      (slice-Ended bytes off (off +w 8)) (λ a e. tt)

-- A read that ends, and that succeeds only within the bytes.
Reads : {A : Type 0} → List ℕ → (ℕ → Result A) → Type 0
Reads {A} bytes read =
    (off : ℕ) → Ended (read off) × ((x : A) → read off ≡ ok x → off ≤ length bytes)

then_entries-Ended :
    {A : Type 0} (rest : Result (List A)) (x : Option A) → Ended rest → Ended (then_entries rest x)
then_entries-Ended rest none p = tt
then_entries-Ended rest (some a) p = Ended-bind rest (λ more. ok (a ∷ more)) p (λ more e. tt)

entries-Ended :
    {A : Type 0} (bytes : List ℕ) (size : ℕ) (read : ℕ → Result (Option A)) (end n off : ℕ)
    → Reads bytes read
    → 0 < size
    → size < 2 ^ 32
    → end ≤ length bytes
    → length bytes < 2 ^ 63
    → length bytes < off + n
    → (off ≤ length bytes) ⊎ (0 < n)
    → Ended (entries size read end n off)
unfolding entries Reads
entries-Ended bytes size read end zero off reads p q r s t (inl u) = omega arith
entries-Ended bytes size read end zero off reads p q r s t (inr u) = omega arith
entries-Ended bytes size read end (suc n) off reads p q r s t u =
    elim (Bool-cases (leb (off +w size) end)) [
      | inl e ↦
          let next : off +w size ≤ end = ground (arith, e) in
          rw e (
            Ended-bind (read off) (then_entries (entries size read end n (off +w size)))
              (reads off).0
              (λ x h.
                let within = (reads off).1 x h in
                then_entries-Ended (entries size read end n (off +w size)) x (
                  entries-Ended bytes size read end n (off +w size) reads p q r s (omega arith)
                    (inl (omega arith)))))
      | inr e ↦ rw e tt
    ]

started :
    {A : Type 0} (bytes : List ℕ) (off : ℕ) (f : ℕ → Result A) (a : A)
    → (word_at bytes off >>= f) ≡ ok a
    → off ≤ length bytes
started bytes off f a h = reached (slice bytes off (off +w 8)) refl h
  where
    reached :
        (r : Result (List ℕ))
        → slice bytes off (off +w 8) ≡ r
        → ((r >>= λ raw. ok (little_endian raw)) >>= f) ≡ ok a
        → off ≤ length bytes
    reached (ok src) e g = omega (arith, slice-within bytes src off (off +w 8) e)
    reached (error x) e g = cc
    reached panic e g = cc
    reached ran_out e g = cc

read_dyn-Reads : (bytes : List ℕ) → Reads bytes (read_dyn bytes)
unfolding Reads read_dyn
read_dyn-Reads bytes off = (
  Ended-bind (word_at bytes off) _ (word_at-Ended bytes off) (λ tag e.
      Ended-bind (word_at bytes (off +w 8)) _ (word_at-Ended bytes (off +w 8)) (λ val e'. tt)),
  λ x h. started bytes off _ x h,
)

read_rela-Reads : (bytes : List ℕ) → Reads bytes (read_rela bytes)
unfolding Reads read_rela
read_rela-Reads bytes off = (
  Ended-bind (word_at bytes off) _ (word_at-Ended bytes off) (λ offset e.
      Ended-bind (word_at bytes (off +w 8)) _ (word_at-Ended bytes (off +w 8)) (λ info e'.
        Ended-bind (word_at bytes (off +w 16)) _ (word_at-Ended bytes (off +w 16))
          (λ addend e''. tt))),
  λ x h. started bytes off _ x h,
)

table-Ended :
    {A : Type 0} (img : Image) (x : ElfError) (size end off : ℕ) (read : ℕ → Result (Option A))
    → length img.bytes < 2 ^ 63
    → Reads img.bytes read
    → 0 < size
    → size < 2 ^ 32
    → Ended (require (leb end (length img.bytes)) x (entries size read end (rounds img.bytes) off))
table-Ended img x size end off read p reads q r =
    Ended-require (leb end (length img.bytes)) x (entries size read end (rounds img.bytes) off)
      (λ e.
        entries-Ended img.bytes size read end (rounds img.bytes) off reads q r (ground (arith, e)) p
          (omega arith) (inr (omega arith)))

parse_dynamic-Ended : (img : Image) → length img.bytes < 2 ^ 63 → Ended (parse_dynamic img)
unfolding parse_dynamic
parse_dynamic-Ended img p = found (find_dynamic img.segments)
  where
    found : (dyn : Option ProgramHeader) → Ended (dynamic_entries img dyn)
    found none = tt
    found (some dyn) =
        table-Ended img dynamic_out_of_range 16 (dyn.offset +w dyn.filesz) dyn.offset
          (read_dyn img.bytes) p (read_dyn-Reads img.bytes) (omega arith) (omega arith)

read_rela_table-Ended :
    (img : Image) (vaddr size : ℕ)
    → length img.bytes < 2 ^ 63
    → Ended (read_rela_table img vaddr size)
unfolding read_rela_table
read_rela_table-Ended img vaddr size p = elim (Bool-cases (size == 0)) [
  | inl e ↦ rw e tt
  | inr e ↦ rw e (found (vaddr_to_file_offset img vaddr))
]
  where
    found : (off : Option ℕ) → Ended (rela_entries img size off)
    found none = tt
    found (some off) =
        table-Ended img table_out_of_range 24 (off +w size) off (read_rela img.bytes) p
          (read_rela-Reads img.bytes) (omega arith) (omega arith)

table_if-Ended :
    (b : Bool) (img : Image) (vaddr size : ℕ)
    → length img.bytes < 2 ^ 63
    → Ended (table_if b img vaddr size)
table_if-Ended true img vaddr size p = read_rela_table-Ended img vaddr size p
table_if-Ended false img vaddr size p = tt

Ended-ne : {A : Type 0} (r : Result A) → Ended r → r ≢ ran_out
Ended-ne (ok a) p e = cc
Ended-ne (error x) p e = cc
Ended-ne panic p e = cc
Ended-ne ran_out p e = p

both_tables-Ended :
    (img : Image) (t : TableTags) → length img.bytes < 2 ^ 63 → Ended (both_tables img t)
both_tables-Ended img t p =
    Ended-bind (rela_table img t) (λ rela. plt_table img t >>= λ plt. ok (rela ++ plt))
      (table_if-Ended (not (t.rela_vaddr == 0) && not (t.rela_size == 0)) img t.rela_vaddr
        t.rela_size p)
      (λ rela e.
        Ended-bind (plt_table img t) (λ plt. ok (rela ++ plt))
          (table_if-Ended (not (t.jmprel_vaddr == 0) && (not (t.pltrelsz == 0) && t.pltrel_is_rela))
            img t.jmprel_vaddr t.pltrelsz p)
          (λ plt e'. tt))

-- On an image of fewer than 2^63 bytes, the loops of Relocations end within as many rounds as
-- the file has bytes, and one more, whatever the headers and the tables hold.
pub relocations-ends : (img : Image) → length img.bytes < 2 ^ 63 → relocations img ≢ ran_out
unfolding relocations
relocations-ends img p = Ended-ne (relocations img) (
    Ended-bind (parse_dynamic img) (λ es. both_tables img (note_tags es no_tags))
      (parse_dynamic-Ended img p) (λ es e. both_tables-Ended img (note_tags es no_tags) p))
