-- ===== src/Elf/Load/Laws.antt =====
-- What the loaded segments hold.
use golinux.Base.{
  ℕ, zero, suc, ◌+◌, ◌-◌, ◌^◌, ◌≤◌, ◌<◌, ◌≡◌, refl, ap, ◌∙◌, Bool, true, false, ltb, leb, ◌==◌,
  if◌then◌else◌, List, [], ◌∷◌, ◌++◌, length, take, drop, replicate, get_or, length-append,
  length-take, length-drop, length-replicate, arith, Bool-cases, inl, inr,
}
use golinux.Base.Word.{◌+w◌}
use golinux.Elf.{
  ElfError, load_out_of_range, Result, ok, error, panic, ran_out, ◌>>=◌, require, slice,
  ProgramHeader, Image, pt_load,
}
use golinux.Elf.Load.{Segment, padded, segment_of, load_segment, load_each, load_segments}

pub length-padded : (n : ℕ) (src : List ℕ) → length (padded n src) ≡ n
unfolding padded
length-padded n src = omega (
  arith,
  length-append (take n src) (replicate (n - length src) 0),
  length-take n src,
  length-replicate {A = ℕ} (n - length src) 0,
)

-- A segment holds the bytes of the file at its offset, and zeros from `filesz` on.
abbrev pub IsLoaded : Image → ProgramHeader → Segment → Type 0
IsLoaded img ph s =
    (s.vaddr ≡ ph.vaddr)
    × (s.flags ≡ ph.flags)
    × (s.memsz ≡ ph.memsz)
    × (ph.offset + ph.filesz ≤ length img.bytes)
    × (length s.bytes ≡ ph.memsz)
    × ((i : ℕ)
        → i < ph.memsz
        → i < ph.filesz
        → get_or s.bytes i 0 ≡ get_or img.bytes (ph.offset + i) 0)
    × ((i : ℕ) → ph.filesz ≤ i → get_or s.bytes i 0 ≡ 0)

get_or-take : (n i : ℕ) (xs : List ℕ) → i < n → get_or (take n xs) i 0 ≡ get_or xs i 0
get_or-take zero i xs p = omega arith
get_or-take (suc n) i [] p = refl
get_or-take (suc n) zero (x ∷ xs) p = refl
get_or-take (suc n) (suc i) (x ∷ xs) p = get_or-take n i xs (omega arith)

get_or-drop : (n i : ℕ) (xs : List ℕ) → get_or (drop n xs) i 0 ≡ get_or xs (n + i) 0
get_or-drop zero i xs = ap (λ (k : ℕ). get_or xs k 0) (omega arith)
get_or-drop (suc n) i [] = refl
get_or-drop (suc n) i (x ∷ xs) =
    let next : suc (n + i) ≡ suc n + i = omega arith in
    get_or-drop n i xs ∙ ap (λ (k : ℕ). get_or (x ∷ xs) k 0) next

get_or-replicate : (k i : ℕ) → get_or {A = ℕ} (replicate k 0) i 0 ≡ 0
get_or-replicate zero i = refl
get_or-replicate (suc k) zero = refl
get_or-replicate (suc k) (suc i) = get_or-replicate k i

kept :
    (n i k : ℕ) (xs : List ℕ)
    → i < n
    → i < length xs
    → get_or (take n xs ++ replicate k 0) i 0 ≡ get_or xs i 0
kept zero i k xs p q = omega arith
kept (suc n) i k [] p q = omega arith
kept (suc n) zero k (x ∷ xs) p q = refl
kept (suc n) (suc i) k (x ∷ xs) p q = kept n i k xs (omega arith) (omega arith)

filled : (n i k : ℕ) (xs : List ℕ) → length xs ≤ i → get_or (take n xs ++ replicate k 0) i 0 ≡ 0
filled zero i k xs p = get_or-replicate k i
filled (suc n) i k [] p = get_or-replicate k i
filled (suc n) zero k (x ∷ xs) p = omega arith
filled (suc n) (suc i) k (x ∷ xs) p = filled n i k xs (omega arith)

pub slice-inv :
    (bytes src : List ℕ) (lo hi : ℕ)
    → slice bytes lo hi ≡ ok src
    → (lo ≤ hi) × (hi ≤ length bytes) × (src ≡ take (hi - lo) (drop lo bytes))
unfolding slice
slice-inv bytes src lo hi h = ground arith

built :
    (b c : Bool) (x : ElfError) (ph : ProgramHeader) (r : Result (List ℕ)) (s : Segment)
    → require b x (if c then panic else (r >>= λ src. ok (segment_of ph src))) ≡ ok s
    → (src : List ℕ) × (r ≡ ok src) × (s ≡ segment_of ph src)
built false c x ph r s h = cc
built true true x ph r s h = cc
built true false x ph (ok src) s h = (src, refl, cc)
built true false x ph (error y) s h = cc
built true false x ph panic s h = cc
built true false x ph ran_out s h = cc

pub load_segment-IsLoaded :
    (max_alloc : ℕ) (img : Image) (ph : ProgramHeader) (s : Segment)
    → ph.offset < 2 ^ 64
    → ph.filesz < 2 ^ 64
    → load_segment max_alloc img ph ≡ ok s
    → IsLoaded img ph s
unfolding load_segment padded
load_segment-IsLoaded max_alloc img ph s p q h =
    let end : ℕ = ph.offset +w ph.filesz in
    let (src, read, made) =
      built (leb end (length img.bytes)) (ltb max_alloc ph.memsz) load_out_of_range ph
        (slice img.bytes ph.offset end) s h in
    let (ordered, inside, bytes_read) = slice-inv img.bytes src ph.offset end read in
    let size : end - ph.offset ≡ ph.filesz = omega arith in
    let len : length src ≡ ph.filesz =
      ap length bytes_read
      ∙ omega (
        arith,
        length-take (end - ph.offset) (drop ph.offset img.bytes),
        length-drop ph.offset img.bytes,
      ) in
    rw made (
      refl,
      refl,
      refl,
      omega arith,
      length-padded ph.memsz src,
      λ i below within.
          kept ph.memsz i (ph.memsz - length src) src below (omega (arith, len))
          ∙ ap (λ (xs : List ℕ). get_or xs i 0) bytes_read
          ∙ get_or-take (end - ph.offset) i (drop ph.offset img.bytes) (omega (arith, size))
          ∙ get_or-drop ph.offset i img.bytes,
      λ i above. filled ph.memsz i (ph.memsz - length src) src (omega (arith, len)),
    )

-- One segment for each header of type PT_LOAD, in order.
pub data AreLoaded (img : Image) : List ProgramHeader → List Segment → Type 0 where
  none_left : AreLoaded img [] []
  skipped :
      (ph : ProgramHeader) (phs : List ProgramHeader) (ss : List Segment)
      → (ph.type == pt_load) ≡ false
      → AreLoaded img phs ss
      → AreLoaded img (ph ∷ phs) ss
  mapped :
      (ph : ProgramHeader) (phs : List ProgramHeader) (s : Segment) (ss : List Segment)
      → (ph.type == pt_load) ≡ true
      → IsLoaded img ph s
      → AreLoaded img phs ss
      → AreLoaded img (ph ∷ phs) (s ∷ ss)

-- Offsets, addresses and sizes are 64-bit.
abbrev pub HaveWords : List ProgramHeader → Type 0
HaveWords [] = Unit {0}
HaveWords (ph ∷ phs) =
    (ph.offset < 2 ^ 64) × (ph.filesz < 2 ^ 64) × (ph.vaddr < 2 ^ 64) × HaveWords phs

both :
    (r : Result Segment) (t : Result (List Segment)) (out : List Segment)
    → (r >>= λ s. t >>= λ ss. ok (s ∷ ss)) ≡ ok out
    → (s : Segment) × (ss : List Segment) × (r ≡ ok s) × (t ≡ ok ss) × (out ≡ s ∷ ss)
both (ok s) (ok ss) out h = (s, ss, refl, refl, cc)
both (ok s) (error x) out h = cc
both (ok s) panic out h = cc
both (ok s) ran_out out h = cc
both (error x) t out h = cc
both panic t out h = cc
both ran_out t out h = cc

each :
    (max_alloc : ℕ) (img : Image) (phs : List ProgramHeader) (ss : List Segment)
    → HaveWords phs
    → load_each max_alloc img phs ≡ ok ss
    → AreLoaded img phs ss
unfolding load_each
each max_alloc img [] [] words h = none_left
each max_alloc img [] (s ∷ ss) words h = cc
each max_alloc img (ph ∷ phs) ss (offset, filesz, vaddr, words) h =
    elim (Bool-cases (ph.type == pt_load)) [
      | inl e ↦
          let h' = rw e at h in
          let (s, more, first, rest, all) =
            both (load_segment max_alloc img ph) (load_each max_alloc img phs) ss h' in
          rw all (
            mapped ph phs s more e (load_segment-IsLoaded max_alloc img ph s offset filesz first)
              (each max_alloc img phs more words rest))
      | inr e ↦ let h' = rw e at h in skipped ph phs ss e (each max_alloc img phs ss words h')
    ]

-- When LoadSegments succeeds on an image whose headers hold 64-bit offsets, sizes and addresses,
-- it gives one segment for each PT_LOAD header, in order, and each has the header's address,
-- flags and size in memory, as many bytes as that size, the file's bytes from the header's
-- offset on below Filesz, and zeros from there.
pub load_segments-AreLoaded :
    (max_alloc : ℕ) (img : Image) (ss : List Segment)
    → HaveWords img.segments
    → load_segments max_alloc img ≡ ok ss
    → AreLoaded img img.segments ss
unfolding load_segments
load_segments-AreLoaded max_alloc img ss words h = each max_alloc img img.segments ss words h
