-- ===== src/Cpu/Memory/Copy.antt =====
-- The byte traffic of internal/cpu/memory.go: `copy` in its two directions and the methods over it.
use golinux.Base.{
  ℕ, zero, suc, ◌+◌, ◌-◌, min, bit_and, Bool, true, false, not, ◌&&◌, ◌||◌, leb, ◌==◌,
  if◌then◌else◌, Option, none, some, List, [], ◌∷◌, ◌++◌, length, take, drop,
}
use golinux.Base.Word.{◌+w◌}
use golinux.Cpu.Memory.{
  Space, MemType, read_unmapped, write_unmapped, fetch_unmapped, Fault, page_size, prot_exec,
  page_addr, lookup_result, lookup_space, write_cell,
}

-- What a call that fills a buffer returns.
pub data Result {ℓ} (A : Type ℓ) : Type ℓ where
  ok : A → Result A
  err : Fault → Result A

-- The kind of fault by direction and by the permission asked for.
abbrev pub fault_kind : Bool → ℕ → MemType
fault_kind write perm =
    if perm == prot_exec then fetch_unmapped else if write then write_unmapped else read_unmapped

-- `requirePerm != 0 && p.perm&requirePerm == 0`, negated.
unfoldable pub allowed : ℕ → ℕ → Bool
allowed perm have = not (not (perm == 0) && (bit_and have perm == 0))

abbrev pub fault_at : Bool → ℕ → ℕ → ℕ → Fault
fault_at write perm a n = record { mem_type = fault_kind write perm; addr = a; size = n }

-- `copy(buf, p.data[off:])` for `n` bytes, and `copy(p.data[off:], chunk)`.
unfoldable pub page_bytes : (ℕ → ℕ) → ℕ → ℕ → List ℕ
page_bytes f off zero = []
page_bytes f off (suc n) = f off ∷ page_bytes f (off + 1) n

abbrev pub update : (ℕ → ℕ) → ℕ → ℕ → ℕ → ℕ
update f o b q = if q == o then b else f q

unfoldable pub write_page : (ℕ → ℕ) → ℕ → List ℕ → ℕ → ℕ
write_page f off [] = f
write_page f off (b ∷ bs) = write_page (update f off b) (off + 1) bs

-- bytes.Equal.
unfoldable pub same_bytes : List ℕ → List ℕ → Bool
same_bytes [] [] = true
same_bytes [] (y ∷ ys) = false
same_bytes (x ∷ xs) [] = false
same_bytes (x ∷ xs) (y ∷ ys) = (x == y) && same_bytes xs ys

-- How many bytes of `left` the page of address `a` holds from `a` on.
abbrev pub chunk_length : ℕ → ℕ → ℕ
chunk_length a left = min left (page_size - (a - page_addr a))

abbrev pub append_ok : List ℕ → Result (List ℕ) → Result (List ℕ)
append_ok xs (ok ys) = ok (xs ++ ys)
append_ok xs (err e) = err e

-- `copy` out of guest memory: the bytes from `a` on. Each round takes a chunk of one page. The
-- count of bytes left bounds the rounds.
unfoldable pub copy_out : ℕ → ℕ → ℕ → ℕ → Space → Result (List ℕ) × Space
copy_out fuel a zero perm s = (ok [], s)
copy_out zero a (suc left) perm s = (ok [], s)
copy_out (suc fuel) a (suc left) perm s =
    let pa = page_addr a in
    let s' = lookup_space s pa in
    elim (lookup_result s pa) [
      | none ↦ (err (fault_at false perm a (suc left)), s')
      | some p ↦
          let page = s'.heap.cell p in
          let n = chunk_length a (suc left) in
          let rest = copy_out fuel (a +w n) (suc left - n) perm s' in
          if allowed perm page.perm
          then (append_ok (page_bytes page.bytes (a - pa) n) rest.0, rest.1)
          else (err (fault_at false perm a (suc left)), s')
    ]

-- A chunk written into the page behind pointer `p`. Writing other bytes to an executable page
-- sets `codeDirty`.
unfoldable pub write_chunk : ℕ → ℕ → List ℕ → Space → Space
write_chunk p off chunk s =
    let page = s.heap.cell p in
    let changed =
      not (bit_and page.perm prot_exec == 0)
      && not (same_bytes (page_bytes page.bytes off (length chunk)) chunk) in
    record s {
      heap = write_cell s.heap p (record page { bytes = write_page page.bytes off chunk });
      mem = record s.mem { code_dirty = changed || s.code_dirty };
    }

-- `copy` into guest memory. On a fault the chunks before it stay written.
unfoldable pub copy_in : ℕ → ℕ → List ℕ → ℕ → Space → Option Fault × Space
copy_in fuel a [] perm s = (none, s)
copy_in zero a (b ∷ bs) perm s = (none, s)
copy_in (suc fuel) a (b ∷ bs) perm s =
    let pa = page_addr a in
    let s' = lookup_space s pa in
    let left = length (b ∷ bs) in
    elim (lookup_result s pa) [
      | none ↦ (some (fault_at true perm a left), s')
      | some p ↦
          let n = chunk_length a left in
          let written = write_chunk p (a - pa) (take n (b ∷ bs)) s' in
          let rest = copy_in fuel (a +w n) (drop n (b ∷ bs)) perm written in
          if allowed perm (s'.heap.cell p).perm
          then rest
          else (some (fault_at true perm a left), s')
    ]

-- MemRead and MemWrite ask for no permission; readChecked and writeChecked do.
unfoldable pub read_checked : ℕ → ℕ → ℕ → Space → Result (List ℕ) × Space
read_checked a n perm s = copy_out n a n perm s

unfoldable pub write_checked : ℕ → List ℕ → ℕ → Space → Option Fault × Space
write_checked a bs perm s = copy_in (length bs) a bs perm s

unfoldable pub mem_read : ℕ → ℕ → Space → Result (List ℕ) × Space
mem_read a n s = if n == 0 then (ok [], s) else copy_out n a n 0 s

unfoldable pub mem_write : ℕ → List ℕ → Space → Option Fault × Space
mem_write a bs s = if length bs == 0 then (none, s) else copy_in (length bs) a bs 0 s

-- readCheckedInto: a read within one page takes one lookup, any other goes through `copy`.
unfoldable pub read_checked_into : ℕ → ℕ → ℕ → Space → Result (List ℕ) × Space
read_checked_into a n perm s =
    let pa = page_addr a in
    let s' = lookup_space s pa in
    let denied : Result (List ℕ) × Space = (err (fault_at false perm a n), s') in
    if n == 0
    then (ok [], s)
    else if leb (a - pa + n) page_size
    then (elim (lookup_result s pa) [
      | none ↦ denied
      | some p ↦
          let page = s'.heap.cell p in
          if allowed perm page.perm then (ok (page_bytes page.bytes (a - pa) n), s') else denied
    ])
    else copy_out n a n perm s
