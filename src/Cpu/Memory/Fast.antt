-- ===== src/Cpu/Memory/Fast.antt =====
-- readCheckedInto, the fast path of instruction fetch, against readChecked.
use golinux.Base.{
  ℕ, zero, suc, ◌+◌, ◌-◌, ◌≡◌, refl, ◌∙◌, sym, true, false, leb, some, none, List, arith,
  suc-ne-zero, Bool-cases, Option-cases, inl, inr,
}
use mathlib.Core.List.{append-nil}
use golinux.Base.Map.{find}
use golinux.Cpu.Memory.{Space, page_addr, lookup_space}
use golinux.Cpu.Memory.Copy.{
  Result, ok, err, fault_at, allowed, page_bytes, copy_out, read_checked, read_checked_into,
}
use golinux.Cpu.Memory.View.{IsValid, lookup_result-eq-find, lookup_space-heap}
use golinux.Cpu.Memory.Reads.{chunk, copy_out-unmapped, copy_out-denied, copy_out-chunk}

module _ (a n perm : ℕ) (s : Space) (v : IsValid s)
    (near : leb (a - page_addr a + suc n) 0x1000 ≡ true) where
  abbrev pa : ℕ
  pa = page_addr a

  abbrev denied : Result (List ℕ) × Space
  denied = (err (fault_at false perm a (suc n)), lookup_space s pa)

  fast-unmapped : find pa s.pages ≡ none → read_checked_into a (suc n) perm s ≡ denied
  unfolding read_checked_into
  fast-unmapped e = rw (suc-ne-zero n, near, lookup_result-eq-find s pa v, e, read_checked_into)

  fast-denied :
      (p : ℕ)
      → find pa s.pages ≡ some p
      → allowed perm (s.heap.cell p).perm ≡ false
      → read_checked_into a (suc n) perm s ≡ denied
  unfolding read_checked_into
  fast-denied p e no_read = rw (
    suc-ne-zero n,
    near,
    lookup_result-eq-find s pa v,
    e,
    lookup_space-heap s pa,
    no_read,
    read_checked_into,
  )

  fast-read :
      (p : ℕ)
      → find pa s.pages ≡ some p
      → allowed perm (s.heap.cell p).perm ≡ true
      → read_checked_into a (suc n) perm s
        ≡ (ok (page_bytes (s.heap.cell p).bytes (a - pa) (suc n)), lookup_space s pa)
  unfolding read_checked_into
  fast-read p e may = rw (
    suc-ne-zero n,
    near,
    lookup_result-eq-find s pa v,
    e,
    lookup_space-heap s pa,
    may,
    read_checked_into,
  )

  -- The general path takes the whole range as its first chunk.
  general-read :
      (p : ℕ)
      → find pa s.pages ≡ some p
      → allowed perm (s.heap.cell p).perm ≡ true
      → copy_out (suc n) a (suc n) perm s
        ≡ (ok (page_bytes (s.heap.cell p).bytes (a - pa) (suc n)), lookup_space s pa)
  unfolding copy_out
  general-read p e may =
      let whole : chunk a n ≡ suc n = ground arith in
      let nothing : suc n - suc n ≡ 0 = omega arith in
      copy_out-chunk n a n perm s v p e may ∙ rw (whole, nothing) (rw append-nil)

-- In a valid memory, readCheckedInto gives the bytes or the fault, and leaves the memory with
-- its cache, that readChecked does.
pub read_checked_into-eq-read_checked :
    (a n perm : ℕ) (s : Space) → IsValid s → read_checked_into a n perm s ≡ read_checked a n perm s
unfolding read_checked_into read_checked copy_out
read_checked_into-eq-read_checked a zero perm s v = refl
read_checked_into-eq-read_checked a (suc n) perm s v =
    elim (Bool-cases (leb (a - page_addr a + suc n) 0x1000)) [
      | inr far ↦ rw (suc-ne-zero n, far, read_checked_into)
      | inl near ↦ elim (Option-cases (find (page_addr a) s.pages)) [
        | inl e ↦ fast-unmapped a n perm s v near e ∙ sym (copy_out-unmapped n a n perm s v e)
        | inr (p, e) ↦ elim (Bool-cases (allowed perm (s.heap.cell p).perm)) [
          | inl may ↦
              fast-read a n perm s v near p e may ∙ sym (general-read a n perm s v near p e may)
          | inr no_read ↦
              fast-denied a n perm s v near p e no_read
              ∙ sym (copy_out-denied n a n perm s v p e no_read)
        ]
      ]
    ]
