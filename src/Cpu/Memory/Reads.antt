-- ===== src/Cpu/Memory/Reads.antt =====
-- The page-wise read loop against byte-wise reads of the view.
use golinux.Base.{
  ℕ, zero, suc, ◌+◌, ◌-◌, ◌%◌, ◌^◌, ◌≤◌, ◌<◌, ◌≡◌, refl, ap, ◌∙◌, sym, true, false, none, some,
  List, [], ◌∷◌, arith, Bool-cases, Option-cases, ◌⊎◌, inl, inr,
}
use golinux.Base.Map.{find}
use golinux.Base.Word.{◌+w◌}
use golinux.Cpu.Memory.{Heap, Space, page_addr, lookup_space}
use golinux.Cpu.Memory.Copy.{
  Result, ok, err, allowed, fault_at, page_bytes, append_ok, chunk_length, copy_out,
}
use golinux.Cpu.Memory.View.{
  Cell, View, view, view_of, read_view, cons_ok, IsValid, page_addr_lem, lookup_result-eq-find,
  lookup_space-view, lookup_space-heap, lookup_space-IsValid,
}

-- The next address of a page is in the same page.
pub page_addr-next : (a : ℕ) → a < 2 ^ 64 → a % 0x1000 < 0xfff → page_addr (a +w 1) ≡ page_addr a
page_addr-next a h in_page = rw (page_addr_lem (a +w 1), page_addr_lem a) (omega arith)

append_nothing : (r : Result (List ℕ)) → r ≡ append_ok [] r
append_nothing (ok xs) = refl
append_nothing (err e) = refl

cons_append :
    (x : ℕ) (xs : List ℕ) (r : Result (List ℕ)) → cons_ok x (append_ok xs r) ≡ append_ok (x ∷ xs) r
cons_append x xs (ok ys) = refl
cons_append x xs (err e) = refl

read_view-step :
    (v : View) (a n perm : ℕ) (c : Cell)
    → v a ≡ some c
    → allowed perm c.perm ≡ true
    → read_view v a (suc n) perm ≡ cons_ok c.byte (read_view v (a +w 1) n perm)
unfolding read_view
read_view-step v a n perm c e may = ground arith

read_view-stop :
    (v : View) (a n perm : ℕ)
    → ((v a ≡ none) ⊎ ((c : Cell) × (v a ≡ some c) × (allowed perm c.perm ≡ false)))
    → read_view v a (suc n) perm ≡ err (fault_at false perm a (suc n))
unfolding read_view
read_view-stop v a n perm h = ground arith

pub view-page :
    (h : Heap) (pages : List (ℕ × ℕ)) (a p : ℕ)
    → find (page_addr a) pages ≡ some p
    → view h pages a
      ≡ some (record { byte = (h.cell p).bytes (a % 0x1000); perm = (h.cell p).perm })
unfolding view
view-page h pages a p e = rw e

pub view-nothing :
    (h : Heap) (pages : List (ℕ × ℕ)) (a : ℕ)
    → find (page_addr a) pages ≡ none
    → view h pages a ≡ none
unfolding view
view-nothing h pages a e = rw e

module _ (h : Heap) (pages : List (ℕ × ℕ)) (p : ℕ) (perm : ℕ)
    (may : allowed perm (h.cell p).perm ≡ true) where
  -- A chunk of `n` bytes of a page that may be read.
  read_view-chunk :
      (n m a off : ℕ)
      → a < 2 ^ 64
      → off + n ≤ 0x1000
      → (0 < n → (a % 0x1000 ≡ off) × (find (page_addr a) pages ≡ some p))
      → read_view (view h pages) a (n + m) perm
        ≡ append_ok (page_bytes (h.cell p).bytes off n) (read_view (view h pages) (a +w n) m perm)
  unfolding page_bytes
  read_view-chunk zero m a off small fits here =
      let none_read : zero + m ≡ m = omega arith in
      let stays : (a + 0) % 2 ^ 64 ≡ a = omega arith in
      rw (none_read, stays) (append_nothing (read_view (view h pages) a m perm))
  read_view-chunk (suc n) m a off small fits here =
      let more : suc n + m ≡ suc (n + m) = omega arith in
      let along : (a +w 1) +w n ≡ a +w suc n = omega arith in
      let (at_off, found) = here (omega arith) in
      let rest =
        read_view-chunk n m (a +w 1) (off + 1) (omega arith) (omega arith)
          (λ go. (omega arith, rw (page_addr-next a small (omega arith)) found)) in
      rw
        (
          more,
          read_view-step (view h pages) a (n + m) perm _ (view-page h pages a p found) may,
          rest,
          along,
          at_off,
        )
        (cons_append ((h.cell p).bytes off) (page_bytes (h.cell p).bytes (off + 1) n) _)

abbrev pub chunk : ℕ → ℕ → ℕ
chunk a n = chunk_length a (suc n)

-- The chunk is not empty, stays in its page and takes no more than is left.
pub chunk_bounds :
    (a n : ℕ)
    → (a - page_addr a ≡ a % 0x1000)
      × (0 < chunk a n)
      × (a - page_addr a + chunk a n ≤ 0x1000)
      × (chunk a n ≤ suc n)
chunk_bounds a n = omega (arith, page_addr_lem a)

module _ (fuel a n perm : ℕ) (s : Space) (v : IsValid s) where
  abbrev pub pa : ℕ
  pa = page_addr a

  abbrev pub next : Space
  next = lookup_space s pa

  pub copy_out-unmapped :
      find pa s.pages ≡ none
      → copy_out (suc fuel) a (suc n) perm s ≡ (err (fault_at false perm a (suc n)), next)
  unfolding copy_out
  copy_out-unmapped e = rw (lookup_result-eq-find s pa v, e, copy_out)

  pub copy_out-denied :
      (p : ℕ)
      → find pa s.pages ≡ some p
      → allowed perm (s.heap.cell p).perm ≡ false
      → copy_out (suc fuel) a (suc n) perm s ≡ (err (fault_at false perm a (suc n)), next)
  unfolding copy_out
  copy_out-denied p e no_read =
      rw (lookup_result-eq-find s pa v, e, lookup_space-heap s pa, no_read, copy_out)

  pub copy_out-chunk :
      (p : ℕ)
      → find pa s.pages ≡ some p
      → allowed perm (s.heap.cell p).perm ≡ true
      → let rest = copy_out fuel (a +w chunk a n) (suc n - chunk a n) perm next in
        copy_out (suc fuel) a (suc n) perm s
        ≡ (append_ok (page_bytes (s.heap.cell p).bytes (a - pa) (chunk a n)) rest.0, rest.1)
  unfolding copy_out
  copy_out-chunk p e may =
      rw (lookup_result-eq-find s pa v, e, lookup_space-heap s pa, may, copy_out)

-- In a valid memory, with at least as much fuel as bytes and a 64-bit address, the page-wise
-- read loop gives the bytes, or the fault, that byte-wise reads of the view give.
pub copy_out-eq-read_view :
    (fuel a n perm : ℕ) (s : Space)
    → IsValid s
    → a < 2 ^ 64
    → n ≤ fuel
    → (copy_out fuel a n perm s).0 ≡ read_view (view_of s) a n perm
unfolding copy_out read_view
copy_out-eq-read_view fuel a zero perm s v small enough = refl
copy_out-eq-read_view zero a (suc n) perm s v small enough = absurd (omega arith)
copy_out-eq-read_view (suc fuel) a (suc n) perm s v small enough =
    elim (Option-cases (find (page_addr a) s.pages)) [
      | inl e ↦
          ap (λ (r : Result (List ℕ) × Space). r.0) (copy_out-unmapped fuel a n perm s v e)
          ∙ sym (read_view-stop (view_of s) a n perm (inl (view-nothing s.heap s.pages a e)))
      | inr (p, e) ↦ elim (Bool-cases (allowed perm (s.heap.cell p).perm)) [
        | inl may ↦
            let (at_off, some_left, in_page, enough_left) = chunk_bounds a n in
            let c = chunk a n in
            let split : suc n ≡ c + (suc n - c) = omega arith in
            let rest : (copy_out fuel (a +w c) (suc n - c) perm (lookup_space s (page_addr a))).0
                ≡ read_view (view_of s) (a +w c) (suc n - c) perm =
              copy_out-eq-read_view fuel (a +w c) (suc n - c) perm (lookup_space s (page_addr a))
                (lookup_space-IsValid s (page_addr a) v) (omega arith) (omega arith)
              ∙ ap (λ (w : View). read_view w (a +w c) (suc n - c) perm)
                  (lookup_space-view s (page_addr a)) in
            ap (λ (r : Result (List ℕ) × Space). r.0) (copy_out-chunk fuel a n perm s v p e may)
            ∙ ap (append_ok (page_bytes (s.heap.cell p).bytes (a - page_addr a) c)) rest
            ∙ sym (
                read_view-chunk s.heap s.pages p perm may c (suc n - c) a (a - page_addr a) small
                  in_page (λ _. (sym at_off, e)))
            ∙ ap (λ (k : ℕ). read_view (view_of s) a k perm) (sym split)
        | inr no_read ↦
            ap (λ (r : Result (List ℕ) × Space). r.0)
              (copy_out-denied fuel a n perm s v p e no_read)
            ∙ sym (
                read_view-stop (view_of s) a n perm
                  (inr (_, view-page s.heap s.pages a p e, no_read)))
      ]
    ]

-- A read changes the cache at most.
pub copy_out-keeps :
    (fuel a n perm : ℕ) (s : Space)
    → IsValid s
    → IsValid (copy_out fuel a n perm s).1 × (view_of (copy_out fuel a n perm s).1 ≡ view_of s)
unfolding copy_out
copy_out-keeps fuel a zero perm s v = (v, refl)
copy_out-keeps zero a (suc n) perm s v = (v, refl)
copy_out-keeps (suc fuel) a (suc n) perm s v =
    let s' = lookup_space s (page_addr a) in
    let v' : IsValid s' = lookup_space-IsValid s (page_addr a) v in
    let same : view_of s' ≡ view_of s = lookup_space-view s (page_addr a) in
    elim (Option-cases (find (page_addr a) s.pages)) [
      | inl e ↦ rw (copy_out-unmapped fuel a n perm s v e) (v', same)
      | inr (p, e) ↦ elim (Bool-cases (allowed perm (s.heap.cell p).perm)) [
        | inl may ↦
            let rest = copy_out-keeps fuel (a +w chunk a n) (suc n - chunk a n) perm s' v' in
            rw (copy_out-chunk fuel a n perm s v p e may) (rest.0, rest.1 ∙ same)
        | inr no_read ↦ rw (copy_out-denied fuel a n perm s v p e no_read) (v', same)
      ]
    ]
