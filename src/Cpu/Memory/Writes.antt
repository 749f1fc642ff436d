-- ===== src/Cpu/Memory/Writes.antt =====
-- The page-wise write loop against byte-wise writes of the view.
use golinux.Base.{
  ℕ, zero, suc, ◌+◌, ◌-◌, ◌%◌, ◌^◌, ◌≤◌, ◌<◌, ◌≡◌, refl, ap, ◌∙◌, sym, true, false, ◌==◌, if_self,
  Option, none, some, List, [], ◌∷◌, ◌++◌, length, take, drop, length-take, length-drop,
  take-append-drop, arith, Bool-cases, Option-cases, inl, inr, ◌⊎◌,
}
use mathlib.Core.Path.{fun_ext}
use golinux.Base.Map.{find}
use golinux.Base.Word.{◌+w◌}
use golinux.Cpu.Memory.{Heap, Space, Fault, page_addr, lookup_space, write_cell}
use golinux.Cpu.Memory.Copy.{allowed, fault_at, update, write_page, write_chunk, copy_in}
use golinux.Cpu.Memory.View.{
  Cell, View, view, view_of, poke, write_view, IsValid, page_addr_lem, lookup_result-eq-find,
  lookup_space-view, lookup_space-heap, lookup_space-pages, lookup_space-IsValid,
}
use golinux.Cpu.Memory.Reads.{page_addr-next, view-page, view-nothing, chunk, chunk_bounds}

-- The heap with other bytes in the page behind `p`.
abbrev pub with_bytes : Heap → ℕ → (ℕ → ℕ) → Heap
with_bytes h p f = write_cell h p (record (h.cell p) { bytes = f })

write_view-step :
    (v : View) (a b perm : ℕ) (bs : List ℕ) (c : Cell)
    → v a ≡ some c
    → allowed perm c.perm ≡ true
    → write_view v a (b ∷ bs) perm ≡ write_view (poke v a b) (a +w 1) bs perm
unfolding write_view
write_view-step v a b perm bs c e may = rw (e, may, write_view)

write_view-stop :
    (v : View) (a b perm : ℕ) (bs : List ℕ)
    → ((v a ≡ none) ⊎ ((c : Cell) × (v a ≡ some c) × (allowed perm c.perm ≡ false)))
    → write_view v a (b ∷ bs) perm ≡ (some (fault_at true perm a (suc (length bs))), v)
unfolding write_view
write_view-stop v a b perm bs (inl e) = rw (e, write_view)
write_view-stop v a b perm bs (inr (c, e, denied)) = rw (e, denied, write_view)

module _ (h : Heap) (pages : List (ℕ × ℕ)) (p : ℕ)
    (apart : (a b q : ℕ) → find a pages ≡ some q → find b pages ≡ some q → a ≡ b) where
  -- A byte written into a page is that byte of the view written.
  poke-view :
      (f : ℕ → ℕ) (a b : ℕ)
      → find (page_addr a) pages ≡ some p
      → poke (view (with_bytes h p f) pages) a b
        ≡ view (with_bytes h p (update f (a % 0x1000) b)) pages
  unfolding poke view
  poke-view f a b here = fun_ext λ x. elim (Option-cases (find (page_addr x) pages)) [
    | inl nowhere ↦ rw nowhere (if_self (x == a) none)
    | inr (q, there) ↦
        rw there
          (ground (arith, apart (page_addr x) (page_addr a) p, page_addr_lem x, page_addr_lem a))
  ]

  -- A chunk written into a page that may be written is its bytes of the view written in turn.
  write_view-chunk :
      (cs : List ℕ) (rest : List ℕ) (perm a off : ℕ) (f : ℕ → ℕ)
      → allowed perm (h.cell p).perm ≡ true
      → a < 2 ^ 64
      → off + length cs ≤ 0x1000
      → (0 < length cs → (a % 0x1000 ≡ off) × (find (page_addr a) pages ≡ some p))
      → write_view (view (with_bytes h p f) pages) a (cs ++ rest) perm
        ≡ write_view (view (with_bytes h p (write_page f off cs)) pages) (a +w length cs) rest perm
  unfolding write_page
  write_view-chunk [] rest perm a off f may small fits here =
      let stays : (a + 0) % 2 ^ 64 ≡ a = omega arith in rw stays
  write_view-chunk (c ∷ cs) rest perm a off f may small fits here =
      let (at_off, found) = here (omega arith) in
      let along : (a +w 1) +w length cs ≡ a +w suc (length cs) = omega arith in
      let written = write_page (update f off c) (off + 1) cs in
      let later =
        write_view-chunk cs rest perm (a +w 1) (off + 1) (update f off c) may (omega arith)
          (omega arith) (λ go. (omega arith, rw (page_addr-next a small (omega arith)) found)) in
      write_view-step (view (with_bytes h p f) pages) a c perm (cs ++ rest) _
        (view-page (with_bytes h p f) pages a p found) (ground arith)
      ∙ ap (λ (v : View). write_view v (a +w 1) (cs ++ rest) perm) (poke-view f a c found)
      ∙ rw at_off (
          later
          ∙ ap (λ (t : ℕ). write_view (view (with_bytes h p written) pages) t rest perm) along)

module _ (fuel a b : ℕ) (bs : List ℕ) (perm : ℕ) (s : Space) (v : IsValid s) where
  abbrev pub pa : ℕ
  pa = page_addr a

  abbrev pub next : Space
  next = lookup_space s pa

  abbrev pub refused : Option Fault × Space
  refused = (some (fault_at true perm a (suc (length bs))), next)

  abbrev pub count : ℕ
  count = chunk a (length bs)

  pub copy_in-unmapped : find pa s.pages ≡ none → copy_in (suc fuel) a (b ∷ bs) perm s ≡ refused
  unfolding copy_in
  copy_in-unmapped e = rw (lookup_result-eq-find s pa v, e, copy_in)

  pub copy_in-denied :
      (p : ℕ)
      → find pa s.pages ≡ some p
      → allowed perm (next.heap.cell p).perm ≡ false
      → copy_in (suc fuel) a (b ∷ bs) perm s ≡ refused
  unfolding copy_in
  copy_in-denied p e no_write = rw (lookup_result-eq-find s pa v, e, no_write, copy_in)

  pub copy_in-chunk :
      (p : ℕ)
      → find pa s.pages ≡ some p
      → allowed perm (next.heap.cell p).perm ≡ true
      → copy_in (suc fuel) a (b ∷ bs) perm s
        ≡ copy_in fuel
            (a +w count)
            (drop count (b ∷ bs))
            perm
            (write_chunk p (a - pa) (take count (b ∷ bs)) next)
  unfolding copy_in
  copy_in-chunk p e may = rw (lookup_result-eq-find s pa v, e, may, copy_in)

pub write_chunk-IsValid :
    (p off : ℕ) (cs : List ℕ) (s : Space) → IsValid s → IsValid (write_chunk p off cs s)
unfolding write_chunk
write_chunk-IsValid p off cs s v = record { cached = v.cached; below = v.below; apart = v.apart }

-- What a write loop leaves: the error and the view.
abbrev pub outcome : Option Fault × Space → Option Fault × View
outcome r = (r.0, view_of r.1)

pub own_bytes :
    (h : Heap) (pages : List (ℕ × ℕ)) (p : ℕ)
    → view h pages ≡ view (with_bytes h p (h.cell p).bytes) pages
unfolding view
own_bytes h pages p = fun_ext λ x. elim (Option-cases (find (page_addr x) pages)) [
  | inl e ↦ rw e
  | inr (q, e) ↦ rw e (ground arith)
]

module _ (a b : ℕ) (bs : List ℕ) (perm : ℕ) (s : Space) (v : IsValid s) (p : ℕ) (small : a < 2 ^ 64)
    (here : find (page_addr a) s.pages ≡ some p)
    (may : allowed perm (s.heap.cell p).perm ≡ true) where
  abbrev taken : List ℕ
  taken = take (chunk a (length bs)) (b ∷ bs)

  length-taken : length taken ≡ chunk a (length bs)
  length-taken =
      omega (arith, length-take (chunk a (length bs)) (b ∷ bs), chunk_bounds a (length bs))

  abbrev stored : Space
  stored = write_chunk p (a - page_addr a) taken (lookup_space s (page_addr a))

  view_of-stored :
      view_of stored
      ≡ view
          (with_bytes s.heap p (write_page (s.heap.cell p).bytes (a - page_addr a) taken))
          s.pages
  unfolding write_chunk
  view_of-stored = rw (lookup_space-heap s (page_addr a), lookup_space-pages s (page_addr a))

  -- The view after the chunk.
  chunk_written :
      write_view (view_of s) a (b ∷ bs) perm
      ≡ write_view
          (view_of stored)
          (a +w chunk a (length bs))
          (drop (chunk a (length bs)) (b ∷ bs))
          perm
  chunk_written =
      let (at_off, some_left, in_page, enough_left) = chunk_bounds a (length bs) in
      let off = a - page_addr a in
      let own = (s.heap.cell p).bytes in
      let kept = drop (chunk a (length bs)) (b ∷ bs) in
      ap (λ (w : View). write_view w a (b ∷ bs) perm) (own_bytes s.heap s.pages p)
      ∙ ap (λ (xs : List ℕ). write_view (view (with_bytes s.heap p own) s.pages) a xs perm)
          (sym (take-append-drop (chunk a (length bs)) (b ∷ bs)))
      ∙ write_view-chunk s.heap s.pages p v.apart taken kept perm a off own may small
          (omega (arith, length-taken)) (λ _. (sym at_off, here))
      ∙ rw length-taken (
          ap (λ (w : View). write_view w (a +w chunk a (length bs)) kept perm) (sym view_of-stored))

-- In a valid memory, with at least as much fuel as bytes and a 64-bit address, the page-wise
-- write loop gives the error and the view that byte-wise writes give, so that on a fault the
-- bytes before it stay written.
pub copy_in-eq-write_view :
    (fuel a : ℕ) (bs : List ℕ) (perm : ℕ) (s : Space)
    → IsValid s
    → a < 2 ^ 64
    → length bs ≤ fuel
    → outcome (copy_in fuel a bs perm s) ≡ write_view (view_of s) a bs perm
unfolding copy_in write_view
copy_in-eq-write_view fuel a [] perm s v small enough = refl
copy_in-eq-write_view zero a (b ∷ bs) perm s v small enough = absurd (omega arith)
copy_in-eq-write_view (suc fuel) a (b ∷ bs) perm s v small enough =
    let s' = lookup_space s (page_addr a) in
    let same : view_of s' ≡ view_of s = lookup_space-view s (page_addr a) in
    elim (Option-cases (find (page_addr a) s.pages)) [
      | inl e ↦
          ap outcome (copy_in-unmapped fuel a b bs perm s v e)
          ∙ ap (λ (w : View). (some (fault_at true perm a (suc (length bs))), w)) same
          ∙ sym (write_view-stop (view_of s) a b perm bs (inl (view-nothing s.heap s.pages a e)))
      | inr (p, e) ↦ elim (Bool-cases (allowed perm (s.heap.cell p).perm)) [
        | inl may ↦
            let (at_off, some_left, in_page, enough_left) = chunk_bounds a (length bs) in
            let c = chunk a (length bs) in
            ap outcome
              (copy_in-chunk fuel a b bs perm s v p e (rw (lookup_space-heap s (page_addr a)) may))
            ∙ copy_in-eq-write_view fuel (a +w c) (drop c (b ∷ bs)) perm _
                (write_chunk-IsValid p _ _ s' (lookup_space-IsValid s (page_addr a) v))
                (omega arith) (omega (arith, length-drop c (b ∷ bs)))
            ∙ sym (chunk_written a b bs perm s v p small e may)
        | inr no_write ↦
            ap outcome (
              copy_in-denied fuel a b bs perm s v p e
                (rw (lookup_space-heap s (page_addr a)) no_write))
            ∙ ap (λ (w : View). (some (fault_at true perm a (suc (length bs))), w)) same
            ∙ sym (
                write_view-stop (view_of s) a b perm bs
                  (inr (_, view-page s.heap s.pages a p e, no_write)))
      ]
    ]
