-- ===== src/Cpu/Memory/Dirty.antt =====
-- `codeDirty` and the round trip of writes and reads.
use golinux.Base.{
  ℕ, zero, suc, ◌+◌, ◌-◌, ◌%◌, ◌≡◌, refl, ap, ◌∙◌, sym, Bool, true, false, not, ◌==◌, bit_and,
  Option, none, some, List, [], ◌∷◌, length, take, drop, arith, Bool-cases, Option-cases, inl, inr,
}
use mathlib.Core.Path.{fun_ext}
use mathlib.Core.Bool.{false≢true}
use native.Mathlib.Decide.{ℕ_discrete}
use golinux.Base.Map.{find}
use golinux.Base.Word.{◌+w◌}
use golinux.Cpu.Memory.{Space, page_addr, lookup_space, prot_exec}
use golinux.Cpu.Memory.Copy.{
  allowed, update, page_bytes, same_bytes, write_page, write_chunk, copy_in,
}
use golinux.Cpu.Memory.View.{
  Cell, View, cell_at, view, view_of, IsValid, lookup_space-view, lookup_space-IsValid,
}
use golinux.Cpu.Memory.Reads.{chunk}
use golinux.Cpu.Memory.Writes.{
  own_bytes, with_bytes, copy_in-unmapped, copy_in-denied, copy_in-chunk, write_chunk-IsValid,
}

update_same : (f : ℕ → ℕ) (o b : ℕ) → f o ≡ b → update f o b ≡ f
update_same f o b e = fun_ext λ q. ground arith

-- Writing the bytes that are there changes nothing.
write_page_same :
    (cs : List ℕ) (f : ℕ → ℕ) (off : ℕ)
    → same_bytes (page_bytes f off (length cs)) cs ≡ true
    → write_page f off cs ≡ f
unfolding write_page same_bytes page_bytes
write_page_same [] f off e = refl
write_page_same (c ∷ cs) f off e =
    rw (update_same f off c (ground arith)) (write_page_same cs f (off + 1) (ground arith))

abbrev pub executable : Cell → Bool
executable c = not (bit_and c.perm prot_exec == 0)

abbrev page_executable : Space → ℕ → Bool
page_executable s p = not (bit_and (s.heap.cell p).perm prot_exec == 0)

same_when_clean :
    (p off : ℕ) (cs : List ℕ) (s : Space)
    → (write_chunk p off cs s).code_dirty ≡ false
    → page_executable s p ≡ true
    → view_of (write_chunk p off cs s) ≡ view_of s
unfolding write_chunk
same_when_clean p off cs s clean exec =
    let own = (s.heap.cell p).bytes in
    let same : same_bytes (page_bytes own off (length cs)) cs ≡ true = ground arith in
    ap (λ (f : ℕ → ℕ). view (with_bytes s.heap p f) s.pages) (write_page_same cs own off same)
    ∙ sym (own_bytes s.heap s.pages p)

perm_or_none : Option Cell → ℕ
perm_or_none none = 0
perm_or_none (some c) = c.perm

write_chunk-clean :
    (p off : ℕ) (cs : List ℕ) (s : Space) (x : ℕ) (c : Cell)
    → (write_chunk p off cs s).code_dirty ≡ false
    → view_of s x ≡ some c
    → executable c ≡ true
    → view_of (write_chunk p off cs s) x ≡ some c
unfolding write_chunk view perm_or_none
write_chunk-clean p off cs s x c clean here exec = elim (Bool-cases (page_executable s p)) [
  | inl e ↦ ap (λ (v : View). v x) (same_when_clean p off cs s clean e) ∙ here
  | inr data_page ↦ elim (Option-cases (find (page_addr x) s.pages)) [
    | inl e ↦ ground arith
    | inr (q, e) ↦ rw (e, view) (other data_page q (rw e at here))
  ]
]
  where
    other :
        page_executable s p ≡ false
        → (q : ℕ) → cell_at s.heap (x % 0x1000) (some q) ≡ some c
        → cell_at (write_chunk p off cs s).heap (x % 0x1000) (some q) ≡ some c
    other data_page q h = elim (ℕ_discrete q p) [
      | no miss ↦ let e : (q == p) ≡ false = ground arith in rw e h
      | yes hit ↦
          let perms : (s.heap.cell p).perm ≡ c.perm =
            ap (λ (k : ℕ). (s.heap.cell k).perm) (sym hit) ∙ ap perm_or_none h in
          absurd (false≢true (sym data_page ∙ rw perms exec))
    ]

write_chunk-dirty :
    (p off : ℕ) (cs : List ℕ) (s : Space)
    → (write_chunk p off cs s).code_dirty ≡ false
    → s.code_dirty ≡ false
unfolding write_chunk
write_chunk-dirty p off cs s h = ground arith

pub lookup_space-dirty : (s : Space) (pa : ℕ) → (lookup_space s pa).code_dirty ≡ s.code_dirty
unfolding lookup_space
lookup_space-dirty s pa = ground arith

-- A write that leaves `codeDirty` clear found it clear.
pub copy_in-dirty :
    (fuel a : ℕ) (bs : List ℕ) (perm : ℕ) (s : Space)
    → IsValid s
    → (copy_in fuel a bs perm s).1.code_dirty ≡ false
    → s.code_dirty ≡ false
unfolding copy_in
copy_in-dirty fuel a [] perm s v h = h
copy_in-dirty zero a (b ∷ bs) perm s v h = h
copy_in-dirty (suc fuel) a (b ∷ bs) perm s v h =
    let s' = lookup_space s (page_addr a) in
    elim (Option-cases (find (page_addr a) s.pages)) [
      | inl e ↦
          sym (lookup_space-dirty s (page_addr a))
          ∙ (rw (copy_in-unmapped fuel a b bs perm s v e) at h)
      | inr (p, e) ↦ elim (Bool-cases (allowed perm (s'.heap.cell p).perm)) [
        | inl may ↦
            sym (lookup_space-dirty s (page_addr a))
            ∙ write_chunk-dirty p _ _ s' (
                copy_in-dirty fuel _ _ perm _
                  (write_chunk-IsValid p _ _ s' (lookup_space-IsValid s (page_addr a) v))
                  (rw (copy_in-chunk fuel a b bs perm s v p e may) at h))
        | inr no_write ↦
            sym (lookup_space-dirty s (page_addr a))
            ∙ (rw (copy_in-denied fuel a b bs perm s v p e no_write) at h)
      ]
    ]

-- The decode cache is safe: in a valid memory, after a write that leaves codeDirty clear,
-- faulting or not, a mapped address whose protection has the exec bit holds the byte and the
-- protection it held before.
pub copy_in-clean :
    (fuel a : ℕ) (bs : List ℕ) (perm : ℕ) (s : Space) (x : ℕ) (c : Cell)
    → IsValid s
    → (copy_in fuel a bs perm s).1.code_dirty ≡ false
    → view_of s x ≡ some c
    → executable c ≡ true
    → view_of (copy_in fuel a bs perm s).1 x ≡ some c
unfolding copy_in
copy_in-clean fuel a [] perm s x c v clean here exec = here
copy_in-clean zero a (b ∷ bs) perm s x c v clean here exec = here
copy_in-clean (suc fuel) a (b ∷ bs) perm s x c v clean here exec =
    let s' = lookup_space s (page_addr a) in
    let v' : IsValid s' = lookup_space-IsValid s (page_addr a) v in
    let here' : view_of s' x ≡ some c =
      ap (λ (w : View). w x) (lookup_space-view s (page_addr a)) ∙ here in
    elim (Option-cases (find (page_addr a) s.pages)) [
      | inl e ↦ rw (copy_in-unmapped fuel a b bs perm s v e) here'
      | inr (p, e) ↦ elim (Bool-cases (allowed perm (s'.heap.cell p).perm)) [
        | inl may ↦
            let n = chunk a (length bs) in
            let s'' = write_chunk p (a - page_addr a) (take n (b ∷ bs)) s' in
            let v'' : IsValid s'' =
              write_chunk-IsValid p (a - page_addr a) (take n (b ∷ bs)) s' v' in
            let clean' : (copy_in fuel (a +w n) (drop n (b ∷ bs)) perm s'').1.code_dirty ≡ false =
              rw (copy_in-chunk fuel a b bs perm s v p e may) at clean in
            rw (copy_in-chunk fuel a b bs perm s v p e may) (
              copy_in-clean fuel (a +w n) (drop n (b ∷ bs)) perm s'' x c v'' clean'
                (write_chunk-clean p (a - page_addr a) (take n (b ∷ bs)) s' x c
                  (copy_in-dirty fuel (a +w n) (drop n (b ∷ bs)) perm s'' v'' clean') here' exec)
                exec)
        | inr no_write ↦ rw (copy_in-denied fuel a b bs perm s v p e no_write) here'
      ]
    ]
