-- ===== src/Cpu/Memory/RoundTrip.antt =====
-- What a write stores, a read gives back, and other addresses are left alone.
use golinux.Base.{
  ℕ, zero, suc, ◌+◌, ◌-◌, ◌%◌, ◌^◌, ◌≤◌, ◌<◌, ◌≡◌, refl, ap, ◌∙◌, sym, Option, none, some, List, [],
  ◌∷◌, length, arith, Bool-cases, Option-cases, inl, inr,
}
use golinux.Base.Map.{find}
use golinux.Base.Word.{◌+w◌}
use golinux.Cpu.Memory.{Space, Fault, page_addr, lookup_space}
use golinux.Cpu.Memory.Copy.{ok, copy_out, allowed, copy_in, mem_read, mem_write, write_checked}
use golinux.Cpu.Memory.View.{
  Cell, View, view_of, poke, read_view, write_view, cons_ok, IsValid, lookup_space-IsValid,
}
use golinux.Cpu.Memory.Reads.{copy_out-eq-read_view}
use golinux.Cpu.Memory.Writes.{
  copy_in-unmapped, copy_in-denied, copy_in-chunk, write_chunk-IsValid, copy_in-eq-write_view,
}

-- How far `x` lies after `a`, around the end of the address space.
abbrev pub distance : ℕ → ℕ → ℕ
distance a x = (x + (2 ^ 64 - a)) % 2 ^ 64

write_view-elsewhere :
    (v : View) (a : ℕ) (bs : List ℕ) (perm x : ℕ)
    → a < 2 ^ 64
    → x < 2 ^ 64
    → length bs ≤ distance a x
    → (write_view v a bs perm).1 x ≡ v x
unfolding write_view poke
write_view-elsewhere v a [] perm x small x_small far = refl
write_view-elsewhere v a (b ∷ bs) perm x small x_small far =
    let later =
      write_view-elsewhere (poke v a b) (a +w 1) bs perm x (omega arith) x_small (omega arith) in
    ground arith

read_view-step :
    (v : View) (a n : ℕ) (c : Cell)
    → v a ≡ some c
    → read_view v a (suc n) 0 ≡ cons_ok c.byte (read_view v (a +w 1) n 0)
unfolding read_view allowed
read_view-step v a n c e = rw (e, read_view) refl

poke_here :
    (v : View) (a b : ℕ) (c : Cell) → v a ≡ some c → poke v a b a ≡ some (record c { byte = b })
unfolding poke
poke_here v a b c e = ground arith

-- A write that succeeds gives its bytes back.
pub write_view-read_view :
    (v : View) (a : ℕ) (bs : List ℕ) (perm : ℕ)
    → a < 2 ^ 64
    → length bs ≤ 2 ^ 64
    → (write_view v a bs perm).0 ≡ none
    → read_view (write_view v a bs perm).1 a (length bs) 0 ≡ ok bs
unfolding write_view read_view
write_view-read_view v a [] perm small fits done = refl
write_view-read_view v a (b ∷ bs) perm small fits done = elim (Option-cases (v a)) [
  | inl e ↦ ground arith
  | inr (c, e) ↦
      let later = write_view (poke v a b) (a +w 1) bs perm in
      let here =
        write_view-elsewhere (poke v a b) (a +w 1) bs perm a (omega arith) small (omega arith) in
      let rest = write_view-read_view (poke v a b) (a +w 1) bs perm (omega arith) (omega arith) in
      let stepped : write_view v a (b ∷ bs) perm ≡ later = ground arith in
      rw stepped (
        read_view-step later.1 a (length bs) (record c { byte = b }) (here ∙ poke_here v a b c e)
        ∙ ap (cons_ok b) (rest (ground arith)))
]

-- The write loop keeps a memory valid, whether it faults or not.
pub copy_in-IsValid :
    (fuel a : ℕ) (bs : List ℕ) (perm : ℕ) (s : Space)
    → IsValid s
    → IsValid (copy_in fuel a bs perm s).1
unfolding copy_in
copy_in-IsValid fuel a [] perm s v = v
copy_in-IsValid zero a (b ∷ bs) perm s v = v
copy_in-IsValid (suc fuel) a (b ∷ bs) perm s v =
    let s' = lookup_space s (page_addr a) in
    let v' : IsValid s' = lookup_space-IsValid s (page_addr a) v in
    elim (Option-cases (find (page_addr a) s.pages)) [
      | inl e ↦ rw (copy_in-unmapped fuel a b bs perm s v e) v'
      | inr (p, e) ↦ elim (Bool-cases (allowed perm (s'.heap.cell p).perm)) [
        | inl may ↦
            rw (copy_in-chunk fuel a b bs perm s v p e may)
              (copy_in-IsValid fuel _ _ perm _ (write_chunk-IsValid p _ _ s' v'))
        | inr no_write ↦ rw (copy_in-denied fuel a b bs perm s v p e no_write) v'
      ]
    ]

mem_write-nonempty :
    (a b : ℕ) (bs : List ℕ) (s : Space)
    → mem_write a (b ∷ bs) s ≡ copy_in (suc (length bs)) a (b ∷ bs) 0 s
unfolding mem_write
mem_write-nonempty a b bs s = ground arith

mem_read-nonempty : (a n : ℕ) (s : Space) → mem_read a (suc n) s ≡ copy_out (suc n) a (suc n) 0 s
unfolding mem_read
mem_read-nonempty a n s = ground arith

-- In a valid memory, after a MemWrite of at most 2^64 bytes at a 64-bit address that reports no
-- error, a MemRead of the same range gives the bytes written.
pub mem_write-mem_read :
    (a : ℕ) (bs : List ℕ) (s : Space)
    → IsValid s
    → a < 2 ^ 64
    → length bs ≤ 2 ^ 64
    → (mem_write a bs s).0 ≡ none
    → (mem_read a (length bs) (mem_write a bs s).1).0 ≡ ok bs
unfolding mem_write mem_read
mem_write-mem_read a [] s v small fits done = refl
mem_write-mem_read a (b ∷ bs) s v small fits done =
    let n = suc (length bs) in
    let started = mem_write-nonempty a b bs s in
    let same = copy_in-eq-write_view n a (b ∷ bs) 0 s v small (omega arith) in
    rw (started, mem_read-nonempty a (length bs) (copy_in n a (b ∷ bs) 0 s).1)
      (copy_out-eq-read_view n a n 0 _ (copy_in-IsValid n a (b ∷ bs) 0 s v) small (omega arith)
        ∙ ap (λ (r : Option Fault × View). read_view r.1 a n 0) same
        ∙ write_view-read_view (view_of s) a (b ∷ bs) 0 small fits
            (sym (ap (λ (r : Option Fault × View). r.0) same) ∙ (rw started at done)))

-- In a valid memory, a checked write at a 64-bit address, whether it faults or not, leaves each
-- 64-bit address outside its range, which may run around the end of the address space, with the
-- byte and the protection it had.
write_checked-elsewhere :
    (a : ℕ) (bs : List ℕ) (perm x : ℕ) (s : Space)
    → IsValid s
    → a < 2 ^ 64
    → x < 2 ^ 64
    → length bs ≤ distance a x
    → view_of (write_checked a bs perm s).1 x ≡ view_of s x
unfolding write_checked
write_checked-elsewhere a bs perm x s v small x_small far =
    ap (λ (r : Option Fault × View). r.1 x)
      (copy_in-eq-write_view (length bs) a bs perm s v small (omega arith))
    ∙ write_view-elsewhere (view_of s) a bs perm x small x_small far
