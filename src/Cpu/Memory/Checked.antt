-- ===== src/Cpu/Memory/Checked.antt =====
-- A checked write and then a checked read, each with its own permission.
use golinux.Base.{
  ℕ, zero, suc, ◌^◌, ◌≤◌, ◌<◌, ◌≡◌, refl, ap, ◌∙◌, sym, Option, none, List, ◌∷◌, length, arith,
  Option-cases, Bool-cases, inl, inr,
}
use golinux.Base.Word.{◌+w◌}
use golinux.Cpu.Memory.{Space, Fault}
use golinux.Cpu.Memory.Copy.{Result, ok, err, allowed, copy_in, read_checked, write_checked}
use golinux.Cpu.Memory.View.{View, view_of, read_view, cons_ok, IsValid}
use golinux.Cpu.Memory.Reads.{copy_out-eq-read_view, copy_out-keeps}
use golinux.Cpu.Memory.Writes.{copy_in-eq-write_view}
use golinux.Cpu.Memory.RoundTrip.{copy_in-IsValid, write_view-read_view}

pub cons_ok-inv :
    (x : ℕ) (r : Result (List ℕ)) (ys : List ℕ)
    → cons_ok x r ≡ ok ys
    → (xs : List ℕ) × (r ≡ ok xs) × (ys ≡ x ∷ xs)
cons_ok-inv x (ok xs) ys h = (xs, refl, cc)
cons_ok-inv x (err f) ys h = cc

-- What may be read under a permission is what direct access reads.
read_view-unchecked :
    (v : View) (a n perm : ℕ) (xs : List ℕ)
    → read_view v a n perm ≡ ok xs
    → read_view v a n 0 ≡ ok xs
unfolding read_view allowed
read_view-unchecked v a zero perm xs h = h
read_view-unchecked v a (suc n) perm xs h = elim (Option-cases (v a)) [
  | inl e ↦ ground arith
  | inr (c, e) ↦ elim (Bool-cases (allowed perm c.perm)) [
    | inl may ↦
        let (ys, rest, split) =
          cons_ok-inv c.byte (read_view v (a +w 1) n perm) xs (ground arith) in
        let below = read_view-unchecked v (a +w 1) n perm ys rest in ground arith
    | inr denied ↦ ground arith
  ]
]

-- Reading.
pub write_checked-read_checked :
    (a : ℕ) (bs ys : List ℕ) (perm perm' : ℕ) (s : Space)
    → IsValid s
    → a < 2 ^ 64
    → length bs ≤ 2 ^ 64
    → (write_checked a bs perm s).0 ≡ none
    → (read_checked a (length bs) perm' (write_checked a bs perm s).1).0 ≡ ok ys
    → ys ≡ bs
unfolding write_checked read_checked
write_checked-read_checked a bs ys perm perm' s v small fits written got =
    let n = length bs in
    let same = copy_in-eq-write_view n a bs perm s v small (omega arith) in
    let after = (copy_in n a bs perm s).1 in
    let seen : read_view (view_of after) a n perm' ≡ ok ys =
      sym (
        copy_out-eq-read_view n a n perm' after (copy_in-IsValid n a bs perm s v) small
          (omega arith))
      ∙ got in
    let stored : read_view (view_of after) a n 0 ≡ ok bs =
      ap (λ (r : Option Fault × View). read_view r.1 a n 0) same
      ∙ write_view-read_view (view_of s) a bs perm small fits
          (sym (ap (λ (r : Option Fault × View). r.0) same) ∙ written) in
    let both = sym (read_view-unchecked (view_of after) a n perm' ys seen) ∙ stored in cc

pub read_checked-IsValid :
    (a n perm : ℕ) (s : Space) → IsValid s → IsValid (read_checked a n perm s).1
unfolding read_checked
read_checked-IsValid a n perm s v = (copy_out-keeps n a n perm s v).0

pub read_checked-view :
    (a n perm : ℕ) (s : Space) → IsValid s → view_of (read_checked a n perm s).1 ≡ view_of s
unfolding read_checked
read_checked-view a n perm s v = (copy_out-keeps n a n perm s v).1

pub write_checked-IsValid :
    (a : ℕ) (bs : List ℕ) (perm : ℕ) (s : Space) → IsValid s → IsValid (write_checked a bs perm s).1
unfolding write_checked
write_checked-IsValid a bs perm s v = copy_in-IsValid (length bs) a bs perm s v
