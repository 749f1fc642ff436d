-- ===== src/Cpu/Memory/Kept.antt =====
-- What a change of memory that leaves `codeDirty` clear may not do: change code.
use golinux.Base.{
  ℕ, zero, suc, ◌-◌, ◌≡◌, refl, sym, ap, ◌∙◌, true, false, some, List, length, Bool-cases,
  Option-cases, inl, inr,
}
use golinux.Base.Map.{find}
use golinux.Base.Word.{◌+w◌}
use golinux.Cpu.Memory.{Space, page_addr, lookup_space}
use golinux.Cpu.Memory.Copy.{allowed, copy_out, read_checked, write_checked, read_checked_into}
use golinux.Cpu.Memory.View.{Cell, View, view_of, IsValid, lookup_space-IsValid}
use golinux.Cpu.Memory.Reads.{
  chunk, copy_out-unmapped, copy_out-denied, copy_out-chunk, copy_out-keeps,
}
use golinux.Cpu.Memory.Dirty.{executable, lookup_space-dirty, copy_in-dirty, copy_in-clean}
use golinux.Cpu.Memory.Checked.{write_checked-IsValid}
use golinux.Cpu.Memory.Fast.{read_checked_into-eq-read_checked}

-- The code of one view is there in another: what has the exec bit, byte and protection.
pub record SameCode (v w : View) : Type 0 where
  pub cell : (x : ℕ) (c : Cell) → v x ≡ some c → executable c ≡ true → w x ≡ some c

pub SameCode-trans : {u v w : View} → SameCode u v → SameCode v w → SameCode u w
SameCode-trans p q = record { cell = λ x c here exec. q.cell x c (p.cell x c here exec) exec }

pub SameCode-eq : {v w : View} → w ≡ v → SameCode v w
SameCode-eq e = record { cell = λ x c here exec. ap (λ (f : View). f x) e ∙ here }

pub record CodeKept (s s' : Space) : Type 0 where
  pub valid : IsValid s'
  pub was_clean : s'.code_dirty ≡ false → s.code_dirty ≡ false
  pub code : s'.code_dirty ≡ false → SameCode (view_of s) (view_of s')

pub CodeKept-refl : (s : Space) → IsValid s → CodeKept s s
CodeKept-refl s v = record { valid = v; was_clean = λ h. h; code = λ h. SameCode-eq refl }

pub CodeKept-trans : {s t u : Space} → CodeKept s t → CodeKept t u → CodeKept s u
CodeKept-trans p q = record {
  valid = q.valid;
  was_clean = λ h. p.was_clean (q.was_clean h);
  code = λ h. SameCode-trans (p.code (q.was_clean h)) (q.code h);
}

-- A memory that differs in its one-entry cache only.
pub record Untouched (s s' : Space) : Type 0 where
  pub valid : IsValid s'
  pub same_dirty : s'.code_dirty ≡ s.code_dirty
  pub same_view : view_of s' ≡ view_of s

pub Untouched-refl : (s : Space) → IsValid s → Untouched s s
Untouched-refl s v = record { valid = v; same_dirty = refl; same_view = refl }

pub Untouched-trans : {s t u : Space} → Untouched s t → Untouched t u → Untouched s u
Untouched-trans p q = record {
  valid = q.valid;
  same_dirty = q.same_dirty ∙ p.same_dirty;
  same_view = q.same_view ∙ p.same_view;
}

pub Untouched-CodeKept : {s s' : Space} → Untouched s s' → CodeKept s s'
Untouched-CodeKept u = record {
  valid = u.valid;
  was_clean = λ h. sym u.same_dirty ∙ h;
  code = λ h. SameCode-eq u.same_view;
}

copy_out-dirty :
    (fuel a n perm : ℕ) (s : Space)
    → IsValid s
    → (copy_out fuel a n perm s).1.code_dirty ≡ s.code_dirty
unfolding copy_out
copy_out-dirty fuel a zero perm s v = refl
copy_out-dirty zero a (suc n) perm s v = refl
copy_out-dirty (suc fuel) a (suc n) perm s v =
    let s' = lookup_space s (page_addr a) in
    let v' : IsValid s' = lookup_space-IsValid s (page_addr a) v in
    let same = lookup_space-dirty s (page_addr a) in
    elim (Option-cases (find (page_addr a) s.pages)) [
      | inl e ↦ rw (copy_out-unmapped fuel a n perm s v e) same
      | inr (p, e) ↦ elim (Bool-cases (allowed perm (s.heap.cell p).perm)) [
        | inl may ↦
            rw (copy_out-chunk fuel a n perm s v p e may)
              (copy_out-dirty fuel (a +w chunk a n) (suc n - chunk a n) perm s' v' ∙ same)
        | inr no_read ↦ rw (copy_out-denied fuel a n perm s v p e no_read) same
      ]
    ]

pub read_checked-Untouched :
    (a n perm : ℕ) (s : Space) → IsValid s → Untouched s (read_checked a n perm s).1
unfolding read_checked
read_checked-Untouched a n perm s v =
    let kept = copy_out-keeps n a n perm s v in
    record { valid = kept.0; same_dirty = copy_out-dirty n a n perm s v; same_view = kept.1 }

pub read_checked_into-Untouched :
    (a n perm : ℕ) (s : Space) → IsValid s → Untouched s (read_checked_into a n perm s).1
read_checked_into-Untouched a n perm s v =
    rw (read_checked_into-eq-read_checked a n perm s v) (read_checked-Untouched a n perm s v)

pub write_checked-CodeKept :
    (a : ℕ) (bs : List ℕ) (perm : ℕ) (s : Space)
    → IsValid s
    → CodeKept s (write_checked a bs perm s).1
unfolding write_checked
write_checked-CodeKept a bs perm s v = record {
  valid = write_checked-IsValid a bs perm s v;
  was_clean = copy_in-dirty (length bs) a bs perm s v;
  code = λ clean. record {
    cell = λ x c here exec. copy_in-clean (length bs) a bs perm s x c v clean here exec;
  };
}
