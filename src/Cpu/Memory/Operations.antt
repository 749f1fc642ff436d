-- ===== src/Cpu/Memory/Operations.antt =====
-- Any sequence of calls on a memory.
use golinux.Base.{ℕ, ◌==◌, Bool-cases, inl, inr, List, [], ◌∷◌, length}
use golinux.Cpu.Memory.{Space, mem_map, mem_unmap, mem_protect, consume_code_dirty}
use golinux.Cpu.Memory.Copy.{mem_read, mem_write, read_checked, write_checked, read_checked_into}
use golinux.Cpu.Memory.View.{IsValid}
use golinux.Cpu.Memory.Table.{mem_map-IsValid, mem_unmap-IsValid, mem_protect-IsValid}
use golinux.Cpu.Memory.Fast.{read_checked_into-eq-read_checked}
use golinux.Cpu.Memory.Clone.{parent, child, clone_lem}
use golinux.Cpu.Memory.Checked.{read_checked-IsValid, write_checked-IsValid}

-- A call on a memory. After Clone one goes on with the parent or with the child.
pub data Operation : Type 0 where
  map : ℕ → ℕ → ℕ → Operation
  unmap : ℕ → ℕ → Operation
  protect : ℕ → ℕ → ℕ → Operation
  read : ℕ → ℕ → Operation
  write : ℕ → List ℕ → Operation
  checked_read checked_read_into : ℕ → ℕ → ℕ → Operation
  checked_write : ℕ → List ℕ → ℕ → Operation
  consume_dirty clone_parent clone_child : Operation

abbrev pub apply : Operation → Space → Space
apply (map addr size perms) s = (mem_map addr size perms s).1
apply (unmap addr size) s = mem_unmap addr size s
apply (protect addr size perms) s = mem_protect addr size perms s
apply (read a n) s = (mem_read a n s).1
apply (write a bs) s = (mem_write a bs s).1
apply (checked_read a n perm) s = (read_checked a n perm s).1
apply (checked_read_into a n perm) s = (read_checked_into a n perm s).1
apply (checked_write a bs perm) s = (write_checked a bs perm s).1
apply consume_dirty s = (consume_code_dirty s).1
apply clone_parent s = parent s
apply clone_child s = child s

abbrev pub apply_all : List Operation → Space → Space
apply_all [] s = s
apply_all (o ∷ os) s = apply_all os (apply o s)

mem_read-IsValid : (a n : ℕ) (s : Space) → IsValid s → IsValid (mem_read a n s).1
unfolding mem_read read_checked
mem_read-IsValid a n s v = elim (Bool-cases (n == 0)) [
  | inl e ↦ rw e v
  | inr e ↦ rw e (read_checked-IsValid a n 0 s v)
]

mem_write-IsValid : (a : ℕ) (bs : List ℕ) (s : Space) → IsValid s → IsValid (mem_write a bs s).1
unfolding mem_write write_checked
mem_write-IsValid a bs s v = elim (Bool-cases (length bs == 0)) [
  | inl e ↦ rw e v
  | inr e ↦ rw e (write_checked-IsValid a bs 0 s v)
]

read_checked_into-IsValid :
    (a n perm : ℕ) (s : Space) → IsValid s → IsValid (read_checked_into a n perm s).1
read_checked_into-IsValid a n perm s v =
    rw (read_checked_into-eq-read_checked a n perm s v) (read_checked-IsValid a n perm s v)

apply-IsValid : (o : Operation) (s : Space) → IsValid s → IsValid (apply o s)
apply-IsValid (map addr size perms) s v = mem_map-IsValid addr size perms s v
apply-IsValid (unmap addr size) s v = mem_unmap-IsValid addr size s v
apply-IsValid (protect addr size perms) s v = mem_protect-IsValid addr size perms s v
apply-IsValid (read a n) s v = mem_read-IsValid a n s v
apply-IsValid (write a bs) s v = mem_write-IsValid a bs s v
apply-IsValid (checked_read a n perm) s v = read_checked-IsValid a n perm s v
apply-IsValid (checked_read_into a n perm) s v = read_checked_into-IsValid a n perm s v
apply-IsValid (checked_write a bs perm) s v = write_checked-IsValid a bs perm s v
apply-IsValid consume_dirty s v = record { cached = v.cached; below = v.below; apart = v.apart }
apply-IsValid clone_parent s v = (clone_lem s v).0
apply-IsValid clone_child s v = (clone_lem s v).1

-- A valid memory stays valid along any sequence of its operations, whether they succeed or not,
-- where Clone goes on with the parent or with the child: no two entries of the page table share
-- a page, every page is allocated, and the one-entry cache, when it is set, agrees with the
-- table.
pub apply_all-IsValid : (os : List Operation) (s : Space) → IsValid s → IsValid (apply_all os s)
apply_all-IsValid [] s v = v
apply_all-IsValid (o ∷ os) s v = apply_all-IsValid os (apply o s) (apply-IsValid o s v)
