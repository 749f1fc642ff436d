-- ===== src/Emulator/Heap.antt =====
-- The heap that brk grows.
use golinux.Base.{
  ℕ, ◌+◌, ◌-◌, ◌%◌, ◌^◌, ◌≤◌, ◌<◌, ◌≡◌, refl, ap, ◌∙◌, true, false, ◌&&◌, ◌||◌, ltb, leb, ◌==◌,
  Bool-cases, Option, none, some, inl, inr, ◌⊎◌, arith,
}
use golinux.Base.Word.{◌+w◌, ◌-w◌}
use golinux.Cpu.Memory.{Space, MapError, mem_map}
use golinux.Cpu.Memory.View.{view_of, IsValid, page_addr_lem}
use golinux.Cpu.Memory.Table.{mem_map-IsValid}
use golinux.Cpu.Memory.Mapping.{mem_map-view, mem_map_atomic}
use golinux.Emulator.{Process, page_align_up, grown, do_brk}

-- The heap from its start to its mapped end can be read and written, and the break lies within it.
pub record IsHeap (p : Process) : Type 0 where
  pub valid : IsValid p.space
  pub ordered : p.brk_start ≤ p.brk_cur
  pub inside : p.brk_cur ≤ p.brk_mapped_end
  pub low : p.brk_mapped_end ≤ 2 ^ 63
  pub mapped :
      (x : ℕ)
      → p.brk_start ≤ x
      → x < p.brk_mapped_end
      → (b : ℕ) × (view_of p.space x ≡ some (record { byte = b; perm = 3 }))

align_up_lem : (x : ℕ) → x < 2 ^ 63 → page_align_up x ≡ x + 0xfff - (x + 0xfff) % 0x1000
unfolding page_align_up
align_up_lem x small =
    let plain : x +w 0xfff ≡ x + 0xfff = omega arith in rw plain (page_addr_lem (x + 0xfff))

-- The mapped part after a MemMap of the pages up to `end`.
extended :
    (p : Process) (end x : ℕ)
    → IsHeap p
    → p.brk_mapped_end < end
    → end ≤ 2 ^ 63
    → (mem_map p.brk_mapped_end (end - p.brk_mapped_end) 3 p.space).0 ≡ none
    → p.brk_start ≤ x
    → x < end
    → (b : ℕ) × (view_of (mem_map p.brk_mapped_end (end - p.brk_mapped_end) 3 p.space).1 x
        ≡ some (record { byte = b; perm = 3 }))
extended p end x h more small done from below = elim (Bool-cases (leb p.brk_mapped_end x)) [
  | inl e ↦
      let new : leb p.brk_mapped_end x && ltb x (p.brk_mapped_end + (end - p.brk_mapped_end))
          ≡ true =
        ground (arith, e) in
      (
        0,
        mem_map-view p.brk_mapped_end (end - p.brk_mapped_end) 3 p.space h.valid (omega arith) done
              x
            ∙ rw new refl,
      )
  | inr e ↦
      let old : leb p.brk_mapped_end x && ltb x (p.brk_mapped_end + (end - p.brk_mapped_end))
          ≡ false =
        ground (arith, e) in
      let (b, cell) = h.mapped x from (ground (arith, e)) in
      (
        b,
        mem_map-view p.brk_mapped_end (end - p.brk_mapped_end) 3 p.space h.valid (omega arith) done
              x
            ∙ rw old cell,
      )
]

grown-IsHeap :
    (addr : ℕ) (p : Process) (r : Option MapError × Space)
    → IsHeap p
    → addr < 2 ^ 63
    → p.brk_start ≤ addr
    → IsValid r.1
    → ((e : MapError) → r.0 ≡ some e → r.1 ≡ p.space)
    → (r.0 ≡ none
        → (x : ℕ) → p.brk_start ≤ x
        → x < page_align_up addr
        → (b : ℕ) × (view_of r.1 x ≡ some (record { byte = b; perm = 3 })))
    → IsHeap (grown addr p r).1
grown-IsHeap addr p (some e, s) h small from valid same mapped = record {
  valid = valid;
  ordered = h.ordered;
  inside = h.inside;
  low = h.low;
  mapped = λ x above below.
      let (b, cell) = h.mapped x above below in
      (b, ap (λ (t : Space). view_of t x) (same e refl) ∙ cell);
}
grown-IsHeap addr p (none, s) h small from valid same mapped = record {
  valid = valid;
  ordered = from;
  inside = omega (arith, align_up_lem addr small);
  low = omega (arith, align_up_lem addr small);
  mapped = mapped refl;
}

-- What a call of brk gives.
abbrev pub Answers : ℕ → Process → ℕ × Process → Type 0
Answers addr p (cur, q) = IsHeap q × (cur ≡ q.brk_cur) × ((cur ≡ addr) ⊎ (cur ≡ p.brk_cur))

grown-answer :
    (addr : ℕ) (p : Process) (r : Option MapError × Space)
    → ((grown addr p r).0 ≡ (grown addr p r).1.brk_cur)
      × (((grown addr p r).0 ≡ addr) ⊎ ((grown addr p r).0 ≡ p.brk_cur))
grown-answer addr p (some e, s) = (refl, inr refl)
grown-answer addr p (none, s) = (refl, inl refl)

-- DoBrk of an address below 2^63 keeps the heap sound: the memory is valid, the break lies
-- between the heap's start and its mapped end, which is at most 2^63, and every address from the
-- start to the mapped end can be read and written. It returns the new break, which is the
-- address asked for or the break before.
pub do_brk-IsHeap :
    (addr : ℕ) (p : Process) → addr < 2 ^ 63 → IsHeap p → Answers addr p (do_brk addr p)
unfolding do_brk
do_brk-IsHeap addr p small h = elim (Bool-cases ((addr == 0) || ltb addr p.brk_start)) [
  | inl e ↦ rw e (h, refl, inr refl)
  | inr e ↦ elim (Bool-cases (ltb p.brk_mapped_end (page_align_up addr))) [
    | inl f ↦
        let more : p.brk_mapped_end < page_align_up addr = ground (arith, f) in
        let top : page_align_up addr ≤ 2 ^ 63 = omega (arith, align_up_lem addr small) in
        let size : page_align_up addr -w p.brk_mapped_end ≡ page_align_up addr - p.brk_mapped_end =
          omega arith in
        let end : ℕ = page_align_up addr in
        let r = mem_map p.brk_mapped_end (end - p.brk_mapped_end) 3 p.space in
        rw (e, f, size)
          (
            grown-IsHeap addr p r h small (ground (arith, e))
                (mem_map-IsValid p.brk_mapped_end (end - p.brk_mapped_end) 3 p.space h.valid)
                (mem_map_atomic p.brk_mapped_end (end - p.brk_mapped_end) 3 p.space)
                (λ done x. extended p end x h more top done),
            (grown-answer addr p r).0,
            (grown-answer addr p r).1,
          )
    | inr f ↦
        rw (e, f)
          (
            record {
              valid = h.valid;
              ordered = ground (arith, e);
              inside = ground (arith, f, align_up_lem addr small);
              low = h.low;
              mapped = h.mapped;
            },
            refl,
            inl refl,
          )
  ]
]
