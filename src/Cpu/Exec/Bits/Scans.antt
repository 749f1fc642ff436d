-- ===== src/Cpu/Exec/Bits/Scans.antt =====
-- What the searches of BSF, BSR, TZCNT and LZCNT in internal/cpu/twobyte.go find.
use golinux.Base.{
  ℕ, zero, suc, ◌+◌, ◌-◌, ◌/◌, ◌^◌, ◌≤◌, ◌<◌, ◌≡◌, sym, ap, ◌∙◌, true, false, ◌==◌, leb, arith,
  Bool-cases, inl, inr,
}
use mathlib.Core.Bool.{false≢true}
use golinux.Base.Bits.{bit, and_mask, bit_value, bit_top, bit-mod}
use native.Mathlib.Nat.{mod-eq_of_lt}
use golinux.Cpu.Exec.Bits.{bit_is_set, lowest_from, highest_below, leading_from}

pub tested_bit : (v k : ℕ) → bit_is_set v k ≡ bit v k
tested_bit v k = ground (arith, and_mask 1 (v / 2 ^ k), bit_value k v)

bit_above : (v k j : ℕ) → v < 2 ^ k → k ≤ j → bit v j ≡ false
bit_above v k j small above = rw (sym (mod-eq_of_lt small)) (bit-mod j k v ∙ ground arith)

-- The lowest bit of `v` that is set, from bit `c` on.
pub record Lowest (v c r : ℕ) : Type 0 where
  pub at : bit v r ≡ true
  pub before : (j : ℕ) → c ≤ j → j < r → bit v j ≡ false

-- The highest bit of `v` that is set.
pub record Highest (v r : ℕ) : Type 0 where
  pub at : bit v r ≡ true
  pub after : (j : ℕ) → r < j → bit v j ≡ false

Lowest-back : (v c r : ℕ) → bit v c ≡ false → Lowest v (c + 1) r → Lowest v c r
Lowest-back v c r clear l = record {
  at = l.at;
  before = λ j from to. elim (Bool-cases (j == c)) [
    | inl e ↦ let same : j ≡ c = ground arith in ap (λ (k : ℕ). bit v k) same ∙ clear
    | inr e ↦ l.before j (ground arith) to
  ];
}

Lowest-le : (v r s : ℕ) → Lowest v 0 r → Lowest v 0 s → r ≤ s
Lowest-le v r s p q = elim (Bool-cases (leb r s)) [
  | inl h ↦ ground arith
  | inr h ↦ absurd (false≢true (sym (p.before s (omega arith) (ground arith)) ∙ q.at))
]

lowest_from-Lowest :
    (n v c k : ℕ) → c ≤ k → k < c + n → bit v k ≡ true → Lowest v c (lowest_from n v c)
unfolding lowest_from
lowest_from-Lowest zero v c k from to set = absurd (omega arith)
lowest_from-Lowest (suc n) v c k from to set = elim (Bool-cases (bit v c)) [
  | inl here ↦
      rw (tested_bit v c, here) (record { at = here; before = λ j from to. absurd (omega arith) })
  | inr clear ↦
      let apart : (k == c) ≡ false = elim (Bool-cases (k == c)) [
        | inl e ↦
            let same : k ≡ c = ground arith in
            absurd (false≢true (sym clear ∙ ap (λ (j : ℕ). bit v j) (sym same) ∙ set))
        | inr e ↦ e
      ] in
      rw (tested_bit v c, clear)
        (Lowest-back v c (lowest_from n v (c + 1)) clear
          (lowest_from-Lowest n v (c + 1) k (ground arith) (omega arith) set))
]

highest_below-Highest :
    (n v : ℕ) → 0 < v → v < 2 ^ n → Highest v (highest_below n v) × highest_below n v < n
unfolding highest_below
highest_below-Highest zero v pos small = absurd (omega arith)
highest_below-Highest (suc n) v pos small = elim (Bool-cases (bit v n)) [
  | inl here ↦
      rw (tested_bit v n, here)
        (record { at = here; after = λ j past. bit_above v (suc n) j small past }, omega arith)
  | inr clear ↦
      let less : v < 2 ^ n = ground (arith, bit_top n v small) in
      let (h, below) = highest_below-Highest n v pos less in
      rw (tested_bit v n, clear) (h, omega arith)
]

leading_from_highest :
    (n v c : ℕ) → 0 < v → v < 2 ^ n → leading_from n v c ≡ c + (n - 1 - highest_below n v)
unfolding leading_from highest_below
leading_from_highest zero v c pos small = absurd (omega arith)
leading_from_highest (suc n) v c pos small = elim (Bool-cases (bit v n)) [
  | inl here ↦ rw (tested_bit v n, here) (omega arith)
  | inr clear ↦
      let less : v < 2 ^ n = ground (arith, bit_top n v small) in
      let below = (highest_below-Highest n v pos less).1 in
      rw (tested_bit v n, clear) (leading_from_highest n v (c + 1) pos less ∙ omega arith)
]

-- For a value other than 0 that fits n bits, with n at most 64, the search of BSF ends at the
-- lowest bit that is set and that of BSR at the highest; TZCNT counts to the bit that BSF finds,
-- and LZCNT counts as many bits as lie above the one that BSR finds.
pub bit_searches_lem :
    (n v : ℕ)
    → n ≤ 64
    → 0 < v
    → v < 2 ^ n
    → Lowest v 0 (lowest_from 64 v 0)
      × lowest_from n v 0 ≡ lowest_from 64 v 0
      × Highest v (highest_below n v)
      × leading_from n v 0 ≡ n - 1 - highest_below n v
bit_searches_lem n v narrow pos small =
    let (high, below) = highest_below-Highest n v pos small in
    let top = highest_below n v in
    let here = lowest_from-Lowest n v 0 top (omega arith) (omega arith) high.at in
    let wide = lowest_from-Lowest 64 v 0 top (omega arith) (omega arith) high.at in
    let le = Lowest-le v (lowest_from n v 0) (lowest_from 64 v 0) here wide in
    let ge = Lowest-le v (lowest_from 64 v 0) (lowest_from n v 0) wide here in
    (wide, omega arith, high, leading_from_highest n v 0 pos small ∙ omega arith)
