-- ===== src/Cpu/Machine/Tables.antt =====
-- The tables of decoded instructions: each page of code has one of its own.
use golinux.Base.{
  ℕ, suc, ◌<◌, ◌≡◌, ◌⊎◌, refl, sym, ap, ◌∙◌, bit_and, ◌==◌, if◌then◌else◌, Option, none, some, List,
  arith, Bool-cases, inl, inr,
}
use golinux.Base.Bits.{bit_and-le}
use golinux.Base.Map.{find, put, find-put}
use golinux.Cpu.Memory.{page_addr}
use golinux.Cpu.Registers.{array_set}
use golinux.Cpu.Machine.{Machine, use_table, new_table, table_search, table_of, table_for}

-- The table used last is the one that its page has in the cache.
pub record IsTables (m : Machine) : Type 0 where
  pub cached : (t : ℕ) → m.cached_table ≡ some t → find m.cached_table_addr m.decode_cache ≡ some t
  pub below : (a t : ℕ) → find a m.decode_cache ≡ some t → t < m.next_table
  pub apart : (a b t : ℕ) → find a m.decode_cache ≡ some t → find b m.decode_cache ≡ some t → a ≡ b

abbrev pub entry_in : (ℕ → ℕ → Option ℕ) → ℕ → Option ℕ → Option ℕ
entry_in tables i none = none
entry_in tables i (some t) = tables t i

-- The pointer that the caches hold for an address.
unfoldable pub entry : Machine → ℕ → Option ℕ
entry m pc = entry_in m.tables (bit_and pc 0xfff) (find (page_addr pc) m.decode_cache)

-- A machine with other tables.
pub record SameRest (m m' : Machine) : Type 0 where
  pub core : m'.core ≡ m.core
  pub stop_requested : m'.stop_requested ≡ m.stop_requested
  pub code : m'.code ≡ m.code
  pub next_code : m'.next_code ≡ m.next_code
  pub block_jit : m'.block_jit ≡ m.block_jit
  pub block_cache : m'.block_cache ≡ m.block_cache
  pub generation : m'.generation ≡ m.generation
  pub cached_block_start : m'.cached_block_start ≡ m.cached_block_start
  pub cached_block : m'.cached_block ≡ m.cached_block

SameRest-tables :
    (m : Machine) (tables : ℕ → ℕ → Option ℕ) (next : ℕ) (cache : List (ℕ × ℕ)) (addr : ℕ)
    (last : Option ℕ)
    → SameRest m (record m {
      tables = tables;
      next_table = next;
      decode_cache = cache;
      cached_table_addr = addr;
      cached_table = last;
    })
SameRest-tables m tables next cache addr last = record {
  core = refl;
  stop_requested = refl;
  code = refl;
  next_code = refl;
  block_jit = refl;
  block_cache = refl;
  generation = refl;
  cached_block_start = refl;
  cached_block = refl;
}

-- What asking for the table of a page gives.
pub record TableFor (m : Machine) (pa : ℕ) (r : ℕ × Machine) : Type 0 where
  pub tables : IsTables r.1
  pub here : find pa r.1.decode_cache ≡ some r.0
  pub same_entry : (pc : ℕ) → entry r.1 pc ≡ entry m pc
  pub rest : SameRest m r.1

use_table-TableFor :
    (pa t : ℕ) (m : Machine)
    → IsTables m
    → find pa m.decode_cache ≡ some t
    → TableFor m pa (use_table pa t m)
unfolding entry
use_table-TableFor pa t m v here = record {
  tables = record {
    cached = λ u e. let same : t ≡ u = cc in here ∙ ap some same;
    below = v.below;
    apart = v.apart;
  };
  here = here;
  same_entry = λ pc. refl;
  rest = SameRest-tables m _ _ _ _ _;
}

module _ (pa : ℕ) (m : Machine) (v : IsTables m) (absent : find pa m.decode_cache ≡ none) where
  added :
      (a : ℕ)
      → find a (put pa m.next_table m.decode_cache)
        ≡ (if pa == a then some m.next_table else find a m.decode_cache)
  added a = find-put a pa m.next_table m.decode_cache

  added_below :
      (a t : ℕ) → find a (put pa m.next_table m.decode_cache) ≡ some t → t < suc m.next_table
  added_below a t h = ground (arith, added a, v.below a t)

  added_apart :
      (a b t : ℕ)
      → find a (put pa m.next_table m.decode_cache) ≡ some t
      → find b (put pa m.next_table m.decode_cache) ≡ some t
      → a ≡ b
  added_apart a b t h k = ground (arith, added a, added b, v.below a t, v.below b t, v.apart a b t)

  abbrev blank_table : ℕ → ℕ → Option ℕ
  blank_table = array_set m.tables m.next_table (λ i. none)

  entry_found :
      (i : ℕ) (pa' : ℕ) (o : Option ℕ)
      → find pa' m.decode_cache ≡ o
      → entry_in blank_table i o ≡ entry_in m.tables i o
  entry_found i pa' none h = refl
  entry_found i pa' (some t) h = ground (arith, v.below pa' t)

  entry_added :
      (i pa' : ℕ)
      → entry_in blank_table i (find pa' (put pa m.next_table m.decode_cache))
        ≡ entry_in m.tables i (find pa' m.decode_cache)
  entry_added i pa' = elim (Bool-cases (pa == pa')) [
    | inl e ↦
        let same : pa ≡ pa' = ground arith in
        let nothing : find pa' m.decode_cache ≡ none = rw (sym same) absent in
        rw (added pa', e, nothing) (ground arith)
    | inr e ↦ rw (added pa', e) (entry_found i pa' (find pa' m.decode_cache) refl)
  ]

  new_table-TableFor : TableFor m pa (new_table pa m)
  unfolding entry
  new_table-TableFor = record {
    tables = record {
      cached = λ u e. ground (arith, added pa);
      below = added_below;
      apart = added_apart;
    };
    here = ground (arith, added pa);
    same_entry = λ pc. entry_added (bit_and pc 0xfff) (page_addr pc);
    rest = SameRest-tables m _ _ _ _ _;
  }

searched :
    (pa : ℕ) (m : Machine) (o : Option ℕ)
    → IsTables m
    → find pa m.decode_cache ≡ o
    → TableFor m pa (table_search pa m o)
searched pa m none v e = new_table-TableFor pa m v e
searched pa m (some t) v e = use_table-TableFor pa t m v e

of_table :
    (o : Option ℕ) (pa : ℕ) (m : Machine)
    → IsTables m
    → m.cached_table ≡ o
    → TableFor m pa (table_of o pa m)
of_table none pa m v e = searched pa m (find pa m.decode_cache) v refl
of_table (some t) pa m v e = elim (Bool-cases (m.cached_table_addr == pa)) [
  | inr other ↦ rw other (searched pa m (find pa m.decode_cache) v refl)
  | inl hit ↦
      let same : m.cached_table_addr ≡ pa = ground arith in
      rw hit (record {
        tables = v;
        here = rw same at (v.cached t e);
        same_entry = λ pc. refl;
        rest = SameRest-tables m _ _ _ _ _;
      })
]

pub table_for-TableFor : (pa : ℕ) (m : Machine) → IsTables m → TableFor m pa (table_for pa m)
unfolding table_for
table_for-TableFor pa m v = of_table m.cached_table pa m v refl

-- An address is its page and its place there.
pub page_and_offset :
    (pc pc' : ℕ) → page_addr pc ≡ page_addr pc' → bit_and pc 0xfff ≡ bit_and pc' 0xfff → pc ≡ pc'
unfolding page_addr
page_and_offset pc pc' p q =
    omega (arith, bit_and-le pc pc 0xfff (omega arith), bit_and-le pc' pc' 0xfff (omega arith))

module _ (m : Machine) (v : IsTables m) (t pc d : ℕ)
    (here : find (page_addr pc) m.decode_cache ≡ some t) where
  abbrev pub with_entry : ℕ → ℕ → Option ℕ
  with_entry = array_set m.tables t (array_set (m.tables t) (bit_and pc 0xfff) (some d))

  stored_at :
      (pc' : ℕ) (o : Option ℕ)
      → find (page_addr pc') m.decode_cache ≡ o
      → (x : ℕ) → entry_in with_entry (bit_and pc' 0xfff) o ≡ some x
      → ((pc' ≡ pc) × (x ≡ d)) ⊎ (entry_in m.tables (bit_and pc' 0xfff) o ≡ some x)
  stored_at pc' none e x h = cc
  stored_at pc' (some u) e x h = elim (Bool-cases (u == t)) [
    | inr other ↦ inr (ground arith)
    | inl same_table ↦ elim (Bool-cases (bit_and pc' 0xfff == bit_and pc 0xfff)) [
      | inr other ↦ inr (ground arith)
      | inl same_place ↦
          let tables_eq : u ≡ t = ground arith in
          let page : page_addr pc' ≡ page_addr pc =
            v.apart (page_addr pc') (page_addr pc) t (e ∙ ap some tables_eq) here in
          inl (page_and_offset pc' pc page (ground arith), ground arith)
    ]
  ]

  -- A table that has an entry put in it has that entry and those of before.
  pub entry-stored :
      (pc' x : ℕ)
      → entry_in with_entry (bit_and pc' 0xfff) (find (page_addr pc') m.decode_cache) ≡ some x
      → ((pc' ≡ pc) × (x ≡ d)) ⊎ (entry m pc' ≡ some x)
  unfolding entry
  entry-stored pc' x h = stored_at pc' (find (page_addr pc') m.decode_cache) refl x h
