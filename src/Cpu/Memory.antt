-- ===== src/Cpu/Memory.antt =====
-- internal/cpu/memory.go: the guest's address space. Pages are Go objects behind pointers, so they
-- stand on a heap, and a `Memory` holds pointers: its page table, and the page looked up last.
pub mod Copy
pub mod View
pub mod Reads
pub mod Writes
pub mod Fast
pub mod Table
pub mod Mapping
pub mod Protect
pub mod Dirty
pub mod RoundTrip
pub mod Operations
pub mod Checked
pub mod Kept
pub mod Clone
pub mod Independence
mod Tests
use golinux.Base.{
  ℕ, zero, suc, ◌+◌, ◌-◌, ◌*◌, ◌/◌, ◌%◌, ◌^◌, bit_and, Bool, true, false, not, ◌&&◌, ◌||◌, ◌==◌,
  if◌then◌else◌, Option, none, some, List, [], ◌∷◌,
}
use golinux.Base.Bits.{bit_clear}
use golinux.Base.Map.{find, put, delete}
use golinux.Base.Word.{◌+w◌, ◌-w◌}

abbrev pub page_size : ℕ
page_size = 0x1000

abbrev pub prot_read : ℕ
prot_read = 1

abbrev pub prot_write : ℕ
prot_write = 2

abbrev pub prot_exec : ℕ
prot_exec = 4

-- The array of a page by offset, and its protection bits.
pub record Page : Type 0 where
  pub bytes : ℕ → ℕ
  pub perm : ℕ

-- The Go heap of pages. Pointers count up from 1; 0 is nil.
pub record Heap : Type 0 where
  pub cell : ℕ → Page
  pub next : ℕ

-- `pages` is the map of page addresses to pointers.
pub record Memory : Type 0 where
  pub pages : List (ℕ × ℕ)
  pub cached_addr : ℕ
  pub cached_page : ℕ
  pub cached_ok : Bool
  pub code_dirty : Bool

-- A memory with the heap that its pointers lead into.
pub record Space : Type 0 where
  pub heap : Heap
  pub mem : Memory
  pub open mem use *

pub data MemType : Type 0 where
  read_unmapped write_unmapped fetch_unmapped : MemType

pub record Fault : Type 0 where
  pub mem_type : MemType
  pub addr : ℕ
  pub size : ℕ

pub data MapError : Type 0 where
  not_aligned : MapError
  already_mapped : ℕ → MapError

abbrev pub new_memory : Memory
new_memory = record {
  pages = [];
  cached_addr = 0;
  cached_page = 0;
  cached_ok = false;
  code_dirty = false;
}

unfoldable pub page_addr : ℕ → ℕ
page_addr a = bit_clear a 0xfff

-- lookupPage, in two parts: the page found, and the memory with its one-entry cache renewed.
unfoldable pub lookup_result : Space → ℕ → Option ℕ
lookup_result s pa =
    if s.cached_ok && (s.cached_addr == pa) then some s.cached_page else find pa s.pages

abbrev pub cache_entry : Memory → ℕ → Option ℕ → Memory
cache_entry m pa (some p) = record m { cached_addr = pa; cached_page = p; cached_ok = true }
cache_entry m pa none = record m { cached_addr = pa; cached_page = 0; cached_ok = false }

unfoldable pub lookup_space : Space → ℕ → Space
lookup_space s pa =
    if s.cached_ok && (s.cached_addr == pa)
    then s
    else record s { mem = cache_entry s.mem pa (find pa s.pages) }

-- invalidateCache and invalidateCode, which every change of the mappings calls.
abbrev pub invalidate : Space → Space
invalidate s = record s { mem = record s.mem { cached_ok = false; code_dirty = true } }

-- consumeCodeDirty.
abbrev pub consume_code_dirty : Space → Bool × Space
consume_code_dirty s = (s.code_dirty, record s { mem = record s.mem { code_dirty = false } })

-- The rounds of `for a := base; a < end; a += pageSize`, for page-aligned bounds.
abbrev pub rounds : ℕ → ℕ → ℕ
rounds base end = (end - base + 0xfff) / page_size

-- The first address of the range that is already mapped.
unfoldable pub first_mapped : ℕ → ℕ → List (ℕ × ℕ) → Option ℕ
first_mapped zero a pages = none
first_mapped (suc n) a pages = elim (find a pages) [
  | some p ↦ some a
  | none ↦ first_mapped n (a + page_size) pages
]

abbrev pub write_cell : Heap → ℕ → Page → Heap
write_cell h p page = record h { cell = λ q. if q == p then page else h.cell q }

-- A new page of zeros.
abbrev pub fresh_page : ℕ → Page
fresh_page perms = record { bytes = λ o. 0; perm = perms }

abbrev pub map_one : ℕ → ℕ → Space → Space
map_one a perms s = record {
  heap = record (write_cell s.heap s.heap.next (fresh_page perms)) { next = suc s.heap.next };
  mem = record s.mem { pages = put a s.heap.next s.pages };
}

unfoldable pub map_pages : ℕ → ℕ → ℕ → Space → Space
map_pages zero a perms s = s
map_pages (suc n) a perms s = map_pages n (a + page_size) perms (map_one a perms s)

-- What MemMap refuses: bounds that are not page-aligned, and no size.
abbrev pub misaligned : ℕ → ℕ → Bool
misaligned addr size = not (bit_and addr 0xfff == 0) || (size == 0) || not (bit_and size 0xfff == 0)

-- What Go's `error` is here: nil is `none`.
unfoldable pub mem_map : ℕ → ℕ → ℕ → Space → Option MapError × Space
mem_map addr size perms s =
    let n = rounds addr (addr +w size) in
    if misaligned addr size then (some not_aligned, s) else (elim (first_mapped n addr s.pages) [
      | some a ↦ (some (already_mapped a), s)
      | none ↦ (none, invalidate (map_pages n addr perms s))
    ])

unfoldable pub unmap_pages : ℕ → ℕ → List (ℕ × ℕ) → List (ℕ × ℕ)
unmap_pages zero a pages = pages
unmap_pages (suc n) a pages = unmap_pages n (a + page_size) (delete a pages)

-- The end of the last page that a range touches.
abbrev pub range_end : ℕ → ℕ → ℕ
range_end addr size = page_addr (addr +w size -w 1) +w page_size

unfoldable pub mem_unmap : ℕ → ℕ → Space → Space
mem_unmap addr size s =
    let base = page_addr addr in
    let pages = unmap_pages (rounds base (range_end addr size)) base s.pages in
    invalidate (record s { mem = record s.mem { pages = pages } })

unfoldable pub protect_pages : ℕ → ℕ → ℕ → List (ℕ × ℕ) → Heap → Heap
protect_pages zero a perms pages h = h
protect_pages (suc n) a perms pages h =
    protect_pages n (a + page_size) perms pages (elim (find a pages) [
      | some p ↦ write_cell h p (record (h.cell p) { perm = perms })
      | none ↦ h
    ])

unfoldable pub mem_protect : ℕ → ℕ → ℕ → Space → Space
mem_protect addr size perms s =
    let base = page_addr addr in
    let heap = protect_pages (rounds base (range_end addr size)) base perms s.pages s.heap in
    invalidate (record s { heap = heap })

-- Clone: each page of the parent is copied to a new object.
unfoldable pub clone_pages : List (ℕ × ℕ) → Heap → List (ℕ × ℕ) × Heap
clone_pages [] h = ([], h)
clone_pages ((a, p) ∷ m) h =
    let copied = record (write_cell h h.next (h.cell p)) { next = suc h.next } in
    let (rest, h') = clone_pages m copied in (put a h.next rest, h')

-- The parent's memory is unchanged but for the heap; the child's comes second.
unfoldable pub clone : Space → Space × Memory
clone s =
    let (pages, heap) = clone_pages s.pages s.heap in
    (record s { heap = heap }, record new_memory { pages = pages })
