-- ===== src/Emulator/Tests.antt =====
-- A process whose heap starts at 0x600000 and is empty.
use golinux.Base.{◌≡◌, refl, arith}
use golinux.Base.Map.{find}
use golinux.Cpu.Memory.{fresh_page, new_memory, page_addr}
use golinux.Cpu.Memory.View.{IsValid}
use golinux.Emulator.{Process, page_align_up, do_brk}
use golinux.Emulator.Heap.{IsHeap, Answers, do_brk-IsHeap}

abbrev fresh : Process
fresh = record {
  space = record { heap = record { cell = λ q. fresh_page 0; next = 1 }; mem = new_memory };
  brk_start = 0x600000;
  brk_cur = 0x600000;
  brk_mapped_end = 0x600000;
  mmap_next = 0x600000000000;
}

fresh-IsValid : IsValid fresh.space
unfolding find
fresh-IsValid = record { cached = λ e. cc; below = tt; apart = λ a b p e f. cc }

fresh-IsHeap : IsHeap fresh
fresh-IsHeap = record {
  valid = fresh-IsValid;
  ordered = omega arith;
  inside = omega arith;
  low = omega arith;
  mapped = λ x from below. absurd (omega arith);
}

do_brk_example : Answers 0x601234 fresh (do_brk 0x601234 fresh)
do_brk_example = do_brk-IsHeap 0x601234 fresh (omega arith) fresh-IsHeap

-- A break in the last page of the address space is accepted, with nothing mapped for it.
brk_wraps :
    do_brk 0xFFFFFFFFFFFFF800 fresh
    ≡ (0xFFFFFFFFFFFFF800, record fresh { brk_cur = 0xFFFFFFFFFFFFF800 })
unfolding do_brk page_align_up page_addr
brk_wraps = refl
