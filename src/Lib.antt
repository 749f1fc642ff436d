-- ===== src/Lib.antt =====
-- golinux is a user-mode Linux emulator: an x86-64 interpreter (internal/cpu) runs a guest program
-- that internal/elfload parses and internal/emulator loads, and internal/syscalls answers its system
-- calls over internal/vfs, internal/procfs, internal/devices and internal/fds. The models here are
-- of the interpreter's core (flags, memory, registers, operands, the decoder and the instructions it
-- makes), of the ELF parser, of the emulator's memory calls, and of the descriptor tables.
--
-- Cpu/Flags.antt: internal/cpu/flags.go and evalCC of internal/cpu/decode.go. The methods read and
--   write the word rflags alone, so each definition takes it and returns it, under the Go name in
--   snake case (addWithFlagsCarry is add_with_flags_carry). Widths are Go's int; the theorems are
--   for 1, 2, 4 and 8, the widths that the decoder passes. Under Flags: Laws on single flags, Add
--   and Sub with every flag as a statement on the operands, Compare with the condition codes after
--   a comparison, Fast with the 32-bit routines.
-- Cpu/Memory.antt and Cpu/Memory/Copy.antt: internal/cpu/memory.go. Pages are objects on a heap, the
--   page table an association list from addresses to pointers, and a Space is a memory with its
--   heap. The loop of `copy` is copy_out and copy_in, one for each direction; a chunk is at least
--   one byte, so that as much fuel as bytes is enough, and every caller gives it that. The loops
--   over pages run a counted number of rounds, zero where the end has wrapped around 2^64. Under
--   Memory: View with the address space as a function from addresses to bytes and with the
--   well-formedness IsValid, Reads and Writes with the refinement of the loops to that view, Table,
--   Mapping and Protect for the mapping operations, Dirty for codeDirty, Kept with what accesses
--   leave of executable code, RoundTrip, Clone, Independence and Fast.
-- Fds.antt: Table and fileRefs of internal/fds/fds.go. A descriptor is a Go int, kept as its 64-bit
--   pattern; a File is the number of its object; the calls of File.Close are a list. The mutex is
--   not modelled: each operation runs as one step. Under Fds: Counts with the invariant of the
--   reference counts of a table among others, Closing, Dup, Fork and Room for the operations,
--   Processes with the steps of all processes that share the counts (a descriptor stays below the
--   last int), and Invariant with what holds of every state they lead to.
-- Cpu/Run.antt: methods that change a state and may return an error. A method gives the state after
--   it also when it fails, as Go's methods leave what they have done. Run/Post has the rules for
--   postconditions.
-- Cpu/Registers.antt, Cpu/Operand.antt and Cpu/ModRm.antt: internal/cpu/registers.go, operand.go and
--   modrm.go, and the register methods of cpu.go. Engine holds the registers, the memory and
--   curInstrEnd; the fields of Go's Engine for hooks, tracing and caches are not in it. An operand
--   keeps the way to its address, which is worked out when it is used, as in the code.
--   Operand/Careful has the rules for methods that are careful with code, ModRm/Reading those for
--   cursor methods that only read the bytes after the cursor.
-- Cpu/Exec.antt: internal/cpu/exec.go, with aluBinOp of decode.go: Alu, Stack, Divide, Shifts and
--   Strings. A REP loop runs for as many rounds as RCX holds, as in the code. Exec/Bits and
--   Exec/Atomic are closures of internal/cpu/twobyte.go; a search over a word's bits takes one round
--   for each bit, which is enough, since BSF and BSR search a word that is not 0. Bits/Scans is on
--   those searches and Bits/Changes on what the BT group changes.
-- Cpu/Execute.antt and Cpu/Decode.antt: decodeOne of internal/cpu/decode.go. The code's closures are
--   values of Instruction, which execute runs; Decode/Prefixes has the prefixes and the immediates,
--   Decode/Data and Decode/Flow the opcodes, and Decode/TwoByte decodeTwoByte of
--   internal/cpu/twobyte.go. The loop over legacy prefixes has no bound in the code, so it takes
--   fuel, and `diverged` marks where the fuel is used up. What decodes the vector, VEX and x87
--   opcodes is a parameter, the record Extensions, and gives an instruction as a function on the
--   engine together with a proof that it sets codeDirty where it changes executable bytes, as every
--   store through Memory does; theorems that need it suppose that it only reads memory to decode, or
--   that it marks its branches. Execute/Laws is on sequences of instructions, Execute/CodeKept on all of them,
--   Decode/Data/Fast on the instructions for 32-bit registers, Decode/Reading on what decoding
--   depends on and Decode/BlockEnds on the ends of blocks.
-- Cpu/Machine.antt: the loop of internal/cpu/cpu.go and the caches of internal/cpu/block.go. A Machine
--   is an Engine with the caches; *decoded and *decodedPage are pointers into two heaps, so that a
--   cached instruction which changes what it has captured is seen by the table and by the blocks.
--   Machine/Blocks has compileBlock and cachedBlockAt, Machine/Loop executeBlock, handleFault and
--   EmuStart, Machine/Starting NewEngine and Clone. A hook is a function from the engine to the
--   engine and whether it has called EmuStop. EmuStart need not end: `rounds` bounds its rounds, and
--   `goes_on` tells that it has not ended within them; the fuel of executeBlock bounds the blocks
--   chained in a round, and past it the failure `diverged` stands in. Machine/Current,
--   Machine/Tables and Machine/Coherent say when the caches hold what decoding would give now;
--   Lookup, Building, Compile, Running, BlockRun and Chaining follow the loop's parts, and Steps has
--   the engine without caches as a step relation, which Refinement, Rounds and Emulation relate to
--   the loop. A bit test with a register offset on memory changes what it has captured when it runs,
--   so that the caches may hold another instruction than decoding gives: the caches are coherent
--   up to these, and the steps are for runs that decode none.
-- Elf.antt: internal/elfload/elf.go, with Elf/Load and Elf/Tables. A Result is a value, an error, or
--   a panic of the run-time. The loops over tables take one round for each byte of the file, which
--   is enough, since a round that goes on reads past its offset. The length that `make` accepts is
--   a parameter.
-- Emulator.antt: the address space of a process in internal/emulator/emulator.go: brk, mmap, munmap,
--   mprotect, the segments and relocations of an image. What a descriptor's file gives is a
--   parameter. Emulator/Heap is on brk.
-- Vfs.antt: NormPath of internal/vfs/vfs.go, on the bytes of a path; Vfs/Canonical is on its result.
-- Base.antt: the shared helpers, with Go's maps in Base/Map.antt and its words in Base/Word.antt.
--
-- The Tests modules apply the theorems at concrete inputs. Not modelled: the vector, VEX and x87
-- opcodes; the trace that printTrace writes is kept but not printed; the guest's initial stack and the
-- run loop of internal/emulator, the virtual file system but for paths, and the system calls, which
-- rest on these parts; the files behind the descriptors, which are the host's; error messages.
pub mod Base
pub mod Cpu
pub mod Fds
pub mod Elf
pub mod Emulator
pub mod Vfs
