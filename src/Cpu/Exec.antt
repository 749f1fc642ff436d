-- ===== src/Cpu/Exec.antt =====
-- internal/cpu/exec.go, and aluBinOp of internal/cpu/decode.go: what instructions do.
pub mod Alu
pub mod Stack
pub mod Divide
pub mod Shifts
pub mod Strings
pub mod Bits
pub mod Atomic
pub mod Careful
