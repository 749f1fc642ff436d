-- ===== src/Cpu.antt =====
-- internal/cpu: the processor.
mod Tests
pub mod Flags
pub mod Memory
pub mod Registers
pub mod Run
pub mod Operand
pub mod ModRm
pub mod Exec
pub mod Execute
pub mod Decode
pub mod Machine
