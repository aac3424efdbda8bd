-- ===== src/Vm.antt =====
-- The virtual machine: its stack, its frames and its interpreter (inc/vm.h, vm.c).
pub mod Memory
pub mod State
pub mod Stack
pub mod Frame
pub mod Decode
pub mod Interp
pub mod Load
pub mod Cells
pub mod Alloc
pub mod Prims
pub mod Apply
mod Tests
