-- ===== src/Vm.antt =====
-- The virtual machine of cova/vm.go: its state and faults (State), the operand stack (Stack),
-- arithmetic, comparison and conversion (Compute), calls (Calls), the built-in functions (BuiltIn),
-- the instructions and the loop (Run), loading and running (Load and
-- Image), and what all of them keep (Keeps
-- and its children).
pub mod State
pub mod Stack
pub mod Compute
pub mod Calls
pub mod BuiltIn
pub mod Run
pub mod Load
pub mod Keeps
pub mod Image
