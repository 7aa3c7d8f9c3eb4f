-- ===== src/Patchbay.antt =====
-- src/patchbay: the evaluator of rules and its stateful forms.
pub mod Floats
pub mod Value
pub mod Entry
pub mod Ring
pub mod State
pub mod Slot
pub mod Gates
pub mod Windows
pub mod Bars
pub mod Clocks
pub mod Rules
pub mod Arena
