-- ===== src/TipSelection.antt =====
-- ciri/consensus/tip_selection: the choice of the two transactions that a new one approves.
pub mod CwRating
pub mod EntryPoint
pub mod Examples
pub mod Selector
pub mod Validator
pub mod Walker
