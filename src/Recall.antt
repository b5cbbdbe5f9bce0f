-- ===== src/Recall.antt =====
-- backend/recall: emergency recalls of GDP units, the votes of the node operators, and emergency
-- actions.
pub mod Model
pub mod Execution
pub mod Dac
