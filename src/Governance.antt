-- ===== src/Governance.antt =====
-- backend/governance: proposals, votes weighted by GDP units, and the log of what was executed.
pub mod Model
pub mod Voting
pub mod Life
