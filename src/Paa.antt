-- ===== src/Paa.antt =====
-- The payment arm: backend/payment_bridge.
pub mod Schema
pub mod Model
pub mod Rules
pub mod Transactions
pub mod Budgets
pub mod Life
