-- ===== src/Gdp.antt =====
-- backend/irg_gdp: the GDP units, from their minting to their swap, trade, transfer and earmarking.
pub mod Model
pub mod Minting
pub mod Swaps
pub mod Trading
pub mod Transfers
pub mod Admin
pub mod Life
pub mod Guarded
