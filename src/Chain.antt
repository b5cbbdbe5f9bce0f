-- ===== src/Chain.antt =====
-- backend/chain and the commands of backend/wallet_access that follow the chain.
pub mod Watcher
pub mod Orders
pub mod Escrow
pub mod Licence
