-- ===== src/Wallet/Life.antt =====
-- The life of one account: every call of backend/wallet_access/services.py that writes, as a step that
-- users, claimants, the chain listener and the nightly sweep may take in any order, with the watcher's
-- handling of an executed recovery and the administrator's suspension and unlocking of a wallet. The
-- administrator's reactivation of a suspended wallet and edits of rows in the admin are left out.
pub mod Steps
pub mod Password
