-- ===== src/Wallet.antt =====
-- backend/wallet_access: the wallet's life, its password, nominees, devices, watchdog, recovery.
pub mod Model
pub mod Monad
pub mod Policy
pub mod Password
pub mod Nominees
pub mod Guard
pub mod Activation
pub mod Devices
pub mod Recovery
pub mod Ownership
pub mod Inactivity
pub mod Throttle
pub mod Admin
pub mod Life
