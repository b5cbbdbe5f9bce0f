-- ===== src/Tests.antt =====
-- Runs at concrete inputs.
mod Samples
mod Wallets
mod Claims
mod Payments
mod Units
mod Gdp
mod Votes
mod Chain
mod Recalls
mod Licence
