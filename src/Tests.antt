-- ===== src/Tests.antt =====
-- Runs of the services on a small shop, and the theorems at concrete inputs.
pub mod Samples
mod Access
mod Books
mod Orders
mod Payments
mod Runs
