-- ===== src/Tests.antt =====
-- Concrete databases, and the theorems applied to them.
mod Data
mod Treasuries
mod Payments
mod Healths
mod Chains
mod Descriptors
mod Holdings
mod Mirrors
