-- ===== src/Banking.antt =====
-- backend/tallykeep/services/banking_service.py: payments from their composition to the broadcast,
-- and invoices.
pub mod Outside
pub mod Building
pub mod Sending
pub mod Invoicing
pub mod Concurrency
pub mod Linking
