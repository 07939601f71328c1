-- ===== src/Repositories.antt =====
-- The repositories of backend/tallykeep/repositories: the reads and writes of the services on the
-- tables. A read builds the domain object, whose constructor may raise.
pub mod Holdings
pub mod Policies
pub mod Executions
pub mod Providers
pub mod Descriptors
pub mod Payments
pub mod Invoices
pub mod Health
pub mod Cascade
pub mod Mirror
