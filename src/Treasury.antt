-- ===== src/Treasury.antt =====
-- The treasury (backend/tallykeep/services/treasury_service.py and the sweep engine of
-- backend/tallykeep/workers/subscribers/sweep_engine.py).
pub mod Warnings
pub mod Policies
pub mod Engine
pub mod Connection
pub mod Execution
pub mod SelfCustody
pub mod Mirroring
pub mod Reconciling
