-- ===== src/Domain.antt =====
-- The domain objects of backend/tallykeep/domain and the checks of their constructors.
pub mod Enums
pub mod Holding
pub mod Sweep
pub mod Payment
pub mod Chain
pub mod Provider
pub mod Health
pub mod Mirror
