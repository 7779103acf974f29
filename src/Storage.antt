-- ===== src/Storage.antt =====
-- internal/infra/storage: the two implementations of the storage contract.
pub mod Influx
pub mod Noop
pub mod Promise
