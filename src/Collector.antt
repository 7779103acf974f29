-- ===== src/Collector.antt =====
-- internal/app/collector: the ingestion service.
pub mod Chan
pub mod Config
pub mod Pool
pub mod Service
pub mod Enqueue
pub mod Worker
pub mod System
