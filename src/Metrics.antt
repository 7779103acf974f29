-- ===== src/Metrics.antt =====
-- internal/infra/metrics: what the services report to Prometheus. The client library is not modelled;
-- each call of it is one entry in a log, newest first.
pub mod Collector
pub mod Processor
pub mod Total
pub mod Http
pub mod Descriptors
