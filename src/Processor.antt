-- ===== src/Processor.antt =====
-- internal/app/processor: the consumer that turns events into points and writes them in batches.
pub mod Default
pub mod Runner
