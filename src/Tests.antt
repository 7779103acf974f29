-- ===== src/Tests.antt =====
-- Runs of the model on small inputs, and the theorems at such inputs.
mod Fixtures
mod Ingest
mod Interleaving
mod ConsumerFixtures
mod Consumer
mod Exits
mod Adapters
mod Startup
mod Lifecycle
mod EndToEnd
mod Server
mod Platform
mod Restarts
mod Buffers
mod Fetching
mod Processor
