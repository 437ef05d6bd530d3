-- ===== src/Examples.antt =====
-- Concrete states and runs: each theorem with conditions holds at one of them.
mod Store
mod Sessions
mod Cache
mod Client
mod Calls
mod Codec
mod Connection
mod Transport
