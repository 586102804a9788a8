-- ===== src/Tests.antt =====
-- Runs of the model at concrete inputs.
mod Stores
mod Streams
mod Others
mod Servers
mod Shutdowns
mod Restarts
