-- ===== src/Tests.antt =====
-- Each theorem with hypotheses, at a concrete input.
mod Channels
mod Buffers
mod Streams
mod Sweeps
mod Devices
mod Engines
mod Exports
mod Caches
mod Modules
