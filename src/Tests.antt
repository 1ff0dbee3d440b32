-- ===== src/Tests.antt =====
-- The theorems at concrete inputs.
mod Tape
mod Resync
mod Store
mod Replays
mod Responses
mod Monitor
mod Book
mod Volume
mod Delivery
mod Stream
mod Detectors
mod Fanout
mod Sweeps
