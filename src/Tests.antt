-- ===== src/Tests.antt =====
-- A sample device, and the theorems applied to it.
mod Device
mod Examples
mod Files
mod Daemon
mod Audio
mod Threads
