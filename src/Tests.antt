-- ===== src/Tests.antt =====
-- Runs of the definitions on small inputs, and the theorems at concrete inputs.
mod Data
mod Specs
mod Running
mod Messages
mod Descriptors
mod Http
mod Lines
mod Waits
mod Piped
mod Rewiring
mod Reaping
mod Starting
mod Pipes
mod Units
mod Accounting
mod Exits
mod Connecting
mod Reconnecting
