-- ===== src/Tests.antt =====
-- Runs of the theorems on concrete inputs.
pub mod Data
pub mod Protocol
pub mod Device
pub mod Server
pub mod Handler
pub mod Panics
pub mod Hid
pub mod Host
pub mod Locks
pub mod Service
pub mod Linear
pub mod Program
pub mod Bounds
