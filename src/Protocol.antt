-- ===== src/Protocol.antt =====
-- src/usbip_protocol.rs: the commands of a USB/IP client, their parser and their serialiser, and
-- the responses of the server.
pub mod Input
pub mod Header
pub mod Command
pub mod Read
pub mod WellFormed
pub mod RoundTrip
pub mod Sound
pub mod Prefix
pub mod Progress
pub mod Requests
