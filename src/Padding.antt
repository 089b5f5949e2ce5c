-- ===== src/Padding.antt =====
-- transport/padding.rs: the naive padding protocol over a byte stream.
-- The state of `NaivePaddedTransport`, the protocol, and the two directions of the transport.
pub mod State
pub mod Protocol
pub mod Read
pub mod Random
pub mod Write
pub mod Sync
pub mod RoundTrip
pub mod Session
mod Tests
