-- ===== src/CommUdp.antt =====
-- src/comm_udp.c: sending with retransmission, receiving, and the table of parsers.
pub mod State
pub mod Process
pub mod Send
pub mod Valid
pub mod Safety
pub mod Retransmit
pub mod Bound
pub mod Receive
pub mod Readable
pub mod Queued
pub mod Reading
pub mod NoFault
pub mod Known
pub mod Received
pub mod Once
pub mod Overread
