-- ===== src/UdpMsg.antt =====
-- src/udp_msg.c: building and parsing the messages of the UDP variant.
pub mod Build
pub mod Parse
pub mod Frames
pub mod Accept
pub mod Sound
pub mod Total
pub mod Reply
