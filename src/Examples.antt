-- ===== src/Examples.antt =====
-- The theorems at concrete inputs.
mod Data
mod Udp
mod Once
mod Wire
mod Grammar
mod Stream
mod Chat
mod Stores
mod Lines
mod Sessions
mod UdpSession
mod Memory
mod Options
mod Prompting
