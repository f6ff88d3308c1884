-- ===== src/Fsm.antt =====
-- src/fsm.c: the states of the client and its main loop.
pub mod Machine
pub mod Diagram
pub mod Trace
pub mod Consistency
pub mod Speech
