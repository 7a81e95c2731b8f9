-- ===== src/Lcm.antt =====
-- src/protocol.rs: the front panel's serial protocol, from frames to the text on the display.
pub mod Frame
pub mod Port
pub mod Link
mod Tests
