-- ===== src/Microwire/Session.antt =====
-- Whole transactions on the wire: the host's bits against the words of the array.
mod Ticks
pub mod Write
pub mod Read
