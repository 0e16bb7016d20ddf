-- ===== src/Host.antt =====
-- The machine below the code: byte order, loads from a packet, and the clock.
pub mod Order
pub mod Clock
