-- ===== src/Realtime.antt =====
-- src/realtime: motions in flight, and what happens when they arrive.
pub mod Motion
pub mod Resolution
pub mod Arrival
pub mod Arbiter
