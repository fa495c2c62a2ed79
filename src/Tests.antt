-- ===== src/Tests.antt =====
-- Concrete positions, and the theorems applied to them.
mod Boards
mod Rules
mod Realtime
mod Engine
mod Input
mod Online
mod Io
mod Network
mod Events
mod Server
mod App
