-- ===== src/Input.antt =====
-- src/input: the mouse, as squares and requests.
pub mod BoardMapper
pub mod Controller
