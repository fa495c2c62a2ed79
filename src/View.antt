-- ===== src/View.antt =====
-- src/view: what the windows show of the connections.
pub mod DisconnectOverlay
