-- ===== src/Events.antt =====
-- src/events: the events of a game and the bus that passes them on.
pub mod GameEvent
pub mod EventBus
