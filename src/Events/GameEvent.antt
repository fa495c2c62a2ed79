-- ===== src/Events/GameEvent.antt =====
-- src/events/game_event.h.
use kong_fu_chess.Prelude.{ℕ, ℤ}
use kong_fu_chess.Model.Piece.{Color}
use kong_fu_chess.Io.Text.{Text}
use kong_fu_chess.Realtime.Resolution.{
  CompletedMoveEvent, JumpCaptureEvent, MoveStartedEvent, JumpStartedEvent,
}

pub record GameStarted : Type 0 where
  pub white_user : Text
  pub black_user : Text
  pub port : ℤ

-- The variant, its alternatives in their order.
pub data GameEvent : Type 0 where
  game_started : GameStarted → GameEvent
  move_completed : CompletedMoveEvent → GameEvent
  jump_captured : JumpCaptureEvent → GameEvent
  game_ended : Color → GameEvent
  move_started : MoveStartedEvent → GameEvent
  jump_started : JumpStartedEvent → GameEvent

-- `eventType`, whose enumeration carries the index of the variant.
abbrev pub event_type : GameEvent → ℕ
event_type (game_started e) = 0
event_type (move_completed e) = 1
event_type (jump_captured e) = 2
event_type (game_ended c) = 3
event_type (move_started e) = 4
event_type (jump_started e) = 5
