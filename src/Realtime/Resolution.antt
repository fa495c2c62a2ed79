-- ===== src/Realtime/Resolution.antt =====
-- src/realtime/move_resolution.h. A `MoveResolution` is its kind with the event of that kind.
use kong_fu_chess.Prelude.{ℤ}
use kong_fu_chess.Model.Piece.{Color, PieceType}
use kong_fu_chess.Model.Position.{Position}

pub record CompletedMoveEvent : Type 0 where
  pub timestamp_ms : ℤ
  pub piece_type : PieceType
  pub piece_color : Color
  pub from : Position
  pub to : Position
  pub captured_type : PieceType
  pub captured_color : Color

pub record JumpCaptureEvent : Type 0 where
  pub timestamp_ms : ℤ
  pub jump_square : Position
  pub jumper_type : PieceType
  pub jumper_color : Color
  pub victim_type : PieceType
  pub victim_color : Color
  pub victim_from : Position
  pub victim_to : Position

pub record MoveStartedEvent : Type 0 where
  pub timestamp_ms : ℤ
  pub piece_type : PieceType
  pub piece_color : Color
  pub from : Position
  pub to : Position

pub record JumpStartedEvent : Type 0 where
  pub timestamp_ms : ℤ
  pub piece_type : PieceType
  pub piece_color : Color
  pub square : Position

pub data MoveResolution : Type 0 where
  completed_move : CompletedMoveEvent → MoveResolution
  jump_capture : JumpCaptureEvent → MoveResolution
