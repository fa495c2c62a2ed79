-- ===== src/Realtime/Motion.antt =====
-- src/realtime/motion.h. Identifiers and milliseconds are natural numbers.
use kong_fu_chess.Prelude.{ℕ, ◌+◌, leb, Bool, true, false, ◌&&◌}
use kong_fu_chess.Model.Piece.{Color, PieceType}
use kong_fu_chess.Model.Position.{Position}

pub data MotionType : Type 0 where
  move jump : MotionType

abbrev pub motion_type_eq : MotionType → MotionType → Bool
motion_type_eq move move = true
motion_type_eq jump jump = true
motion_type_eq _ _ = false

pub record Motion : Type 0 where
  pub motion_id : ℕ
  pub source : Position
  pub destination : Position
  pub type : MotionType
  pub started_at_ms : ℕ
  pub duration_ms : ℕ
  pub piece_type : PieceType
  pub piece_color : Color

abbrev pub is_expired : Motion → ℕ → Bool
is_expired m current_time_ms = leb (m.started_at_ms + m.duration_ms) current_time_ms

-- A motion of the type that has run out: the test of the completing moves and of
-- `removeExpiredMotions`.
abbrev pub is_expired_of : MotionType → ℕ → Motion → Bool
is_expired_of t now m = motion_type_eq m.type t && is_expired m now
