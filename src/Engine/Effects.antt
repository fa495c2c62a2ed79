-- ===== src/Engine/Effects.antt =====
-- What a request that is taken and the end of a game do to the engine, field by field.
use kong_fu_chess.Prelude.{
  suc, pos, negsuc, max, ◌*◌, true, Option, none, some, List, [], ◌∷◌, ◌++◌, ◌≡◌, refl,
}
use kong_fu_chess.Model.Piece.{Color}
use kong_fu_chess.Model.Position.{Position}
use kong_fu_chess.Model.Board.Laws.{piece_at}
use kong_fu_chess.Rules.Legal.{rows_apart, cols_apart}
use kong_fu_chess.Realtime.Motion.{move, jump, Motion}
use kong_fu_chess.Events.GameEvent.{GameEvent, game_ended, move_started, jump_started}
use kong_fu_chess.Engine.GameEngine.{GameEngine, start_move, start_jump, ended_by}

-- A new motion is in flight behind the others, its event is the last one of the bus, if there is a
-- bus, and all else is as before.
pub record Starts (e : GameEngine) (m : Motion) (event : GameEvent) (e' : GameEngine) : Type 0 where
  pub flies : e'.arbiter.active_motions ≡ e.arbiter.active_motions ++ m ∷ []
  pub clock : e'.arbiter.elapsed_ms ≡ e.arbiter.elapsed_ms
  pub numbered : e'.next_motion_id ≡ suc e.next_motion_id
  pub no_bus : e.event_bus ≡ none → e'.event_bus ≡ none
  pub told :
      (events : List GameEvent)
      → e.event_bus ≡ some events
      → e'.event_bus ≡ some (events ++ event ∷ [])
  pub board : e'.board ≡ e.board
  pub log : e'.move_log ≡ e.move_log
  pub going_on : (e'.is_game_over ≡ e.is_game_over) × (e'.winner ≡ e.winner)
  pub queued : e'.premoves ≡ e.premoves

-- A move takes one second for each square of the longer of its two distances.
abbrev pub StartsMove : GameEngine → Position → Position → GameEngine → Type 0
StartsMove e from to e' =
    Starts e
      (record {
        motion_id = e.next_motion_id;
        source = from;
        destination = to;
        type = move;
        started_at_ms = e.arbiter.elapsed_ms;
        duration_ms = max (rows_apart from to) (cols_apart from to) * 1000;
        piece_type = (piece_at e.board from).kind;
        piece_color = (piece_at e.board from).color;
      })
      (move_started (record {
        timestamp_ms = pos e.arbiter.elapsed_ms;
        piece_type = (piece_at e.board from).kind;
        piece_color = (piece_at e.board from).color;
        from = from;
        to = to;
      }))
      e'

-- A jump takes two seconds; its destination, which is not used, is off every board.
abbrev pub StartsJump : GameEngine → Position → GameEngine → Type 0
StartsJump e p e' =
    Starts e
      (record {
        motion_id = e.next_motion_id;
        source = p;
        destination = record { row = negsuc 0; col = negsuc 0 };
        type = jump;
        started_at_ms = e.arbiter.elapsed_ms;
        duration_ms = 2000;
        piece_type = (piece_at e.board p).kind;
        piece_color = (piece_at e.board p).color;
      })
      (jump_started (record {
        timestamp_ms = pos e.arbiter.elapsed_ms;
        piece_type = (piece_at e.board p).kind;
        piece_color = (piece_at e.board p).color;
        square = p;
      }))
      e'

pub start_move_lem :
    (e : GameEngine) (from to : Position)
    → StartsMove e from to (start_move e from to (piece_at e.board from))
start_move_lem e from to = record {
  flies = refl;
  clock = refl;
  numbered = refl;
  no_bus = λ h. rw h refl;
  told = λ events h. rw h refl;
  board = refl;
  log = refl;
  going_on = (refl, refl);
  queued = refl;
}

pub start_jump_lem :
    (e : GameEngine) (p : Position) → StartsJump e p (start_jump e p (piece_at e.board p))
start_jump_lem e p = record {
  flies = refl;
  clock = refl;
  numbered = refl;
  no_bus = λ h. rw h refl;
  told = λ events h. rw h refl;
  board = refl;
  log = refl;
  going_on = (refl, refl);
  queued = refl;
}

-- The game is over for a winner, its event is the last one of the bus, if there is a bus, and all
-- else is as before.
pub record Ends (e : GameEngine) (winner : Color) (e' : GameEngine) : Type 0 where
  pub over : e'.is_game_over ≡ true
  pub won : e'.winner ≡ some winner
  pub no_bus : e.event_bus ≡ none → e'.event_bus ≡ none
  pub told :
      (events : List GameEvent)
      → e.event_bus ≡ some events
      → e'.event_bus ≡ some (events ++ game_ended winner ∷ [])
  pub board : e'.board ≡ e.board
  pub time : e'.arbiter ≡ e.arbiter
  pub log : e'.move_log ≡ e.move_log
  pub queued : e'.premoves ≡ e.premoves
  pub numbered : e'.next_motion_id ≡ e.next_motion_id

-- What the search for a winner leads to.
abbrev pub EndsFor : GameEngine → Option Color → GameEngine → Type 0
EndsFor e none e' = e' ≡ e
EndsFor e (some winner) e' = Ends e winner e'

pub ended_by-EndsFor : (e : GameEngine) (found : Option Color) → EndsFor e found (ended_by e found)
ended_by-EndsFor e none = refl
ended_by-EndsFor e (some winner) = record {
  over = refl;
  won = refl;
  no_bus = λ h. rw h refl;
  told = λ events h. rw h refl;
  board = refl;
  time = refl;
  log = refl;
  queued = refl;
  numbered = refl;
}
