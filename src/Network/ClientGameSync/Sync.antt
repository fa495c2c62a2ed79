-- ===== src/Network/ClientGameSync/Sync.antt =====
-- What a message of the server does to the engine of a client.
use kong_fu_chess.Prelude.{
  ◌||◌, ◌&&◌, Bool, true, false, not, Bool-cases, inl, inr, Option, none, some, Returns,
  Returns-bind, Result, ok, ◌>>=◌, if◌then◌else◌, ◌≡◌, ◌∙◌, refl, ap, subst,
}
use kong_fu_chess.Model.Piece.{Color, color_eq, PieceType, type_eq, is_empty}
use kong_fu_chess.Model.Position.{Position}
use kong_fu_chess.Model.Board.{Board, in_bounds}
use kong_fu_chess.Model.Board.Laws.{IsRect, piece_at, cell-in_bounds}
use kong_fu_chess.Io.Text.{Text}
use kong_fu_chess.Realtime.Resolution.{CompletedMoveEvent}
use kong_fu_chess.Events.GameEvent.{GameEvent}
use kong_fu_chess.Engine.GameEngine.{
  GameEngine, is_busy_at, request_move, request_jump, apply_remote_game_ended,
}
use kong_fu_chess.Engine.Invariant.{IsValid, Evolves}
use kong_fu_chess.Engine.Requests.{request_move-Evolves, request_jump-Evolves}
use kong_fu_chess.Network.Protocol.Game.{parse_server_game_event, serialize_server_event}
use kong_fu_chess.Network.Protocol.Game.RoundTrip.{IsSent, parse-serialize_event}
use kong_fu_chess.Network.ClientGameSync.{
  shows, caught_up, sync_completed_move, sync_jump_capture, applied, apply_event, apply_message,
}
use kong_fu_chess.Network.ClientGameSync.Idle.{Rests, advance_until_idle-Rests}

-- The request was made, and its answer ignored.
abbrev pub Requests : Result (GameEngine × Bool) → GameEngine → Type 0
Requests request e' = (taken : Bool) × (request ≡ ok (e', taken))

-- A completion is a request, followed by the clock if it was taken, or nothing at all.
pub data CatchesUp (e : GameEngine) (request : Result (GameEngine × Bool)) (e' : GameEngine)
    : Type 0 where
  skipped : e' ≡ e → CatchesUp e request e'
  refused : request ≡ ok (e', false) → CatchesUp e request e'
  caught :
      (taken : GameEngine)
      → request ≡ ok (taken, true)
      → Rests 750 taken e'
      → CatchesUp e request e'

abbrev pub Applied : GameEngine → Option GameEvent → GameEngine × Bool → Type 0
Applied e none r = r ≡ (e, false)
Applied e (some (GameEvent.game_started g)) r = r ≡ (e, false)
Applied e (some (GameEvent.move_started m)) r =
    (r.1 ≡ true) × Requests (request_move e m.from m.to) r.0
Applied e (some (GameEvent.jump_started j)) r =
    (r.1 ≡ true) × Requests (request_jump e j.square) r.0
Applied e (some (GameEvent.move_completed m)) r =
    (r.1 ≡ true) × CatchesUp e (request_move e m.from m.to) r.0
Applied e (some (GameEvent.jump_captured j)) r =
    (r.1 ≡ true) × CatchesUp e (request_jump e j.jump_square) r.0
Applied e (some (GameEvent.game_ended winner)) r = r ≡ (apply_remote_game_ended e winner, true)

shows-Returns :
    (b : Board) (square : Position) (type : PieceType) (color : Color)
    → IsRect b
    → Returns (λ _. Unit {0}) (shows b square type color)
unfolding shows
shows-Returns b square type color rect = elim (Bool-cases (in_bounds b square)) [
  | inr off ↦ record { out = false; returns = rw off; holds = tt }
  | inl inside ↦
      let piece = piece_at b square in
      record {
        out = not (is_empty piece) && type_eq piece.kind type && color_eq piece.color color;
        returns = rw (inside, cell-in_bounds b square rect inside);
        holds = tt;
      }
]

-- A request that returns, and what is done about its answer.
caught_up-CatchesUp :
    (e : GameEngine) (request : Result (GameEngine × Bool))
    → Returns (λ r. Evolves e r.0) request
    → Returns (λ e'. IsValid e' × CatchesUp e request e') (request >>= caught_up)
caught_up-CatchesUp e request r = elim (Bool-cases r.out.1) [
  | inr no_move ↦ record {
    out = r.out.0;
    returns = rw r.returns (ap (λ b. caught_up (r.out.0, b)) no_move);
    holds = (r.holds.valid, refused (r.returns ∙ ap (λ b. ok (r.out.0, b)) no_move));
  }
  | inl taken ↦
      let idle = advance_until_idle-Rests r.out.0 r.holds.valid in
      record {
        out = idle.out;
        returns = rw r.returns (ap (λ b. caught_up (r.out.0, b)) taken ∙ idle.returns);
        holds = (
          idle.holds.evolves.valid,
          caught r.out.0 (r.returns ∙ ap (λ b. ok (r.out.0, b)) taken) idle.holds,
        );
      }
]

-- A test in front of a request: without it nothing happens.
skip_or :
    (e : GameEngine) (t : Bool) (request : Result (GameEngine × Bool)) (rest : Result GameEngine)
    → IsValid e
    → Returns (λ e'. IsValid e' × CatchesUp e request e') rest
    → Returns (λ e'. IsValid e' × CatchesUp e request e') (if t then ok e else rest)
skip_or e true request rest v r = record { out = e; returns = refl; holds = (v, skipped refl) }
skip_or e false request rest v r = r

completed-CatchesUp :
    (e : GameEngine) (m : CompletedMoveEvent)
    → IsValid e
    → Returns
        (λ e'. IsValid e' × CatchesUp e (request_move e m.from m.to) e')
        (sync_completed_move e m.from m.to m.piece_type m.piece_color)
unfolding sync_completed_move
completed-CatchesUp e m v =
    let request = request_move e m.from m.to in
    Returns-bind _ _ _ _ (shows-Returns e.board m.to m.piece_type m.piece_color v.rect) (λ there h.
      skip_or e (there && not (is_busy_at e m.from)) request _ v (
        skip_or e (is_busy_at e m.from || is_busy_at e m.to) request _ v
          (caught_up-CatchesUp e request (request_move-Evolves e m.from m.to v))))

jump_capture-CatchesUp :
    (e : GameEngine) (square : Position)
    → IsValid e
    → Returns
        (λ e'. IsValid e' × CatchesUp e (request_jump e square) e')
        (sync_jump_capture e square)
unfolding sync_jump_capture
jump_capture-CatchesUp e square v =
    let request = request_jump e square in
    skip_or e (is_busy_at e square) request _ v
      (caught_up-CatchesUp e request (request_jump-Evolves e square v))

-- A request whose answer is dropped.
requested :
    (e : GameEngine) (request : Result (GameEngine × Bool))
    → Returns (λ r. Evolves e r.0) request
    → Returns
        (λ r. IsValid r.0 × ((r.1 ≡ true) × Requests request r.0))
        (applied (request >>= λ r. ok r.0))
requested e request r = record {
  out = (r.out.0, true);
  returns = rw r.returns;
  holds = (r.holds.valid, (refl, (r.out.1, r.returns)));
}

completed :
    (e : GameEngine) (request : Result (GameEngine × Bool)) (m : Result GameEngine)
    → Returns (λ e'. IsValid e' × CatchesUp e request e') m
    → Returns (λ r. IsValid r.0 × ((r.1 ≡ true) × CatchesUp e request r.0)) (applied m)
completed e request m r = record {
  out = (r.out, true);
  returns = rw r.returns;
  holds = (r.holds.0, (refl, r.holds.1));
}

apply_event-Applied :
    (e : GameEngine) (event : Option GameEvent)
    → IsValid e
    → Returns (λ r. IsValid r.0 × Applied e event r) (apply_event e event)
unfolding apply_event
apply_event-Applied e none v = record { out = (e, false); returns = refl; holds = (v, refl) }
apply_event-Applied e (some (GameEvent.game_started g)) v = record {
  out = (e, false);
  returns = refl;
  holds = (v, refl);
}
apply_event-Applied e (some (GameEvent.move_started m)) v =
    requested e _ (request_move-Evolves e m.from m.to v)
apply_event-Applied e (some (GameEvent.jump_started j)) v =
    requested e _ (request_jump-Evolves e j.square v)
apply_event-Applied e (some (GameEvent.move_completed m)) v =
    completed e _ _ (completed-CatchesUp e m v)
apply_event-Applied e (some (GameEvent.jump_captured j)) v =
    completed e _ _ (jump_capture-CatchesUp e j.jump_square v)
apply_event-Applied e (some (GameEvent.game_ended winner)) v = record {
  out = (apply_remote_game_ended e winner, true);
  returns = refl;
  holds = (v, refl);
}

-- What a valid engine of a client does about a text: the call returns, and the engine is valid
-- again. A text that is no event and the roster of a start change nothing, and the answer is false;
-- for the other events it is true. A start of a move or of a jump becomes that request; a completion
-- becomes nothing, a request that is refused, or one that is taken, followed by the clock until
-- nothing is under way or 12 seconds are over; the end of the game is taken as told.
pub apply_message-Applied :
    (json : Text) (e : GameEngine)
    → IsValid e
    → Returns (λ r. IsValid r.0 × Applied e (parse_server_game_event json) r) (apply_message json e)
unfolding apply_message
apply_message-Applied json e v = apply_event-Applied e (parse_server_game_event json) v

-- The client treats an event that the server has sent as that event.
pub apply_message-serialize :
    (e : GameEngine) (event : GameEvent)
    → IsValid e
    → IsSent event
    → Returns
        (λ r. IsValid r.0 × Applied e (some event) r)
        (apply_message (serialize_server_event event) e)
apply_message-serialize e event v sent =
    let json = serialize_server_event event in
    subst (λ o. Returns (λ r. IsValid r.0 × Applied e o r) (apply_message json e))
      (parse-serialize_event event sent) (apply_message-Applied json e v)
