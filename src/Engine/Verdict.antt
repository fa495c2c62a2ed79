-- ===== src/Engine/Verdict.antt =====
-- Who wins: the completing move that the engine finds first, and a king that meets a jump.
use kong_fu_chess.Prelude.{
  true, false, some, List, [], ◌∷◌, All, ok, Returns, Returns-weaken, ◌≡◌, ◌∙◌, inl, inr, arith,
}
use kong_fu_chess.Model.Piece.{king, empty_piece, is_empty}
use kong_fu_chess.Model.Position.{position_eq-false}
use kong_fu_chess.Model.Board.Laws.{piece_at}
use kong_fu_chess.Model.Board.View.{update_self}
use kong_fu_chess.Realtime.Motion.{move, motion_type_eq, Motion}
use kong_fu_chess.Realtime.Resolution.{jump_capture}
use kong_fu_chess.Realtime.Arbiter.{start_tick}
use kong_fu_chess.Realtime.Arrival.{
  Tick, is_jump_active_at, jump_capture_event, resolve_move_arrival,
}
use kong_fu_chess.Realtime.Arrival.Effects.{
  Arrives, stays, shot_down, comes_second, lands, Meets, resolve_move_arrival-Arrives,
}
use kong_fu_chess.Realtime.Arbiter.Advance.{Travels}
use kong_fu_chess.Engine.GameEngine.{GameEngine, active_motions, find_winner}
use kong_fu_chess.Engine.Invariant.{IsValid}
use kong_fu_chess.Engine.Advance.{verdict, first_verdict, find_winner-eq}

module _ (e : GameEngine) (m : Motion) (ms : List Motion) (v : IsValid e)
    (travels : Travels e.board m) (is_move : motion_type_eq m.type move ≡ true)
    (is_king : (piece_at e.board m.source).kind ≡ king)
    (meets : Meets (active_motions e) m (start_tick e.board))
    (airborne : is_jump_active_at (active_motions e) m.destination ≡ true) where
  crowned_mover : is_empty (piece_at e.board m.source) ≡ false
  crowned_mover = rw is_king

  king_verdict : verdict e.board (active_motions e) m ≡ some (piece_at e.board m.source).color
  king_verdict = rw (is_move, crowned_mover, airborne, is_king) (ground arith)

  abbrev ShotDown : Tick → Type 0
  ShotDown t =
      (piece_at t.board m.source ≡ empty_piece)
      × (piece_at t.board m.destination ≡ piece_at e.board m.destination)
      × (t.resolutions ≡ jump_capture (jump_capture_event m (piece_at e.board m.destination)) ∷ [])

  shot : (t : Tick) → Arrives (active_motions e) m (start_tick e.board) t → ShotDown t
  shot t (stays (inl gone) same) = cc
  shot t (stays (inr friend) same) = elim (meets.2 friend.1) [ ]
  shot t (shot_down found up shows arrived log) = (
    shows.reads m.source travels.0 ∙ update_self (piece_at e.board) m.source empty_piece,
    shows.reads m.destination travels.1 ∙ rw (position_eq-false m.source m.destination travels.2),
    log,
  )
  shot t (comes_second found grounded late shows arrived log) = cc
  shot t (lands present (inl free) shows arrived log) = cc
  shot t (lands present (inr first) shows arrived log) = cc

  -- A king that arrives on an enemy in the air is taken off the board, the enemy stays where it
  -- stands, the log names the king as the victim, and yet the search for a winner, when this move
  -- is the first of the completing ones, gives the game to the king's own colour.
  pub king_shot_down_wins :
      All (Travels e.board) ms
      → (find_winner e.board (active_motions e) (m ∷ ms)
          ≡ ok (some (piece_at e.board m.source).color))
        × Returns
            (λ t.
              (piece_at t.board m.source ≡ empty_piece)
              × (piece_at t.board m.destination ≡ piece_at e.board m.destination)
              × (t.resolutions
                  ≡ jump_capture (jump_capture_event m (piece_at e.board m.destination)) ∷ []))
            (resolve_move_arrival (active_motions e) m (start_tick e.board))
  king_shot_down_wins h = (
    find_winner-eq e.board (active_motions e) (m ∷ ms) v.rect (travels, h)
        ∙ rw (king_verdict, first_verdict),
    Returns-weaken _ _ _
        (resolve_move_arrival-Arrives (active_motions e) m (start_tick e.board) v.rect travels.0
          travels.1 travels.2)
        shot,
  )
