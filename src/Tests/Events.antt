-- ===== src/Tests/Events.antt =====
-- Three counters that listen, one of which leaves.
use kong_fu_chess.Prelude.{ℕ, ◌+◌, ◌*◌, List, [], ◌∷◌, ◌≡◌}
use kong_fu_chess.Model.Piece.{white}
use kong_fu_chess.Events.GameEvent.{game_ended}
use kong_fu_chess.Events.EventBus.{new_bus, publish}
use kong_fu_chess.Events.EventBus.Delivery.{
  BusCall, subscribes, unsubscribes, calls, heard, publish-calls,
}

-- Each handler leaves its mark as a digit.
abbrev listeners : List (BusCall ℕ)
listeners =
    subscribes (λ event n. n * 10 + 1)
    ∷ subscribes (λ event n. n * 10 + 2)
    ∷ unsubscribes 1
    ∷ subscribes (λ event n. n * 10 + 3)
    ∷ []

publish-calls_example :
    publish (calls new_bus listeners) (game_ended white) 0 ≡ heard 1 listeners (game_ended white) 0
publish-calls_example = publish-calls listeners (game_ended white) 0
