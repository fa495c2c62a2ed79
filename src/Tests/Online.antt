-- ===== src/Tests/Online.antt =====
-- Three players in the lobby, and one who leaves the game.
use kong_fu_chess.Prelude.{ℕ, ℤ, pos, refl, ◌∷◌, [], ◌-ℤ◌}
use kong_fu_chess.Model.Piece.{white, black}
use kong_fu_chess.Online.Matchmaking.{QueueEntry, MatchmakingQueue, enqueue}
use kong_fu_chess.Online.Matchmaking.Order.{
  Unmatched, Enqueued, enqueue-Enqueued, enqueue_call, remove_call, tick_call, calls, NobodyLeft,
  calls-NobodyLeft,
}
use kong_fu_chess.Online.DisconnectManager
use kong_fu_chess.Online.DisconnectManager.{
  DisconnectGraceEntry, DisconnectManager, on_disconnect, grace_entry_for,
}
use kong_fu_chess.Online.DisconnectManager.Grace.{Ticks, tick-Ticks}
use kong_fu_chess.Online.SessionManager.{SessionManager, roster_session}

abbrev player : ℕ → ℕ → ℤ → QueueEntry
player id elo since = record {
  connection_id = id;
  username = id ∷ [];
  elo = pos elo;
  enqueued_at = since;
}

abbrev no_queue : MatchmakingQueue
no_queue = record { elo_match_range = 100; queue_timeout_ms = 60000; queue = [] }

abbrev lobby : MatchmakingQueue
lobby = record no_queue { queue = player 1 1200 (pos 0) ∷ player 2 1500 (pos 0) ∷ [] }

enqueue-Enqueued_example :
    Enqueued lobby
      (player 3 1450 (pos 5))
      (enqueue lobby (player 3 1450 (pos 5))).0
      (enqueue lobby (player 3 1450 (pos 5))).1
    × Unmatched 100 (enqueue lobby (player 3 1450 (pos 5))).0.queue
unfolding ◌-ℤ◌
enqueue-Enqueued_example = enqueue-Enqueued lobby (player 3 1450 (pos 5)) ((refl, tt), (tt, tt))

calls-NobodyLeft_example : NobodyLeft (
    calls no_queue (
      enqueue_call (player 1 1200 (pos 0))
      ∷ enqueue_call (player 2 1250 (pos 1))
      ∷ remove_call 1
      ∷ tick_call (pos 9)
      ∷ []))
calls-NobodyLeft_example =
    calls-NobodyLeft no_queue
      (enqueue_call (player 1 1200 (pos 0))
        ∷ enqueue_call (player 2 1250 (pos 1))
        ∷ remove_call 1
        ∷ tick_call (pos 9)
        ∷ [])
      refl

abbrev absent : ℕ → DisconnectGraceEntry
absent id = record {
  username = id ∷ [];
  color = white;
  connection_id = id;
  disconnected_at = pos 0;
  grace_until = pos 20;
}

abbrev manager : DisconnectManager
manager = record { grace_ms = 20000; grace_entries = absent 1 ∷ absent 2 ∷ [] }

tick-Ticks_example :
    Ticks
      (pos 30)
      manager.grace_entries
      (DisconnectManager.tick manager (pos 30)).0.grace_entries
      (DisconnectManager.tick manager (pos 30)).1
tick-Ticks_example = tick-Ticks manager (pos 30)

abbrev session : SessionManager
session = record (roster_session (1 ∷ []) (2 ∷ []) (pos 8080)) {
  connection_colors = (1, white) ∷ (2, black) ∷ [];
  connection_usernames = (1, 1 ∷ []) ∷ (2, 2 ∷ []) ∷ [];
  username_connections = (1 ∷ [], 1) ∷ (2 ∷ [], 2) ∷ [];
}
