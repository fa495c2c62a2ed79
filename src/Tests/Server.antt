-- ===== src/Tests/Server.antt =====
-- A server with two players in a game, one with one in the lobby, and one whose players are away.
use kong_fu_chess.Prelude.{
  ℤ, pos, ◌+ℤ◌, Option, none, some, List, [], ◌∷◌, ◌++◌, ◌≡◌, ◌≢◌, subst, false, refl,
}
use kong_fu_chess.Model.Piece.{white, black}
use kong_fu_chess.Io.Text.{Text, codes, text_eq}
use kong_fu_chess.Online.SessionManager.{
  SessionManager, lobby_session, roster_session, color_for, reserve_disconnected_slot,
  roster_snapshot,
}
use kong_fu_chess.Online.DisconnectManager.{DisconnectGraceEntry, on_disconnect}
use kong_fu_chess.Network.Queues.Commands.{no_commands}
use kong_fu_chess.Network.Server.{Server}
use kong_fu_chess.Network.Server.Queue.{handle_join_queue}
use kong_fu_chess.Network.Server.Disconnect.{leave_game, handle_disconnect, tick_grace}
use kong_fu_chess.Network.Server.Login.{handle_login}
use kong_fu_chess.Network.Server.Router.{says, handle_client_message}
use kong_fu_chess.Network.Server.Commands.{pending, admitted, pending-handle_client_message}
use kong_fu_chess.Network.Server.Absence.{Awaits, Meanwhile, tick_at, leaves, all_happen, AllPermit}
use kong_fu_chess.Network.Server.Return.{IsBack, handle_login-IsBack}
use kong_fu_chess.Network.Server.Faults.{
  PlaysHimself, Concludes, handle_join_queue-twice, tick_grace-twice,
}

abbrev ada : Text
ada = codes "ada"

abbrev bob : Text
bob = codes "bob"

abbrev server : SessionManager → List DisconnectGraceEntry → Server
server session away = record {
  session = session;
  disconnects = record { grace_ms = 20000; grace_entries = away };
  matchmaking = record { elo_match_range = 100; queue_timeout_ms = 60000; queue = [] };
  clients = (1, 11) ∷ (2, 12) ∷ [];
  commands = no_commands;
  sent = [];
  published = [];
  port = pos 8765;
}

abbrev in_play : Server
in_play =
    server
      (record (roster_session ada bob (pos 8765)) {
        connection_colors = (1, white) ∷ (2, black) ∷ [];
        connection_usernames = (1, ada) ∷ (2, bob) ∷ [];
        username_connections = (ada, 1) ∷ (bob, 2) ∷ [];
      })
      []

abbrev in_lobby : Server
in_lobby =
    server
      (record (lobby_session (pos 8765)) {
        connection_usernames = (1, ada) ∷ [];
        username_connections = (ada, 1) ∷ [];
      })
      []

-- A user store that knows one rating.
abbrev rating : Text → Option ℤ
rating [] = none
rating (c ∷ cs) = some (pos 1300)

abbrev move_text : Text
move_text = codes "{\"type\":\"move\",\"from\":\"e2\",\"to\":\"e4\"}"

pending-handle_client_message_example :
    pending (handle_client_message rating in_play (pos 5) (some 1) 11 (says move_text))
    ≡ pending in_play ++ admitted in_play (some 1) (says move_text)
pending-handle_client_message_example =
    pending-handle_client_message rating in_play (pos 5) (some 1) 11 (says move_text)

-- The other player leaves at 10 s, and the clock ticks at 15 s.
abbrev meantime : List Meanwhile
meantime = leaves 2 (pos 10000000000) ∷ tick_at (pos 15000000000) ∷ []

abbrev ada_gone : Server
ada_gone = handle_disconnect in_play 1 (pos 5)

the_name : (other : Text) → some bob ≡ some other → bob ≡ other
the_name other h = cc

meantime-AllPermit : AllPermit ada ada_gone meantime
unfolding handle_disconnect leave_game on_disconnect reserve_disconnected_slot ◌+ℤ◌
meantime-AllPermit = (
  λ other known. subst (λ t. text_eq t ada ≡ false) (the_name other known) refl,
  ((refl, (refl, tt)), tt),
)

handle_login-IsBack_example :
    (color_for ada_gone.session 1 ≡ none)
    × Awaits ada white (roster_snapshot in_play.session) (all_happen ada_gone meantime)
    × IsBack
        (roster_snapshot in_play.session)
        3
        13
        ada
        white
        (handle_login (all_happen ada_gone meantime) 3 13 ada)
handle_login-IsBack_example =
    handle_login-IsBack in_play 1 (pos 5) ada white meantime 3 13 refl refl refl meantime-AllPermit

handle_join_queue-twice_example :
    PlaysHimself rating 1 11 ada
      (handle_join_queue rating
        (handle_join_queue rating in_lobby (pos 5) 1 11)
        (pos 9)
        1
        11).session
handle_join_queue-twice_example =
    handle_join_queue-twice rating 1 11 ada in_lobby (pos 5) (pos 9) refl refl refl

abbrev ada_away : DisconnectGraceEntry
ada_away = record {
  username = ada;
  color = white;
  connection_id = 1;
  disconnected_at = pos 0;
  grace_until = pos 20;
}

abbrev bob_away : DisconnectGraceEntry
bob_away = record {
  username = bob;
  color = black;
  connection_id = 2;
  disconnected_at = pos 1;
  grace_until = pos 21;
}

abbrev deserted : Server
deserted = server (roster_session ada bob (pos 8765)) (ada_away ∷ bob_away ∷ [])

colors_differ : white ≢ black
colors_differ h = cc

tick_grace-twice_example :
    Concludes deserted (tick_grace deserted (pos 30)) black (bob_away ∷ [])
    × Concludes
        (tick_grace deserted (pos 30))
        (tick_grace (tick_grace deserted (pos 30)) (pos 30))
        white
        []
tick_grace-twice_example =
    tick_grace-twice deserted ada_away bob_away (pos 30) colors_differ refl refl refl
