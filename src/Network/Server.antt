-- ===== src/Network/Server.antt =====
-- src/network/server: the state that the handlers share, and client_registry.cpp. The handlers
-- hold references to the parts of it; each returns the new state. Sockets are numbers; what is sent
-- and what is published are lists, of which the libraries behind them get each element once.
pub mod Queue
pub mod Disconnect
pub mod Login
pub mod Router
pub mod Commands
pub mod Absence
pub mod Return
pub mod Faults
use kong_fu_chess.Prelude.{ℕ, ℤ, Option, none, some, List, [], ◌∷◌, ◌++◌, map}
use kong_fu_chess.Io.Text.{Text}
use kong_fu_chess.Events.GameEvent.{GameEvent}
use kong_fu_chess.Online.Table.{find, erase, assign}
use kong_fu_chess.Online.SessionManager.{SessionManager, id_eq}
use kong_fu_chess.Online.DisconnectManager.{DisconnectManager}
use kong_fu_chess.Online.Matchmaking.{MatchmakingQueue}
use kong_fu_chess.Network.Queues.Commands.{CommandQueue}

pub record Server : Type 0 where
  pub session : SessionManager
  pub disconnects : DisconnectManager
  pub matchmaking : MatchmakingQueue
  pub clients : List (ℕ × ℕ)
  pub commands : CommandQueue
  pub sent : List (ℕ × Text)
  pub published : List GameEvent
  pub port : ℤ

-- `web_socket.sendText(json)`.
abbrev pub send_text : Server → ℕ → Text → Server
send_text s socket json = record s { sent = s.sent ++ (socket, json) ∷ [] }

abbrev pub publish : Server → GameEvent → Server
publish s event = record s { published = s.published ++ event ∷ [] }

-- The pointer in the registry is that of the socket of an open connection, never null.
abbrev pub register_client : Server → ℕ → ℕ → Server
register_client s id socket = record s { clients = assign id_eq s.clients id socket }

abbrev pub remove_client : Server → ℕ → Server
remove_client s id = record s { clients = erase id_eq s.clients id }

abbrev pub clear_clients : Server → Server
clear_clients s = record s { clients = [] }

abbrev pub send_if : Server → Option ℕ → Text → Server
send_if s none json = s
send_if s (some socket) json = send_text s socket json

abbrev pub send_to_connection : Server → ℕ → Text → Server
send_to_connection s id json = send_if s (find id_eq s.clients id) json

abbrev pub broadcast : Server → Text → Server
broadcast s json = record s { sent = s.sent ++ map (λ client. (client.1, json)) s.clients }
