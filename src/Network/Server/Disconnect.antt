-- ===== src/Network/Server/Disconnect.antt =====
-- src/network/server/disconnect_handler.cpp. Time points are those of the steady clock, in
-- nanoseconds.
use kong_fu_chess.Prelude.{ℕ, ◌*◌, ℤ, pos, ◌+ℤ◌, Option, none, some, if◌then◌else◌}
use kong_fu_chess.Model.Piece.{Color}
use kong_fu_chess.Io.Text.{Text}
use kong_fu_chess.Events.GameEvent
use kong_fu_chess.Online.SessionManager.{
  username_for, color_for, reserve_disconnected_slot, disconnect, reset_to_lobby,
}
use kong_fu_chess.Online.DisconnectManager.{DisconnectGraceEntry, on_disconnect, tick}
use kong_fu_chess.Network.Protocol.Codec.{color_label}
use kong_fu_chess.Network.Protocol.Lobby.{serialize_player_disconnected}
use kong_fu_chess.Network.Server.{Server, publish, remove_client, broadcast}
use kong_fu_chess.Network.Server.Queue.{is_in_game, remove_from_queue}

abbrev pub grace_ms : ℕ
grace_ms = 20000

abbrev pub grace_seconds : ℕ
grace_seconds = 20

abbrev pub grace_entry : ℕ → ℤ → Text → Color → DisconnectGraceEntry
grace_entry id now username color = record {
  username = username;
  color = color;
  connection_id = id;
  disconnected_at = now;
  grace_until = now +ℤ pos (grace_ms * 1000000);
}

-- A player of a running game is kept a slot.
abbrev pub keep_slot : Server → ℕ → ℤ → Text → Color → Server
keep_slot s id now username color =
    let kept = record s {
      disconnects = on_disconnect s.disconnects (grace_entry id now username color);
      session = reserve_disconnected_slot s.session id username color;
    } in
    remove_client
      (broadcast kept
        (serialize_player_disconnected username (color_label color) (pos grace_seconds)))
      id

abbrev pub forget : Server → ℕ → Server
forget s id =
    let left = remove_from_queue s id in
    remove_client (record left { session = disconnect left.session id }) id

unfoldable pub leave_game : Server → ℕ → ℤ → Option Text → Option Color → Server
leave_game s id now (some username) (some color) = keep_slot s id now username color
leave_game s id now _ _ = forget s id

unfoldable pub handle_disconnect : Server → ℕ → ℤ → Server
unfolding leave_game
handle_disconnect s id now =
    if is_in_game s.session.phase
    then leave_game s id now (username_for s.session id) (color_for s.session id)
    else forget s id

abbrev pub conclude : Server → Option Color → Server
conclude s none = s
conclude s (some winner) =
    let told = publish s (GameEvent.game_ended winner) in
    record told { session = reset_to_lobby told.session }

unfoldable pub tick_grace : Server → ℤ → Server
tick_grace s now = let r = tick s.disconnects now in conclude (record s { disconnects = r.0 }) r.1
