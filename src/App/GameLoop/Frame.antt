-- ===== src/App/GameLoop/Frame.antt =====
-- A frame survives whatever the network sends, and takes all of it in its order.
use kong_fu_chess.Prelude.{ℤ, Bool, List, [], Returns, ok, ◌≡◌, refl, subst}
use kong_fu_chess.Io.Text.{Text}
use kong_fu_chess.Online.SessionManager.{SessionManager}
use kong_fu_chess.Engine.GameEngine.{GameEngine, advance}
use kong_fu_chess.Engine.Invariant.{IsValid}
use kong_fu_chess.Engine.Safety.{advance-Evolves}
use kong_fu_chess.Network.Queues.Messages
use kong_fu_chess.Network.Queues.Order.{pop_all-append}
use kong_fu_chess.View.DisconnectOverlay
use kong_fu_chess.App.GameLoop.{frame_ms, Loop, frame}
use kong_fu_chess.App.GameLoop.Plays.{PlaysOn, left_over, process_network_commands-PlaysOn}
use kong_fu_chess.App.GameLoop.Hears.{HearsAll, process_server_messages-HearsAll}

-- `told` is the engine behind the messages, and `moved` the one behind the commands.
pub record FrameEnds (host : Bool) (s : SessionManager) (l l' : Loop) : Type 0 where
  pub told : GameEngine
  pub moved : GameEngine
  pub hears : HearsAll host l.messages.pending l.engine told
  pub plays : PlaysOn host s l.commands.pending told moved
  pub ticks : advance moved 16 ≡ ok l'.engine
  pub valid : IsValid l'.engine
  pub read : l'.messages.pending ≡ []
  pub run : l'.commands.pending ≡ left_over host l.commands

-- Whatever texts the server has sent and whatever commands remote players have, a frame that begins
-- with a valid engine returns: no access leaves the board and no loop runs out of fuel. All messages
-- are read in their order: the end of the game ends it once, for the winner it names, and any other
-- event changes the engine only on a client, as its synchronisation says. Then the host asks
-- for the moves and jumps of all commands in their order, each in the name of its connection, while
-- a player who is not the host leaves the commands alone. Then the clock runs for 16 ms. The engine
-- is valid again, no message is left, and on the host no command.
pub frame-FrameEnds :
    (host : Bool) (s : SessionManager) (clock : List Text → ℤ) (now : ℤ) (l : Loop)
    → IsValid l.engine
    → Returns (FrameEnds host s l) (frame host s clock now l)
unfolding frame Messages.drain
frame-FrameEnds host s clock now l v =
    let pending = (Messages.drain l.messages []).1 in
    let told = process_server_messages-HearsAll host clock pending l.engine l.overlay v in
    let moved = process_network_commands-PlaysOn host s told.out.0 l.commands told.holds.0 in
    let done = advance-Evolves moved.out.0 frame_ms moved.holds.0 in
    record {
      out = record {
        engine = done.out;
        overlay = DisconnectOverlay.update_countdown told.out.1 now;
        messages = (Messages.drain l.messages []).0;
        commands = moved.out.1;
      };
      returns = rw (told.returns, moved.returns, done.returns) refl;
      holds = record {
        told = told.out.0;
        moved = moved.out.0;
        hears =
            subst (λ texts. HearsAll host texts l.engine told.out.0)
              (pop_all-append l.messages.pending []) told.holds.1;
        plays = moved.holds.1;
        ticks = done.returns;
        valid = done.holds.valid;
        read = refl;
        run = moved.holds.2;
      };
    }
