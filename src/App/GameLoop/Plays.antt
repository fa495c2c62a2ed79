-- ===== src/App/GameLoop/Plays.antt =====
-- The commands of remote players, one after the other.
use kong_fu_chess.Prelude.{ℕ, Bool, true, false, List, [], ◌∷◌, Returns, ok, ◌≡◌, refl}
use kong_fu_chess.Online.SessionManager.{SessionManager}
use kong_fu_chess.Engine.GameEngine.{GameEngine}
use kong_fu_chess.Engine.Invariant.{IsValid}
use kong_fu_chess.Network.Protocol.Commands.{
  ClientCommand, login_command, move_command, jump_command, join_queue_command, leave_queue_command,
}
use kong_fu_chess.Network.Queues.Commands.{QueuedCommand, CommandQueue, drain}
use kong_fu_chess.Network.Input.{handle_move_text, handle_jump_text}
use kong_fu_chess.Network.Input.Safety.{handle_move_text-Evolves, handle_jump_text-Evolves}
use kong_fu_chess.App.GameLoop.{run_command, run_commands, process_network_commands}

-- A move or a jump is asked for in the name of the connection; the other commands are not for the
-- engine.
abbrev pub Does : SessionManager → ℕ → ClientCommand → GameEngine → GameEngine → Type 0
Does s id (move_command from to) e e' = (b : Bool) × (handle_move_text s e id from to ≡ ok (e', b))
Does s id (jump_command square) e e' = (b : Bool) × (handle_jump_text s e id square ≡ ok (e', b))
Does s id _ e e' = e' ≡ e

-- All commands, in their order.
abbrev pub Plays : SessionManager → List QueuedCommand → GameEngine → GameEngine → Type 0
Plays s [] e e' = e' ≡ e
Plays s (q ∷ qs) e e' =
    (e1 : GameEngine) × (Does s q.connection_id q.command e e1 × Plays s qs e1 e')

-- The host plays the commands, and nobody else.
abbrev pub PlaysOn : Bool → SessionManager → List QueuedCommand → GameEngine → GameEngine → Type 0
PlaysOn true s qs e e' = Plays s qs e e'
PlaysOn false s qs e e' = e' ≡ e

run_command-Does :
    (s : SessionManager) (e : GameEngine) (id : ℕ) (command : ClientCommand)
    → IsValid e
    → Returns (λ e'. IsValid e' × Does s id command e e') (run_command s e id command)
unfolding run_command
run_command-Does s e id (move_command from to) v =
    let r = handle_move_text-Evolves s e id from to v in
    record {
      out = r.out.0;
      returns = rw r.returns refl;
      holds = (r.holds.valid, (r.out.1, r.returns));
    }
run_command-Does s e id (jump_command square) v =
    let r = handle_jump_text-Evolves s e id square v in
    record {
      out = r.out.0;
      returns = rw r.returns refl;
      holds = (r.holds.valid, (r.out.1, r.returns));
    }
run_command-Does s e id (login_command u) v = record { out = e; returns = refl; holds = (v, refl) }
run_command-Does s e id join_queue_command v = record { out = e; returns = refl; holds = (v, refl) }
run_command-Does s e id leave_queue_command v = record {
  out = e;
  returns = refl;
  holds = (v, refl);
}

run_commands-Plays :
    (s : SessionManager) (e : GameEngine) (qs : List QueuedCommand)
    → IsValid e
    → Returns (λ e'. IsValid e' × Plays s qs e e') (run_commands s e qs)
unfolding run_commands
run_commands-Plays s e [] v = record { out = e; returns = refl; holds = (v, refl) }
run_commands-Plays s e (q ∷ qs) v =
    let first = run_command-Does s e q.connection_id q.command v in
    let rest = run_commands-Plays s first.out qs first.holds.0 in
    record {
      out = rest.out;
      returns = rw first.returns rest.returns;
      holds = (rest.holds.0, (first.out, (first.holds.1, rest.holds.1)));
    }

-- What is left of the commands: nothing on the host, all of them elsewhere.
abbrev pub left_over : Bool → CommandQueue → List QueuedCommand
left_over true commands = []
left_over false commands = commands.pending

pub process_network_commands-PlaysOn :
    (host : Bool) (s : SessionManager) (e : GameEngine) (commands : CommandQueue)
    → IsValid e
    → Returns
        (λ r.
          IsValid r.0
          × PlaysOn host s commands.pending e r.0
          × (r.1.pending ≡ left_over host commands))
        (process_network_commands host s e commands)
unfolding process_network_commands drain
process_network_commands-PlaysOn false s e commands v = record {
  out = (e, commands);
  returns = refl;
  holds = (v, refl, refl);
}
process_network_commands-PlaysOn true s e commands v =
    let played = run_commands-Plays s e commands.pending v in
    record {
      out = (played.out, (drain commands []).0);
      returns = rw played.returns refl;
      holds = (played.holds.0, played.holds.1, refl);
    }
