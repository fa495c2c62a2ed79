-- ===== src/Network/Queues/Commands.antt =====
-- src/network/command_queue.h and command_queue.cpp.
use kong_fu_chess.Prelude.{ℕ, List, [], ◌∷◌, ◌++◌}
use kong_fu_chess.Network.Protocol.Commands.{ClientCommand}

pub record QueuedCommand : Type 0 where
  pub connection_id : ℕ
  pub command : ClientCommand

pub record CommandQueue : Type 0 where
  pub pending : List QueuedCommand

abbrev pub no_commands : CommandQueue
no_commands = record { pending = [] }

unfoldable pub push : QueuedCommand → CommandQueue → CommandQueue
push command q = record { pending = q.pending ++ command ∷ [] }

-- The queue and the vector `out`, whose elements are replaced.
unfoldable pub drain : CommandQueue → List QueuedCommand → CommandQueue × List QueuedCommand
drain q out = (record { pending = [] }, q.pending)
