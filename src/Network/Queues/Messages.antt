-- ===== src/Network/Queues/Messages.antt =====
-- src/network/client_message_queue.h and client_message_queue.cpp.
use kong_fu_chess.Prelude.{List, [], ◌∷◌, ◌++◌}
use kong_fu_chess.Io.Text.{Text}

pub record ClientMessageQueue : Type 0 where
  pub pending : List Text

abbrev pub no_messages : ClientMessageQueue
no_messages = record { pending = [] }

unfoldable pub push : Text → ClientMessageQueue → ClientMessageQueue
push json q = record { pending = q.pending ++ json ∷ [] }

-- The loop that moves the front of the queue to the end of `out` until the queue is empty.
unfoldable pub pop_all : List Text → List Text → List Text
pop_all [] out = out
pop_all (front ∷ pending) out = pop_all pending (out ++ front ∷ [])

-- The queue and the vector `out`, which is cleared before the loop.
unfoldable pub drain : ClientMessageQueue → List Text → ClientMessageQueue × List Text
unfolding pop_all
drain q out = (record { pending = [] }, pop_all q.pending [])
