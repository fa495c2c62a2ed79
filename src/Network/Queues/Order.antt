-- ===== src/Network/Queues/Order.antt =====
-- Both queues deliver what is pushed once and in order.
use kong_fu_chess.Prelude.{List, [], ◌∷◌, ◌++◌, append_assoc, append-nil, ◌≡◌, refl, ap, ◌∙◌, sym}
use kong_fu_chess.Io.Text.{Text}
use kong_fu_chess.Network.Queues.Commands
use kong_fu_chess.Network.Queues.Commands.{QueuedCommand, CommandQueue, no_commands}
use kong_fu_chess.Network.Queues.Messages
use kong_fu_chess.Network.Queues.Messages.{ClientMessageQueue, no_messages, pop_all}

-- What a queue promises to the thread that pushes and to the loop that drains.
pub record Fifo (Item : Type 0) (Queue : Type 0) : Type 1 where
  pub empty : Queue
  pub push : Item → Queue → Queue
  pub drain : Queue → List Item → Queue × List Item
  pub waiting : Queue → List Item
  pub waiting-empty : waiting empty ≡ []
  pub waiting-push : (x : Item) (q : Queue) → waiting (push x q) ≡ waiting q ++ x ∷ []
  pub waiting-drain : (q : Queue) (out : List Item) → waiting (drain q out).0 ≡ []
  pub drain-waiting : (q : Queue) (out : List Item) → (drain q out).1 ≡ waiting q

-- A call of either thread, in the order in which they get the mutex.
pub data QueueCall (Item : Type 0) : Type 0 where
  pushes : Item → QueueCall Item
  drains : List Item → QueueCall Item

abbrev pub pushed : {Item : Type 0} → List (QueueCall Item) → List Item
pushed [] = []
pushed (pushes x ∷ calls) = x ∷ pushed calls
pushed (drains out ∷ calls) = pushed calls

module _ {Item : Type 0} {Queue : Type 0} (f : Fifo Item Queue) where
  -- What all the drains deliver, one after the other, and the queue behind them.
  unfoldable pub deliver : Queue → List (QueueCall Item) → Queue × List Item
  deliver q [] = (q, [])
  deliver q (pushes x ∷ calls) = deliver (f.push x q) calls
  deliver q (drains out ∷ calls) =
      let drained = f.drain q out in
      let rest = deliver drained.0 calls in (rest.0, drained.1 ++ rest.1)

  deliver-waiting :
      (q : Queue) (calls : List (QueueCall Item))
      → (deliver q calls).1 ++ f.waiting (deliver q calls).0 ≡ f.waiting q ++ pushed calls
  unfolding deliver
  deliver-waiting q [] = sym (append-nil (f.waiting q))
  deliver-waiting q (pushes x ∷ calls) =
      deliver-waiting (f.push x q) calls
      ∙ ap (λ w. w ++ pushed calls) (f.waiting-push x q)
      ∙ append_assoc (f.waiting q) (x ∷ []) (pushed calls)
  deliver-waiting q (drains out ∷ calls) =
      let drained = f.drain q out in
      let rest = deliver drained.0 calls in
      append_assoc drained.1 rest.1 (f.waiting rest.0)
      ∙ ap (λ w. drained.1 ++ w)
          (deliver-waiting drained.0 calls ∙ ap (λ w. w ++ pushed calls) (f.waiting-drain q out))
      ∙ ap (λ w. w ++ pushed calls) (f.drain-waiting q out)

  -- From the empty queue on, what is delivered and what still waits are what was pushed.
  deliver-empty :
      (calls : List (QueueCall Item))
      → (deliver f.empty calls).1 ++ f.waiting (deliver f.empty calls).0 ≡ pushed calls
  deliver-empty calls = deliver-waiting f.empty calls ∙ ap (λ w. w ++ pushed calls) f.waiting-empty

abbrev pub command_fifo : Fifo QueuedCommand CommandQueue
unfolding Commands.push Commands.drain
command_fifo = record {
  empty = no_commands;
  push = Commands.push;
  drain = Commands.drain;
  waiting = λ q. q.pending;
  waiting-empty = refl;
  waiting-push = λ x q. refl;
  waiting-drain = λ q out. refl;
  drain-waiting = λ q out. refl;
}

pub pop_all-append : (pending out : List Text) → pop_all pending out ≡ out ++ pending
unfolding pop_all
pop_all-append [] out = sym (append-nil out)
pop_all-append (x ∷ pending) out =
    pop_all-append pending (out ++ x ∷ []) ∙ append_assoc out (x ∷ []) pending

abbrev pub message_fifo : Fifo Text ClientMessageQueue
unfolding Messages.push Messages.drain
message_fifo = record {
  empty = no_messages;
  push = Messages.push;
  drain = Messages.drain;
  waiting = λ q. q.pending;
  waiting-empty = refl;
  waiting-push = λ x q. refl;
  waiting-drain = λ q out. refl;
  drain-waiting = λ q out. pop_all-append q.pending [];
}

-- Both queues implement a first-in, first-out queue: for every order in which the pushes and the
-- drains of the command queue get the mutex, and for every such order of the message queue, what the
-- drains have delivered, one after the other, followed by what still waits is what was pushed, each
-- item once and in order, whatever the vectors held that the drains were given.
pub deliver-pushed :
    (commands : List (QueueCall QueuedCommand)) (messages : List (QueueCall Text))
    → ((deliver command_fifo no_commands commands).1
          ++ (deliver command_fifo no_commands commands).0.pending
        ≡ pushed commands)
      × ((deliver message_fifo no_messages messages).1
            ++ (deliver message_fifo no_messages messages).0.pending
          ≡ pushed messages)
unfolding command_fifo deliver message_fifo
deliver-pushed commands messages =
    (deliver-empty command_fifo commands, deliver-empty message_fifo messages)
