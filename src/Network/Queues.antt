-- ===== src/Network/Queues.antt =====
-- src/network/command_queue.h and command_queue.cpp, client_message_queue.h and
-- client_message_queue.cpp: what the threads of the sockets hand to the loops of the game. Each
-- method holds the mutex while it uses `pending_`.
pub mod Commands
pub mod Messages
pub mod Order
