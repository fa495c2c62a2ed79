-- ===== src/Lib.antt =====
-- Kong Fu Chess: chess without turns, in which pieces travel in real time, rest after a move and
-- may jump over an attacker.
--
-- The program's parts and the files about them, with paths from the repository's root:
--   Model      src/model: pieces (Piece), squares (Position) and the board (Board). Board/Laws reads
--              and writes a rectangular board by square, Board/View follows a board through
--              changes, Board/Outside treats squares off it.
--   Rules      src/rules: `canMove` and `validateMove` (Rules), movement_helpers.cpp (Helpers),
--              piece_movements.cpp (Movement). Path says what a clear path is; Legal says which
--              moves are legal, by squares and pieces and not by the code, and decides the code's
--              tests against that.
--   Realtime   src/realtime: motions (Motion), what a tick reports (Resolution), the arrival of one
--              move (Arrival, its four outcomes in Arrival/Effects) and the arbiter's tick (Arbiter).
--   Engine     src/engine: the log (MoveLog) and the engine (GameEngine). Invariant says what holds
--              between two calls, Effects what a request or the end of a game changes; Requests,
--              Advance, Safety, History, Verdict and Scores are about the calls.
--   Input      src/input: pixels to squares (BoardMapper) and the mouse (Controller).
--   Online     src/online: the matchmaking queue, the disconnect manager and the session manager.
--              Table is what they use of an unordered map.
--   Io         src/io: squares (Algebraic) and boards as text (BoardParser, BoardPrinter, BoardSetup)
--              over the text and the lines of a stream (Text, Lines).
--   Events     src/events: the events of a game (GameEvent) and the bus (EventBus).
--   Network    src/network: the messages as text (Protocol: json_util.cpp in Json, the codecs in
--              Codec, then Commands, Lobby and Game), the queues between threads (Queues), a remote
--              player's requests (Input), what a client does with a message (ClientGameSync), and
--              the server's registry, handlers and router (Server; Commands, Absence, Return and
--              Faults are about runs of them).
--   App, View  src/app/game_loop.cpp: one frame of a running game (GameLoop; Plays and Hears are
--              about its commands and messages); the dispatch functions of a match in
--              src/app/application.cpp (Dispatch); and the countdown of
--              src/view/disconnect_overlay.cpp (DisconnectOverlay).
--   Prelude    what the parts share: tests, lists and integers over native numbers, and `Result`.
--   Tests      the theorems at concrete positions.
--
-- The controller calls the engine or a dispatch function; the engine asks the rules, hands motions
-- to the arbiter and lets it move the pieces at each tick; the log and the events come from what
-- the arbiter reports. A C++ method that changes its object is a function that returns the new
-- one; names are those of the source in this library's spelling.
--
-- A message comes in at Server/Router, which reads it with Protocol, and goes to the login, the
-- matchmaking queue, or as a command to the queue that the game loop drains into Input and so into
-- the engine. The engine's events go out as text, which a client's ClientGameSync turns into calls
-- of an engine of its own.
--
-- Choices. Coordinates, pixels, ports and the times of events are unbounded integers, and the
-- engine's clock, identifiers and durations are natural numbers: no `int` of the game wraps around
-- here. The numbers of a message are bounded: `strtol` stops at the bounds of a `long`, which has
-- 32 bits on the MinGW platform that the README and the CMake files build for, as `int` has.
-- Characters are their unsigned codes. An index outside a vector is undefined behaviour in C++ and
-- the value `err out_of_range` here, so a theorem that says `Returns` says that no such index is
-- used. Two loops run on fuel: that of `isPathClear`, one step less than the distance, which is the
-- number of squares between on a line, and that of `advanceUntilIdle`, 751 for 750 frames of 16 ms
-- in 12 seconds and a last test; every other loop is structural recursion. `std::sort` is
-- insertion, `std::map` and `std::unordered_map` are association lists. The engine and the server
-- keep the list of the events they publish, and the bus is modelled by itself: subscribers do not
-- call back. A dispatch function is a function field, from an engine to the new engine with the
-- answer, with a list of the calls made of it. Methods under a mutex are sequential. The user
-- store, which the server asks for ratings, is a function parameter; the steady clock is an
-- argument; a socket is a number, and what is sent to it is a list.
--
-- Not modelled: drawing, sockets, the data base, the start and the end of the application, which are
-- calls of other libraries; the Elo rating and `toPixelCenter`, which are floating point; the
-- scripts of the text tests, which may wait for a negative time.
pub mod Prelude
pub mod Model
pub mod Rules
pub mod Realtime
pub mod Io
pub mod Events
pub mod Engine
pub mod Input
pub mod Online
pub mod Tests
pub mod Network
pub mod View
pub mod App
