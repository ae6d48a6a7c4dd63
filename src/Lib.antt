-- ===== src/Lib.antt =====
-- The game "Liar Line" of this repository: a server that 3 to 6 players join over TCP, who chat and vote
-- on who of them is the liar.
--
-- The parts and their files:
--   * Packet, Packet/MessageType, Packet/Framing: the frame of a message (include/common/packet.h,
--     src/common/packet.cpp). `make_packet`, `serialize`, `deserialize` and `is_complete_packet` are the
--     constructors and methods of `Packet`. Packet/Wire is about the bytes of all frames.
--   * Serialization and its children: the payloads (include/common/serialization.h,
--     src/common/serialization.cpp), a child for each message. Serialization/Safety is about all readers.
--   * PlayerState, GameState and its children: the shared game (include/common/game_state.h,
--     src/common/game_state.cpp). GameState/Round has the start of a round, GameState/Scores the points;
--     GameState/Invariant and its children say what is always true of the game; GameState/Fresh,
--     GameState/Voting and GameState/Points say what the methods do, and GameState/Range bounds the scores.
--   * ConnectionManager: the table of connections (src/server/connection_manager.cpp).
--   * MessageQueue: the queue of packets (src/server/message_queue.cpp).
--   * Server: the sends (src/server/server.cpp), with what they come to in Server/Sends. Server/Stream is
--     the receive loop of `handleClient`, and Server/Stream/Frames compares it with a relation that says
--     which frames a stream holds. Server/Kept is about what the sends keep, Server/Mail about
--     the bytes that one socket is sent,
--     Server/Lifecycle has `start` with the accept loop (what the threads make of the server while it waits
--     is an argument), `cleanupConnections`, and the two halves of
--     `stop`, before and after the threads of the clients are joined.
--   * GameServer: the packet callback of src/server/game_server.cpp. GameServer/Handlers has one function
--     for each type of packet, GameServer/Ballot what follows the last vote, GameServer/Round
--     `startNewRoundIfPossible`, GameServer/Text the handling of strings. GameServer/Session is the
--     whole thread of a client, `Server::handleClient`, with that callback. GameServer/Handlers/Votes is
--     about the last vote of a round, GameServer/Ballot/Order about votes in another order,
--     GameServer/Text/Commands about the text of a vote command, GameServer/Mail about what one client is
--     sent when a round starts;
--     GameServer/Process has `stop` with what the threads do until they are joined, the console's handler
--     and the end of `main`, GameServer/Process/Stop what is then closed and left, and GameServer/Process/Life
--     the process as a relation, from the start of the accept loop to the end of `stop`. GameServer/Threads
--     has the threads of the clients, with each call of GameState that locks as one step and each assignment
--     of `clearRound`, which does not lock, as one; GameServer/Threads/Race has two threads that settle one
--     round, and GameServer/Threads/Reset one that clears a round while another starts one.
--   * Client: the connection of a client (src/client/client.cpp), with `connect`, `disconnect`, the sends,
--     the buffer of `receivePacket` and the receiving thread. Client/Receive and Client/Thread are about
--     the bytes of packets, Client/Resume about a thread that is stopped and taken up again.
--   * GameClient: the player's program (src/client/game_client.cpp). GameClient/Handlers has the packet
--     callback, GameClient/Screen each text that it shows, GameClient/Typing the keyboard;
--     GameClient/Mirror compares its table of players with the game of the server. GameClient/Program is
--     `main`, with the keys and what arrives as events in any order.
--   * Echo: the callback of src/server/echo_server.cpp and `main` of src/client/echo_client.cpp.
--   * Play: the callbacks of the server and of a client together: what the server sends to one socket, and
--     what the client shows when it has handled it. Play/Packets has the client's side of each packet,
--     Play/Ranges the ranges of the fields, Play/Rounds, Play/Handlers and Play/Callback the server's.
--     Play/Vote follows a vote from the keyboard to the game, and Play/Program a client's whole run.
--   * Prelude and Bytes: tests, maps, reads that fail outside of their list, and big-endian words.
-- The modules Runs hold the laws at concrete inputs and tests; the modules Sample hold their data.
--
-- How they interact: a client's bytes go through Server/Stream, which hands packets to the callback; the
-- callback changes the game and sends packets through Server, which asks ConnectionManager for the active
-- sockets. `World` of GameServer has the server and the game side by side. On the other side a client's
-- receiving thread hands packets to the callback of GameClient, and the keyboard sends through Client.
--
-- How the code is modelled:
--   * Ids, lengths and counts are native numbers. `to_u32` reduces what a uint32_t stores. A `size_t` has 64
--     bits and no buffer comes near that size, so its sums are not reduced. A score is an unbounded ℤ: it
--     is an `int` in the source, which no game with fewer than 2 ^ 30 rounds fills.
--   * A read of bytes gives `fault` outside the buffer, and a loop that is out of fuel gives `stuck`.
--     The loop over a buffer has the length of the buffer plus one as fuel,
--     since each frame takes six bytes at least; a loop over a count in a payload has the count; the
--     receiving thread of a client counts its rounds, one for each packet and one in which it waits.
--   * An unordered_map is the list of its entries in iteration order; a new key is put in front. The laws
--     on the maps say what `find` gives, which does not depend on the order. A std::map
--     is the list of its entries in the order of their keys.
--   * Parameters: `network` (the system's `send`, which sees all that was sent before), the arrivals
--     (what `recv` gives), the attempt (how far `connect` of the system comes) and `random`
--     (`std::uniform_int_distribution`; `InRange` says that it stays within its bounds).
--   * `handle_packet` and its parts are a callback that runs alone. GameServer/Threads takes all schedules of
--     the calls of GameState by any number of callbacks, a call of `clearRound` in single assignments (its loop
--     over the players is one), and GameState/Invariant/Steps all sequences of calls,
--     as the lock orders them.
--   * Events of a client's `main` come one after the other: a key is handled whole, and so is what arrives.
--     The receiving thread has a fixed number of rounds for each arrival, which is enough if it is larger
--     than one plus the number of all packets.
--
-- Not modelled: log output (std::cerr and the log of the server), since nothing reads it; the calls of
-- Winsock and the start of threads, which are the system's (a socket is a number, also the one that listens);
-- and in the `main` of the two servers the installing of the console handler and the waiting.
pub mod Prelude
pub mod Bytes
pub mod Packet
pub mod Play
pub mod PlayerState
pub mod Serialization
pub mod GameState
pub mod ConnectionManager
pub mod MessageQueue
pub mod Server
pub mod Client
pub mod GameClient
pub mod Echo
pub mod GameServer
