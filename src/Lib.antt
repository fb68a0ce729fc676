-- ===== src/Lib.antt =====
-- Verification of a chat server and its client: a C++ program with one event loop on the server and
-- two threads in the client, which exchange length-prefixed messages over TCP.
--
-- Parts of the program, and where they are modelled:
--   Protocol     common/include/common/protocol.h, common/src/protocol.cpp: message types, header
--                and message, `serialize_message`, `deserialize_message`. Words has `htonl`, `ntohl`
--                and the copies of a 32-bit word on a host of either byte order; Wire is the wire
--                format written down directly; Frames is a byte stream as a sequence of messages.
--   Socket       common/include/common/socket.h, common/src/socket.cpp: `PosixSocket` on the results
--                of its system calls, and what a read loop gets from it.
--   ReadBuffer   the resizing of the buffer around `raw_receive`, in both read loops.
--   Server.State, Server.Manager
--                server/include/server/client_session.h, server/src/client_manager.cpp. A session is
--                an object on a heap and the maps hold addresses; reading one that is not live is the
--                fault `use_after_free`. `calls` records what leaves the program, in order.
--   Server.Handlers, Server.Reading
--                server/src/server.cpp: the message handlers, `handle_client_disconnection`,
--                `handle_new_connection`, and `handle_client_message` with its two loops.
--   Server.Tables, Server.Usernames, Server.Invariant, Server.History, Server.Reachable,
--   Server.Messages, Server.Total
--                the invariant of the maps and of the names, the server as a state machine (`Step`,
--                `Reach`) over the events of `Server::run`, from what `run` sets up, and calls on any
--                bytes.
--   Server.Watch which descriptors the recorded calls leave on the interest list of epoll.
--   Server.EventLoop, Server.Running, Server.Stopping, Server.Runs
--                `Server::run` and `Server::shutdown`, and their state against the state machine.
--   Server.Outcome, Server.Broadcast
--                the server as its theorems see it: the session at each descriptor, the names, and
--                what each descriptor is sent, with no address and no order of the maps. The other
--                modules of Server state what each handler does in these terms.
--   Server.Room  the specification: a room of members and names, what one message of a member does to
--                it and brings to whom (`Turn`), and its life. Abstraction is the room of a state,
--                Packets and Refine one message, Conversed and Batches a whole read, Returned,
--                Histories and Refinement all that happens, Runs a run of `Server::run` with its
--                shutdown, Authentic whose words a member hears.
--   Server.Epoll server/src/epoll_manager.cpp: `EpollManager` on a kernel that is a parameter. Laws has
--                what the manual pages say of the kernel, Interest the list after any calls, Reports
--                the events that a wait hands over.
--   Client.State, Client.Handlers, Client.Input
--                client/src/chat_client.cpp: the handlers of messages, the list of users, user input.
--   Client.Connection, Client.Sending
--                client/src/server_connection.cpp: `receiver_loop`, and connecting and sending.
--   Client.Threads
--                the two threads of the client as a step relation, with the lock and the flags that
--                they share; Safety and Lookup have what every interleaving keeps, Lost what some do
--                not.
--   Client.Stream, Client.Delivery, Client.Pieces, Client.UserList, Client.Listing, Client.Commands,
--   Client.Rounds, Client.Leaving
--                the client against the stream's messages, the list's pieces and the server's list, and
--                the input loop with what the receiver handles between two lines.
--   Logger       common/include/common/logger.h: levels, formats and streams.
--   Main         server/src/main.cpp, client/src/main.cpp: `std::stoi` and both `main` functions.
--   Chat         a public and a private line from one client's user through the server to what another
--                client shows.
--   Tests        the theorems at concrete inputs.
--
-- How the parts interact: `handle_client_message` fills a session's buffer, deserializes with
-- Protocol and calls `process_message`; the handlers change the manager's state and hand serialized
-- packets to sockets; the client's `receiver_loop` reads those bytes and calls `on_message_received`.
--
-- Numbers: ids and sizes are 32 bits wide; the id counter and `payload.size()` wrap, and theorems that
-- need ids not to have run out say so. `std::stoul` is that of a 64-bit `unsigned long`.
--
-- Fuel: `process_loop`, `deliver_loop` and `user_list_loop` count rounds. Each round consumes a byte
-- at least, so their callers give one more than the number of bytes, and no theorem about the callers
-- assumes that it is enough.
--
-- Outside the model: the kernel decides what reads return, which descriptor a connection has and
-- which events come, so these are arguments. The results of sends are ignored by the server's code
-- and so by the model; a packet is taken to be sent whole. In Client.Threads the body of a handler is
-- one step, sends and prints included; `run_user_input_handler` and `main` of the client take what the
-- receiver handles in front of each look at the flag and each line as an argument, and handle a line in
-- one step. The server's handlers record their calls of EpollManager and
-- look at no result of them, as in the code. Log lines of the other parts are not recorded. Tests,
-- documents and build files are not modelled.
pub mod Prelude
pub mod Protocol
pub mod Socket
pub mod ReadBuffer
pub mod Server
pub mod Client
pub mod Logger
pub mod Main
pub mod Chat
pub mod Tests
