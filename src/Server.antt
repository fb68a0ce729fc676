-- ===== src/Server.antt =====
-- The server: server/include/server and server/src.
pub mod State
pub mod Manager
pub mod Handlers
pub mod Reading
pub mod Tables
pub mod Watch
pub mod Broadcast
pub mod Outcome
pub mod Connections
pub mod Sending
pub mod Joining
pub mod Relaying
pub mod Roster
pub mod Dispatch
pub mod Draining
pub mod Messages
pub mod Freed
pub mod ReadLoop
pub mod Receiving
pub mod Accepting
pub mod Usernames
pub mod Invariant
pub mod History
pub mod Reachable
pub mod EventLoop
pub mod Running
pub mod Stopping
pub mod Runs
pub mod Total
pub mod Room
pub mod Epoll
