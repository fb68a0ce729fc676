-- ===== src/Tests.antt =====
-- The theorems at concrete inputs.
mod World
mod Wire
mod Handlers
mod Reached
mod Histories
mod Rooms
mod Chat
mod Clients
mod Runs
mod Sessions
mod Programs
mod Threads
