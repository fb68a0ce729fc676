-- ===== src/Client.antt =====
-- The chat client: client/src/chat_client.cpp. How it reads strings, its state, the handlers of
-- what arrives, the handler of what the user types, and the list of users.
pub mod Strings
pub mod State
pub mod Binds
pub mod Handlers
pub mod Connection
pub mod Stream
pub mod Delivery
pub mod Input
pub mod Split
pub mod Numbers
pub mod Pieces
pub mod UserList
pub mod Listing
pub mod Commands
pub mod Rounds
pub mod Leaving
pub mod Sending
pub mod Threads
