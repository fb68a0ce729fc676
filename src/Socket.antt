-- ===== src/Socket.antt =====
-- common/include/common/socket.h: the results of a socket's operations.
pub mod Posix
pub mod Receiving
pub mod Lifetime
use axn_chat_app.Prelude.{ℕ, Bytes, codes}

pub data SocketStatus : Type 0 where
  ok would_block closed error : SocketStatus

-- `operator<<`
abbrev pub status_text : SocketStatus → Bytes
status_text ok = codes "OK"
status_text would_block = codes "WOULD_BLOCK"
status_text closed = codes "CLOSED"
status_text error = codes "ERROR"

pub record SocketResult : Type 0 where
  pub status : SocketStatus
  pub bytes_transferred : ℕ

-- What the calls of `raw_receive` in a read loop give, up to the first that is not `OK`. The kernel
-- decides: `chunk` is a call that returned `OK` with these bytes.
pub data Reads : Type 0 where
  chunk : Bytes → Reads → Reads
  blocked : Reads
  ended : SocketStatus → Reads
