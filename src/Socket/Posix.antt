-- ===== src/Socket/Posix.antt =====
-- `PosixSocket`: common/src/socket.cpp. A socket is its descriptor, `none` where it is -1. The
-- results of the system calls are arguments.
use axn_chat_app.Prelude.{
  ℕ, ◌+◌, ◌-◌, ◌/◌, ◌%◌, Bool, true, false, not, Option, none, some, List, [], ◌∷◌, ◌==◌,
  if◌then◌else◌,
}
use axn_chat_app.Socket.{SocketStatus, ok, would_block, closed, error, SocketResult}

-- The values of `errno` that the code tells apart.
pub data Errno : Type 0 where
  eagain ewouldblock econnreset epipe other : Errno

pub data SysCall : Type 0 where
  returned : ℕ → SysCall
  failed : Errno → SysCall

-- `PosixSocket::PosixSocket()`, from the result of `socket`
abbrev pub new_socket : SysCall → Option ℕ
new_socket (returned fd) = some fd
new_socket (failed e) = none

abbrev pub is_valid : Option ℕ → Bool
is_valid none = false
is_valid (some fd) = true

-- The socket afterwards, and the descriptors closed.
abbrev pub close_socket : Option ℕ → Option ℕ × List ℕ
close_socket none = (none, [])
close_socket (some fd) = (none, fd ∷ [])

abbrev o_nonblock : ℕ
o_nonblock = 2048

-- `flags |= O_NONBLOCK` or `flags &= ~O_NONBLOCK`
abbrev pub with_flag : Bool → ℕ → ℕ
with_flag true flags = if flags / o_nonblock % 2 == 0 then flags + o_nonblock else flags
with_flag false flags = if flags / o_nonblock % 2 == 0 then flags else flags - o_nonblock

-- The flags that are set, from the result of `fcntl(F_GETFL)`.
abbrev pub flags_set : Bool → SysCall → Option ℕ
flags_set non_blocking (failed e) = none
flags_set non_blocking (returned flags) = some (with_flag non_blocking flags)

unfoldable pub set_non_blocking : Option ℕ → Bool → SysCall → Option ℕ
set_non_blocking none non_blocking got = none
set_non_blocking (some fd) non_blocking got = flags_set non_blocking got

-- `PosixSocket::PosixSocket(int)`, on a descriptor that a call has returned
abbrev pub adopted : ℕ → Option ℕ
adopted fd = some fd

-- `PosixSocket::~PosixSocket`: the descriptors that it closes
abbrev pub destroyed : Option ℕ → List ℕ
destroyed socket = (close_socket socket).1

abbrev pub get_fd : Option ℕ → Option ℕ
get_fd socket = socket

-- Null is returned, and what the pointer held is destroyed.
abbrev pub dropped : Option ℕ → Option ℕ × List ℕ
dropped sock = (none, destroyed sock)

-- The socket that is returned, and the descriptors that have been closed.
unfoldable pub create_listener : SysCall → Option ℕ × List ℕ
create_listener opened =
    let sock = new_socket opened in if not (is_valid sock) then dropped sock else (sock, [])

-- The Booleans are whether `inet_pton` and `connect` succeed.
unfoldable pub create_connector : SysCall → Bool → Bool → Option ℕ × List ℕ
create_connector opened address_valid connected =
    let sock = new_socket opened in
    if not (is_valid sock)
    then dropped sock
    else if not address_valid
    then dropped sock
    else if not connected
    then dropped sock
    else (sock, [])

unfoldable pub bind_socket : Option ℕ → Bool → Bool → Bool
bind_socket socket option_set bound =
    if not (is_valid socket) then false else if not option_set then false else bound

unfoldable pub listen_socket : Option ℕ → Bool → Bool
listen_socket socket listening = if not (is_valid socket) then false else listening

unfoldable pub accept_connection : Option ℕ → SysCall → Option ℕ
accept_connection none accepted = none
accept_connection (some fd) (failed e) = none
accept_connection (some fd) (returned client_fd) = adopted client_fd

abbrev pub result : SocketStatus → ℕ → SocketResult
result status bytes_transferred = record { status = status; bytes_transferred = bytes_transferred }

abbrev pub send_status : Errno → SocketStatus
send_status eagain = would_block
send_status ewouldblock = would_block
send_status econnreset = closed
send_status epipe = closed
send_status other = error

unfoldable pub send_data : Option ℕ → SysCall → SocketResult
send_data none sent = result error 0
send_data (some fd) (failed e) = result (send_status e) 0
send_data (some fd) (returned bytes_sent) = result ok bytes_sent

abbrev pub receive_status : Errno → SocketStatus
receive_status eagain = would_block
receive_status ewouldblock = would_block
receive_status _ = error

unfoldable pub raw_receive : Option ℕ → SysCall → SocketResult
raw_receive none received = result error 0
raw_receive (some fd) (failed e) = result (receive_status e) 0
raw_receive (some fd) (returned bytes_received) =
    if bytes_received == 0 then result closed 0 else result ok bytes_received

-- It asks for as much as the buffer's capacity, whatever its size.
unfoldable pub receive_data : Option ℕ → SysCall → SocketResult
unfolding raw_receive
receive_data socket received =
    if not (is_valid socket) then result error 0 else raw_receive socket received
