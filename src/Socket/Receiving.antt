-- ===== src/Socket/Receiving.antt =====
-- A read loop's calls of `PosixSocket::raw_receive`, from the results of `recv`.
use axn_chat_app.Prelude.{
  ℕ, ◌<◌, ◌≤◌, ◌≡◌, refl, false, Option, some, List, [], ◌∷◌, map, Bytes, length, All, ◌==◌, arith,
}
use axn_chat_app.Socket.{SocketStatus, ok, would_block, closed, error, Reads, chunk, blocked, ended}
use axn_chat_app.Socket.Posix.{
  Errno, eagain, ewouldblock, econnreset, epipe, other, SysCall, returned, failed, raw_receive,
}

-- A call of `recv`: the bytes it wrote, none of them at the end of the stream, or its error.
pub data Recv : Type 0 where
  wrote : Bytes → Recv
  fails : Errno → Recv

abbrev pub recv_result : Recv → SysCall
recv_result (wrote bytes) = returned (length bytes)
recv_result (fails e) = failed e

abbrev pub recv_bytes : Recv → Bytes
recv_bytes (wrote bytes) = bytes
recv_bytes (fails e) = []

-- A loop goes on after `OK` only.
abbrev pub read_on : SocketStatus → Bytes → Reads → Reads
read_on ok bytes rest = chunk bytes rest
read_on would_block bytes rest = blocked
read_on closed bytes rest = ended closed
read_on error bytes rest = ended error

-- The loop on these calls and then the last.
unfoldable pub reads_of : Option ℕ → List Recv → Recv → Reads
reads_of socket [] last =
    read_on (raw_receive socket (recv_result last)).status (recv_bytes last) blocked
reads_of socket (call ∷ calls) last =
    read_on (raw_receive socket (recv_result call)).status (recv_bytes call)
      (reads_of socket calls last)

-- Data, and no more than was asked for.
abbrev pub IsData : ℕ → Recv → Type 0
IsData n (wrote bytes) = (0 < length bytes) × (length bytes ≤ n)
IsData n (fails e) = ⊥

abbrev pub data_bytes : List Recv → List Bytes
data_bytes calls = map recv_bytes calls

abbrev pub chunks : List Bytes → Reads → Reads
chunks [] last = last
chunks (b ∷ bs) last = chunk b (chunks bs last)

-- How the loop ends, by the last call.
abbrev pub ending : Recv → Reads
ending (wrote bytes) = ended closed
ending (fails eagain) = blocked
ending (fails ewouldblock) = blocked
ending (fails e) = ended error

-- On a valid socket, a read loop takes every call of recv that gave data as a chunk, and its last
-- call as blocked where errno is EAGAIN or EWOULDBLOCK, as closed where no bytes were left, and
-- as an error otherwise.
pub reads_of-chunks :
    (n fd : ℕ) (calls : List Recv) (last : Recv)
    → All (IsData n) calls
    → length (recv_bytes last) ≡ 0
    → reads_of (some fd) calls last ≡ chunks (data_bytes calls) (ending last)
unfolding reads_of raw_receive
reads_of-chunks n fd [] (wrote bytes) filled empty = rw empty refl
reads_of-chunks n fd [] (fails eagain) filled empty = refl
reads_of-chunks n fd [] (fails ewouldblock) filled empty = refl
reads_of-chunks n fd [] (fails econnreset) filled empty = refl
reads_of-chunks n fd [] (fails epipe) filled empty = refl
reads_of-chunks n fd [] (fails other) filled empty = refl
reads_of-chunks n fd (wrote bytes ∷ calls) last filled empty =
    let some_bytes : (length bytes == 0) ≡ false = ground (arith, filled.0.0) in
    rw (some_bytes, reads_of-chunks n fd calls last filled.1 empty) refl
reads_of-chunks n fd (fails e ∷ calls) last filled empty = absurd filled.0
