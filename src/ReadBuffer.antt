-- ===== src/ReadBuffer.antt =====
-- The read buffer that server/src/server.cpp and client/src/server_connection.cpp grow by 4096
-- bytes, hand to `raw_receive`, and cut back to what was received.
use mathlib.Core.Option
use axn_chat_app.Prelude.{
  Option, none, some, ℕ, zero, suc, refl, ◌+◌, ◌-◌, ◌≤◌, ◌≡◌, ap, sym, ◌++◌, Bytes, length, take,
  drop, replicate, leb, if◌then◌else◌, arith, append-nil, append_assoc, length-append,
  length-replicate, take-length_append, take-length,
}

-- `std::vector<char>::resize`: new places hold 0.
unfoldable pub resize : ℕ → Bytes → Bytes
resize n xs = if leb n (length xs) then take n xs else xs ++ replicate (n - length xs) 0

-- `raw_receive(buffer.data() + at, …)` with this result; `none` is a write past the end.
unfoldable pub write_at : ℕ → Bytes → Bytes → Option Bytes
write_at at received buffer =
    if leb (at + length received) (length buffer)
    then some (take at buffer ++ (received ++ drop (at + length received) buffer))
    else none

-- A call that returns `OK`.
unfoldable pub receive_ok : ℕ → Bytes → Bytes → Option Bytes
receive_ok initial_buffer_size buffer received =
    let current_size = length buffer in
    let grown = resize (current_size + initial_buffer_size) buffer in
    Option.map (resize (current_size + length received)) (write_at current_size received grown)

-- Any other result.
unfoldable pub receive_failed : ℕ → Bytes → Bytes
receive_failed initial_buffer_size buffer =
    let current_size = length buffer in
    resize current_size (resize (current_size + initial_buffer_size) buffer)

abbrev pub initial_buffer_size : ℕ
initial_buffer_size = 4096

resize-grow : (n : ℕ) (xs : Bytes) → resize (length xs + n) xs ≡ xs ++ replicate n 0
unfolding resize replicate
resize-grow zero xs = ground (arith, take-length xs, append-nil xs)
resize-grow (suc n) xs =
    let added : length xs + suc n - length xs ≡ suc n = omega arith in rw added (ground arith)

resize-append : (n : ℕ) (xs ys : Bytes) → n ≡ length xs → resize n (xs ++ ys) ≡ xs
unfolding resize
resize-append n xs ys e = rw e (ground (arith, length-append xs ys, take-length_append xs ys))

write_at-append :
    (xs ys received : Bytes)
    → length received ≤ length ys
    → write_at (length xs) received (xs ++ ys)
      ≡ some ((xs ++ received) ++ drop (length xs + length received) (xs ++ ys))
unfolding write_at
write_at-append xs ys received fits =
    rw
      (
        take-length_append,
        sym (append_assoc xs received (drop (length xs + length received) (xs ++ ys))),
      )
      (ground (arith, length-append xs ys))

-- After a successful read that gives no more than was asked for, the buffer holds what it held
-- and behind it the bytes received, and the read stays within the buffer.
pub receive_ok-append :
    (n : ℕ) (buffer received : Bytes)
    → length received ≤ n
    → receive_ok n buffer received ≡ some (buffer ++ received)
unfolding receive_ok
receive_ok-append n buffer received fits =
    rw
      (
        resize-grow n buffer,
        write_at-append buffer (replicate n 0) received
            (omega (arith, length-replicate n (zero), fits)),
      )
      (ap some (resize-append _ (buffer ++ received) _ (sym (length-append buffer received))))

-- After any other result it is as it was.
pub receive_failed-same : (n : ℕ) (buffer : Bytes) → receive_failed n buffer ≡ buffer
unfolding receive_failed
receive_failed-same n buffer =
    rw (resize-grow n buffer) (resize-append _ buffer (replicate n 0) refl)
