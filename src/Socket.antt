-- ===== src/Socket.antt =====
-- The socket under a connection: `Connection::recv_all` and `Connection::send_packet` of
-- src/connection.cpp. The kernel is a parameter: the results that the successive calls of `read`
-- and of `send` return, in order. A list that runs out means that the next call never returns.
mod Tests
pub mod Recv
pub mod Received
pub mod Send
pub mod Follows
use tfcgi.Prelude.{
  ℕ, ◌+◌, ◌-◌, Bool, true, false, List, [], ◌∷◌, ◌++◌, length, take, drop, ltb, if◌then◌else◌,
  Result, ok, stop, blocked, out_of_bounds, thrown, system_error, ◌>>=◌,
}

pub data Errno : Type 0 where
  enobufs eintr eagain econnreset epipe enetunreach enetdown emfile enfile econnaborted : Errno
  other_errno : ℕ → Errno

-- What one call of `read` returns: the bytes that it stored, none at the end of the input, or -1.
pub data ReadResult : Type 0 where
  got : List ℕ → ReadResult
  read_failed : Errno → ReadResult

-- What one call of `send` returns: the number of bytes taken, or -1.
pub data SendResult : Type 0 where
  sent : ℕ → SendResult
  send_failed : Errno → SendResult

-- The receiving side of a `Connection`. The flag is true while the socket is sane.
pub record Socket : Type 0 where
  pub socket_insane : Bool
  pub reads : List ReadResult

-- The `switch (errno)` of `recv_all`: which errors try again.
abbrev pub recv_retries : Errno → Bool
recv_retries enobufs = true
recv_retries eintr = true
recv_retries _ = false

-- `read` returned `bs` into a buffer whose part not yet written is `rest`: more bytes than asked
-- for would lie outside the buffer.
abbrev pub after_got :
    List ℕ → List ℕ → Bool → List ReadResult → Result (List ℕ × Socket) → Result (List ℕ × Socket)
after_got [] rest sane reads more = ok (rest, record { socket_insane = false; reads = reads })
after_got (b ∷ bs) rest sane reads more =
    if ltb (length rest) (length (b ∷ bs))
    then stop out_of_bounds
    else more >>= λ (tail, s). ok ((b ∷ bs) ++ tail, s)

abbrev pub after_read_failed :
    Errno → List ℕ → List ReadResult → Result (List ℕ × Socket) → Result (List ℕ × Socket)
after_read_failed e rest reads more =
    if recv_retries e then more else ok (rest, record { socket_insane = false; reads = reads })

-- The `while (size)` loop: the list is the part of the buffer that is still to be written, with
-- what the memory held before, and its length is `size`. The result is that part when it returns.
pub recv_loop : List ReadResult → Bool → List ℕ → Result (List ℕ × Socket)
recv_loop [] sane [] = ok ([], record { socket_insane = sane; reads = [] })
recv_loop [] sane (x ∷ rest) = stop blocked
recv_loop (r ∷ reads) sane [] = ok ([], record { socket_insane = sane; reads = r ∷ reads })
recv_loop (got bs ∷ reads) sane (x ∷ rest) =
    after_got bs (x ∷ rest) sane reads (recv_loop reads sane (drop (length bs) (x ∷ rest)))
recv_loop (read_failed e ∷ reads) sane (x ∷ rest) =
    after_read_failed e (x ∷ rest) reads (recv_loop reads false (x ∷ rest))

-- `recv_all(data, size)` on the memory that `data` points to.
pub recv_all : List ℕ → Socket → Result (List ℕ × Socket)
unfolding recv_loop
recv_all buffer s = recv_loop s.reads s.socket_insane buffer

-- The `switch (errno)` of `send_packet`.
pub data SendAction : Type 0 where
  try_again give_up raise : SendAction

abbrev pub on_send_error : Errno → SendAction
on_send_error enobufs = try_again
on_send_error enetunreach = try_again
on_send_error enetdown = try_again
on_send_error eintr = try_again
on_send_error econnreset = give_up
on_send_error epipe = give_up
on_send_error _ = raise

-- The bytes that reached the kernel, and the results of `send` that are left.
abbrev pub Sent : Type 0
Sent = List ℕ × List SendResult

abbrev pub after_send_failed : SendAction → List SendResult → Result Sent → Result Sent
after_send_failed try_again sends more = more
after_send_failed give_up sends more = ok ([], sends)
after_send_failed raise sends more = stop (thrown system_error)

-- `send_packet(buffer, size)`: the `while (size)` loop. A `send` that claims more than it was
-- given would move the pointer out of the buffer.
pub send_packet : List SendResult → List ℕ → Result Sent
send_packet [] [] = ok ([], [])
send_packet [] (b ∷ bs) = stop blocked
send_packet (r ∷ sends) [] = ok ([], r ∷ sends)
send_packet (sent n ∷ sends) (b ∷ bs) =
    let more = send_packet sends (drop n (b ∷ bs)) in
    if ltb (length (b ∷ bs)) n
    then stop out_of_bounds
    else more >>= λ (tail, left). ok (take n (b ∷ bs) ++ tail, left)
send_packet (send_failed e ∷ sends) (b ∷ bs) =
    after_send_failed (on_send_error e) sends (send_packet sends (b ∷ bs))
