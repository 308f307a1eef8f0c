-- ===== src/Packet.antt =====
-- An incoming packet: `fcgi::ipacket` of src/ipacket.hpp and src/ipacket.cpp. The object is its
-- header, in which `content_length` counts what is still to be read; its connection is the socket
-- that each operation takes and returns. An exception that leaves an operation ends the run here,
-- as nothing in the source catches a `std::logic_error` above it.
mod Tests
pub mod Framing
pub mod Consume
pub mod Follows
pub mod Words
use tfcgi.Prelude.{
  ℕ, ◌+◌, ◌-◌, Bool, true, false, List, [], ◌∷◌, ◌++◌, length, replicate, ltb, ◌==◌, if◌then◌else◌,
  Result, ok, stop, thrown, logic_error, ◌>>=◌,
}
use tfcgi.Protocol.{Header, header_bytes, header_of, swap16}
use tfcgi.Socket.{Socket, Errno, eintr, eagain, recv_all}

-- The constructor. The header is the memory of the object before, which `recv_all` may leave as it
-- was. Only `contentLength` is brought to the byte order of the host.
pub read_packet : Header → Socket → Result (Header × Socket)
read_packet memory s = do
  (bytes, s') ← recv_all (header_bytes (record memory { content_length = 0 })) s
  let h = header_of bytes
  ok (record h { content_length = swap16 h.content_length }, s')

-- `remaining`
abbrev pub remaining : Header → ℕ
remaining h = h.content_length

-- The argument of `consume`, a ssize_t: a count, or a negative value with what `errno` holds.
pub data Consumed : Type 0 where
  count : ℕ → Consumed
  negative : Errno → Consumed

abbrev pub consume_retries : Errno → Bool
consume_retries eintr = true
consume_retries eagain = true
consume_retries _ = false

-- "Skip padding if any". Nothing reads what the array `trash` receives.
pub skip_padding : Header → Socket → Result Socket
skip_padding h s =
    if h.content_length == 0
    then (if h.padding_length == 0
        then ok s
        else recv_all (replicate h.padding_length 0) s >>= λ (trash, s'). ok s')
    else ok s

-- `consume`; true means that the call must be tried again.
pub consume : Consumed → Header → Socket → Result (Bool × Header × Socket)
unfolding skip_padding
consume (count n) h s =
    if ltb (remaining h) n
    then stop (thrown logic_error)
    else if n == 0
    then stop (thrown logic_error)
    else do
      let h' = record h { content_length = h.content_length - n }
      s' ← skip_padding h' s
      ok (false, h', s')
consume (negative e) h s = if consume_retries e then ok (true, h, s) else stop (thrown logic_error)

-- `recv_all(data, size)`, on the memory that `data` points to.
pub packet_recv_all : List ℕ → Header → Socket → Result (List ℕ × Header × Socket)
packet_recv_all buffer h s =
    if ltb (remaining h) (length buffer)
    then stop (thrown logic_error)
    else if length buffer == 0
    then ok (buffer, h, s)
    else do
      (bytes, s1) ← recv_all buffer s
      (again, h', s2) ← consume (count (length buffer)) h s1
      ok (bytes, h', s2)

-- `sink_to_vector`; `resize` fills the vector with zeros.
unfoldable pub sink_to_vector : Header → Socket → Result (List ℕ × Header × Socket)
sink_to_vector h s = packet_recv_all (replicate (remaining h) 0) h s

-- The destructor. Nothing reads what the array `beef` receives.
pub destroy : Header → Socket → Result Socket
unfolding sink_to_vector
destroy h s =
    if remaining h == 0
    then ok s
    else packet_recv_all (replicate (remaining h) 0) h s >>= λ (beef, h', s'). ok s'
