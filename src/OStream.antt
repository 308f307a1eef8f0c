-- ===== src/OStream.antt =====
-- Outgoing streams: `fcgi::ostreambuf` and `fcgi::ostream` of include/fcgi/iostream.hpp and
-- src/iostream.cpp, and the overload of `Connection::send_packet` in src/connection.hpp that they
-- send through. What goes out is the list of the buffers that are handed, in turn, to
-- `send_packet(const char*, size_t)`; what that does with each is in Socket. The stream buffer of
-- the standard library stores a character while there is room and calls `overflow` otherwise.
mod Tests
pub mod Packets
pub mod Append
pub mod Written
pub mod Closing
pub mod Grows
use tfcgi.Prelude.{
  ℕ, ◌+◌, Bool, true, false, List, [], ◌∷◌, ◌++◌, Option, none, some, length, take, ltb, ◌==◌,
  if◌then◌else◌,
}
use tfcgi.Protocol.{Header, header_bytes, swap16}

-- The buffers handed to `send_packet`, first to last.
abbrev pub Wire : Type 0
Wire = List (List ℕ)

-- `sizeof(buffer)` in `send_packet(Header*, uint16_t)`: of the pointer, 8 on a 64-bit host.
abbrev pub sizeof_pointer : ℕ
sizeof_pointer = 8

-- The size of the array `send_buffer.data`.
abbrev pub data_size : ℕ
data_size = 4096

-- `send_packet(Header *buffer, uint16_t contentLength)`: the header, and the memory behind it.
-- The memory from which the bytes are taken is the header and `content`.
pub packet_bytes : Header → List ℕ → List ℕ
packet_bytes h content =
    take (sizeof_pointer + length content)
      (header_bytes (record h { content_length = swap16 (length content) }) ++ content)

-- `buffer` is what lies between `pbase()` and `pptr()`.
pub record OStreamBuf : Type 0 where
  pub header : Header
  pub buffer : List ℕ
  pub send_eof : Bool

-- The constructor. `contentLength` is written before each use.
abbrev pub new_ostreambuf : ℕ → ℕ → OStreamBuf
new_ostreambuf request_id type = record {
  header = record {
    version = 1;
    type = type;
    request_id = swap16 request_id;
    content_length = 0;
    padding_length = 0;
    reserved = 0;
  };
  buffer = [];
  send_eof = false;
}

-- The accessors `pkt_type` and `requestId`.
abbrev pub pkt_type : OStreamBuf → ℕ
pkt_type b = b.header.type

abbrev pub buf_request_id : OStreamBuf → ℕ
buf_request_id b = b.header.request_id

-- The object after `send_packet(&send_buffer.header, n)`.
abbrev pub with_length : ℕ → OStreamBuf → OStreamBuf
with_length n b = record b { header = record b.header { content_length = swap16 n } }

pub sync : OStreamBuf → Wire → OStreamBuf × Wire
unfolding packet_bytes
sync b wire = if length b.buffer == 0 then (b, wire) else (
  record (with_length (length b.buffer) b) { buffer = []; send_eof = true },
  wire ++ (packet_bytes b.header b.buffer ∷ []),
)

-- `overflow(c)`, of a character or, for none, of `eof()`. `sync` always returns 0.
pub overflow : Option ℕ → OStreamBuf → Wire → OStreamBuf × Wire
unfolding sync
overflow none b wire = sync b wire
overflow (some c) b wire = let (b', wire') = sync b wire in (record b' { buffer = c ∷ [] }, wire')

-- `std::streambuf::sputc`
pub sputc : ℕ → OStreamBuf → Wire → OStreamBuf × Wire
unfolding overflow
sputc c b wire =
    if ltb (length b.buffer) data_size
    then (record b { buffer = b.buffer ++ (c ∷ []) }, wire)
    else overflow (some c) b wire

-- The end-of-stream packet of the destructor.
abbrev pub end_stream : OStreamBuf × Wire → Wire
end_stream (b, wire) = if b.send_eof then wire ++ (packet_bytes b.header [] ∷ []) else wire

-- The destructor.
pub destroy_buf : OStreamBuf → Wire → Wire
unfolding sync
destroy_buf b wire = end_stream (sync b wire)

-- `sputn`, one character after the other.
pub sputn : List ℕ → OStreamBuf → Wire → OStreamBuf × Wire
unfolding sputc
sputn [] b wire = (b, wire)
sputn (c ∷ cs) b wire = let (b', wire') = sputc c b wire in sputn cs b' wire'

-- `attached`: `rdbuf()` is the internal buffer, and the stream is good; else it is null, and the
-- stream is bad. (`rdbuf(p)` clears the state to just that.)
pub record OStream : Type 0 where
  pub internal : OStreamBuf
  pub attached : Bool

abbrev pub new_ostream : ℕ → ℕ → OStream
new_ostream request_id type = record { internal = new_ostreambuf request_id type; attached = true }

-- Output to a bad stream is dropped.
pub write : List ℕ → OStream → Wire → OStream × Wire
unfolding sputn
write cs os wire =
    let (b, wire') = sputn cs os.internal wire in
    if os.attached then (record os { internal = b }, wire') else (os, wire)

-- The new buffer is made from the accessors of the old one, which is then destroyed.
pub close : OStream → Wire → OStream × Wire
unfolding destroy_buf
close os wire =
    -- `flush()`
    let (b, wire') = sync os.internal wire in
    if os.attached
    then (
      record { internal = new_ostreambuf (buf_request_id b) (pkt_type b); attached = false },
      destroy_buf b wire',
    )
    else (os, wire)

pub reset : OStream → OStream
reset os = record os { attached = true }

-- `operator=(ostream&&)`: the old buffer of this stream is destroyed.
pub move_assign : OStream → OStream → Wire → OStream × Wire
unfolding destroy_buf
move_assign os rvalue wire = (rvalue, destroy_buf os.internal wire)
