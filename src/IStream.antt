-- ===== src/IStream.antt =====
-- Incoming streams: `fcgi::istreambuf` and `fcgi::istream` of include/fcgi/iostream.hpp and
-- src/iostream.cpp. The thread that reads and the thread that feeds share the queue; what one does
-- under the mutex is one step here, and a wait on the bell that nobody rings is `blocked`.
mod Tests
pub mod Reading
use tfcgi.Prelude.{
  ℕ, ◌+◌, ◌-◌, Bool, true, false, List, [], ◌∷◌, ◌++◌, length, ltb, ◌==◌, if◌then◌else◌, Result, ok,
  stop, blocked, ◌>>=◌,
}

-- A value of `int_type`: `negsuc n` is -(n + 1), and `EOF` is -1.
pub data IntType : Type 0 where
  pos : ℕ → IntType
  negsuc : ℕ → IntType

abbrev pub eof : IntType
eof = negsuc 0

-- A `char`, which is signed, brought to `int`.
abbrev pub from_char : ℕ → IntType
from_char b = if ltb b 128 then pos b else negsuc (255 - b)

abbrev pub is_eof : IntType → Bool
is_eof (pos n) = false
is_eof (negsuc n) = n == 0

-- `get_area` is what lies between `gptr()` and `egptr()`.
pub record IStreamBuf : Type 0 where
  pub is_open : Bool
  pub queue : List (List ℕ)
  pub get_area : List ℕ

-- `std::make_unique<istreambuf>()` sets every field to zero, and no constructor sets one.
abbrev pub new_istreambuf : IStreamBuf
new_istreambuf = record { is_open = false; queue = []; get_area = [] }

-- The body of `underflow` behind the wait, while the stream is open.
abbrev pub pop_packet : IStreamBuf → List (List ℕ) → Result (IntType × IStreamBuf)
pop_packet b [] = stop blocked
pop_packet b ([] ∷ queue) = ok (eof, record b { is_open = false; queue = queue })
pop_packet b ((c ∷ cs) ∷ queue) = ok (from_char c, record b { queue = queue; get_area = c ∷ cs })

pub underflow : IStreamBuf → Result (IntType × IStreamBuf)
underflow b = if b.is_open then pop_packet b b.queue else ok (eof, b)

-- `feed`, on the content of the packet.
pub feed_stream : List ℕ → IStreamBuf → IStreamBuf
feed_stream content b = record b { queue = b.queue ++ (content ∷ []) }

-- `std::streambuf::sbumpc`, with `uflow` of the standard library: a byte, or none at the end.
abbrev pub take_byte : List ℕ → IStreamBuf → IntType × IStreamBuf
take_byte [] b = (eof, b)
take_byte (c ∷ cs) b = (pos c, record b { get_area = cs })

abbrev pub after_underflow : IntType × IStreamBuf → IntType × IStreamBuf
after_underflow (i, b) = if is_eof i then (eof, b) else take_byte b.get_area b

abbrev pub bump : List ℕ → IStreamBuf → Result (IntType × IStreamBuf)
bump [] b = underflow b >>= λ r. ok (after_underflow r)
bump (c ∷ cs) b = ok (take_byte (c ∷ cs) b)

pub sbumpc : IStreamBuf → Result (IntType × IStreamBuf)
unfolding underflow
sbumpc b = bump b.get_area b

-- `attached`: `rdbuf()` is not null. The constructor of `std::istream` that runs makes it null.
pub record IStream : Type 0 where
  pub internal : IStreamBuf
  pub attached : Bool

-- The constructor, and `reset`: a new buffer, which is not handed to `rdbuf`.
abbrev pub new_istream : IStream
new_istream = record { internal = new_istreambuf; attached = false }

pub reset : IStream → IStream
reset is = record is { internal = new_istreambuf }

-- `rdbuf(NULL)`
pub detach : IStream → IStream
detach is = record is { attached = false }

pub feed : List ℕ → IStream → IStream
unfolding feed_stream
feed content is = record is { internal = feed_stream content is.internal }

-- `operator=(istream&&)`
pub move_assign : IStream → IStream → IStream
move_assign is rvalue = rvalue

-- `get()` of a `std::istream`: on a null buffer it fails, and no byte is read.
pub get : IStream → Result (IntType × IStream)
unfolding sbumpc
get is =
    if is.attached
    then (sbumpc is.internal >>= λ (c, b). ok (c, record is { internal = b }))
    else ok (eof, is)
