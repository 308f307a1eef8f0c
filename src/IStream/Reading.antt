-- ===== src/IStream/Reading.antt =====
-- What a reader of an incoming stream receives.
use tfcgi.Prelude.{
  ℕ, zero, suc, ◌+◌, ◌<◌, ◌≡◌, refl, ap, ◌∙◌, true, false, List, [], ◌∷◌, ◌++◌, length,
  length-append, Result, ok, stop, ◌>>=◌, concat, All, arith,
}
use Prim.Native.Nat.add
use tfcgi.IStream.{
  from_char, is_eof, IntType, pos, eof, IStreamBuf, underflow, sbumpc, feed_stream, IStream,
  new_istream, reset, detach, feed, get,
}

-- What the library does to a stream of a request, in any order.
pub data StreamOp : Type 0 where
  op_reset op_detach : StreamOp
  op_feed : List ℕ → StreamOp

pub apply : StreamOp → IStream → IStream
apply op_reset is = reset is
apply op_detach is = detach is
apply (op_feed content) is = feed content is

pub run : List StreamOp → IStream → IStream
unfolding apply
run [] is = is
run (op ∷ ops) is = run ops (apply op is)

run-closed :
    (ops : List StreamOp) (is : IStream)
    → is.attached ≡ false
    → is.internal.is_open ≡ false
    → ((run ops is).attached ≡ false) × ((run ops is).internal.is_open ≡ false)
unfolding run reset detach feed feed_stream
run-closed [] is a o = (a, o)
run-closed (op_reset ∷ ops) is a o = run-closed ops (reset is) a refl
run-closed (op_detach ∷ ops) is a o = run-closed ops (detach is) refl o
run-closed (op_feed content ∷ ops) is a o = run-closed ops (feed content is) a o

-- An application cannot read the input of a request: whatever packets the library has fed to the
-- stream since it was built, `get` fails on it at once, and the buffer under it, if it were
-- attached, is at its end.
pub get_nothing :
    (ops : List StreamOp)
    → (get (run ops new_istream) ≡ ok (eof, run ops new_istream))
      × (underflow (run ops new_istream).internal ≡ ok (eof, (run ops new_istream).internal))
unfolding get underflow
get_nothing ops = let (a, o) = run-closed ops new_istream refl refl in (simp a, simp o)

-- An open stream: so it would be if the constructor set the flag.
abbrev pub opened : List (List ℕ) → List ℕ → IStreamBuf
opened queue area = record { is_open = true; queue = queue; get_area = area }

abbrev pub chars : List ℕ → List IntType
chars [] = []
chars (c ∷ cs) = pos c ∷ chars cs

chars-append : (xs ys : List ℕ) → chars (xs ++ ys) ≡ chars xs ++ chars ys
chars-append [] ys = refl
chars-append (x ∷ xs) ys = ap (◌∷◌ (pos x)) (chars-append xs ys)

-- `n` calls of `sbumpc`.
pub read_bytes : ℕ → IStreamBuf → Result (List IntType × IStreamBuf)
read_bytes zero b = ok ([], b)
read_bytes (suc n) b = sbumpc b >>= λ (c, b1). read_bytes n b1 >>= λ (cs, b2). ok (c ∷ cs, b2)

abbrev prepend : List ℕ → List IntType × IStreamBuf → Result (List IntType × IStreamBuf)
prepend bytes (cs, b) = ok (chars bytes ++ cs, b)

prepend_nil : (m : Result (List IntType × IStreamBuf)) → m ≡ (m >>= prepend [])
prepend_nil (ok r) = refl
prepend_nil (stop e) = refl

prepend_cons :
    (c : ℕ) (bytes : List ℕ) (m : Result (List IntType × IStreamBuf))
    → ((m >>= prepend bytes) >>= λ (cs, b). ok (pos c ∷ cs, b)) ≡ (m >>= prepend (c ∷ bytes))
prepend_cons c bytes (ok r) = refl
prepend_cons c bytes (stop e) = refl

read_bytes_area :
    (area : List ℕ) (n : ℕ) (queue : List (List ℕ))
    → read_bytes (length area + n) (opened queue area)
      ≡ (read_bytes n (opened queue []) >>= prepend area)
unfolding read_bytes sbumpc
read_bytes_area [] n queue = rw add.zero (prepend_nil _)
read_bytes_area (c ∷ area) n queue = rw add.suc (
    ap (λ m. m >>= λ (cs, b). ok (pos c ∷ cs, b)) (read_bytes_area area n queue)
    ∙ prepend_cons c area _)

-- The packet is not empty, and does not begin with 0xFF, which as a signed char is -1, the value
-- that stands for the end.
abbrev pub IsPlain : List ℕ → Type 0
IsPlain [] = ⊥
IsPlain (c ∷ cs) = c < 255

from_char_plain : (c : ℕ) → c < 255 → is_eof (from_char c) ≡ false
from_char_plain c h = ground arith

read_bytes_packet :
    (c : ℕ) (cs : List ℕ) (n : ℕ) (queue : List (List ℕ))
    → c < 255
    → read_bytes (suc n) (opened ((c ∷ cs) ∷ queue) [])
      ≡ (read_bytes n (opened queue cs) >>= λ (xs, b). ok (pos c ∷ xs, b))
unfolding read_bytes sbumpc underflow
read_bytes_packet c cs n queue h = rw (from_char_plain c h)

-- The readers of an open stream receive the bytes of its packets, in order, where no packet is empty
-- or begins with 0xFF. (No code opens a stream: `get_nothing`.)
pub read_bytes-opened :
    (packets queue : List (List ℕ))
    → All IsPlain packets
    → read_bytes (length (concat packets)) (opened (packets ++ queue) [])
      ≡ ok (chars (concat packets), opened queue [])
read_bytes-opened [] queue h = unfold read_bytes in refl
read_bytes-opened ([] ∷ packets) queue (h, hs) = absurd h
read_bytes-opened ((c ∷ cs) ∷ packets) queue (h, hs) =
    read_bytes_packet c cs (length (cs ++ concat packets)) (packets ++ queue) h
    ∙ rw (
      length-append cs (concat packets),
      read_bytes_area,
      read_bytes-opened packets queue hs,
      chars-append,
    )

-- Where a packet begins with 0xFF the reader of an open stream is told that the stream has ended,
-- with the whole packet still unread.
pub sbumpc_ff :
    (cs : List ℕ) (queue : List (List ℕ))
    → sbumpc (opened ((255 ∷ cs) ∷ queue) []) ≡ ok (eof, opened queue (255 ∷ cs))
unfolding sbumpc underflow
sbumpc_ff cs queue = refl
