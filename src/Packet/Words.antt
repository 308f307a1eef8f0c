-- ===== src/Packet/Words.antt =====
-- The fields of a header that was read have the ranges of their types, since `read` stores bytes.
use tfcgi.Prelude.{
  ℕ, zero, suc, ◌^◌, ◌<◌, ◌≡◌, sym, Bool, true, List, [], ◌∷◌, ◌++◌, concat, get_or, All, Ensures,
  Ensures->>=, Ensures_map, arith,
}
use mathlib.Core.Path.{subst}
use tfcgi.Protocol.{Header, header_bytes, header_of}
use tfcgi.Socket.{Socket, ReadResult, got, read_failed, recv_all}
use tfcgi.Socket.Recv.{gots}
use tfcgi.Socket.Received.{Received, recv_all-Ensures}
use tfcgi.Socket.Follows.{Follows}
use tfcgi.Packet.{read_packet}

abbrev pub IsByte : ℕ → Type 0
IsByte b = b < 256

-- What `read` stores is bytes.
abbrev pub StoresBytes : ReadResult → Type 0
StoresBytes (got bs) = All IsByte bs
StoresBytes (read_failed e) = Unit {0}

pub All-suffix :
    (used left : List ReadResult) → All StoresBytes (used ++ left) → All StoresBytes left
All-suffix [] left h = h
All-suffix (r ∷ used) left (h, hs) = All-suffix used left hs

pub Follows-StoresBytes :
    (reads : List ReadResult) (s : Socket)
    → Follows reads s
    → All StoresBytes reads
    → All StoresBytes s.reads
Follows-StoresBytes reads s (u, e) h = All-suffix u s.reads (subst (All StoresBytes) e h)

All-IsByte-append : (xs ys : List ℕ) → All IsByte xs → All IsByte ys → All IsByte (xs ++ ys)
All-IsByte-append [] ys hx hy = hy
All-IsByte-append (x ∷ xs) ys (h, hs) hy = (h, All-IsByte-append xs ys hs hy)

gots-IsByte :
    (chunks : List (List ℕ)) (left : List ReadResult)
    → All StoresBytes (gots chunks ++ left)
    → All IsByte (concat chunks)
gots-IsByte [] left h = tt
gots-IsByte (c ∷ cs) left (h, hs) = All-IsByte-append c (concat cs) h (gots-IsByte cs left hs)

get_or-IsByte : (bs : List ℕ) (i : ℕ) → All IsByte bs → get_or bs i 0 < 256
get_or-IsByte [] i h = omega arith
get_or-IsByte (b ∷ bs) zero (h, hs) = h
get_or-IsByte (b ∷ bs) (suc i) (h, hs) = get_or-IsByte bs i hs

header_of-request_id-lt : (bs : List ℕ) → All IsByte bs → (header_of bs).request_id < 2 ^ 16
unfolding header_of
header_of-request_id-lt bs h = omega (arith, get_or-IsByte bs 2 h, get_or-IsByte bs 3 h)

Received-IsByte :
    (reads : List ReadResult) (sane : Bool) (buffer bytes : List ℕ) (t : Socket)
    → Received reads sane buffer bytes t
    → t.socket_insane ≡ true
    → All StoresBytes reads
    → All IsByte bytes
Received-IsByte reads sane buffer bytes t r up h =
    let (chunks, ic, e, b) = r.all_got up in
    subst (All IsByte) (sym b) (gots-IsByte chunks t.reads (subst (All StoresBytes) e h))

-- The request id of a packet whose header was read whole.
pub read_packet-request_id-lt :
    (memory : Header) (s : Socket)
    → All StoresBytes s.reads
    → Ensures (read_packet memory s) (λ (h, t). t.socket_insane ≡ true → h.request_id < 2 ^ 16)
unfolding read_packet
read_packet-request_id-lt memory s bytes =
    let buffer : List ℕ = header_bytes (record memory { content_length = 0 }) in
    Ensures->>= _ (recv_all buffer s) _ (
      Ensures_map (recv_all buffer s)
        (λ (bs, t) r up.
          header_of-request_id-lt bs
            (Received-IsByte s.reads s.socket_insane buffer bs t r up bytes))
        (recv_all-Ensures buffer s))
