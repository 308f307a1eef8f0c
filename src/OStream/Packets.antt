-- ===== src/OStream/Packets.antt =====
-- The packets that a stream sends, against the records of the FastCGI specification.
use tfcgi.Prelude.{
  ℕ, ◌+◌, ◌/◌, ◌%◌, ◌^◌, ◌<◌, ◌≡◌, refl, ap, ◌∙◌, List, [], ◌∷◌, ◌++◌, length, take, length-append,
  take_self, arith,
}
use tfcgi.Protocol.{Header, header_bytes, swap16}
use tfcgi.Protocol.Swap.{length-header_bytes}
use tfcgi.OStream.{packet_bytes, sizeof_pointer, new_ostreambuf}

-- A record of the specification (section 3.3), its numbers highest byte first, with no padding.
abbrev pub record_bytes : ℕ → ℕ → List ℕ → List ℕ
record_bytes type request_id content =
    1
    ∷ type
    ∷ request_id / 256
    ∷ request_id % 256
    ∷ length content / 256
    ∷ length content % 256
    ∷ 0
    ∷ 0
    ∷ content

-- The fields of a header that a stream buffer sets once.
pub record Stamped (type request_id : ℕ) (h : Header) : Type 0 where
  pub at_version : h.version ≡ 1
  pub at_type : h.type ≡ type
  pub at_id : h.request_id ≡ swap16 request_id
  pub no_padding : h.padding_length ≡ 0
  pub no_reserved : h.reserved ≡ 0

take_all : (xs ys : List ℕ) (n : ℕ) → n ≡ length xs + length ys → take n (xs ++ ys) ≡ xs ++ ys
take_all xs ys n e =
    rw (let l : n ≡ length (xs ++ ys) = omega (arith, length-append xs ys) in l)
      (take_self (xs ++ ys))

pub header_bytes-Stamped :
    (type request_id : ℕ) (h : Header) (content : List ℕ)
    → request_id < 2 ^ 16
    → length content < 2 ^ 16
    → Stamped type request_id h
    → header_bytes (record h { content_length = swap16 (length content) }) ++ content
      ≡ record_bytes type request_id content
unfolding header_bytes
header_bytes-Stamped type request_id h content small len st = ground arith

-- `send_packet(Header*, uint16_t)` sends the whole packet, and it is the record of the
-- specification with the type, the request id and the content of the stream.
pub packet_bytes-record_bytes :
    (type request_id : ℕ) (h : Header) (content : List ℕ)
    → request_id < 2 ^ 16
    → length content < 2 ^ 16
    → Stamped type request_id h
    → packet_bytes h content ≡ record_bytes type request_id content
unfolding packet_bytes
packet_bytes-record_bytes type request_id h content small len st =
    take_all (header_bytes (record h { content_length = swap16 (length content) })) content
      (sizeof_pointer + length content)
      (omega (arith, length-header_bytes (record h { content_length = swap16 (length content) })))
    ∙ header_bytes-Stamped type request_id h content small len st

pub new_ostreambuf-Stamped :
    (type request_id : ℕ) → Stamped type request_id (new_ostreambuf request_id type).header
new_ostreambuf-Stamped type request_id = record {
  at_version = refl;
  at_type = refl;
  at_id = refl;
  no_padding = refl;
  no_reserved = refl;
}

-- The records of a stream that carry these contents.
abbrev pub records : ℕ → ℕ → List (List ℕ) → List (List ℕ)
records type request_id [] = []
records type request_id (c ∷ cs) = record_bytes type request_id c ∷ records type request_id cs

pub records-append :
    (type request_id : ℕ) (cs ds : List (List ℕ))
    → records type request_id (cs ++ ds) ≡ records type request_id cs ++ records type request_id ds
records-append type request_id [] ds = refl
records-append type request_id (c ∷ cs) ds =
    ap (◌∷◌ (record_bytes type request_id c)) (records-append type request_id cs ds)
