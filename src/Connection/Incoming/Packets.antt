-- ===== src/Connection/Incoming/Packets.antt =====
-- The packets of a request as they come: BEGIN_REQUEST, parameters, and the end of these.
use tfcgi.Prelude.{ℕ, ◌≡◌, List, [], ◌∷◌, ◌++◌, concat, length}
use tfcgi.Protocol
use tfcgi.Protocol.{Header, header_bytes, begin_request_of}
use tfcgi.Protocol.Swap.{IsHeader}
use tfcgi.Socket.{ReadResult}
use tfcgi.Socket.Recv.{gots, IsChunks}
use tfcgi.Nvp.Deserializer.WholePairs.{Pair}
use tfcgi.Request.Arrival.{Arrival, pairs, IsArrival}
use tfcgi.Connection.Incoming.{on_wire}

-- The first packet and the last one of a request: the header, and the chunks in which the header,
-- the content and the padding are read.
pub record Begin : Type 0 where
  pub header : Header
  pub chunks : List (List ℕ)
  pub content : List (List ℕ)
  pub padding : List (List ℕ)

pub record IsBegin (request_id : ℕ) (b : Begin) : Type 0 where
  pub header : IsHeader b.header
  pub type : b.header.type ≡ Protocol.begin_request
  pub named : b.header.request_id ≡ request_id
  pub size : b.header.content_length ≡ 8
  pub chunks : IsChunks b.chunks
  pub content : IsChunks b.content
  pub padding : IsChunks b.padding
  pub bytes : concat b.chunks ≡ header_bytes (on_wire b.header)
  pub content_length : length (concat b.content) ≡ 8
  pub padding_length : length (concat b.padding) ≡ b.header.padding_length

pub record End : Type 0 where
  pub header : Header
  pub chunks : List (List ℕ)

pub record IsEnd (request_id : ℕ) (l : End) : Type 0 where
  pub header : IsHeader l.header
  pub type : l.header.type ≡ Protocol.params
  pub named : l.header.request_id ≡ request_id
  pub size : l.header.content_length ≡ 0
  pub chunks : IsChunks l.chunks
  pub bytes : concat l.chunks ≡ header_bytes (on_wire l.header)

-- A packet of parameters with the chunks of its header.
pub record Framed : Type 0 where
  pub chunks : List (List ℕ)
  pub arrival : Arrival

pub record IsFramed (request_id most : ℕ) (f : Framed) : Type 0 where
  pub header : IsHeader f.arrival.header
  pub named : f.arrival.header.request_id ≡ request_id
  pub chunks : IsChunks f.chunks
  pub bytes : concat f.chunks ≡ header_bytes (on_wire f.arrival.header)
  pub arrival : IsArrival most f.arrival

-- The pairs of some packets, and what the socket answers before `left`.
abbrev pub framed_pairs : List Framed → List Pair
framed_pairs [] = []
framed_pairs (f ∷ fs) = pairs f.arrival ++ framed_pairs fs

abbrev pub framed_reads : List Framed → List ReadResult → List ReadResult
framed_reads [] left = left
framed_reads (f ∷ fs) left =
    gots f.chunks ++ (gots f.arrival.content ++ (gots f.arrival.padding ++ framed_reads fs left))

abbrev pub request_reads : Begin → List Framed → End → List ReadResult → List ReadResult
request_reads b fs l left =
    gots b.chunks ++ (gots b.content ++ (gots b.padding ++ framed_reads fs (gots l.chunks ++ left)))
