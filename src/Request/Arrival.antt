-- ===== src/Request/Arrival.antt =====
-- What the web server sends for the parameters of a request: packets that hold whole pairs.
use tfcgi.Prelude.{ℕ, ◌<◌, ◌≡◌, List, [], ◌∷◌, ◌++◌, length, All, concat}
use tfcgi.Protocol
use tfcgi.Protocol.{Header}
use tfcgi.Socket.{ReadResult}
use tfcgi.Socket.Recv.{gots, IsChunks}
use tfcgi.Nvp.Deserializer.WholePairs.{Pair, IsSmall, serialize_all}

-- A packet of parameters as it comes: its header, the pairs in it, and the chunks in which its
-- content and its padding are read.
pub record Arrival : Type 0 where
  pub header : Header
  pub first : Pair
  pub more : List Pair
  pub content : List (List ℕ)
  pub padding : List (List ℕ)

abbrev pub pairs : Arrival → List Pair
pairs a = a.first ∷ a.more

-- It holds whole pairs as `serialize` writes them, each with lengths of one byte and within the
-- limit, and the socket gives the bytes that the header announces.
pub record IsArrival (most : ℕ) (a : Arrival) : Type 0 where
  pub type : a.header.type ≡ Protocol.params
  pub size : 0 < a.header.content_length
  pub small : All (IsSmall most) (pairs a)
  pub content_chunks : IsChunks a.content
  pub padding_chunks : IsChunks a.padding
  pub content_length : length (concat a.content) ≡ a.header.content_length
  pub padding_length : length (concat a.padding) ≡ a.header.padding_length
  pub bytes : concat a.content ≡ serialize_all (pairs a)

-- The headers and the pairs of some packets, and what the socket answers before `left`.
abbrev pub headers : List Arrival → List Header
headers [] = []
headers (a ∷ arrivals) = a.header ∷ headers arrivals

abbrev pub all_pairs : List Arrival → List Pair
all_pairs [] = []
all_pairs (a ∷ arrivals) = pairs a ++ all_pairs arrivals

abbrev pub arrive : List Arrival → List ReadResult → List ReadResult
arrive [] left = left
arrive (a ∷ arrivals) left = gots a.content ++ (gots a.padding ++ arrive arrivals left)
