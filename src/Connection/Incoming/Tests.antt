-- ===== src/Connection/Incoming/Tests.antt =====
-- The theorem on a whole request, on three packets that are read in pieces.
use tfcgi.Prelude.{ℕ, ◌+◌, ◌<◌, ◌^◌, ◌≡◌, ◌≢◌, refl, suc, true, List, [], ◌∷◌, none, some, arith}
use tfcgi.Protocol
use tfcgi.Protocol.{Header, header_bytes, begin_request_of}
use tfcgi.Protocol.Swap.{IsHeader}
use tfcgi.Packet.Framing.{at}
use tfcgi.Nvp.Deserializer.{nvp_max_pair_size}
use tfcgi.Nvp.Maps.Lookup.{map_get, last_value}
use tfcgi.Request.{pending, Request, increment}
use tfcgi.Request.Tests.{packet, begin_body, sharing}
use tfcgi.Request.Parameters.Tests.{a_xy, arrival, arrival-IsArrival}
use tfcgi.Connection.{Connection, entry, read_loop}
use tfcgi.Connection.Tests.{host, with_requests, end_of_input}
use tfcgi.Connection.Incoming.Packets.{Begin, IsBegin, End, IsEnd, Framed, IsFramed, request_reads}
use tfcgi.Connection.Incoming.Delivered.{request_delivered}

packet-IsHeader :
    (type content_length : ℕ)
    → type < 256
    → content_length < 2 ^ 16
    → IsHeader (packet type content_length)
packet-IsHeader type content_length ht hc = record {
  version_byte = omega arith;
  type_byte = ht;
  request_id_word = omega arith;
  content_length_word = hc;
  padding_length_byte = omega arith;
  reserved_byte = omega arith;
}

-- The header of the first packet is read in two pieces.
abbrev pub begins : Begin
begins = record {
  header = packet Protocol.begin_request 8;
  chunks = (1 ∷ 1 ∷ 1 ∷ []) ∷ (0 ∷ 0 ∷ 8 ∷ 0 ∷ 0 ∷ []) ∷ [];
  content = begin_body ∷ [];
  padding = [];
}

abbrev pub parameters : Framed
parameters = record { chunks = (1 ∷ 4 ∷ 1 ∷ 0 ∷ 0 ∷ 5 ∷ 0 ∷ 0 ∷ []) ∷ []; arrival = arrival }

abbrev pub ends : End
ends = record {
  header = packet Protocol.params 0;
  chunks = (1 ∷ 4 ∷ 1 ∷ 0 ∷ 0 ∷ 0 ∷ 0 ∷ 0 ∷ []) ∷ [];
}

pub begins-IsBegin : IsBegin 1 begins
unfolding header_bytes
begins-IsBegin = record {
  header = packet-IsHeader Protocol.begin_request 8 (omega arith) (omega arith);
  type = refl;
  named = refl;
  size = refl;
  chunks = (omega arith, (omega arith, tt));
  content = (omega arith, tt);
  padding = tt;
  bytes = refl;
  content_length = refl;
  padding_length = refl;
}

pub parameters-IsFramed : IsFramed 1 nvp_max_pair_size parameters
unfolding header_bytes
parameters-IsFramed = record {
  header = packet-IsHeader Protocol.params 5 (omega arith) (omega arith);
  named = refl;
  chunks = (omega arith, tt);
  bytes = refl;
  arrival = arrival-IsArrival;
}

pub ends-IsEnd : IsEnd 1 ends
unfolding header_bytes
ends-IsEnd = record {
  header = packet-IsHeader Protocol.params 0 (omega arith) (omega arith);
  type = refl;
  named = refl;
  size = refl;
  chunks = (omega arith, tt);
  bytes = refl;
}

abbrev pub before : Connection
before = with_requests [] (sharing (request_reads begins (parameters ∷ []) ends end_of_input) 0)

request_delivered_example :
    (c' : Connection) × (r' : Request) × (read_loop host (suc (1 + suc 2)) before
      ≡ read_loop host 2 c')
    × (entry 1 c'.requests ≡ some r')
    × (r'.request_id ≡ 1)
    × (r'.state ≡ pending)
    × (r'.begin_request ≡ record { role = 1; flags = 0 })
    × ((key : List ℕ) → map_get key r'.params ≡ last_value key (a_xy ∷ []) none)
    × (c'.shared ≡ record before.shared {
      socket = at true end_of_input;
      request_actives = increment 0;
      queue = 1 ∷ [];
      backlog = increment 0;
    })
    × ((j : ℕ) → 0 < j → j ≢ 1 → entry j c'.requests ≡ entry j before.requests)
unfolding begin_request_of
request_delivered_example =
    request_delivered host 2 1 begins (parameters ∷ []) ends before end_of_input (omega arith) tt
      refl begins-IsBegin (parameters-IsFramed, tt) ends-IsEnd refl
