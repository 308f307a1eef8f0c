-- ===== src/Request/Parameters/Tests.antt =====
-- The parameters of a request, on two packets.
use tfcgi.Prelude.{ℕ, ◌≡◌, refl, true, List, [], ◌∷◌, ◌++◌, none, some, ok, arith}
use tfcgi.Protocol
use tfcgi.Protocol.{Header, BeginRequestBody, begin_request_of}
use tfcgi.Nvp.Deserializer.{Deserializer, new_deserializer, nvp_max_pair_size}
use tfcgi.Nvp.Deserializer.WholePairs.{Pair, serialize_all}
use tfcgi.Nvp.Serializer.Sizes.{serialize_short}
use tfcgi.Nvp.Maps.Lookup.{map_get, last_value}
use tfcgi.Request.{reading_params, pending, Request, push_request}
use tfcgi.Request.Arrival.{Arrival, IsArrival, headers, arrive}
use tfcgi.Request.Runs.{run_packets}
use tfcgi.Request.Parameters.{params_delivered}
use tfcgi.Request.Tests.{packet, fresh, no_message, sharing}

-- "A" is "xy", in one packet of parameters.
abbrev pub a_xy : Pair
a_xy = (65 ∷ [], 120 ∷ 121 ∷ [])

abbrev pair_bytes : List ℕ
pair_bytes = 1 ∷ 2 ∷ 65 ∷ 120 ∷ 121 ∷ []

pair_bytes_lem : pair_bytes ≡ serialize_all (a_xy ∷ [])
pair_bytes_lem = rw (serialize_short (65 ∷ []) (120 ∷ 121 ∷ []) (omega arith) (omega arith)) refl

abbrev new : Deserializer
new = new_deserializer [] []

abbrev reading : Request
reading = record fresh { state = reading_params; params_deserializer = some new }

-- The packet, and another that comes in two pieces with padding: "A" is "z", and "A" is "xy".
abbrev pub arrival : Arrival
arrival = record {
  header = packet Protocol.params 5;
  first = a_xy;
  more = [];
  content = pair_bytes ∷ [];
  padding = [];
}

abbrev a_z : Pair
a_z = (65 ∷ [], 122 ∷ [])

abbrev arrival_in_pieces : Arrival
arrival_in_pieces = record {
  header = record (packet Protocol.params 9) { padding_length = 3 };
  first = a_z;
  more = a_xy ∷ [];
  content = (1 ∷ 1 ∷ 65 ∷ []) ∷ (122 ∷ 1 ∷ 2 ∷ 65 ∷ 120 ∷ 121 ∷ []) ∷ [];
  padding = (0 ∷ 0 ∷ 0 ∷ []) ∷ [];
}

pub arrival-IsArrival : IsArrival nvp_max_pair_size arrival
arrival-IsArrival = record {
  type = refl;
  size = omega arith;
  small = ((omega arith, omega arith, omega arith), tt);
  content_chunks = (omega arith, tt);
  padding_chunks = tt;
  content_length = refl;
  padding_length = refl;
  bytes = pair_bytes_lem;
}

arrival_in_pieces-IsArrival : IsArrival nvp_max_pair_size arrival_in_pieces
arrival_in_pieces-IsArrival = record {
  type = refl;
  size = omega arith;
  small = ((omega arith, omega arith, omega arith), ((omega arith, omega arith, omega arith), tt));
  content_chunks = (omega arith, (omega arith, tt));
  padding_chunks = (omega arith, tt);
  content_length = refl;
  padding_length = refl;
  bytes =
      rw
        (
          serialize_short (65 ∷ []) (122 ∷ []) (omega arith) (omega arith),
          serialize_short (65 ∷ []) (120 ∷ 121 ∷ []) (omega arith) (omega arith),
        )
        refl;
}

params_read :
    (r' : Request) × (run_packets nvp_max_pair_size [] [] no_message
        (headers (arrival ∷ arrival_in_pieces ∷ []) ++ (packet Protocol.params 0 ∷ []))
        reading
        (sharing (arrive (arrival ∷ arrival_in_pieces ∷ []) []) 1)
      ≡ ok (r', push_request reading (sharing [] 1)))
    × (r'.state ≡ pending)
    × (r'.params_deserializer ≡ none)
    × ((key : List ℕ)
        → map_get key r'.params
          ≡ last_value key (a_xy ∷ a_z ∷ a_xy ∷ []) (map_get key reading.params))
params_read =
    params_delivered nvp_max_pair_size [] [] no_message (arrival ∷ arrival_in_pieces ∷ []) new
      (packet Protocol.params 0) reading (sharing (arrive (arrival ∷ arrival_in_pieces ∷ []) []) 1)
      [] true refl (record { idle = refl; at_new = refl })
      (arrival-IsArrival, (arrival_in_pieces-IsArrival, tt)) refl refl refl
