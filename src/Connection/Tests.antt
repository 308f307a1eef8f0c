-- ===== src/Connection/Tests.antt =====
-- The theorems on the thread of a connection, on a connection with one request.
use tfcgi.Prelude.{
  ℕ, ◌≡◌, refl, ◌∙◌, true, false, List, [], ◌∷◌, ◌++◌, Option, none, some, Result, ok, arith,
  concat,
}
use tfcgi.Protocol
use tfcgi.Protocol.{Header, header_bytes, swap16, unknown_type_bytes}
use tfcgi.Protocol.Swap.{IsHeader}
use tfcgi.Socket.{ReadResult, got}
use tfcgi.Socket.Recv.{gots}
use tfcgi.Packet.Framing.{at, empty_packet_keeps_padding}
use tfcgi.Nvp.Deserializer.{nvp_max_pair_size}
use tfcgi.OStream.Packets.{record_bytes}
use tfcgi.Request.{Request, Shared, new_request, push_request}
use tfcgi.Request.Tests.{
  packet, memory, begin_body, no_message, sharing, begun, waiting_request, begun_reading,
  abort_handled, begin_handled, end_handled,
}
use tfcgi.Connection.{
  Host, Connection, entry, teardown, new_connection, dispatch, for_request, one_packet, read_loop,
  with_socket,
}
use tfcgi.Connection.Table.{IsTable}
use tfcgi.Connection.Effects.{dispatch_isolated}
use tfcgi.Connection.Loop.{read_loop_ends}
use tfcgi.Connection.Packets.{one_packet-dispatch, one_packet_eof, unknown_type_swaps_id}

abbrev pub zero_header : Header
zero_header = record {
  version = 0;
  type = 0;
  request_id = 0;
  content_length = 0;
  padding_length = 0;
  reserved = 0;
}

pub zero_header-IsHeader : IsHeader zero_header
zero_header-IsHeader = record {
  version_byte = omega arith;
  type_byte = omega arith;
  request_id_word = omega arith;
  content_length_word = omega arith;
  padding_length_byte = omega arith;
  reserved_byte = omega arith;
}

abbrev pub host : Host
host = record {
  limit = nvp_max_pair_size;
  hardware_concurrency = 1;
  to_string = λ n. [];
  message = no_message;
  name_memory = [];
  value_memory = [];
  header_memory = zero_header;
  begin_memory = memory;
}

-- BEGIN_REQUEST for a responder, the end of the parameters, and the end of the input. The id has the
-- bytes 1 and 0 on the wire, which are 1 in memory.
abbrev begin_header : List ℕ
begin_header = 1 ∷ 1 ∷ 1 ∷ 0 ∷ 0 ∷ 8 ∷ 0 ∷ 0 ∷ []

abbrev params_header : List ℕ
params_header = 1 ∷ 4 ∷ 1 ∷ 0 ∷ 0 ∷ 0 ∷ 0 ∷ 0 ∷ []

abbrev pub end_of_input : List ReadResult
end_of_input = got [] ∷ []

abbrev pub params_reads : List ReadResult
params_reads = gots (params_header ∷ []) ++ end_of_input

abbrev pub whole_input : List ReadResult
whole_input = gots (begin_header ∷ []) ++ (gots (begin_body ∷ []) ++ (gots [] ++ params_reads))

abbrev pub with_requests : List (Option Request) → Shared → Connection
with_requests table sh = record (new_connection host sh.socket sh) { requests = table; shared = sh }

abbrev pub opened : Connection
opened = with_requests [] (sharing whole_input 0)

abbrev pub beginning : Connection
beginning = with_requests (some begun ∷ []) (sharing params_reads 1)

abbrev pub queued : Connection
queued = with_requests (some waiting_request ∷ []) (push_request begun (sharing end_of_input 1))

begin_on_wire-IsHeader : IsHeader (packet Protocol.begin_request 2048)
begin_on_wire-IsHeader = record {
  version_byte = omega arith;
  type_byte = omega arith;
  request_id_word = omega arith;
  content_length_word = omega arith;
  padding_length_byte = omega arith;
  reserved_byte = omega arith;
}

params_on_wire-IsHeader : IsHeader (packet Protocol.params 0)
params_on_wire-IsHeader = record {
  version_byte = omega arith;
  type_byte = omega arith;
  request_id_word = omega arith;
  content_length_word = omega arith;
  padding_length_byte = omega arith;
  reserved_byte = omega arith;
}

begin_header_lem : concat (begin_header ∷ []) ≡ header_bytes (packet Protocol.begin_request 2048)
unfolding header_bytes
begin_header_lem = refl

params_header_lem : concat (params_header ∷ []) ≡ header_bytes (packet Protocol.params 0)
unfolding header_bytes
params_header_lem = refl

pub begin_round : one_packet host opened ≡ ok (true, beginning)
unfolding dispatch for_request
begin_round =
    one_packet-dispatch host (packet Protocol.begin_request 2048) (begin_header ∷ [])
      (gots (begin_body ∷ []) ++ (gots [] ++ params_reads)) opened begin_on_wire-IsHeader
      (omega arith, tt) begin_header_lem refl
    ∙ rw
        (
          begin_handled params_reads,
          (empty_packet_keeps_padding (packet Protocol.begin_request 0) (at true params_reads)
              refl).1,
        )
        refl

pub params_round : one_packet host beginning ≡ ok (true, queued)
unfolding dispatch for_request push_request
params_round =
    one_packet-dispatch host (packet Protocol.params 0) (params_header ∷ []) end_of_input beginning
      params_on_wire-IsHeader (omega arith, tt) params_header_lem refl
    ∙ rw
        (
          end_handled end_of_input,
          (empty_packet_keeps_padding (packet Protocol.params 0) (at true end_of_input) refl).1,
        )
        refl

pub eof_round : one_packet host queued ≡ ok (false, with_socket (at false []) queued)
unfolding push_request
eof_round = one_packet_eof host [] queued zero_header-IsHeader refl

read_loop_ends_example : (m : Result Connection) × (read_loop host 5 opened ≡ some m)
read_loop_ends_example = read_loop_ends host 5 opened (omega arith)

-- A request that reads its parameters beside the pending one.
abbrev both : Connection
both = with_requests (some waiting_request ∷ none ∷ some begun ∷ []) (sharing [] 2)

-- ABORT_REQUEST for the request 2, which is not in the table yet.
abbrev abort_2 : Header
abort_2 = record (packet Protocol.abort_request 0) { request_id = 2 }

abbrev grown : Connection
grown = with_requests (some begun ∷ some (new_request memory 2) ∷ []) (sharing params_reads 1)

abort_dispatched : dispatch host abort_2 beginning ≡ ok (abort_2, grown)
unfolding dispatch for_request
abort_dispatched =
    rw (abort_handled abort_2 (new_request memory 2) (sharing params_reads 1) refl) refl

dispatch_isolated_example :
    (entry 1 grown.requests ≡ entry 1 beginning.requests) × IsTable grown.requests
dispatch_isolated_example =
    dispatch_isolated host abort_2 abort_2 beginning grown 1
      ((begun_reading.2, begun_reading.1), tt) (omega arith) (omega arith) abort_dispatched

-- The request 5 on the wire, in two chunks.
abbrev unknown_chunks : List (List ℕ)
unknown_chunks = (1 ∷ 12 ∷ 0 ∷ []) ∷ (5 ∷ 0 ∷ 0 ∷ 0 ∷ 0 ∷ []) ∷ []

abbrev reached : Connection
reached = with_requests [] (sharing (gots unknown_chunks ++ []) 0)

unknown_type_swaps_id_example :
    (c' : Connection) × (r : Request) × (one_packet host reached ≡ ok (true, c'))
    × (entry (swap16 5) c'.requests ≡ some r)
    × (c'.shared.wire
        ≡ reached.shared.wire
          ++ (record_bytes Protocol.unknown_type (swap16 5) (unknown_type_bytes 12) ∷ []))
unknown_type_swaps_id_example =
    unknown_type_swaps_id host 12 5 unknown_chunks [] reached (omega arith) (omega arith)
      (omega arith) (omega arith) (omega arith, (omega arith, tt)) refl refl tt

-- The teardown leaves the pending request where it is.
pub queued_teardown : teardown (with_socket (at false []) queued) ≡ with_socket (at false []) queued
unfolding teardown
queued_teardown = refl

-- The same where the request was taken from the queue of the connection.
abbrev pub emptied : Connection
emptied =
    with_requests (some waiting_request ∷ []) (record (sharing end_of_input 1) { backlog = 1 })

pub emptied_eof_round : one_packet host emptied ≡ ok (false, with_socket (at false []) emptied)
emptied_eof_round = one_packet_eof host [] emptied zero_header-IsHeader refl

pub emptied-teardown :
    teardown (with_socket (at false []) emptied) ≡ with_socket (at false []) emptied
unfolding teardown
emptied-teardown = refl
