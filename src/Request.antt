-- ===== src/Request.antt =====
-- A request: `fcgi::Request` of include/fcgi/request.hpp and src/request.cpp, built with
-- FCGI_RESPONDER alone. What a handler changes outside the request is `Shared`: the parts of its
-- connection, and the queue of the workers (src/request-workers.cpp) that `push_request` adds to.
pub mod Tests
pub mod Headers
pub mod Lifecycle
pub mod EndRecord
pub mod Queue
pub mod Follows
pub mod Arrival
pub mod Beginning
pub mod Parameters
pub mod Runs
use mathlib.Core.List.{foldl}
use tfcgi.Prelude.{
  ℕ, ◌+◌, ◌-◌, ◌%◌, ◌^◌, Bool, true, false, List, [], ◌∷◌, ◌++◌, Option, none, some, length,
  replicate, ◌==◌, if◌then◌else◌, Result, ok, stop, Stop, blocked, out_of_bounds, ◌>>=◌,
}
use tfcgi.Protocol
use tfcgi.Protocol.{
  Header, BeginRequestBody, EndRequestBody, header_bytes, end_request_bytes, unknown_type_bytes,
  begin_request_of, swap16, swap32, bytes16,
}
use tfcgi.Socket.{Socket}
use tfcgi.Packet.{packet_recv_all, sink_to_vector}
use tfcgi.Nvp.Deserializer.{
  Deserializer, new_deserializer, feed_bytes, Parsed, looping, returned, raised, failed,
  out_of_fuel,
}
use tfcgi.Nvp.Maps.{Map, to_map_new_key}
use tfcgi.OStream
use tfcgi.OStream.{OStream, Wire, new_ostream}
use tfcgi.IStream
use tfcgi.IStream.{IStream, new_istream}

-- `enum State`
pub data State : Type 0 where
  ready reading_params pending app_running : State

pub record Request : Type 0 where
  pub state : State
  pub begin_request : BeginRequestBody
  pub params_deserializer : Option Deserializer
  pub request_id : ℕ
  pub params : Map
  pub cin : IStream
  pub cdata : IStream
  pub cout : OStream
  pub cerr : OStream

-- `Connection::request_actives` and `worker::workers_backlog` are unsigned ints.
pub record Shared : Type 0 where
  pub socket : Socket
  pub wire : Wire
  pub request_actives : ℕ
  pub queue : List ℕ
  pub backlog : ℕ

abbrev pub increment : ℕ → ℕ
increment n = (n + 1) % 2 ^ 32

abbrev pub decrement : ℕ → ℕ
decrement n = (n + 2 ^ 32 - 1) % 2 ^ 32

-- The constructor; `begin_request` is not initialised.
abbrev pub new_request : BeginRequestBody → ℕ → Request
new_request memory request_id = record {
  state = ready;
  begin_request = memory;
  params_deserializer = none;
  request_id = request_id;
  params = [];
  cin = new_istream;
  cdata = new_istream;
  cout = new_ostream request_id Protocol.stdout;
  cerr = new_ostream request_id Protocol.stderr;
}

-- `send_packet<T>(type, requestId, args...)`, with the bytes of the body.
pub send_struct : ℕ → ℕ → List ℕ → Wire → Wire
send_struct type request_id body wire = wire ++ ((header_bytes header ++ body) ∷ [])
  where
    header : Header
    header = record {
      version = 1;
      type = type;
      request_id = swap16 request_id;
      content_length = swap16 (length body);
      padding_length = 0;
      reserved = 0;
    }

-- The two `send_packet` calls of `handle_packet`.
pub send_end_request : ℕ → EndRequestBody → Wire → Wire
unfolding send_struct end_request_bytes
send_end_request request_id body wire =
    send_struct Protocol.end_request request_id (end_request_bytes body) wire

pub send_unknown_type : ℕ → ℕ → Wire → Wire
unfolding send_struct unknown_type_bytes
send_unknown_type request_id type wire =
    send_struct Protocol.unknown_type request_id (unknown_type_bytes type) wire

-- `worker::push_request`
unfoldable pub push_request : Request → Shared → Shared
push_request r sh = record sh {
  queue = sh.queue ++ (r.request_id ∷ []);
  backlog = increment sh.backlog;
}

-- The streams that the role of an accepted request opens.
pub open_inputs : ℕ → Request → Request
open_inputs role r =
    if role == Protocol.responder
    then record r { cin = IStream.reset r.cin; cdata = IStream.detach r.cdata }
    else record r { cin = IStream.reset r.cin; cdata = IStream.reset r.cdata }

abbrev raise_eof : OStream → OStream
raise_eof os = record os { internal = record os.internal { send_eof = true } }

-- The rest of `case BEGIN_REQUEST` on the request itself, once the body has been read. The
-- memory of the new deserializer is not initialised.
pub accept : List ℕ → List ℕ → BeginRequestBody → Request → Request
unfolding open_inputs
accept name_memory value_memory wire_body r0 =
    let body = record wire_body { role = swap16 wire_body.role } in
    let r = open_inputs body.role (record r0 { begin_request = body }) in
    record r {
      cout = raise_eof (OStream.reset r.cout);
      cerr = raise_eof (OStream.reset r.cerr);
      params = [];
      params_deserializer = some (new_deserializer name_memory value_memory);
      state = reading_params;
    }

-- The parameters are `nvp_max_pair_size`, the memory that a new deserializer is made in, and the
-- text of the message for a pair that is too long.
module _ (limit : ℕ) (name_memory value_memory : List ℕ) (message : Deserializer → List ℕ) where
  -- The handler of `pair_size_error`.
  pub cancel : Deserializer → Request → Shared → Request × Shared
  unfolding send_end_request
  cancel d r sh =
      let (cerr1, wire1) = OStream.write (message d) r.cerr sh.wire in
      let (cerr2, wire2) = OStream.close cerr1 wire1 in
      let (cout1, wire3) = OStream.close r.cout wire2 in
      let body : EndRequestBody = record {
        app_status = swap32 0x9020816E;
        protocol_status = Protocol.request_complete;
      } in
      (
        record r { cerr = cerr2; cout = cout1; params_deserializer = none; state = ready },
        record sh {
          wire = send_end_request r.request_id body wire3;
          request_actives = decrement sh.request_actives;
        },
      )

  -- What follows `feed`. Its end is a `return`, the exception or a fault; the two other values of
  -- `Parsed` stand for no behaviour of the code, and stop here.
  abbrev pub after_feed :
      Header → Request → Shared → Parsed Map → Result (Header × Request × Shared)
  after_feed h r sh (looping d datas m) = stop blocked
  after_feed h r sh (returned false d m) =
      ok (h, record r { params_deserializer = some d; params = m }, sh)
  after_feed h r sh (returned true d m) =
      let r' = record r { params_deserializer = none; params = m; state = pending } in
      ok (h, r', push_request r' sh)
  after_feed h r sh (raised d m) =
      let (r', sh') = cancel d (record r { params = m }) sh in ok (h, r', sh')
  after_feed h r sh (failed e) = stop e
  after_feed h r sh out_of_fuel = stop blocked

  -- `case PARAMS`
  pub handle_params :
      Option Deserializer → Header → Request → Shared → Result (Header × Request × Shared)
  unfolding cancel push_request
  handle_params none h r sh = ok (h, r, sh)
  handle_params (some d) h r sh = do
    (content, h', socket) ← sink_to_vector h sh.socket
    after_feed h' r (record sh { socket = socket })
        (feed_bytes to_map_new_key limit d content r.params)

  -- `case BEGIN_REQUEST`. The body has 8 bytes; what the memory held before is overwritten.
  -- (Where `recv_all` fails, zeros stand for it: the loop of the connection ends behind it, and
  -- nobody reads the body.)
  pub handle_begin : State → Header → Request → Shared → Result (Header × Request × Shared)
  unfolding accept
  handle_begin ready h r sh = do
    (body, h', socket) ← packet_recv_all (replicate 8 0) h sh.socket
    let r' = accept name_memory value_memory (begin_request_of body) r
    ok (h', r', record sh { socket = socket; request_actives = increment sh.request_actives })
  handle_begin _ h r sh = ok (h, r, sh)

  -- `case STDIN` and `case DATA`
  pub handle_stdin : State → Header → Request → Shared → Result (Header × Request × Shared)
  handle_stdin ready h r sh = ok (h, r, sh)
  handle_stdin _ h r sh = do
    (content, h', socket) ← sink_to_vector h sh.socket
    ok (h', record r { cin = IStream.feed content r.cin }, record sh { socket = socket })

  pub handle_data : State → Header → Request → Shared → Result (Header × Request × Shared)
  handle_data ready h r sh = ok (h, r, sh)
  handle_data _ h r sh = do
    (content, h', socket) ← sink_to_vector h sh.socket
    ok (h', record r { cdata = IStream.feed content r.cdata }, record sh { socket = socket })

  -- `handle_packet`. The header that it returns is what is left of the packet, which the caller
  -- destroys (where the source destroys it earlier nothing is left of it).
  pub handle_packet : Header → Request → Shared → Result (Header × Request × Shared)
  unfolding handle_params handle_begin handle_stdin handle_data
  handle_packet h r sh =
      if h.type == Protocol.begin_request
      then handle_begin r.state h r sh
      else if h.type == Protocol.abort_request
      then ok (h, r, sh)
      else if h.type == Protocol.params
      then handle_params r.params_deserializer h r sh
      else if h.type == Protocol.stdin
      then handle_stdin r.state h r sh
      else if h.type == Protocol.data_stream
      then handle_data r.state h r sh
      else if h.type == Protocol.get_values
      then ok (h, r, sh)
      else ok (h, r, record sh { wire = send_unknown_type r.request_id h.type sh.wire })
