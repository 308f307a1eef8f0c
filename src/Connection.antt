-- ===== src/Connection.antt =====
-- A connection: `fcgi::Connection` of src/connection.hpp and src/connection.cpp, with the thread that
-- reads its packets. `Shared` is the part of it that the requests use; the rest is here.
pub mod Loop
pub mod Incoming
pub mod Table
pub mod Effects
pub mod Queue
pub mod Rounds
pub mod Packets
pub mod Teardown
pub mod Tests
use tfcgi.Prelude.{
  ℕ, zero, suc, ◌-◌, Bool, true, false, List, [], ◌∷◌, ◌++◌, Option, none, some, length, get_or,
  set, replicate, ltb, ◌==◌, if◌then◌else◌, Result, ok, stop, Stop, blocked, thrown,
  pair_size_error, ◌>>=◌,
}
use tfcgi.Protocol
use tfcgi.Protocol.{Header, BeginRequestBody}
use tfcgi.Socket.{Socket}
use tfcgi.Packet.{read_packet, sink_to_vector, destroy}
use tfcgi.Nvp.Deserializer.{
  Deserializer, new_deserializer, feed_bytes, Parsed, looping, returned, raised, failed,
  out_of_fuel,
}
use tfcgi.Nvp.Maps.{get_values_new_key}
use tfcgi.OStream
use tfcgi.OStream.{OStream, Wire, new_ostream, destroy_buf}
use tfcgi.Request.{
  State, ready, reading_params, pending, app_running, Request, Shared, new_request, decrement,
  send_unknown_type, handle_packet,
}

-- The constants of the host and of the build, and what uninitialised memory holds: a
-- `Deserializer`'s two lengths, a header, a begin_request.
pub record Host : Type 0 where
  pub limit : ℕ
  pub hardware_concurrency : ℕ
  pub to_string : ℕ → List ℕ
  pub message : Deserializer → List ℕ
  pub name_memory : List ℕ
  pub value_memory : List ℕ
  pub header_memory : Header
  pub begin_memory : BeginRequestBody

-- `requests` holds null pointers where no request was allocated.
pub record Connection : Type 0 where
  pub requests : List (Option Request)
  pub get_value_handler : Deserializer
  pub get_value_result_stream : OStream
  pub shared : Shared

-- `connection.requests.resize(requestId)`, where the table is too short.
abbrev pub grow : ℕ → List (Option Request) → List (Option Request)
grow request_id table =
    if ltb (length table) request_id
    then table ++ replicate (request_id - length table) none
    else table

-- The entry `connection.requests[requestId - 1]`.
abbrev pub entry : ℕ → List (Option Request) → Option Request
entry request_id table = get_or table (request_id - 1) none

abbrev pub with_socket : Socket → Connection → Connection
with_socket s c = record c { shared = record c.shared { socket = s } }

abbrev pub with_stream : OStream → Wire → Connection → Connection
with_stream os wire c = record c {
  get_value_result_stream = os;
  shared = record c.shared { wire = wire };
}

-- The destructor of a request: its streams go, in the reverse order of their declaration.
pub destroy_request : Request → Wire → Wire
destroy_request r wire = destroy_buf r.cout.internal (destroy_buf r.cerr.internal wire)

-- The `switch` of "Destroy much packet as possible", on one entry of the table.
pub discard_by : State → Request → Shared → Option Request × Shared
unfolding destroy_request
discard_by reading_params r sh = (
  none,
  record sh { request_actives = decrement sh.request_actives; wire = destroy_request r sh.wire },
)
discard_by ready r sh = (none, record sh { wire = destroy_request r sh.wire })
discard_by pending r sh = (some r, sh)
discard_by app_running r sh = (some r, sh)

abbrev discard : Option Request → Shared → Option Request × Shared
discard none sh = (none, sh)
discard (some r) sh = discard_by r.state r sh

-- The loop over the table.
pub discard_all : List (Option Request) → Shared → List (Option Request) × Shared
unfolding discard_by
discard_all [] sh = ([], sh)
discard_all (o ∷ table) sh =
    let (o', sh1) = discard o sh in let (table', sh2) = discard_all table sh1 in (o' ∷ table', sh2)

pub teardown : Connection → Connection
unfolding discard_all
teardown c =
    let (table, sh) = discard_all c.requests c.shared in record c { requests = table; shared = sh }

-- `requests.clear()`
pub clear_requests : List (Option Request) → Wire → Wire
unfolding destroy_request
clear_requests [] wire = wire
clear_requests (none ∷ table) wire = clear_requests table wire
clear_requests (some r ∷ table) wire = clear_requests table (destroy_request r wire)

-- The destructor, up to `close(fd)`: what has gone out.
pub destroy_connection : Connection → Wire
unfolding clear_requests
destroy_connection c =
    (OStream.close c.get_value_result_stream (clear_requests c.requests c.shared.wire)).1

module _ (host : Host) where
  open host use {
    limit, hardware_concurrency, to_string, message, name_memory, value_memory, header_memory,
    begin_memory,
  }

  -- The constructor, on a socket that was just accepted. The wire, the queue of the workers and
  -- their backlog are what they are.
  abbrev pub new_connection : Socket → Shared → Connection
  new_connection socket sh = record {
    requests = [];
    get_value_handler = new_deserializer name_memory value_memory;
    get_value_result_stream = new_ostream 0 Protocol.get_values_result;
    shared = record sh { socket = record socket { socket_insane = true }; request_actives = 0 };
  }

  -- "Allocate the request if it not already"
  abbrev pub allocated : ℕ → Option Request → Request
  allocated request_id none = new_request begin_memory request_id
  allocated request_id (some r) = r

  -- A packet whose request id is not 0.
  pub for_request : Header → Connection → Result (Header × Connection)
  for_request h c = do
    let table = grow h.request_id c.requests
    let r = allocated h.request_id (entry h.request_id table)
    (h', r', sh) ← handle_packet limit name_memory value_memory message h r c.shared
    ok (h', record c { requests = set table (h.request_id - 1) (some r'); shared = sh })

  -- `GetValueHandler::handle_packet`, behind `feed`. Nothing catches the exception.
  abbrev pub after_get_values :
      Header → Connection → Parsed (OStream × Wire) → Result (Header × Connection)
  after_get_values h c (looping d datas out) = stop blocked
  after_get_values h c (returned false d (os, wire)) =
      ok (h, with_stream os wire (record c { get_value_handler = d }))
  after_get_values h c (returned true d (os, wire)) =
      let (os', wire') = OStream.close os wire in
      ok (h, with_stream os' wire' (record c { get_value_handler = d }))
  after_get_values h c (raised d out) = stop (thrown pair_size_error)
  after_get_values h c (failed e) = stop e
  after_get_values h c out_of_fuel = stop blocked

  pub handle_get_values : Header → Connection → Result (Header × Connection)
  handle_get_values h c = do
    (content, h', socket) ← sink_to_vector h c.shared.socket
    after_get_values h' (with_socket socket c) (
        feed_bytes (get_values_new_key hardware_concurrency to_string) limit c.get_value_handler
          content (c.get_value_result_stream, c.shared.wire))

  -- A packet whose request id is 0.
  pub for_management : Header → Connection → Result (Header × Connection)
  unfolding handle_get_values
  for_management h c =
      if h.type == Protocol.get_values
      then handle_get_values h c
      else ok (
        h,
        record c { shared = record c.shared { wire = send_unknown_type 0 h.type c.shared.wire } },
      )

  pub dispatch : Header → Connection → Result (Header × Connection)
  unfolding for_request for_management
  dispatch h c = if h.request_id == 0 then for_management h c else for_request h c

  -- "Check if something gone wrong before continuing": false means `break`. Either way the
  -- destructor of the packet runs last.
  pub after_header : Bool → Header → Connection → Result (Bool × Connection)
  unfolding dispatch
  after_header true h c = do
    (h', c') ← dispatch h c
    socket ← destroy h' c'.shared.socket
    ok (true, with_socket socket c')
  after_header false h c = do socket ← destroy h c.shared.socket; ok (false, with_socket socket c)

  -- One round of `while (connection.socket_insane)`.
  pub one_packet : Connection → Result (Bool × Connection)
  unfolding after_header
  one_packet c = do
    (h, socket) ← read_packet header_memory c.shared.socket
    after_header socket.socket_insane h (with_socket socket c)

  abbrev pub after_packet :
      (Connection → Option (Result Connection))
      → Result (Bool × Connection)
      → Option (Result Connection)
  after_packet rounds (ok (true, c)) = rounds c
  after_packet rounds (ok (false, c)) = some (ok c)
  after_packet rounds (stop e) = some (stop e)

  -- The loop. `none` means that the bound on its rounds was too small.
  pub read_loop : ℕ → Connection → Option (Result Connection)
  unfolding one_packet
  read_loop zero c = none
  read_loop (suc fuel) c =
      if c.shared.socket.socket_insane
      then after_packet (read_loop fuel) (one_packet c)
      else some (ok c)
