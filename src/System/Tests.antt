-- ===== src/System/Tests.antt =====
-- The theorems on the connection and the workers, on the life of one request.
use tfcgi.Prelude.{
  tally, ℕ, ◌+◌, ◌^◌, ◌<◌, ◌≡◌, refl, ap, ◌∙◌, true, false, List, [], ◌∷◌, some, length, ok, arith,
  All,
}
use tfcgi.Socket.{Socket}
use tfcgi.Packet.Words.{StoresBytes}
use tfcgi.Packet.Framing.{at}
use tfcgi.Request.{Request, Shared, push_request}
use tfcgi.Request.Tests.{sharing, waiting_request, begun_reading}
use tfcgi.Worker.{AppOutput, AppEnd, answered, to_cout, pop_request}
use tfcgi.Worker.Backlog.{pop_request_one}
use tfcgi.Worker.Finished.{work_shared}
use tfcgi.Connection.{Connection, entry, teardown, with_socket}
use tfcgi.Connection.Effects.{by_state}
use tfcgi.Connection.Teardown.{reading}
use tfcgi.Connection.Tests.{
  host, whole_input, beginning, queued, begin_round, params_round, eof_round, queued_teardown,
}
use tfcgi.System.{
  serving, leaving, gone, System, packet, breaks, takes, ends, erases, Reach, here, next, started,
  ended,
}
use tfcgi.System.Erased.{actives_counted}

-- An application that writes two bytes and answers 0.
abbrev greet : Request → List AppOutput × AppEnd
greet r = (to_cout (104 ∷ 105 ∷ []) ∷ [], answered 0)

abbrev socket : Socket
socket = at true whole_input

abbrev nothing_yet : Shared
nothing_yet = sharing whole_input 0

whole_input-StoresBytes : All StoresBytes socket.reads
whole_input-StoresBytes = ground arith

abbrev at_start : System
at_start = started host greet socket nothing_yet

abbrev left_loop : Connection
left_loop = with_socket (at false []) queued

abbrev begun_system : System
begun_system = record { connection = beginning; running = []; phase = serving }

abbrev queued_system : System
queued_system = record { connection = queued; running = []; phase = serving }

abbrev left_system : System
left_system = record { connection = teardown left_loop; running = []; phase = leaving }

abbrev taken : Shared
taken = sharing [] 1

abbrev taken_system : System
taken_system = record {
  connection = record (teardown left_loop) { shared = record taken { socket = at false [] } };
  running = 1 ∷ [];
  phase = leaving;
}

abbrev done_system : System
done_system = record {
  connection = ended host greet 1 waiting_request taken_system.connection;
  running = [];
  phase = leaving;
}

abbrev gone_system : System
gone_system = record done_system { phase = gone }

to_queued : Reach host greet at_start queued_system
to_queued = next (next here (packet refl refl begin_round)) (packet refl refl params_round)

to_left : Reach host greet at_start left_system
unfolding push_request
to_left = next to_queued (breaks refl refl eof_round)

one_taken : pop_request (teardown left_loop).shared ≡ ok (1, taken_system.connection.shared)
unfolding push_request
one_taken =
    ap (λ (c : Connection). pop_request c.shared) queued_teardown
    ∙ pop_request_one [] 1 left_loop.shared (ap (λ (i : ℕ). i ∷ []) begun_reading.1)

one_entry : entry 1 left_system.connection.requests ≡ some waiting_request
one_entry = ap (λ (c : Connection). entry 1 c.requests) queued_teardown

none_active : done_system.connection.shared.request_actives ≡ 0
none_active = (work_shared greet host.to_string waiting_request taken_system.connection.shared).0

worker_steps : Reach host greet left_system gone_system
worker_steps =
    next (next (next here (takes one_taken)) (ends [] [] 1 refl one_entry))
      (erases refl none_active)

all_steps : Reach host greet at_start gone_system
all_steps =
    next (next (next to_left (takes one_taken)) (ends [] [] 1 refl one_entry))
      (erases refl none_active)

actives_counted_example :
    (queued_system.connection.shared.request_actives
      ≡ length queued_system.connection.shared.queue
        + length queued_system.running
        + tally (by_state reading) queued_system.connection.requests)
    × (queued_system.connection.shared.request_actives < 2 ^ 16)
actives_counted_example =
    actives_counted host greet socket nothing_yet queued_system whole_input-StoresBytes to_queued
