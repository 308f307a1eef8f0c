-- ===== src/Pool/Tests.antt =====
-- The theorems on all connections, on two sockets of which one sends a request.
use tfcgi.Prelude.{◌≤◌, ◌+◌, ◌*◌, refl, ◌⊎◌, true, false, List, [], ◌∷◌, length, tally, arith, All}
use mathlib.Core.Path.{subst}
use tfcgi.Socket.{Socket}
use tfcgi.Packet.Framing.{at}
use tfcgi.Request.{Request, push_request}
use tfcgi.Request.Tests.{begun_reading}
use tfcgi.Worker.{AppOutput, AppEnd, answered, to_cout}
use tfcgi.Connection.{Connection, with_socket}
use tfcgi.Connection.Tests.{
  host, whole_input, begin_round, params_round, emptied, emptied_eof_round, emptied-teardown,
}
use tfcgi.System
use tfcgi.System.{serving, leaving, started}
use tfcgi.Pool.{
  Slot, Pool, unused, stored, with_queue, popped, Step, creates, packet, breaks, takes, Reach, here,
  next, opened,
}
use tfcgi.Pool.Refines.{view, each_connection_alone}
use tfcgi.Pool.Live.{HasBytes, IsLive, references-IsLive}
use tfcgi.Pool.Drains.{still_open, IsLeaving, IsOver, steps, connections_drain}

-- An application that writes two bytes and answers 0.
abbrev greet : Request → List AppOutput × AppEnd
greet r = (to_cout (104 ∷ 105 ∷ []) ∷ [], answered 0)

abbrev sockets : List Socket
sockets = at true whole_input ∷ []

sockets_bytes : All HasBytes sockets
sockets_bytes = ground arith

abbrev slot : Connection → Slot
slot c = record { connection = c; phase = serving }

-- The request waits in the queue.
abbrev waiting : Pool
waiting = record { incoming = []; slots = slot emptied ∷ []; queue = (0, 1) ∷ []; running = [] }

to_waiting : Reach host greet (opened sockets) waiting
unfolding push_request
to_waiting =
    subst (λ id. Reach host greet (opened sockets) (record waiting { queue = (0, id) ∷ [] }))
      begun_reading.1
      (next (next (next here (creates refl)) (packet 0 refl refl refl begin_round))
        (packet 0 refl refl refl params_round))

-- The web server has closed the connection, and a worker takes the request.
abbrev left : Pool
left = stored 0 leaving (with_socket (at false []) emptied) waiting

to_left : Reach host greet (opened sockets) left
to_left = next to_waiting (
    subst (λ c. Step host greet waiting (stored 0 leaving c waiting)) emptied-teardown
      (breaks 0 refl refl refl emptied_eof_round))

abbrev left_slot : Slot
left_slot = record {
  connection = with_queue [] (with_socket (at false []) emptied);
  phase = leaving;
}

abbrev taken : Pool
taken = record left { slots = popped left_slot ∷ []; queue = []; running = (0, 1) ∷ [] }

taking : Reach host greet left taken
taking = next here (takes 0 1 refl refl)

each_connection_alone_example :
    (socket : Socket) × HasBytes socket
    × System.Reach host greet
        (started host greet socket (unused socket))
        (view 0 (slot emptied) waiting)
each_connection_alone_example =
    each_connection_alone host greet HasBytes sockets waiting 0 (slot emptied) sockets_bytes
      to_waiting refl

references-IsLive_example :
    All (λ (i, request_id). IsLive waiting i request_id) waiting.queue
    × All (λ (i, request_id). IsLive waiting i request_id) waiting.running
references-IsLive_example = references-IsLive host greet sockets waiting sockets_bytes to_waiting

left-IsLeaving : IsLeaving left
left-IsLeaving = (refl, ((λ e. cc), tt))

connections_drain_example :
    (steps host greet taking
      ≤ 2 * length left.queue + length left.running + tally still_open left.slots)
    × (IsOver taken ⊎ ((p : Pool) × Step host greet taken p))
connections_drain_example =
    connections_drain host greet sockets left taken sockets_bytes to_left left-IsLeaving taking
