-- ===== src/Worker/Tests.antt =====
-- The theorems on src/request-workers.cpp, on small states.
use tfcgi.Prelude.{ℕ, ◌≡◌, true, false, List, [], ◌∷◌, ◌++◌, arith}
use tfcgi.Protocol
use tfcgi.Protocol.{EndRequestBody, end_request_bytes}
use tfcgi.OStream.{Wire}
use tfcgi.OStream.Packets.{record_bytes}
use tfcgi.OStream.Grows.{Extends}
use tfcgi.Request.{Request, Shared, new_request, decrement}
use tfcgi.Worker.{AppOutput, AppEnd, to_cout, exception, work}
use tfcgi.Worker.Finished.{role_status, work_ends}

abbrev asked : Request
asked = new_request (record { role = Protocol.responder; flags = 0 }) 7

abbrev queued : List ℕ → ℕ → Shared
queued queue backlog = record {
  socket = record { socket_insane = true; reads = [] };
  wire = [];
  request_actives = 1;
  queue = queue;
  backlog = backlog;
}

abbrev greet : Request → List AppOutput × AppEnd
greet r = (to_cout (104 ∷ 105 ∷ []) ∷ [], exception (110 ∷ 111 ∷ []))

abbrev no_digits : ℕ → List ℕ
no_digits n = []

work_ends_example :
    (body : EndRequestBody) × (before : Wire) × Extends [] before
    × ((work greet no_digits asked (queued [] 0)).1.wire
        ≡ before ++ (record_bytes Protocol.end_request 7 (end_request_bytes body) ∷ []))
    × (body.protocol_status ≡ role_status Protocol.responder)
    × ((work greet no_digits asked (queued [] 0)).0.cout.attached ≡ false)
    × ((work greet no_digits asked (queued [] 0)).0.cerr.attached ≡ false)
    × ((work greet no_digits asked (queued [] 0)).1.request_actives ≡ decrement 1)
    × ((work greet no_digits asked (queued [] 0)).1.queue ≡ [])
work_ends_example = work_ends greet no_digits asked (queued [] 0) (omega arith)
