-- ===== src/Request/Tests.antt =====
-- The theorems on src/request.cpp, on the packets of a small request.
use tfcgi.Prelude.{ℕ, ◌≡◌, refl, ◌∙◌, true, List, [], ◌∷◌, ◌++◌, none, ok, replicate, arith}
use tfcgi.Protocol
use tfcgi.Protocol.{Header, BeginRequestBody, begin_request_of}
use tfcgi.Socket.{ReadResult}
use tfcgi.Socket.Recv.{gots}
use tfcgi.Packet.Framing.{at, packet_recv_all-gots}
use tfcgi.Nvp.Deserializer.{Deserializer, new_deserializer, nvp_max_pair_size}
use tfcgi.Request.{
  reading_params, pending, Request, Shared, new_request, accept, open_inputs, handle_begin,
  handle_packet, push_request,
}
use tfcgi.Request.Lifecycle.{IsConsistent, Step, handle_packet-Step}
use tfcgi.Request.Runs.{Agrees, run_packets, run_packets_two, run_packets_new, run_packets_pending}
use tfcgi.Worker.{AppOutput, AppEnd, to_cout, exception, pop_request, work}
use tfcgi.Worker.Backlog.{request_round}
use tfcgi.Request.Parameters.{handle_packet-params, handle_params-end}

-- A packet for the request 1, as it is in memory.
abbrev pub packet : ℕ → ℕ → Header
packet type content_length = record {
  version = 1;
  type = type;
  request_id = 1;
  content_length = content_length;
  padding_length = 0;
  reserved = 0;
}

abbrev pub memory : BeginRequestBody
memory = record { role = 0; flags = 0 }

abbrev pub fresh : Request
fresh = new_request memory 1

-- A responder is asked for.
abbrev pub begin_body : List ℕ
begin_body = 0 ∷ 1 ∷ 0 ∷ 0 ∷ 0 ∷ 0 ∷ 0 ∷ 0 ∷ []

abbrev pub no_message : Deserializer → List ℕ
no_message d = []

abbrev pub sharing : List ReadResult → ℕ → Shared
sharing reads request_actives = record {
  socket = at true reads;
  wire = [];
  request_actives = request_actives;
  queue = [];
  backlog = 0;
}

abbrev start : Shared
start = sharing (gots (begin_body ∷ []) ++ (gots [] ++ [])) 0

abbrev pub begun : Request
begun = accept [] [] (begin_request_of begin_body) fresh

pub begun_reading : (begun.state ≡ reading_params) × (begun.request_id ≡ 1) × IsConsistent begun
unfolding accept open_inputs begin_request_of
begun_reading = (refl, refl, tt)

pub abort_handled :
    (h : Header) (r : Request) (sh : Shared)
    → h.type ≡ Protocol.abort_request
    → handle_packet nvp_max_pair_size [] [] no_message h r sh ≡ ok (h, r, sh)
unfolding handle_packet
abort_handled h r sh e = rw e refl

pub begin_handled :
    (left : List ReadResult)
    → handle_packet nvp_max_pair_size [] [] no_message
        (packet Protocol.begin_request 8)
        fresh
        (sharing (gots (begin_body ∷ []) ++ (gots [] ++ left)) 0)
      ≡ ok (packet Protocol.begin_request 0, begun, sharing left 1)
unfolding handle_packet handle_begin
begin_handled left =
    rw
      (packet_recv_all-gots (replicate 8 0) (packet Protocol.begin_request 8) (begin_body ∷ []) []
        left true (omega arith) (omega arith, tt) tt refl refl refl)
      refl

begun-IsConsistent : IsConsistent fresh
begun-IsConsistent = tt

handle_packet-Step_example :
    IsConsistent begun × Step fresh begun start (sharing [] 1) × (begun.request_id ≡ 1)
handle_packet-Step_example =
    handle_packet-Step nvp_max_pair_size [] [] no_message (packet Protocol.begin_request 8)
      (packet Protocol.begin_request 0) fresh begun start (sharing [] 1) begun-IsConsistent
      (begin_handled [])

abbrev pub waiting_request : Request
waiting_request = record begun { params_deserializer = none; state = pending }

pub end_handled :
    (left : List ReadResult)
    → handle_packet nvp_max_pair_size [] [] no_message
        (packet Protocol.params 0)
        begun
        (sharing left 1)
      ≡ ok (packet Protocol.params 0, waiting_request, push_request begun (sharing left 1))
unfolding accept open_inputs
end_handled left =
    handle_packet-params nvp_max_pair_size [] [] no_message (packet Protocol.params 0) begun
      (sharing left 1) refl
    ∙ handle_params-end nvp_max_pair_size [] [] no_message (new_deserializer [] [])
        (packet Protocol.params 0) begun (sharing left 1) refl

-- The request is taken up, and has no parameters.
both_handled :
    run_packets nvp_max_pair_size [] [] no_message
      (packet Protocol.begin_request 8 ∷ packet Protocol.params 0 ∷ [])
      fresh
      start
    ≡ ok (waiting_request, push_request begun (sharing [] 1))
both_handled =
    run_packets_two nvp_max_pair_size [] [] no_message (packet Protocol.begin_request 8)
      (packet Protocol.params 0) (packet Protocol.begin_request 0) (packet Protocol.params 0) fresh
      begun waiting_request start (sharing [] 1) (push_request begun (sharing [] 1))
      (begin_handled []) (end_handled [])

run_packets_new_example : Agrees start waiting_request (push_request begun (sharing [] 1))
run_packets_new_example =
    run_packets_new nvp_max_pair_size [] [] no_message
      (packet Protocol.begin_request 8 ∷ packet Protocol.params 0 ∷ []) memory 1 waiting_request
      start (push_request begun (sharing [] 1)) (omega arith) both_handled

-- BEGIN_REQUEST and ABORT_REQUEST for a request that was handed over.
again_handled :
    run_packets nvp_max_pair_size [] [] no_message
      (packet Protocol.begin_request 8 ∷ packet Protocol.abort_request 0 ∷ [])
      waiting_request
      start
    ≡ ok (waiting_request, start)
unfolding handle_packet handle_begin
again_handled =
    run_packets_two nvp_max_pair_size [] [] no_message (packet Protocol.begin_request 8)
      (packet Protocol.abort_request 0) (packet Protocol.begin_request 8)
      (packet Protocol.abort_request 0) waiting_request waiting_request waiting_request start start
      start refl refl

run_packets_pending_example :
    (waiting_request.state ≡ pending)
    × (start.request_actives ≡ start.request_actives)
    × (start.queue ≡ start.queue)
run_packets_pending_example =
    run_packets_pending nvp_max_pair_size [] [] no_message
      (packet Protocol.begin_request 8 ∷ packet Protocol.abort_request 0 ∷ []) waiting_request
      waiting_request start start tt refl again_handled

-- The application greets, and then fails.
abbrev greet : Request → List AppOutput × AppEnd
greet r = (to_cout (104 ∷ 105 ∷ []) ∷ [], exception (110 ∷ 111 ∷ []))

abbrev no_digits : ℕ → List ℕ
no_digits n = []

request_round_example :
    (sh1 : Shared) × (pop_request (push_request begun (sharing [] 1))
      ≡ ok (waiting_request.request_id, sh1))
    × ((work greet no_digits waiting_request sh1).1.queue ≡ [])
    × ((work greet no_digits waiting_request sh1).1.request_actives ≡ 0)
request_round_example =
    request_round nvp_max_pair_size [] [] no_message greet no_digits
      (packet Protocol.begin_request 8 ∷ packet Protocol.params 0 ∷ []) memory 1 waiting_request
      start (push_request begun (sharing [] 1)) (omega arith) refl both_handled refl
