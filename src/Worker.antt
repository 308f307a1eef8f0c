-- ===== src/Worker.antt =====
-- The worker threads: src/request-workers.cpp, built for responders. The application is a
-- parameter: what `fcgi::respond` does with the streams of the request, and how it ends. The worker
-- holds one request of the connection whose parts are `Shared`.
pub mod Finished
pub mod Backlog
pub mod Page
mod Tests
use tfcgi.Prelude.{
  ℕ, ◌+◌, ◌%◌, ◌^◌, Bool, List, [], ◌∷◌, ◌++◌, ◌==◌, if◌then◌else◌, Result, ok, stop, blocked,
}
use tfcgi.Protocol
use tfcgi.Protocol.{EndRequestBody, swap32}
use tfcgi.Nvp.Maps.{codes}
use tfcgi.OStream
use tfcgi.OStream.{Wire, OStream, sync}
use tfcgi.Request.{Request, Shared, decrement, send_end_request}

-- The queue and `workers_backlog` behind `pop_request`; it waits while the queue is empty.
abbrev pop_queue : List ℕ → Shared → Result (ℕ × Shared)
pop_queue [] sh = stop blocked
pop_queue (request_id ∷ queue) sh =
    ok (request_id, record sh { queue = queue; backlog = decrement sh.backlog })

pub pop_request : Shared → Result (ℕ × Shared)
pop_request sh = pop_queue sh.queue sh

-- What an application does with the streams of its request.
pub data AppOutput : Type 0 where
  to_cout to_cerr : List ℕ → AppOutput
  close_cout close_cerr : AppOutput

-- How a call of the application ends: it returns, or throws a std::exception with that text, or
-- something else.
pub data AppEnd : Type 0 where
  answered : ℕ → AppEnd
  exception : List ℕ → AppEnd
  unknown_exception : AppEnd

-- A stream and what went out.
abbrev pub on_cout : (OStream → Wire → OStream × Wire) → Request × Wire → Request × Wire
on_cout f (r, wire) = let (os, wire') = f r.cout wire in (record r { cout = os }, wire')

abbrev pub on_cerr : (OStream → Wire → OStream × Wire) → Request × Wire → Request × Wire
on_cerr f (r, wire) = let (os, wire') = f r.cerr wire in (record r { cerr = os }, wire')

pub perform : AppOutput → Request × Wire → Request × Wire
perform (to_cout bytes) out = on_cout (OStream.write bytes) out
perform (to_cerr bytes) out = on_cerr (OStream.write bytes) out
perform close_cout out = on_cout OStream.close out
perform close_cerr out = on_cerr OStream.close out

pub perform_all : List AppOutput → Request × Wire → Request × Wire
unfolding perform
perform_all [] out = out
perform_all (o ∷ os) out = perform_all os (perform o out)

-- `flush()` of a good stream.
pub flush : OStream → Wire → OStream × Wire
flush os wire =
    let (b, wire') = sync os.internal wire in
    if os.attached then (record os { internal = b }, wire') else (os, wire)

-- `std::endl`, a text, and `std::endl`.
pub message_lines : List ℕ → OStream → Wire → OStream × Wire
unfolding flush
message_lines text os wire =
    let (os1, wire1) = OStream.write (10 ∷ []) os wire in
    let (os2, wire2) = flush os1 wire1 in
    let (os3, wire3) = OStream.write text os2 wire2 in
    let (os4, wire4) = OStream.write (10 ∷ []) os3 wire3 in flush os4 wire4

-- `if (request.cerr.good())`
pub complain : List ℕ → Request × Wire → Request × Wire
unfolding message_lines
complain text (r, wire) =
    if r.cerr.attached then on_cerr (message_lines text) (r, wire) else (r, wire)

-- The body that is prepared before the call.
abbrev pub prepared : EndRequestBody
prepared = record { app_status = swap32 0xA990EEEE; protocol_status = Protocol.request_complete }

-- The `case` of the responder, with the handlers of exceptions. `appStatus` is a uint32_t: where the
-- application returns a negative int, the status here is the number that it is modulo 2 ^ 32.
pub after_respond : AppEnd → Request × Wire → EndRequestBody × (Request × Wire)
unfolding complain
after_respond (answered status) out = (record prepared { app_status = status % 2 ^ 32 }, out)
after_respond (exception what) out = (prepared, complain (codes "Exception occured : " ++ what) out)
after_respond unknown_exception out =
    (prepared, complain (codes "An unknow exception occured.") out)

module _ (respond : Request → List AppOutput × AppEnd) (to_string : ℕ → List ℕ) where
  -- The `switch` on the role.
  pub call_application : Request × Wire → EndRequestBody × (Request × Wire)
  unfolding perform_all after_respond complain
  call_application (r, wire) =
      let role = r.begin_request.role in
      if role == Protocol.responder
      then (let (outputs, app_end) = respond r in
          after_respond app_end (perform_all outputs (r, wire)))
      else (
        record { app_status = role; protocol_status = Protocol.unknown_role },
        complain (codes "Unknow role " ++ (to_string role ++ codes " is not suported.")) (r, wire),
      )

  -- "Close streams", the END_REQUEST packet, and the count of the connection.
  pub finish : EndRequestBody × (Request × Wire) → Shared → Request × Shared
  finish (body, out) sh =
      let (r, wire) = on_cerr OStream.close (on_cout OStream.close out) in
      (
        r,
        record sh {
          wire = send_end_request r.request_id body wire;
          request_actives = decrement sh.request_actives;
        },
      )

  -- What `thread_func` does with the request that it popped.
  pub work : Request → Shared → Request × Shared
  unfolding call_application finish
  work r sh = finish (call_application (r, sh.wire)) sh
