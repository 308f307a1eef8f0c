-- ===== src/System/Answers/Tests.antt =====
-- A small request from its first packet to its answer: the web server calls it 256.
use tfcgi.Prelude.{
  ℕ, suc, ◌+◌, ◌≡◌, refl, List, [], ◌∷◌, ◌++◌, none, some, ok, get_or, concat, arith,
}
use tfcgi.Protocol
use tfcgi.Protocol.{EndRequestBody, end_request_bytes, begin_request_of}
use tfcgi.OStream.{Wire}
use tfcgi.OStream.Packets.{record_bytes}
use tfcgi.OStream.Grows.{Extends}
use tfcgi.Nvp.Maps.Lookup.{map_get, last_value}
use tfcgi.Request.{pending, Request, Shared}
use tfcgi.Request.Parameters.Tests.{a_xy}
use tfcgi.Worker.{AppOutput, AppEnd, to_cout, answered, pop_request}
use tfcgi.Connection.{Connection, entry, read_loop}
use tfcgi.Connection.Tests.{host, end_of_input}
use tfcgi.Connection.Incoming.Tests.{
  begins, begins-IsBegin, parameters, parameters-IsFramed, ends, ends-IsEnd, before,
}
use tfcgi.System.{ended}
use tfcgi.System.Answers.{request_answered}

-- The application writes a text and returns 0.
abbrev greet : Request → List AppOutput × AppEnd
greet r = (to_cout (104 ∷ 105 ∷ []) ∷ [], answered 0)

request_answered_example :
    (c1 : Connection) × (r : Request) × (sh : Shared) × (read_loop host (suc (1 + suc 2)) before
      ≡ read_loop host 2 c1)
    × (pop_request c1.shared ≡ ok (1, sh))
    × (entry 1 c1.requests ≡ some r)
    × ((key : List ℕ) → map_get key r.params ≡ last_value key (a_xy ∷ []) none)
    × (get_or (concat begins.chunks) 2 0 ≡ 1)
    × (get_or (concat begins.chunks) 3 0 ≡ 0)
    × (let c2 = ended host greet 1 r (record c1 { shared = sh }) in
        (c2.shared.request_actives ≡ 0)
        × (c2.shared.queue ≡ [])
        × (c2.shared.backlog ≡ 0)
        × ((body : EndRequestBody) × (earlier : Wire) × Extends [] earlier
            × (c2.shared.wire
                ≡ earlier ++ (record_bytes Protocol.end_request 1 (end_request_bytes body) ∷ []))
            × (body.protocol_status ≡ Protocol.request_complete))
        × ((r2 : Request) × (entry 1 c2.requests ≡ some r2) × (r2.state ≡ pending)))
unfolding begin_request_of
request_answered_example =
    request_answered host greet 2 256 begins (parameters ∷ []) ends before end_of_input
      (omega arith) (omega arith) tt refl begins-IsBegin (parameters-IsFramed, tt) ends-IsEnd refl
      refl (omega arith) (omega arith)
