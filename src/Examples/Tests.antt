-- ===== src/Examples/Tests.antt =====
-- The theorems on the applications of examples/, on one request.
use tfcgi.Prelude.{ℕ, ◌≡◌, ◌≢◌, refl, true, false, List, [], ◌∷◌, some, concat, All, arith}
use tfcgi.Protocol
use tfcgi.Nvp.Maps.{codes}
use tfcgi.Nvp.Maps.Lookup.{map_get}
use tfcgi.Packet.Framing.{at}
use tfcgi.OStream.{OStream}
use tfcgi.OStream.Packets.{new_ostreambuf-Stamped}
use tfcgi.Request.{Request, Shared, new_request}
use tfcgi.Request.Headers.ReadBack.{read_headers}
use tfcgi.Server.{GlobalStats}
use tfcgi.Worker.{work}
use tfcgi.Examples.{tutorial_respond, dump_to_json, method_is_get, stats_respond}
use tfcgi.Examples.Pages.{IsFresh, Answered, tutorial_page, stats_page_of, stats_page}
use tfcgi.Examples.Json.{read_json, members_of, all_members, json_read_back}

abbrev asked : Request
asked = new_request (record { role = Protocol.responder; flags = 0 }) 7

abbrev due : OStream
due = record asked.cout { internal = record asked.cout.internal { send_eof = true } }

abbrev fresh : Request
fresh = record asked { cout = due; params = (codes "REQUEST_METHOD", codes "GET") ∷ [] }

fresh-IsFresh : IsFresh fresh
fresh-IsFresh = record {
  small = omega arith;
  responder = refl;
  attached = refl;
  empty = refl;
  eof_due = refl;
  stamped = new_ostreambuf-Stamped Protocol.stdout 7;
}

abbrev shared : Shared
shared = record { socket = at true []; wire = []; request_actives = 1; queue = []; backlog = 0 }

abbrev seven : ℕ → List ℕ
seven n = codes "7"

abbrev one_connection : GlobalStats
one_connection = record {
  socket_listening = true;
  quick_shutdown = false;
  workers_online = 7;
  workers_sleeping = 7;
  workers_backlog = 7;
  connections = record { id = 7; active_requests = 7; socket_insane = true } ∷ [];
}

seven_plain : (n : ℕ) → All (λ x. x ≢ 44) (seven n)
seven_plain n = ground arith

tutorial_page_example :
    (text : List ℕ) × Answered fresh [] text (work tutorial_respond seven fresh shared).1.wire
    × (read_headers 3 text
        ≡ some (
          (codes "Content-Type", codes "text/plain")
              ∷ (codes "Cache-Control", codes "public")
              ∷ (codes "Expires", codes "Tue, 19 Jan 2038 03:14:07 GMT")
              ∷ [],
          codes "Hello world!",
        ))
tutorial_page_example = tutorial_page seven fresh shared fresh-IsFresh

stats_page_example :
    (text : List ℕ) × Answered fresh [] text
      (work (stats_respond seven one_connection) seven fresh shared).1.wire
    × (read_headers 2 text
        ≡ some (
            stats_page_of seven
              (method_is_get (map_get (codes "REQUEST_METHOD") fresh.params))
              one_connection))
stats_page_example = stats_page seven one_connection fresh shared fresh-IsFresh (ground arith)

json_read_back_example :
    read_json 1 (concat (dump_to_json seven one_connection))
    ≡ some (members_of seven one_connection, all_members seven false one_connection.connections)
json_read_back_example = json_read_back seven seven_plain one_connection
