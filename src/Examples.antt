-- ===== src/Examples.antt =====
-- The applications of examples/: examples/tutorial/main.cpp, examples/stats/main.cpp and
-- examples/stats/stats.cpp. What an application does with `cout` is the list of the texts that it
-- writes, one for each operand of `<<`; the helpers of `Request` are written out as they are inline.
pub mod Pages
pub mod Json
mod Tests
use tfcgi.Prelude.{ℕ, Bool, true, false, List, [], ◌∷◌, ◌++◌, Option, none, some, if◌then◌else◌}
use tfcgi.Nvp.Maps.{Map, codes, same_bytes}
use tfcgi.Nvp.Maps.Lookup.{map_get}
use tfcgi.Request.{Request}
use tfcgi.Server.{ConnectionStats, GlobalStats}
use tfcgi.Worker.{AppOutput, AppEnd, answered}
use tfcgi.Worker.Page.{couts, closing}

-- `sendHeader`, `sendContent_Type`, `finishHeaders`, as texts.
abbrev pub header_texts : List ℕ → List ℕ → List (List ℕ)
header_texts key value = key ∷ codes ": " ∷ value ∷ codes "\n" ∷ []

abbrev pub content_type_texts : List ℕ → List (List ℕ)
content_type_texts mime = codes "Content-Type: " ∷ mime ∷ codes "\n" ∷ []

abbrev pub finish_texts : List (List ℕ)
finish_texts = codes "\n" ∷ []

-- The page of the tutorial.
abbrev pub tutorial_texts : List (List ℕ)
tutorial_texts =
    content_type_texts (codes "text/plain")
    ++ (header_texts (codes "Cache-Control") (codes "public")
        ++ (header_texts (codes "Expires") (codes "Tue, 19 Jan 2038 03:14:07 GMT")
            ++ (finish_texts ++ (codes "Hello world!" ∷ []))))

abbrev pub tutorial_respond : Request → List AppOutput × AppEnd
tutorial_respond r = (couts tutorial_texts ++ closing true, answered 0)

-- `dump_to_json`
abbrev pub bool_text : Bool → List ℕ
bool_text true = codes "true"
bool_text false = codes "false"

-- `params["REQUEST_METHOD"] != "GET"`: an absent parameter is an empty text.
abbrev pub method_is_get : Option (List ℕ) → Bool
method_is_get none = false
method_is_get (some method) = same_bytes method (codes "GET")

module _ (to_string : ℕ → List ℕ) where
  -- One round of the loop over the connections, behind the comma.
  abbrev pub connection_texts : Bool → ConnectionStats → List (List ℕ)
  connection_texts quick_shutdown stat =
      codes "{\"id\": "
      ∷ to_string stat.id
      ∷ codes ",\"active_requests\": "
      ∷ to_string stat.active_requests
      ∷ codes ",\"socket_insane\": "
      ∷ bool_text quick_shutdown
      ∷ codes "}"
      ∷ []

  abbrev pub all_connection_texts : Bool → Bool → List ConnectionStats → List (List ℕ)
  all_connection_texts quick_shutdown first [] = []
  all_connection_texts quick_shutdown true (stat ∷ stats) =
      connection_texts quick_shutdown stat ++ all_connection_texts quick_shutdown false stats
  all_connection_texts quick_shutdown false (stat ∷ stats) =
      codes ","
      ∷ (connection_texts quick_shutdown stat ++ all_connection_texts quick_shutdown false stats)

  pub dump_to_json : GlobalStats → List (List ℕ)
  dump_to_json stats =
      codes "{\"socket_listening\": "
      ∷ bool_text stats.socket_listening
      ∷ codes ",\"quick_shutdown\": "
      ∷ bool_text stats.quick_shutdown
      ∷ codes ",\"workers_online\": "
      ∷ to_string stats.workers_online
      ∷ codes ",\"workers_sleeping\": "
      ∷ to_string stats.workers_sleeping
      ∷ codes ",\"workers_backlog\": "
      ∷ to_string stats.workers_backlog
      ∷ codes ",\"connections\": ["
      ∷ (all_connection_texts stats.quick_shutdown true stats.connections ++ (codes "]}" ∷ []))

  -- `respond_json`; `stats` is what `update` found.
  pub json_texts : GlobalStats → List (List ℕ)
  unfolding dump_to_json
  json_texts stats =
      content_type_texts (codes "application/json") ++ (finish_texts ++ dump_to_json stats)

  -- The answer to another method.
  pub refusal_texts : List (List ℕ)
  refusal_texts =
      codes "Status: "
      ∷ to_string 405
      ∷ codes "\n"
      ∷ (header_texts (codes "Allow") (codes "GET") ++ finish_texts)

  pub stats_respond : GlobalStats → Request → List AppOutput × AppEnd
  unfolding json_texts refusal_texts
  stats_respond stats r =
      if method_is_get (map_get (codes "REQUEST_METHOD") r.params)
      then (couts (json_texts stats) ++ closing true, answered 0)
      else (couts refusal_texts ++ closing false, answered 0)
