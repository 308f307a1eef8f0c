-- ===== src/Examples/Json.antt =====
-- The JSON text of the statistics, read back.
use tfcgi.Prelude.{
  ℕ, zero, suc, ◌≡◌, ◌≢◌, refl, ap, ◌∙◌, ◌==◌, if◌then◌else◌, Option, none, some, Bool, true, false,
  List, [], ◌∷◌, ◌++◌, append_assoc, concat-append, length, All, concat, arith,
}
use tfcgi.Nvp.Maps.{codes}
use tfcgi.Request.Headers.ReadBack.{until, until_found}
use tfcgi.Server.{ConnectionStats, GlobalStats}
use tfcgi.Examples.{bool_text, connection_texts, all_connection_texts, dump_to_json}

-- What follows where a reading succeeds.
abbrev pub and_then : {A B : Type 0} → Option A → (A → Option B) → Option B
and_then none f = none
and_then (some a) f = f a

-- The text behind a given one, if it begins so.
abbrev pub expect : List ℕ → List ℕ → Option (List ℕ)
expect [] text = some text
expect (x ∷ xs) [] = none
expect (x ∷ xs) (c ∷ cs) = if x == c then expect xs cs else none

-- A key and the text of its value.
abbrev pub Member : Type 0
Member = List ℕ × List ℕ

-- A member of an object: the key in quotation marks, a colon, a blank, and the value up to `last`,
-- the character that ends it.
abbrev pub read_member : ℕ → List ℕ → Option (Member × List ℕ)
read_member last text = and_then (expect (codes "\"") text) (λ quoted.
    let (key, behind) = until 34 quoted in
    and_then (expect (codes ": ") behind)
      (λ valued. let (value, rest) = until last valued in some ((key, value), rest)))

-- `n` members, each ended by a comma.
abbrev pub read_members : ℕ → List ℕ → Option (List Member × List ℕ)
read_members zero text = some ([], text)
read_members (suc n) text = and_then (read_member 44 text) (λ (member, rest).
    and_then (read_members n rest) (λ (members, left). some (member ∷ members, left)))

-- An object of three members.
abbrev pub read_connection : List ℕ → Option (List Member × List ℕ)
read_connection text = and_then (expect (codes "{") text) (λ opened.
    and_then (read_members 2 opened) (λ (members, rest).
      and_then (read_member 125 rest) (λ (member, left). some (members ++ (member ∷ []), left))))

-- `n` such objects, with a comma in front of each but the first.
abbrev pub read_connections : Bool → ℕ → List ℕ → Option (List (List Member) × List ℕ)
read_connections first zero text = some ([], text)
read_connections first (suc n) text =
    and_then (expect (if first then [] else codes ",") text) (λ behind.
      and_then (read_connection behind) (λ (stat, rest).
        and_then (read_connections false n rest) (λ (stats, left). some (stat ∷ stats, left))))

-- An object of five members, and an array of `n` objects that is the sixth; nothing follows it.
abbrev at_end : List (List Member) × List ℕ → Option (List (List Member))
at_end (stats, []) = some stats
at_end (stats, c ∷ cs) = none

abbrev pub read_json : ℕ → List ℕ → Option (List Member × List (List Member))
read_json n text = and_then (expect (codes "{") text) (λ opened.
    and_then (read_members 5 opened) (λ (members, rest).
      and_then (expect (codes "\"connections\": [") rest) (λ listed.
        and_then (read_connections true n listed) (λ (stats, left).
          and_then (expect (codes "]}") left)
            (λ over. and_then (at_end (stats, over)) (λ stats. some (members, stats)))))))

and_then_assoc :
    {A B C : Type 0} (m : Option A) (f : A → Option B) (g : B → Option C)
    → and_then m (λ a. and_then (f a) g) ≡ and_then (and_then m f) g
and_then_assoc none f g = refl
and_then_assoc (some a) f g = refl

bool_text_plain : (b : Bool) → All (λ x. x ≢ 44) (bool_text b) × All (λ x. x ≢ 125) (bool_text b)
bool_text_plain true = (ground arith, ground arith)
bool_text_plain false = (ground arith, ground arith)

module _ (to_string : ℕ → List ℕ) where
  -- The members of the objects.
  abbrev pub connection_members : Bool → ConnectionStats → List Member
  connection_members quick stat =
      (codes "id", to_string stat.id)
      ∷ (codes "active_requests", to_string stat.active_requests)
      ∷ (codes "socket_insane", bool_text quick)
      ∷ []

  abbrev pub all_members : Bool → List ConnectionStats → List (List Member)
  all_members quick [] = []
  all_members quick (stat ∷ stats) = connection_members quick stat ∷ all_members quick stats

  abbrev pub members_of : GlobalStats → List Member
  members_of stats =
      (codes "socket_listening", bool_text stats.socket_listening)
      ∷ (codes "quick_shutdown", bool_text stats.quick_shutdown)
      ∷ (codes "workers_online", to_string stats.workers_online)
      ∷ (codes "workers_sleeping", to_string stats.workers_sleeping)
      ∷ (codes "workers_backlog", to_string stats.workers_backlog)
      ∷ []

module _ (to_string : ℕ → List ℕ) (plain : (n : ℕ) → All (λ x. x ≢ 44) (to_string n)) where
  read_connection_lem :
      (quick : Bool) (stat : ConnectionStats) (rest : List ℕ)
      → read_connection (concat (connection_texts to_string quick stat) ++ rest)
        ≡ some (connection_members to_string quick stat, rest)
  read_connection_lem quick stat rest =
      rw
        (
          append_assoc (to_string stat.id) _ rest,
          until_found 44 (to_string stat.id) _ (plain stat.id),
          append_assoc (to_string stat.active_requests) _ rest,
          until_found 44 (to_string stat.active_requests) _ (plain stat.active_requests),
          append_assoc (bool_text quick) _ rest,
          until_found 125 (bool_text quick) rest (bool_text_plain quick).1,
        )
        refl

  next_read :
      (quick : Bool) (stat : ConnectionStats) (stats : List ConnectionStats) (rest : List ℕ)
      → read_connection (concat (all_connection_texts to_string quick true (stat ∷ stats)) ++ rest)
        ≡ some (
          connection_members to_string quick stat,
          concat (all_connection_texts to_string quick false stats) ++ rest,
        )
  next_read quick stat stats rest =
      let more = concat (all_connection_texts to_string quick false stats) in
      ap (λ text. read_connection (text ++ rest))
        (concat-append (connection_texts to_string quick stat)
          (all_connection_texts to_string quick false stats))
      ∙ ap read_connection (append_assoc (concat (connection_texts to_string quick stat)) more rest)
      ∙ read_connection_lem quick stat (more ++ rest)

  separated :
      (quick first : Bool) (stat : ConnectionStats) (stats : List ConnectionStats) (rest : List ℕ)
      → and_then
          (expect
            (if first then [] else codes ",")
            (concat (all_connection_texts to_string quick first (stat ∷ stats)) ++ rest))
          read_connection
        ≡ some (
          connection_members to_string quick stat,
          concat (all_connection_texts to_string quick false stats) ++ rest,
        )
  separated quick true stat stats rest = next_read quick stat stats rest
  separated quick false stat stats rest = next_read quick stat stats rest

  read_connections-texts :
      (quick first : Bool) (stats : List ConnectionStats) (rest : List ℕ)
      → read_connections first
          (length stats)
          (concat (all_connection_texts to_string quick first stats) ++ rest)
        ≡ some (all_members to_string quick stats, rest)
  read_connections-texts quick first [] rest = refl
  read_connections-texts quick first (stat ∷ stats) rest =
      let text = concat (all_connection_texts to_string quick first (stat ∷ stats)) ++ rest in
      and_then_assoc (expect (if first then [] else codes ",") text) read_connection _
      ∙ ap
          (λ m. and_then m (λ (stat, rest).
            and_then (read_connections false (length stats) rest)
              (λ (stats, left). some (stat ∷ stats, left))))
          (separated quick first stat stats rest)
      ∙ ap
          (λ m.
            and_then m
              (λ (stats, left). some (connection_members to_string quick stat ∷ stats, left)))
          (read_connections-texts quick false stats rest)

  -- The JSON text of the statistics is an object of six members, with their keys as they are in the
  -- source, and nothing else: a reader that checks every bracket, quotation mark and comma finds the
  -- five numbers and flags, and in the array the id and the active requests of every connection, in
  -- their order. Defect: as `socket_insane` of a connection it finds the flag of the quick shutdown,
  -- whatever the state of the socket is. The text of a number has no comma.
  pub json_read_back :
      (stats : GlobalStats)
      → read_json (length stats.connections) (concat (dump_to_json to_string stats))
        ≡ some (
          members_of to_string stats,
          all_members to_string stats.quick_shutdown stats.connections,
        )
  unfolding dump_to_json
  json_read_back stats =
      rw
        (
          until_found 44 (bool_text stats.socket_listening) _
              (bool_text_plain stats.socket_listening).0,
          until_found 44 (bool_text stats.quick_shutdown) _
              (bool_text_plain stats.quick_shutdown).0,
          until_found 44 (to_string stats.workers_online) _ (plain stats.workers_online),
          until_found 44 (to_string stats.workers_sleeping) _ (plain stats.workers_sleeping),
          until_found 44 (to_string stats.workers_backlog) _ (plain stats.workers_backlog),
          concat-append (all_connection_texts to_string stats.quick_shutdown true stats.connections)
              _,
          read_connections-texts stats.quick_shutdown true stats.connections _,
        )
        refl
