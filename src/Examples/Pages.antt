-- ===== src/Examples/Pages.antt =====
-- The pages that the applications of examples/ answer with, as the web server gets them.
use tfcgi.Prelude.{
  ℕ, ◌^◌, ◌<◌, ◌≡◌, ◌≢◌, refl, sym, ap, ◌∙◌, Bool, true, false, Bool-cases, inl, inr, List, [], ◌∷◌,
  ◌++◌, some, All, concat, arith,
}
use tfcgi.Protocol
use tfcgi.Nvp.Maps.{codes}
use tfcgi.Nvp.Maps.Lookup.{map_get}
use tfcgi.OStream.{Wire}
use tfcgi.OStream.Packets.{Stamped}
use tfcgi.OStream.Closing.{SentOut, close-write}
use tfcgi.OStream.Grows.{Extends}
use tfcgi.Request.{Request, Shared}
use tfcgi.Request.Headers.ReadBack.{ReadHeader, read_headers, read_headers_line}
use tfcgi.Server.{GlobalStats}
use tfcgi.Worker.{AppOutput, AppEnd, answered, work}
use tfcgi.Worker.Page.{couts, closing, answer_record, sent, page_ends}
use tfcgi.Examples.{
  tutorial_texts, tutorial_respond, dump_to_json, json_texts, refusal_texts, method_is_get,
  stats_respond,
}

-- A request as it is when a worker gets it and nothing was written yet.
pub record IsFresh (r : Request) : Type 0 where
  pub small : r.request_id < 2 ^ 16
  pub responder : r.begin_request.role ≡ Protocol.responder
  pub attached : r.cout.attached ≡ true
  pub empty : r.cout.internal.buffer ≡ []
  pub eof_due : r.cout.internal.send_eof ≡ true
  pub stamped : Stamped Protocol.stdout r.request_id r.cout.internal.header

-- Behind `before` came a text on STDOUT, closed, and at the end the END_REQUEST record with the
-- status 0.
abbrev pub Answered : Request → Wire → List ℕ → Wire → Type 0
Answered r before text final =
    (page : Wire) × (rest : Wire) × SentOut Protocol.stdout r.request_id true before text page
    × Extends page rest
    × (final ≡ rest ++ (answer_record r.request_id 0 ∷ []))

module _ (to_string : ℕ → List ℕ) where
  texts-Answered :
      (respond : Request → List AppOutput × AppEnd) (texts : List (List ℕ)) (close : Bool)
      (r : Request) (sh : Shared)
      → IsFresh r
      → respond r ≡ (couts texts ++ closing close, answered 0)
      → Answered r sh.wire (concat texts) (work respond to_string r sh).1.wire
  texts-Answered respond texts close r sh f e =
      let (rest, grown, last) =
        page_ends respond to_string texts close 0 r sh f.small f.responder e in
      (
        sent texts r.cout sh.wire,
        rest,
        close-write Protocol.stdout r.request_id f.small true sh.wire (concat texts) r.cout
            f.attached f.empty f.eof_due f.stamped,
        grown,
        last,
      )

  -- The application of the tutorial, from the work of a worker to what the web server reads, on a
  -- request for a responder whose output stream is attached, with nothing in its buffer, its end due,
  -- and stamped with the id of the request: its
  -- page goes out on STDOUT, with the status 0 behind it, and is the three headers of the source and
  -- the text "Hello world!".
  pub tutorial_page :
      (r : Request) (sh : Shared)
      → IsFresh r
      → (text : List ℕ) × Answered r sh.wire text (work tutorial_respond to_string r sh).1.wire
        × (read_headers 3 text
            ≡ some (
              (codes "Content-Type", codes "text/plain")
                  ∷ (codes "Cache-Control", codes "public")
                  ∷ (codes "Expires", codes "Tue, 19 Jan 2038 03:14:07 GMT")
                  ∷ [],
              codes "Hello world!",
            ))
  tutorial_page r sh f =
      (concat tutorial_texts, texts-Answered tutorial_respond tutorial_texts true r sh f refl, refl)

  -- The headers and the body that belong to a method.
  abbrev pub stats_page_of : Bool → GlobalStats → List ReadHeader × List ℕ
  stats_page_of true stats =
      ((codes "Content-Type", codes "application/json") ∷ [], concat (dump_to_json to_string stats))
  stats_page_of false stats =
      ((codes "Status", to_string 405) ∷ (codes "Allow", codes "GET") ∷ [], [])

  json-read_headers :
      (stats : GlobalStats)
      → read_headers 2 (concat (json_texts to_string stats)) ≡ some (stats_page_of true stats)
  unfolding json_texts
  json-read_headers stats = refl

  refusal-read_headers :
      (stats : GlobalStats)
      → All (λ x. x ≢ 10) (to_string 405)
      → read_headers 2 (concat (refusal_texts to_string)) ≡ some (stats_page_of false stats)
  unfolding refusal_texts
  refusal-read_headers stats plain =
      read_headers_line 1 (codes "Status") (to_string 405) (codes "Allow: GET\n\n")
        (ground arith, ground arith, plain)

  json_answer :
      (stats : GlobalStats) (r : Request)
      → method_is_get (map_get (codes "REQUEST_METHOD") r.params) ≡ true
      → stats_respond to_string stats r
        ≡ (couts (json_texts to_string stats) ++ closing true, answered 0)
  unfolding stats_respond
  json_answer stats r e = rw e refl

  refusal_answer :
      (stats : GlobalStats) (r : Request)
      → method_is_get (map_get (codes "REQUEST_METHOD") r.params) ≡ false
      → stats_respond to_string stats r
        ≡ (couts (refusal_texts to_string) ++ closing false, answered 0)
  unfolding stats_respond
  refusal_answer stats r e = rw e refl

  -- The application of examples/stats, on a request for a responder whose output stream is as it is
  -- on the first use of its id: attached, with nothing in its buffer, its end due, and stamped with the
  -- id of the request. Where the method is GET, the web server reads the header of a JSON text and the text of the statistics; for any other
  -- method, or none, it reads the status 405, the header Allow, and no body. The text of the number
  -- 405 has no newline.
  pub stats_page :
      (stats : GlobalStats) (r : Request) (sh : Shared)
      → IsFresh r
      → All (λ x. x ≢ 10) (to_string 405)
      → (text : List ℕ) × Answered r sh.wire text
          (work (stats_respond to_string stats) to_string r sh).1.wire
        × (read_headers 2 text
            ≡ some
                (stats_page_of (method_is_get (map_get (codes "REQUEST_METHOD") r.params)) stats))
  stats_page stats r sh f plain =
      elim (Bool-cases (method_is_get (map_get (codes "REQUEST_METHOD") r.params))) [
        | inl get ↦ (
          concat (json_texts to_string stats),
          texts-Answered (stats_respond to_string stats) (json_texts to_string stats) true r sh f
              (json_answer stats r get),
          json-read_headers stats ∙ ap (λ b. some (stats_page_of b stats)) (sym get),
        )
        | inr other ↦ (
          concat (refusal_texts to_string),
          texts-Answered (stats_respond to_string stats) (refusal_texts to_string) false r sh f
              (refusal_answer stats r other),
          refusal-read_headers stats plain ∙ ap (λ b. some (stats_page_of b stats)) (sym other),
        )
      ]
