-- ===== src/Worker/Page.antt =====
-- An application that writes texts to `cout`, and then closes it or does not.
use tfcgi.Prelude.{
  ℕ, ◌^◌, ◌<◌, ◌%◌, ◌≡◌, refl, sym, ap, ◌∙◌, Bool, true, false, List, [], ◌∷◌, ◌++◌, concat,
  eq_true,
}
use tfcgi.Protocol
use tfcgi.Protocol.{EndRequestBody, end_request_bytes}
use tfcgi.OStream
use tfcgi.OStream.{Wire, OStream}
use tfcgi.OStream.Append.{write-append, write-nil}
use tfcgi.OStream.Packets.{record_bytes}
use tfcgi.OStream.Grows.{Extends, Extends-trans, close-Extends}
use tfcgi.Request.{Request, Shared}
use tfcgi.Request.EndRecord.{send_end_request-record_bytes}
use tfcgi.Worker.{
  AppOutput, AppEnd, perform, perform_all, prepared, after_respond, call_application, finish, work,
  to_cout, close_cout, answered,
}

abbrev pub couts : List (List ℕ) → List AppOutput
couts [] = []
couts (text ∷ texts) = to_cout text ∷ couts texts

-- What closes `cout`, if anything.
abbrev pub closing : Bool → List AppOutput
closing true = close_cout ∷ []
closing false = []

abbrev with_cout : Request → OStream × Wire → Request × Wire
with_cout r (os, wire) = (record r { cout = os }, wire)

perform_all-couts :
    (texts : List (List ℕ)) (rest : List AppOutput) (r : Request) (wire : Wire)
    → perform_all (couts texts ++ rest) (r, wire)
      ≡ perform_all rest (with_cout r (OStream.write (concat texts) r.cout wire))
unfolding perform_all perform
perform_all-couts [] rest r wire =
    ap (λ out. perform_all rest (with_cout r out)) (sym (write-nil r.cout wire))
perform_all-couts (text ∷ texts) rest r wire =
    let (os, wire') = OStream.write text r.cout wire in
    perform_all-couts texts rest (record r { cout = os }) wire'
    ∙ ap (λ out. perform_all rest (with_cout r out))
        (sym (write-append text (concat texts) r.cout wire))

-- The END_REQUEST record of an application that returned.
abbrev pub answer_record : ℕ → ℕ → List ℕ
answer_record request_id status =
    record_bytes Protocol.end_request request_id
      (end_request_bytes (record prepared { app_status = status % 2 ^ 32 }))

-- The wire behind the texts, with `cout` closed.
abbrev pub sent : List (List ℕ) → OStream → Wire → Wire
sent texts os wire =
    let (os', wire') = OStream.write (concat texts) os wire in (OStream.close os' wire').1

module _ (respond : Request → List AppOutput × AppEnd) (to_string : ℕ → List ℕ) where
  finish-Extends :
      (status : ℕ) (r : Request) (w : Wire) (sh : Shared)
      → r.request_id < 2 ^ 16
      → (before : Wire) × Extends (OStream.close r.cout w).1 before
        × ((finish respond to_string
              (record prepared { app_status = status % 2 ^ 32 }, (r, w))
              sh).1.wire
            ≡ before ++ (answer_record r.request_id status ∷ []))
  unfolding finish
  finish-Extends status r w sh small =
      let (cout, w2) = OStream.close r.cout w in
      let (cerr, w3) = OStream.close r.cerr w2 in
      (
        w3,
        close-Extends r.cerr w2,
        send_end_request-record_bytes r.request_id
            (record prepared { app_status = status % 2 ^ 32 }) w3 small,
      )

  performed :
      (texts : List (List ℕ)) (close : Bool) (status : ℕ) (r : Request) (sh : Shared)
      → r.begin_request.role ≡ Protocol.responder
      → respond r ≡ (couts texts ++ closing close, answered status)
      → work respond to_string r sh
        ≡ finish respond to_string
            (
              record prepared { app_status = status % 2 ^ 32 },
              perform_all
                  (closing close)
                  (with_cout r (OStream.write (concat texts) r.cout sh.wire)),
            )
            sh
  unfolding work call_application after_respond
  performed texts close status r sh role e =
      rw
        (
          eq_true r.begin_request.role Protocol.responder role,
          e,
          perform_all-couts texts (closing close) r sh.wire,
        )
        refl

  -- The texts go out as the stream sends them, closed behind them, and the END_REQUEST record with
  -- the answer of the application is the last.
  pub page_ends :
      (texts : List (List ℕ)) (close : Bool) (status : ℕ) (r : Request) (sh : Shared)
      → r.request_id < 2 ^ 16
      → r.begin_request.role ≡ Protocol.responder
      → respond r ≡ (couts texts ++ closing close, answered status)
      → (before : Wire) × Extends (sent texts r.cout sh.wire) before
        × ((work respond to_string r sh).1.wire
            ≡ before ++ (answer_record r.request_id status ∷ []))
  unfolding perform_all perform
  page_ends texts true status r sh small role e =
      let (os, w0) = OStream.write (concat texts) r.cout sh.wire in
      let (os', w1) = OStream.close os w0 in
      let (before, grown, last) = finish-Extends status (record r { cout = os' }) w1 sh small in
      (
        before,
        Extends-trans w1 (OStream.close os' w1).1 before (close-Extends os' w1) grown,
        ap (λ (x : Request × Shared). x.1.wire) (performed texts true status r sh role e) ∙ last,
      )
  page_ends texts false status r sh small role e =
      let (os, w0) = OStream.write (concat texts) r.cout sh.wire in
      let (before, grown, last) = finish-Extends status (record r { cout = os }) w0 sh small in
      (
        before,
        grown,
        ap (λ (x : Request × Shared). x.1.wire) (performed texts false status r sh role e) ∙ last,
      )
