-- ===== src/Worker/Finished.antt =====
-- What a worker leaves behind.
use tfcgi.Prelude.{
  ℕ, ◌^◌, ◌<◌, ◌≡◌, refl, ap, ◌∙◌, Bool, true, false, Bool-cases, inl, inr, List, [], ◌∷◌, ◌++◌,
  ◌==◌, if◌then◌else◌,
}
use tfcgi.Protocol
use tfcgi.Protocol.{EndRequestBody, end_request_bytes, header_bytes}
use tfcgi.OStream
use tfcgi.OStream.{Wire, OStream, sync}
use tfcgi.OStream.Packets.{record_bytes}
use tfcgi.OStream.Grows.{
  Extends, Extends-refl, Extends-trans, sync-Extends, write-Extends, close-Extends, close_detached,
}
use tfcgi.Request.{Request, Shared, send_end_request, decrement}
use tfcgi.Request.EndRecord.{send_end_request-record_bytes}
use tfcgi.Worker.{
  AppOutput, AppEnd, perform, perform_all, flush, message_lines, complain, after_respond,
  call_application, finish, work, to_cout, to_cerr, close_cout, close_cerr, answered, exception,
  unknown_exception,
}

-- What a worker leaves alone of a request.
abbrev pub SameLife : Request → Request → Type 0
SameLife r r' =
    (r'.request_id ≡ r.request_id)
    × (r'.state ≡ r.state)
    × (r'.params_deserializer ≡ r.params_deserializer)

-- The request is the same, and more has gone out.
abbrev Keeps : Request × Wire → Request × Wire → Type 0
Keeps (r, w) (r', w') = Extends w w' × SameLife r r'

Keeps-refl : (x : Request × Wire) → Keeps x x
Keeps-refl (r, w) = (Extends-refl w, (refl, refl, refl))

Keeps-trans : (x y z : Request × Wire) → Keeps x y → Keeps y z → Keeps x z
Keeps-trans (r, u) (s, v) (t, w) (a, e) (b, f) =
    (Extends-trans u v w a b, (f.0 ∙ e.0, f.1 ∙ e.1, f.2 ∙ e.2))

perform-Keeps : (o : AppOutput) (x : Request × Wire) → Keeps x (perform o x)
unfolding perform
perform-Keeps (to_cout bytes) (r, w) = (write-Extends bytes r.cout w, (refl, refl, refl))
perform-Keeps (to_cerr bytes) (r, w) = (write-Extends bytes r.cerr w, (refl, refl, refl))
perform-Keeps close_cout (r, w) = (close-Extends r.cout w, (refl, refl, refl))
perform-Keeps close_cerr (r, w) = (close-Extends r.cerr w, (refl, refl, refl))

perform_all-Keeps : (os : List AppOutput) (x : Request × Wire) → Keeps x (perform_all os x)
unfolding perform_all
perform_all-Keeps [] x = Keeps-refl x
perform_all-Keeps (o ∷ os) x =
    Keeps-trans x (perform o x) (perform_all os (perform o x)) (perform-Keeps o x)
      (perform_all-Keeps os (perform o x))

flush-Extends : (os : OStream) (wire : Wire) → Extends wire (flush os wire).1
unfolding flush
flush-Extends os wire = elim (Bool-cases os.attached) [
  | inl up ↦ rw up (sync-Extends os.internal wire)
  | inr down ↦ rw down (Extends-refl wire)
]

message_lines-Extends :
    (text : List ℕ) (os : OStream) (wire : Wire) → Extends wire (message_lines text os wire).1
unfolding message_lines
message_lines-Extends text os wire =
    let (os1, wire1) = OStream.write (10 ∷ []) os wire in
    let (os2, wire2) = flush os1 wire1 in
    let (os3, wire3) = OStream.write text os2 wire2 in
    let (os4, wire4) = OStream.write (10 ∷ []) os3 wire3 in
    Extends-trans wire wire1 _ (write-Extends (10 ∷ []) os wire) (
      Extends-trans wire1 wire2 _ (flush-Extends os1 wire1) (
        Extends-trans wire2 wire3 _ (write-Extends text os2 wire2) (
          Extends-trans wire3 wire4 _ (write-Extends (10 ∷ []) os3 wire3)
            (flush-Extends os4 wire4))))

if_Keeps : (b : Bool) (x y : Request × Wire) → Keeps x y → Keeps x (if b then y else x)
if_Keeps true x y k = k
if_Keeps false x y k = Keeps-refl x

complain-Keeps : (text : List ℕ) (x : Request × Wire) → Keeps x (complain text x)
unfolding complain
complain-Keeps text (r, w) =
    if_Keeps r.cerr.attached (r, w) _ (message_lines-Extends text r.cerr w, (refl, refl, refl))

after_respond-Keeps : (e : AppEnd) (x : Request × Wire) → Keeps x (after_respond e x).1
unfolding after_respond
after_respond-Keeps (answered status) x = Keeps-refl x
after_respond-Keeps (exception what) x = complain-Keeps _ x
after_respond-Keeps unknown_exception x = complain-Keeps _ x

after_respond_complete :
    (e : AppEnd) (x : Request × Wire)
    → (after_respond e x).0.protocol_status ≡ Protocol.request_complete
unfolding after_respond
after_respond_complete (answered status) x = refl
after_respond_complete (exception what) x = refl
after_respond_complete unknown_exception x = refl

-- The status that the protocol has for a role.
abbrev pub role_status : ℕ → ℕ
role_status role =
    if role == Protocol.responder then Protocol.request_complete else Protocol.unknown_role

module _ (respond : Request → List AppOutput × AppEnd) (to_string : ℕ → List ℕ) where
  call_application-Keeps :
      (r : Request) (w : Wire)
      → Keeps (r, w) (call_application respond to_string (r, w)).1
        × ((call_application respond to_string (r, w)).0.protocol_status
            ≡ role_status r.begin_request.role)
  unfolding call_application
  call_application-Keeps r w = elim (Bool-cases (r.begin_request.role == Protocol.responder)) [
    | inl responds ↦
        let (outputs, app_end) = respond r in
        let done = perform_all outputs (r, w) in
        rw responds (
          Keeps-trans (r, w) done (after_respond app_end done).1 (perform_all-Keeps outputs (r, w))
              (after_respond-Keeps app_end done),
          after_respond_complete app_end done,
        )
    | inr other ↦ rw other (complain-Keeps _ (r, w), refl)
  ]

  -- A worker that has done with a request has sent, behind all that had gone out, one END_REQUEST
  -- record of the specification as its last, with the status of the role; it has closed both
  -- streams, counted the request as no longer active, and left the queue alone. So it is however
  -- the application ends, with an exception or without, and whatever it wrote.
  pub work_ends :
      (r : Request) (sh : Shared)
      → r.request_id < 2 ^ 16
      → (body : EndRequestBody) × (before : Wire) × Extends sh.wire before
        × ((work respond to_string r sh).1.wire
            ≡ before
              ++ (record_bytes Protocol.end_request r.request_id (end_request_bytes body) ∷ []))
        × (body.protocol_status ≡ role_status r.begin_request.role)
        × ((work respond to_string r sh).0.cout.attached ≡ false)
        × ((work respond to_string r sh).0.cerr.attached ≡ false)
        × ((work respond to_string r sh).1.request_actives ≡ decrement sh.request_actives)
        × ((work respond to_string r sh).1.queue ≡ sh.queue)
  unfolding work finish
  work_ends r sh small =
      let (kept, status) = call_application-Keeps r sh.wire in
      let (body, (r1, w1)) = call_application respond to_string (r, sh.wire) in
      let (cout, w2) = OStream.close r1.cout w1 in
      let (cerr, w3) = OStream.close r1.cerr w2 in
      (
        body,
        w3,
        Extends-trans sh.wire w1 w3 kept.0
            (Extends-trans w1 w2 w3 (close-Extends r1.cout w1) (close-Extends r1.cerr w2)),
        ap (λ (i : ℕ). send_end_request i body w3) kept.1.0
            ∙ send_end_request-record_bytes r.request_id body w3 small,
        status,
        close_detached r1.cout w1,
        close_detached r1.cerr w2,
        refl,
        refl,
      )

  -- What the rest of the connection sees of it.
  pub work-SameLife : (r : Request) (sh : Shared) → SameLife r (work respond to_string r sh).0
  unfolding work finish
  work-SameLife r sh = (call_application-Keeps r sh.wire).0.1

  pub work_shared :
      (r : Request) (sh : Shared)
      → let sh' = (work respond to_string r sh).1 in
        (sh'.request_actives ≡ decrement sh.request_actives)
        × (sh'.queue ≡ sh.queue)
        × (sh'.socket ≡ sh.socket)
        × (sh'.backlog ≡ sh.backlog)
  unfolding work finish
  work_shared r sh = (refl, refl, refl, refl)

  -- The work is the same whatever stands in the queue.
  pub work-queue :
      (queue : List ℕ) (r : Request) (sh : Shared)
      → work respond to_string r (record sh { queue = queue }) ≡ (
        (work respond to_string r sh).0,
        record (work respond to_string r sh).1 { queue = queue },
      )
  unfolding work finish
  work-queue queue r sh = refl
