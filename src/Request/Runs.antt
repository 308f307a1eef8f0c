-- ===== src/Request/Runs.antt =====
-- Any number of packets for one request.
use tfcgi.Prelude.{
  ℕ, ◌+◌, ◌^◌, ◌<◌, ◌≡◌, refl, sym, ap, ◌∙◌, List, [], ◌∷◌, ◌++◌, append-nil, Result, ok, ◌>>=◌,
  arith, >>=-eq-ok, Ensures_elim,
}
use tfcgi.Protocol.{Header, BeginRequestBody}
use tfcgi.Nvp.Deserializer.{Deserializer}
use tfcgi.Request.{State, pending, Request, Shared, new_request, handle_packet}
use tfcgi.Request.Lifecycle.{
  IsConsistent, weight, Step, stays, begins, hands_over, cancels, handle_packet-Step, Step-pending,
}

-- The entries of the queue of the workers that a request has.
abbrev pub waiting : State → ℕ → List ℕ
waiting pending request_id = request_id ∷ []
waiting _ request_id = []

-- The count of the connection and the queue of the workers agree with the state of the request,
-- counted from a shared state `sh0` in which the request was not active.
pub record Agrees (sh0 : Shared) (r : Request) (sh : Shared) : Type 0 where
  pub consistent : IsConsistent r
  pub counted : sh.request_actives ≡ sh0.request_actives + weight r.state
  pub queued : sh.queue ≡ sh0.queue ++ waiting r.state r.request_id

Step-Agrees :
    (sh0 : Shared) (r r' : Request) (sh sh' : Shared)
    → sh0.request_actives + 1 < 2 ^ 32
    → Agrees sh0 r sh
    → IsConsistent r'
    → Step r r' sh sh'
    → r'.request_id ≡ r.request_id
    → Agrees sh0 r' sh'
Step-Agrees sh0 r r' sh sh' small a c (stays es ea eq) ei = record {
  consistent = c;
  counted = ea ∙ a.counted ∙ ap (λ st. sh0.request_actives + weight st) (sym es);
  queued =
      eq
      ∙ a.queued
      ∙ ap (λ st. sh0.queue ++ waiting st r.request_id) (sym es)
      ∙ ap (λ i. sh0.queue ++ waiting r'.state i) (sym ei);
}
Step-Agrees sh0 r r' sh sh' small a c (begins e e' ea eq) ei = record {
  consistent = c;
  counted = omega (arith, ap weight e, ap weight e', ea, a.counted);
  queued =
      eq
      ∙ a.queued
      ∙ ap (λ st. sh0.queue ++ waiting st r.request_id) e
      ∙ ap (λ st. sh0.queue ++ waiting st r'.request_id) (sym e');
}
Step-Agrees sh0 r r' sh sh' small a c (hands_over e e' ea eq) ei = record {
  consistent = c;
  counted = omega (arith, ap weight e, ap weight e', ea, a.counted);
  queued =
      eq
      ∙ ap (λ q. q ++ (r.request_id ∷ []))
          (a.queued ∙ ap (λ st. sh0.queue ++ waiting st r.request_id) e ∙ append-nil sh0.queue)
      ∙ ap (λ i. sh0.queue ++ (i ∷ [])) (sym ei)
      ∙ ap (λ st. sh0.queue ++ waiting st r'.request_id) (sym e');
}
Step-Agrees sh0 r r' sh sh' small a c (cancels e e' ea eq) ei = record {
  consistent = c;
  counted = omega (arith, ap weight e, ap weight e', ea, a.counted);
  queued =
      eq
      ∙ a.queued
      ∙ ap (λ st. sh0.queue ++ waiting st r.request_id) e
      ∙ ap (λ st. sh0.queue ++ waiting st r'.request_id) (sym e');
}

module _ (limit : ℕ) (name_memory value_memory : List ℕ) (message : Deserializer → List ℕ) where
  -- The packets of a connection for one request, handled one after the other. (What is left of
  -- each packet, and the request's neighbours, are the business of the connection.)
  pub run_packets : List Header → Request → Shared → Result (Request × Shared)
  unfolding handle_packet
  run_packets [] r sh = ok (r, sh)
  run_packets (h ∷ hs) r sh =
      handle_packet limit name_memory value_memory message h r sh >>= λ (h', r', sh').
      run_packets hs r' sh'

  pub run_packets_step :
      (h h' : Header) (hs : List Header) (r r1 : Request) (sh sh1 : Shared)
      → handle_packet limit name_memory value_memory message h r sh ≡ ok (h', r1, sh1)
      → run_packets (h ∷ hs) r sh ≡ run_packets hs r1 sh1
  unfolding run_packets
  run_packets_step h h' hs r r1 sh sh1 e = ap (λ x. x >>= λ (h', r', sh'). run_packets hs r' sh') e

  pub run_packets_last :
      (h h' : Header) (r r1 : Request) (sh sh1 : Shared)
      → handle_packet limit name_memory value_memory message h r sh ≡ ok (h', r1, sh1)
      → run_packets (h ∷ []) r sh ≡ ok (r1, sh1)
  unfolding run_packets
  run_packets_last h h' r r1 sh sh1 e = run_packets_step h h' [] r r1 sh sh1 e

  pub run_packets_two :
      (h1 h2 h1' h2' : Header) (r r1 r2 : Request) (sh sh1 sh2 : Shared)
      → handle_packet limit name_memory value_memory message h1 r sh ≡ ok (h1', r1, sh1)
      → handle_packet limit name_memory value_memory message h2 r1 sh1 ≡ ok (h2', r2, sh2)
      → run_packets (h1 ∷ h2 ∷ []) r sh ≡ ok (r2, sh2)
  run_packets_two h1 h2 h1' h2' r r1 r2 sh sh1 sh2 e1 e2 =
      run_packets_step h1 h1' (h2 ∷ []) r r1 sh sh1 e1 ∙ run_packets_last h2 h2' r1 r2 sh1 sh2 e2

  run_packets-Agrees :
      (hs : List Header) (sh0 : Shared) (r r' : Request) (sh sh' : Shared)
      → sh0.request_actives + 1 < 2 ^ 32
      → Agrees sh0 r sh
      → run_packets hs r sh ≡ ok (r', sh')
      → Agrees sh0 r' sh'
  unfolding run_packets
  run_packets-Agrees [] sh0 r r' sh sh' small a e = Ensures_elim (λ (x, y). Agrees sh0 x y) e a
  run_packets-Agrees (h ∷ hs) sh0 r r' sh sh' small a e =
      let ((h1, r1, sh1), first, rest) =
        >>=-eq-ok (handle_packet limit name_memory value_memory message h r sh)
          (λ (h', r', sh'). run_packets hs r' sh') e in
      let (c, st, ei) =
        handle_packet-Step limit name_memory value_memory message h h1 r r1 sh sh1 a.consistent
          first in
      run_packets-Agrees hs sh0 r1 r' sh1 sh' small (Step-Agrees sh0 r r1 sh sh1 small a c st ei)
        rest

  -- A new request, after any packets in any order: it counts as active in its connection exactly
  -- when it is not ready, and it stands in the queue of the workers, once and behind the requests
  -- that were there, exactly when it is pending.
  pub run_packets_new :
      (hs : List Header) (memory : BeginRequestBody) (request_id : ℕ) (r : Request)
      (sh0 sh : Shared)
      → sh0.request_actives + 1 < 2 ^ 32
      → run_packets hs (new_request memory request_id) sh0 ≡ ok (r, sh)
      → Agrees sh0 r sh
  run_packets_new hs memory request_id r sh0 sh small e =
      run_packets-Agrees hs sh0 (new_request memory request_id) r sh0 sh small
        (record { consistent = tt; counted = omega arith; queued = sym (append-nil sh0.queue) }) e

  -- A request that was handed to the workers stays pending whatever packets come, BEGIN_REQUEST
  -- among them: its id serves no second request on the connection.
  pub run_packets_pending :
      (hs : List Header) (r r' : Request) (sh sh' : Shared)
      → IsConsistent r
      → r.state ≡ pending
      → run_packets hs r sh ≡ ok (r', sh')
      → (r'.state ≡ pending) × (sh'.request_actives ≡ sh.request_actives) × (sh'.queue ≡ sh.queue)
  unfolding run_packets
  run_packets_pending [] r r' sh sh' c p e =
      Ensures_elim
        (λ (x, y).
          (x.state ≡ pending) × (y.request_actives ≡ sh.request_actives) × (y.queue ≡ sh.queue))
        e (p, refl, refl)
  run_packets_pending (h ∷ hs) r r' sh sh' c p e =
      let ((h1, r1, sh1), first, rest) =
        >>=-eq-ok (handle_packet limit name_memory value_memory message h r sh)
          (λ (h', r', sh'). run_packets hs r' sh') e in
      let (c1, st, ei) =
        handle_packet-Step limit name_memory value_memory message h h1 r r1 sh sh1 c first in
      let (p1, ea, eq) = Step-pending p st in
      let (p2, ea2, eq2) = run_packets_pending hs r1 r' sh1 sh' c1 p1 rest in
      (p2, ea2 ∙ ea, eq2 ∙ eq)
