-- ===== src/Worker/Backlog.antt =====
-- The queue of the workers and the number that counts it.
use tfcgi.Prelude.{
  ℕ, ◌+◌, ◌%◌, ◌^◌, ◌<◌, ◌≡◌, refl, ap, ◌∙◌, List, [], ◌∷◌, ◌++◌, length, length-append, ok, arith,
  Ensures, Ensures_elim,
}
use tfcgi.Protocol.{Header, BeginRequestBody}
use tfcgi.Nvp.Deserializer.{Deserializer}
use tfcgi.Request.{pending, Request, Shared, new_request, push_request, decrement}
use tfcgi.Request.Lifecycle.{weight}
use tfcgi.Request.Runs.{run_packets, run_packets_new, waiting}
use tfcgi.Worker.{pop_queue, pop_request, AppOutput, AppEnd, work, finish}

-- `workers_backlog` is the length of the queue, as an unsigned int.
abbrev pub IsCounted : Shared → Type 0
IsCounted sh = sh.backlog ≡ length sh.queue % 2 ^ 32

pop_request-Ensures :
    (queue : List ℕ) (sh : Shared)
    → sh.queue ≡ queue
    → IsCounted sh
    → Ensures
        (pop_request sh)
        (λ (request_id, sh'). IsCounted sh' × (sh.queue ≡ request_id ∷ sh'.queue))
unfolding pop_request
pop_request-Ensures [] sh e c = rw e tt
pop_request-Ensures (x ∷ queue) sh e c = rw e (omega (arith, c, ap length e), refl)

-- `push_request` keeps the backlog the length of the queue, and puts the request behind all others.
pub push_request_backlog :
    (r : Request) (sh : Shared)
    → IsCounted sh
    → IsCounted (push_request r sh) × ((push_request r sh).queue ≡ sh.queue ++ (r.request_id ∷ []))
unfolding push_request
push_request_backlog r sh c = (omega (arith, c, length-append sh.queue (r.request_id ∷ [])), refl)

-- `pop_request`, when it returns, has taken the first of the queue, and keeps the backlog the length
-- of the queue.
pub pop_request_backlog :
    (request_id : ℕ) (sh sh' : Shared)
    → IsCounted sh
    → pop_request sh ≡ ok (request_id, sh')
    → IsCounted sh' × (sh.queue ≡ request_id ∷ sh'.queue)
pop_request_backlog request_id sh sh' c e =
    Ensures_elim (λ (i, s). IsCounted s × (sh.queue ≡ i ∷ s.queue)) e
      (pop_request-Ensures sh.queue sh refl c)

-- The rest of `Shared` stays.
pub pop_request_rest :
    (sh : Shared)
    → Ensures (pop_request sh) (λ (request_id, sh').
      (sh.queue ≡ request_id ∷ sh'.queue)
      × (sh'.request_actives ≡ sh.request_actives)
      × (sh'.socket ≡ sh.socket))
unfolding pop_request
pop_request_rest sh = go sh.queue refl
  where
    go :
        (queue : List ℕ)
        → sh.queue ≡ queue
        → Ensures (pop_queue queue sh) (λ (request_id, sh').
          (sh.queue ≡ request_id ∷ sh'.queue)
          × (sh'.request_actives ≡ sh.request_actives)
          × (sh'.socket ≡ sh.socket))
    go [] e = tt
    go (x ∷ queue) e = (e, refl, refl)

pub pop_request_one :
    (queue : List ℕ) (request_id : ℕ) (sh : Shared)
    → sh.queue ≡ request_id ∷ queue
    → pop_request sh ≡ ok (request_id, record sh { queue = queue; backlog = decrement sh.backlog })
unfolding pop_request
pop_request_one queue request_id sh e = ap (λ q. pop_queue q sh) e

module _ (limit : ℕ) (name_memory value_memory : List ℕ) (message : Deserializer → List ℕ)
    (respond : Request → List AppOutput × AppEnd) (to_string : ℕ → List ℕ) where
  -- The life of a request: when the packets of the connection have made a new request pending, and
  -- no other stood in the queue, the next worker pops just this request, and when it has done with
  -- it the queue is empty and the count of active requests is what it was before the request came.
  pub request_round :
      (hs : List Header) (memory : BeginRequestBody) (request_id : ℕ) (r : Request)
      (sh0 sh : Shared)
      → sh0.request_actives + 1 < 2 ^ 32
      → sh0.queue ≡ []
      → run_packets limit name_memory value_memory message hs (new_request memory request_id) sh0
        ≡ ok (r, sh)
      → r.state ≡ pending
      → (sh1 : Shared) × (pop_request sh ≡ ok (r.request_id, sh1))
        × ((work respond to_string r sh1).1.queue ≡ [])
        × ((work respond to_string r sh1).1.request_actives ≡ sh0.request_actives)
  unfolding work finish
  request_round hs memory request_id r sh0 sh small empty e p =
      let a =
        run_packets_new limit name_memory value_memory message hs memory request_id r sh0 sh small
          e in
      let one : sh.queue ≡ r.request_id ∷ [] =
        a.queued
        ∙ ap (λ q. q ++ waiting r.state r.request_id) empty
        ∙ ap (λ st. waiting st r.request_id) p in
      (
        record sh { queue = []; backlog = decrement sh.backlog },
        pop_request_one [] r.request_id sh one,
        refl,
        omega (arith, a.counted, ap weight p),
      )
