-- ===== src/System/Moves.antt =====
-- The count of the active requests, over the teardown and the steps of the workers.
use tfcgi.Prelude.{
  tally, tally-set, get_or-set_self, get_or-set_ne, length-set, ℕ, zero, suc, false, get_or, ◌+◌,
  ◌-◌, ◌<◌, ◌≡◌, ◌≢◌, sym, ap, ◌∙◌, Bool-cases, inl, inr, List, [], ◌∷◌, ◌++◌, Option, none, some,
  length, length-append, All, ◌==◌, arith, set, ok, Ensures_elim,
}
use mathlib.Core.Path.{subst}
use mathlib.Core.Option.{some-injective}
use tfcgi.Request.{State, Request, Shared}
use tfcgi.Worker.{AppOutput, AppEnd, pop_request, work}
use tfcgi.Worker.Backlog.{pop_request_rest}
use tfcgi.Worker.Finished.{SameLife, work-SameLife, work_shared}
use tfcgi.Request.Lifecycle.{Consistent}
use tfcgi.Connection.{Host, Connection, entry, teardown}
use tfcgi.Connection.Table.{Fits, entry-Fits, set-IsTable}
use tfcgi.Connection.Effects.{by_state}
use tfcgi.Connection.Teardown.{reading, held, Discarded, teardown-Discarded}
use tfcgi.System.{ended}
use tfcgi.System.Counts.{IsHeld, IsCounted, actives-lt, All-map}

-- Equal entries are requests in the same state.
state_of_some : {r q : Request} → some r ≡ some q → r.state ≡ q.state
state_of_some {r} {q} e = ap (λ (x : Request). x.state) (some-injective r q e)

pub get_or-lt :
    (table : List (Option Request)) (i : ℕ) (r : Request)
    → get_or table i none ≡ some r
    → i < length table
get_or-lt [] i r e = cc
get_or-lt (o ∷ table) zero r e = omega arith
get_or-lt (o ∷ table) (suc i) r e = omega (arith, get_or-lt table i r e)

other_place : (i j : ℕ) → 0 < i → 0 < j → (i == j) ≡ false → j - 1 ≢ i - 1
other_place i j ipos jpos e q = ground arith

pub pop_request_same :
    (request_id : ℕ) (sh sh' : Shared)
    → pop_request sh ≡ ok (request_id, sh')
    → (sh.queue ≡ request_id ∷ sh'.queue)
      × (sh'.request_actives ≡ sh.request_actives)
      × (sh'.socket ≡ sh.socket)
pop_request_same request_id sh sh' e =
    Ensures_elim
      (λ (i, s).
        (sh.queue ≡ i ∷ s.queue)
        × (s.request_actives ≡ sh.request_actives)
        × (s.socket ≡ sh.socket))
      e (pop_request_rest sh)

Discarded-IsCounted :
    (c : Connection) (running : List ℕ)
    → IsCounted c.requests c.shared.request_actives c.shared.queue running
    → Discarded
        (length c.shared.queue + length running)
        c.requests
        c.shared
        (teardown c).requests
        (teardown c).shared
    → IsCounted
        (teardown c).requests
        (teardown c).shared.request_actives
        (teardown c).shared.queue
        running
Discarded-IsCounted c running k d = record {
  is_table = d.is_table 1 k.is_table;
  short = omega (arith, d.same_length, k.short);
  counted = omega (arith, d.actives, ap length d.queue, d.no_reading);
  covered = omega (arith, ap length d.queue, d.same_held, k.covered);
  queue_held =
      subst (All (IsHeld (teardown c).requests)) (sym d.queue)
        (All-map kept c.shared.queue k.queue_held);
  running_held = All-map kept running k.running_held;
}
  where
    kept : (i : ℕ) → IsHeld c.requests i → IsHeld (teardown c).requests i
    kept i (r, pos, e, p) = (r, pos, d.kept (i - 1) r e p, p)

-- The teardown keeps it, and leaves no request that reads its parameters.
pub teardown-IsCounted :
    (c : Connection) (running : List ℕ)
    → IsCounted c.requests c.shared.request_actives c.shared.queue running
    → IsCounted
        (teardown c).requests
        (teardown c).shared.request_actives
        (teardown c).shared.queue
        running
      × (tally (by_state reading) (teardown c).requests ≡ 0)
      × ((teardown c).shared.socket ≡ c.shared.socket)
teardown-IsCounted c running k =
    let d =
      teardown-Discarded (length c.shared.queue + length running) c k.counted
        (omega (arith, k.counted, actives-lt k)) in
    (Discarded-IsCounted c running k d, d.no_reading, d.socket)

-- A worker takes the first request of the queue.
pub takes-IsCounted :
    (table : List (Option Request)) (sh sh' : Shared) (running : List ℕ) (request_id : ℕ)
    → IsCounted table sh.request_actives sh.queue running
    → pop_request sh ≡ ok (request_id, sh')
    → IsCounted table sh'.request_actives sh'.queue (request_id ∷ running)
      × (sh'.request_actives ≡ sh.request_actives)
      × (sh'.socket ≡ sh.socket)
takes-IsCounted table sh sh' running request_id k e =
    let (first, actives, socket) = pop_request_same request_id sh sh' e in
    let (h, hs) = subst (All (IsHeld table)) first k.queue_held in
    (
      record {
        is_table = k.is_table;
        short = k.short;
        counted = omega (arith, actives, ap length first, k.counted);
        covered = omega (arith, ap length first, k.covered);
        queue_held = hs;
        running_held = (h, k.running_held);
      },
      actives,
      socket,
    )

All-split :
    (P : ℕ → Type 0) (before after : List ℕ) (i : ℕ)
    → All P (before ++ (i ∷ after))
    → P i × All P (before ++ after)
All-split P [] after i (h, hs) = (h, hs)
All-split P (j ∷ before) after i (h, hs) =
    let (p, rest) = All-split P before after i hs in (p, (h, rest))

module _ (host : Host) (respond : Request → List AppOutput × AppEnd) where
  -- A worker has done with a request that it held.
  pub ends-IsCounted :
      (c : Connection) (before after : List ℕ) (request_id : ℕ) (r : Request)
      → IsCounted c.requests c.shared.request_actives c.shared.queue
          (before ++ (request_id ∷ after))
      → entry request_id c.requests ≡ some r
      → let c' = ended host respond request_id r c in
        IsCounted c'.requests c'.shared.request_actives c'.shared.queue (before ++ after)
        × (tally (by_state reading) c'.requests ≡ tally (by_state reading) c.requests)
        × (c'.shared.socket ≡ c.shared.socket)
  ends-IsCounted c before after request_id r k e =
      let (actives, queue, socket, backlog) = work_shared respond host.to_string r c.shared in
      (
        record {
          is_table = set-IsTable request_id c.requests (some r') pos k.is_table fits';
          short = omega (arith, length-set c.requests (request_id - 1) (some r'), k.short);
          counted = omega (
            arith,
            actives,
            ap length queue,
            same_tally reading,
            k.counted,
            lengths,
            lengths',
            actives-lt k,
          );
          covered = omega (arith, ap length queue, same_tally held, k.covered, lengths, lengths');
          queue_held =
              subst (All (IsHeld table')) (sym queue) (All-map still c.shared.queue k.queue_held);
          running_held = All-map still (before ++ after) split.1;
        },
        same_tally reading,
        socket,
      )
    where
      split : IsHeld c.requests request_id × All (IsHeld c.requests) (before ++ after)
      split = All-split (IsHeld c.requests) before after request_id k.running_held

      r' : Request
      r' = (work respond host.to_string r c.shared).0

      table' : List (Option Request)
      table' = set c.requests (request_id - 1) (some r')

      life : SameLife r r'
      life = work-SameLife respond host.to_string r c.shared

      pos : 0 < request_id
      pos = split.0.1

      inside : request_id - 1 < length c.requests
      inside = get_or-lt c.requests (request_id - 1) r e

      fits : Fits request_id (some r)
      fits = subst (Fits request_id) e (entry-Fits request_id c.requests pos k.is_table)

      fits' : Fits request_id (some r')
      fits' = (
        subst (λ o. Consistent r'.state o) (sym life.2)
            (subst (λ st. Consistent st r.params_deserializer) (sym life.1) fits.0),
        life.0 ∙ fits.1,
      )

      same_tally : (f : State → ℕ) → tally (by_state f) table' ≡ tally (by_state f) c.requests
      same_tally f = omega (
        arith,
        tally-set (by_state f) c.requests (request_id - 1) (some r') none inside,
        ap (by_state f) e,
        ap f life.1,
      )

      lengths : length (before ++ (request_id ∷ after)) ≡ length before + suc (length after)
      lengths = length-append before (request_id ∷ after)

      lengths' : length (before ++ after) ≡ length before + length after
      lengths' = length-append before after

      still : (i : ℕ) → IsHeld c.requests i → IsHeld table' i
      still i (q, ipos, eq, p) = elim (Bool-cases (i == request_id)) [
        | inr other ↦ (
          q,
          ipos,
          get_or-set_ne c.requests (request_id - 1) (i - 1) (some r') none
                (other_place i request_id ipos pos other)
              ∙ eq,
          p,
        )
        | inl same ↦
            let ei : i ≡ request_id = ground arith in
            (
              r',
              ipos,
              ap (λ (j : ℕ). entry j table') ei
                  ∙ get_or-set_self c.requests (request_id - 1) (some r') none inside,
              life.1
                  ∙ state_of_some (sym e ∙ (ap (λ (j : ℕ). entry j c.requests) (sym ei) ∙ eq))
                  ∙ p,
            )
      ]
