-- ===== src/Connection/Teardown.antt =====
-- What the teardown of a connection does to the table of its requests and to their count.
use tfcgi.Prelude.{
  tally, ℕ, zero, suc, ◌+◌, ◌-◌, ◌^◌, ◌<◌, ◌≡◌, refl, sym, ap, ◌∙◌, List, [], ◌∷◌, Option, none,
  some, length, get_or, arith,
}
use tfcgi.Request.{State, ready, reading_params, pending, app_running, Request, Shared}
use tfcgi.Connection.{Connection, discard, discard_by, discard_all, teardown, entry}
use tfcgi.Connection.Table.{Fits, TableFrom}
use tfcgi.Connection.Effects.{by_state}

-- Requests that are reading their parameters, and requests that the workers have or had.
abbrev pub reading : State → ℕ
reading reading_params = 1
reading ready = 0
reading pending = 0
reading app_running = 0

abbrev pub held : State → ℕ
held pending = 1
held app_running = 1
held ready = 0
held reading_params = 0

-- One entry: the count falls by the weight of the entry, to `k`.
record DiscardedOne (k : ℕ) (o : Option Request) (sh : Shared) (o' : Option Request) (sh' : Shared)
    : Type 0 where
  actives : sh'.request_actives ≡ k
  queue : sh'.queue ≡ sh.queue
  socket : sh'.socket ≡ sh.socket
  no_reading : by_state reading o' ≡ 0
  same_held : by_state held o' ≡ by_state held o
  kept : (q : Request) → o ≡ some q → q.state ≡ pending → o' ≡ some q
  fits : (i : ℕ) → Fits i o → Fits i o'

discard_by-DiscardedOne :
    (st : State) (k : ℕ) (r : Request) (sh : Shared)
    → r.state ≡ st
    → sh.request_actives ≡ k + reading st
    → k + reading st < 2 ^ 32
    → DiscardedOne k (some r) sh (discard_by st r sh).0 (discard_by st r sh).1
unfolding discard_by
discard_by-DiscardedOne reading_params k r sh e a small = record {
  actives = omega (arith, a);
  queue = refl;
  socket = refl;
  no_reading = refl;
  same_held = ap held (sym e);
  kept = λ q eq p. cc;
  fits = λ i f. tt;
}
discard_by-DiscardedOne ready k r sh e a small = record {
  actives = omega (arith, a);
  queue = refl;
  socket = refl;
  no_reading = refl;
  same_held = ap held (sym e);
  kept = λ q eq p. cc;
  fits = λ i f. tt;
}
discard_by-DiscardedOne pending k r sh e a small = record {
  actives = omega (arith, a);
  queue = refl;
  socket = refl;
  no_reading = ap reading e;
  same_held = refl;
  kept = λ q eq p. eq;
  fits = λ i f. f;
}
discard_by-DiscardedOne app_running k r sh e a small = record {
  actives = omega (arith, a);
  queue = refl;
  socket = refl;
  no_reading = ap reading e;
  same_held = refl;
  kept = λ q eq p. eq;
  fits = λ i f. f;
}

discard-DiscardedOne :
    (k : ℕ) (o : Option Request) (sh : Shared)
    → sh.request_actives ≡ k + by_state reading o
    → k + by_state reading o < 2 ^ 32
    → DiscardedOne k o sh (discard o sh).0 (discard o sh).1
discard-DiscardedOne k none sh a small = record {
  actives = omega (arith, a);
  queue = refl;
  socket = refl;
  no_reading = refl;
  same_held = refl;
  kept = λ q eq p. eq;
  fits = λ i f. f;
}
discard-DiscardedOne k (some r) sh a small = discard_by-DiscardedOne r.state k r sh refl a small

-- The whole table.
pub record Discarded (k : ℕ) (table : List (Option Request)) (sh : Shared)
    (table' : List (Option Request)) (sh' : Shared) : Type 0 where
  pub actives : sh'.request_actives ≡ k
  pub queue : sh'.queue ≡ sh.queue
  pub socket : sh'.socket ≡ sh.socket
  pub no_reading : tally (by_state reading) table' ≡ 0
  pub same_held : tally (by_state held) table' ≡ tally (by_state held) table
  pub same_length : length table' ≡ length table
  pub kept :
      (i : ℕ) (q : Request)
      → get_or table i none ≡ some q
      → q.state ≡ pending
      → get_or table' i none ≡ some q
  pub is_table : (i : ℕ) → TableFrom i table → TableFrom i table'

pub discard_all-Discarded :
    (k : ℕ) (table : List (Option Request)) (sh : Shared)
    → sh.request_actives ≡ k + tally (by_state reading) table
    → k + tally (by_state reading) table < 2 ^ 32
    → Discarded k table sh (discard_all table sh).0 (discard_all table sh).1
unfolding discard_all
discard_all-Discarded k [] sh a small = record {
  actives = omega (arith, a);
  queue = refl;
  socket = refl;
  no_reading = refl;
  same_held = refl;
  same_length = refl;
  kept = λ i q e p. e;
  is_table = λ i t. t;
}
discard_all-Discarded k (o ∷ table) sh a small =
    let one =
      discard-DiscardedOne (k + tally (by_state reading) table) o sh (omega (arith, a))
        (omega arith) in
    let sh1 = (discard o sh).1 in
    let rest = discard_all-Discarded k table sh1 one.actives (omega arith) in
    record {
      actives = rest.actives;
      queue = rest.queue ∙ one.queue;
      socket = rest.socket ∙ one.socket;
      no_reading = omega (arith, one.no_reading, rest.no_reading);
      same_held = omega (arith, one.same_held, rest.same_held);
      same_length = ap suc rest.same_length;
      kept = kept_cons (discard o sh).0 (discard_all table sh1).0 one.kept rest.kept;
      is_table = λ i (f, t). (one.fits i f, rest.is_table (suc i) t);
    }
  where
    kept_cons :
        (o' : Option Request) (table' : List (Option Request))
        → ((q : Request) → o ≡ some q → q.state ≡ pending → o' ≡ some q)
        → ((i : ℕ) (q : Request)
            → get_or table i none ≡ some q
            → q.state ≡ pending
            → get_or table' i none ≡ some q)
        → (i : ℕ) (q : Request) → get_or (o ∷ table) i none ≡ some q
        → q.state ≡ pending
        → get_or (o' ∷ table') i none ≡ some q
    kept_cons o' table' h hs zero q e p = h q e p
    kept_cons o' table' h hs (suc i) q e p = hs i q e p

pub teardown-Discarded :
    (k : ℕ) (c : Connection)
    → c.shared.request_actives ≡ k + tally (by_state reading) c.requests
    → k + tally (by_state reading) c.requests < 2 ^ 32
    → Discarded k c.requests c.shared (teardown c).requests (teardown c).shared
unfolding teardown
teardown-Discarded k c a small = discard_all-Discarded k c.requests c.shared a small

-- The teardown of a connection on which `request_actives` counts the requests that read their
-- parameters and `k` others: no request reads its parameters behind it, the count is `k`, a request
-- that is pending stays in the table as it was, and the queue of the workers is not touched.
pub teardown_keeps_pending :
    (k : ℕ) (c : Connection) (i : ℕ) (r : Request)
    → c.shared.request_actives ≡ k + tally (by_state reading) c.requests
    → k + tally (by_state reading) c.requests < 2 ^ 32
    → entry i c.requests ≡ some r
    → r.state ≡ pending
    → (tally (by_state reading) (teardown c).requests ≡ 0)
      × ((teardown c).shared.request_actives ≡ k)
      × (entry i (teardown c).requests ≡ some r)
      × ((teardown c).shared.queue ≡ c.shared.queue)
teardown_keeps_pending k c i r a small e p =
    let d = teardown-Discarded k c a small in
    (d.no_reading, d.actives, d.kept (i - 1) r e p, d.queue)
