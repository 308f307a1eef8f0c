-- ===== src/Server/Drained.antt =====
-- What is left when `main` calls `fcgi::shutdown`.
use tfcgi.Prelude.{
  ℕ, zero, suc, ◌^◌, ◌<◌, ◌≡◌, ◌≢◌, ◌⊎◌, refl, sym, ap, ◌∙◌, Bool-cases, inl, inr, Bool, true,
  false, List, [], ◌∷◌, length, set, All, replicate, arith,
}
use mathlib.Core.Path.{subst}
use tfcgi.Connection.{Connection, new_connection}
use tfcgi.Server.{
  WorkerPhase, starting, testing, waiting, taking, working, finished, shut_down, Entry, Server,
  AcceptResult, accepted, accept_failed, accept_retries, after_accept, goes_on, Step, calls_accept,
  accepts, stops_listening, joins, connection_moves, announces, pushes, erases, worker_starts,
  worker_waits, worker_exits, worker_pops, worker_wakes, worker_ends, Reach, here, next, start,
}
use tfcgi.Server.Counters.{IsCounted, Step-IsCounted, start-IsCounted}
use tfcgi.Server.Callbacks.{callbacks_in_order, AllJoined}
use tfcgi.Server.Shutdown.{in_accept, no_entry}

-- In no state of the run do the connections reach the number at which their count wraps.
abbrev pub Few : {s t : Server} → Reach s t → Type 0
Few {s} here = length s.global_list < 2 ^ 32
Few (next {t} {u} r st) = Few r × (length u.global_list < 2 ^ 32)

-- There is no connection, and none can come.
record IsOver (listening : Bool) (entries : List Entry) : Type 0 where
  closed : listening ≡ false
  alone : entries ≡ []

abbrev NoneFinished : List WorkerPhase → Type 0
NoneFinished workers = All (λ p. p ≢ finished) workers

-- `main` is in `accept` only while it listens; and a worker is finished only when all is over.
record IsGuarded (s : Server) : Type 0 where
  listens : s.socket_listening ≡ false → in_accept s.main ≡ 0
  ended : NoneFinished s.workers ⊎ IsOver s.socket_listening s.global_list

none_set :
    (workers : List WorkerPhase) (i : ℕ) (q : WorkerPhase)
    → q ≢ finished
    → All (λ p. p ≢ finished) workers
    → All (λ p. p ≢ finished) (set workers i q)
none_set [] i q ne h = tt
none_set (p ∷ workers) zero q ne (n, h) = (ne, h)
none_set (p ∷ workers) (suc i) q ne (n, h) = (n, none_set workers i q ne h)

-- A worker goes on to a phase that is not the last, and all that matters stays.
worker_on :
    (s t : Server) (i : ℕ) (q : WorkerPhase)
    → IsGuarded s
    → q ≢ finished
    → t.socket_listening ≡ s.socket_listening
    → t.global_list ≡ s.global_list
    → t.main ≡ s.main
    → t.workers ≡ set s.workers i q
    → IsGuarded t
worker_on s t i q k ne el eg em ew = record {
  listens = λ down. ap in_accept em ∙ k.listens (sym el ∙ down);
  ended = elim k.ended [
    | inl none ↦ inl (subst (All (λ p. p ≢ finished)) (sym ew) (none_set s.workers i q ne none))
    | inr over ↦ inr (record { closed = el ∙ over.closed; alone = eg ∙ over.alone })
  ];
}

-- A step of a connection that is in the list: not all is over.
connection_on :
    (s t : Server)
    → IsGuarded s
    → s.global_list ≢ []
    → t.socket_listening ≡ s.socket_listening
    → t.main ≡ s.main
    → t.workers ≡ s.workers
    → IsGuarded t
connection_on s t k ne el em ew = record {
  listens = λ down. ap in_accept em ∙ k.listens (sym el ∙ down);
  ended = elim k.ended [
    | inl none ↦ inl (subst (All (λ p. p ≢ finished)) (sym ew) none)
    | inr over ↦ absurd (ne over.alone)
  ];
}

after_accept_workers :
    (result : AcceptResult) (c : Connection) (s : Server)
    → (after_accept result c s).workers ≡ s.workers
unfolding after_accept
after_accept_workers (accepted fd) c s = refl
after_accept_workers (accept_failed e) c s = elim (Bool-cases (accept_retries e)) [
  | inl again ↦ rw again refl
  | inr over ↦ rw over refl
]

-- The condition of the loop of a worker fails.
loop_ends : (s : Server) → goes_on s ≡ false → (s.socket_listening ≡ false) × (s.socket_active ≡ 0)
loop_ends s e = ground arith

no_length : (es : List Entry) → length es ≡ 0 → es ≡ []
no_length [] e = refl
no_length (x ∷ es) e = absurd (omega arith)

Step-IsGuarded :
    {n : ℕ} {s t : Server}
    → IsCounted n s
    → length s.global_list < 2 ^ 32
    → IsGuarded s
    → Step s t
    → IsGuarded t
Step-IsGuarded c few k (calls_accept m l) = record {
  listens = λ down. absurd (differ (sym l ∙ down));
  ended = elim k.ended [ inl none ↦ inl none | inr over ↦ absurd (differ (sym l ∙ over.closed)) ];
}
  where
    differ : true ≢ false
    differ e = cc
Step-IsGuarded {n} {s} c few k (accepts result host socket sh m) = record {
  listens = λ down. refl;
  ended = elim k.ended [
    | inl none ↦ inl (
        subst (All (λ p. p ≢ finished))
          (sym (after_accept_workers result (new_connection host socket sh) s)) none)
    | inr over ↦ absurd (omega (arith, k.listens over.closed, ap in_accept m))
  ];
}
Step-IsGuarded c few k (stops_listening m l) = record { listens = λ down. refl; ended = k.ended }
Step-IsGuarded c few k (joins m all) = record { listens = λ down. refl; ended = k.ended }
Step-IsGuarded {n} {s} c few k (connection_moves before after e c' split) =
    connection_on s _ k (λ q. no_entry before after e (sym q ∙ split)) refl refl refl
Step-IsGuarded {n} {s} c few k (announces before after e i split idle) =
    connection_on s _ k (λ q. no_entry before after e (sym q ∙ split)) refl refl refl
Step-IsGuarded {n} {s} c few k (pushes before after e i split busy) =
    connection_on s _ k (λ q. no_entry before after e (sym q ∙ split)) refl refl refl
Step-IsGuarded {n} {s} c few k (erases before after e split idle) =
    connection_on s _ k (λ q. no_entry before after e (sym q ∙ split)) refl refl refl
Step-IsGuarded {n} {s} c few k (worker_starts i w) =
    worker_on s _ i testing k (λ e. cc) refl refl refl refl
Step-IsGuarded {n} {s} c few k (worker_waits i w g) =
    worker_on s _ i waiting k (λ e. cc) refl refl refl refl
Step-IsGuarded {n} {s} c few k (worker_exits i w g) =
    let (closed, inactive) = loop_ends s g in
    record {
      listens = k.listens;
      ended = inr (record {
        closed = closed;
        alone = no_length s.global_list (omega (arith, c.connected, inactive));
      });
    }
Step-IsGuarded {n} {s} c few k (worker_pops i request queue w e) =
    worker_on s _ i taking k (λ e. cc) refl refl refl refl
Step-IsGuarded {n} {s} c few k (worker_wakes i w) =
    worker_on s _ i working k (λ e. cc) refl refl refl refl
Step-IsGuarded {n} {s} c few k (worker_ends i w) =
    worker_on s _ i testing k (λ e. cc) refl refl refl refl

Few-last : {s t : Server} (r : Reach s t) → Few r → length t.global_list < 2 ^ 32
Few-last here few = few
Few-last (next r st) (few, last) = last

Reach-IsGuarded :
    {n : ℕ} {s t : Server}
    → IsCounted n s
    → IsGuarded s
    → (r : Reach s t) → Few r
    → IsCounted n t × IsGuarded t
Reach-IsGuarded c k here few = (c, k)
Reach-IsGuarded c k (next r st) (few, last) =
    let (c', k') = Reach-IsGuarded c k r few in
    (Step-IsCounted c' st, Step-IsGuarded c' (Few-last r few) k' st)

none_starting : (n : ℕ) → All (λ p. p ≢ finished) (replicate n starting)
none_starting zero = tt
none_starting (suc n) = ((λ e. cc), none_starting n)

some_finished :
    (workers : List WorkerPhase)
    → 0 < length workers
    → All (λ p. p ≡ finished) workers
    → All (λ p. p ≢ finished) workers
    → ⊥
some_finished [] pos all none = omega arith
some_finished (p ∷ workers) pos (e, all) (ne, none) = ne e

-- When `main` calls `fcgi::shutdown` all connections are closed and their threads have erased them,
-- as its documentation says, and the process no longer listens: however the threads interleave, if
-- there is a worker at all, and the number of connections never reached 2 ^ 32, at which their count
-- wraps round.
pub shutdown_after_connections :
    (n : ℕ) (s : Server) (r : Reach (start n) s)
    → 0 < n
    → Few r
    → s.main ≡ shut_down
    → (s.socket_listening ≡ false) × (s.global_list ≡ [])
shutdown_after_connections n s r pos few m =
    let (c, k) =
      Reach-IsGuarded (start-IsCounted n)
        (record { listens = λ down. refl; ended = inl (none_starting n) }) r few in
    let (_, _, joined) = callbacks_in_order 0 n (start n) s refl r in
    let all = subst (λ p. AllJoined p s.workers) m joined in
    elim k.ended [
      | inl none ↦ absurd (some_finished s.workers (omega (arith, c.threads)) all none)
      | inr over ↦ (over.closed, over.alone)
    ]
