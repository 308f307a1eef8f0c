-- ===== src/Server/Shutdown.antt =====
-- The process once its listening socket is closed.
use tfcgi.Prelude.{
  ℕ, zero, suc, none, some, ◌+◌, ◌≤◌, ◌≡◌, ◌≢◌, refl, sym, ap, ◌∙◌, Bool-cases, inl, inr, true,
  false, List, [], ◌∷◌, ◌++◌, length, length-append, length-insert, get_or, set, All, get_or-set_ne,
  arith,
}
use tfcgi.Connection.{Connection, new_connection}
use tfcgi.Server.Counters.{length-exchange}
use tfcgi.Server.{
  WorkerPhase, starting, testing, waiting, taking, working, finished, MainPhase, looping, accepting,
  joining, shut_down, Entry, Server, AcceptResult, accepted, accept_failed, accept_retries,
  after_accept, worker_at, Step, calls_accept, accepts, stops_listening, joins, announces,
  connection_moves, pushes, erases, worker_starts, worker_waits, worker_exits, worker_pops,
  worker_wakes, worker_ends, Reach, here, next,
}

-- A connection that `accept` may still return.
abbrev pub in_accept : MainPhase → ℕ
in_accept looping = 0
in_accept accepting = 1
in_accept joining = 0
in_accept shut_down = 0

abbrev Closes : Server → Server → Type 0
Closes s t =
    (t.socket_listening ≡ false)
    × (length t.global_list + in_accept t.main ≤ length s.global_list + in_accept s.main)

after_accept-Closes :
    (result : AcceptResult) (c : Connection) (s : Server)
    → s.socket_listening ≡ false
    → ((after_accept result c s).socket_listening ≡ false)
      × (length (after_accept result c s).global_list ≤ length s.global_list + 1)
unfolding after_accept
after_accept-Closes (accepted fd) c s e = (e, omega arith)
after_accept-Closes (accept_failed err) c s e = elim (Bool-cases (accept_retries err)) [
  | inl again ↦ rw again (e, omega arith)
  | inr over ↦ rw over (refl, omega arith)
]

Step-Closes : {s t : Server} → s.socket_listening ≡ false → Step s t → Closes s t
Step-Closes e (calls_accept m l) = absurd (ff (sym e ∙ l))
  where
    ff : false ≢ true
    ff q = cc
Step-Closes {s} e (accepts result host socket sh m) =
    let c = new_connection host socket sh in
    let (closed, few) = after_accept-Closes result c s e in
    (closed, omega (arith, few, ap in_accept m))
Step-Closes e (stops_listening m l) = (e, omega (arith, ap in_accept m))
Step-Closes e (joins m all) = (e, omega (arith, ap in_accept m))
Step-Closes {s} e (connection_moves before after x c' split) =
    (e, omega (arith, length-exchange before after x (record x { connection = c' }) split))
Step-Closes {s} e (announces before after x i split idle) =
    (e, omega (arith, length-exchange before after x (record x { pushing = some i }) split))
Step-Closes {s} e (pushes before after x i split busy) =
    (e, omega (arith, length-exchange before after x (record x { pushing = none }) split))
Step-Closes e (erases before after x split idle) =
    (e, omega (arith, ap length split, length-insert before after x))
Step-Closes e (worker_starts i w) = (e, omega arith)
Step-Closes e (worker_waits i w g) = (e, omega arith)
Step-Closes e (worker_exits i w g) = (e, omega arith)
Step-Closes e (worker_pops i r q w eq) = (e, omega arith)
Step-Closes e (worker_wakes i w) = (e, omega arith)
Step-Closes e (worker_ends i w) = (e, omega arith)

-- Once the flag of the listening socket is down it stays down, and at most one connection more is
-- accepted: the one for which `main` was already in `accept`.
pub closed_stays :
    (s t : Server)
    → s.socket_listening ≡ false
    → Reach s t
    → (t.socket_listening ≡ false)
      × (length t.global_list ≤ length s.global_list + in_accept s.main)
closed_stays s t e r = let (closed, few) = go e r in (closed, omega (arith, few))
  where
    go : {s t : Server} → s.socket_listening ≡ false → Reach s t → Closes s t
    go e here = (e, omega arith)
    go e (next r st) =
        let (closed, few) = go e r in
        let (closed', fewer) = Step-Closes closed st in (closed', omega (arith, few, fewer))

-- A worker that waits for a request when there is no connection left to send one.
record IsStuck (i : ℕ) (s : Server) : Type 0 where
  closed : s.socket_listening ≡ false
  alone : s.global_list ≡ []
  idle : s.queue ≡ []
  waits : worker_at s i ≡ waiting
  joined : s.main ≡ joining

unfinished :
    (i : ℕ) (workers : List WorkerPhase)
    → All (λ p. p ≡ finished) workers
    → get_or workers i finished ≢ waiting
unfinished i [] all e = cc
unfinished zero (p ∷ workers) (h, all) e = let q : finished ≡ waiting = sym h ∙ e in cc
unfinished (suc i) (p ∷ workers) (h, all) e = unfinished i workers all e

pub no_entry : (before after : List Entry) (e : Entry) → [] ≢ before ++ (e ∷ after)
no_entry before after e q = omega (arith, ap length q, length-append before (e ∷ after))

-- The step of another worker.
elsewhere :
    (i j : ℕ) (s : Server) (p q : WorkerPhase)
    → worker_at s i ≡ waiting
    → worker_at s j ≡ p
    → p ≢ waiting
    → get_or (set s.workers j q) i finished ≡ waiting
elsewhere i j s p q w e ne =
    get_or-set_ne s.workers j i q finished (λ same. ne (sym e ∙ ap (worker_at s) same ∙ w)) ∙ w

Step-IsStuck : {s t : Server} (i : ℕ) → IsStuck i s → Step s t → IsStuck i t
Step-IsStuck i k (calls_accept m l) = let q : joining ≡ looping = sym k.joined ∙ m in cc
Step-IsStuck i k (accepts result host socket sh m) =
    let q : joining ≡ accepting = sym k.joined ∙ m in cc
Step-IsStuck i k (stops_listening m l) = let q : joining ≡ looping = sym k.joined ∙ m in cc
Step-IsStuck {s} i k (joins m all) = absurd (unfinished i s.workers all k.waits)
Step-IsStuck i k (connection_moves before after x c' split) =
    absurd (no_entry before after x (sym k.alone ∙ split))
Step-IsStuck i k (announces before after x j split idle) =
    absurd (no_entry before after x (sym k.alone ∙ split))
Step-IsStuck i k (pushes before after x j split busy) =
    absurd (no_entry before after x (sym k.alone ∙ split))
Step-IsStuck i k (erases before after x split idle) =
    absurd (no_entry before after x (sym k.alone ∙ split))
Step-IsStuck {s} i k (worker_starts j w) = record {
  closed = k.closed;
  alone = k.alone;
  idle = k.idle;
  waits = elsewhere i j s starting testing k.waits w (λ e. cc);
  joined = k.joined;
}
Step-IsStuck {s} i k (worker_waits j w g) = record {
  closed = k.closed;
  alone = k.alone;
  idle = k.idle;
  waits = elsewhere i j s testing waiting k.waits w (λ e. cc);
  joined = k.joined;
}
Step-IsStuck {s} i k (worker_exits j w g) = record {
  closed = k.closed;
  alone = k.alone;
  idle = k.idle;
  waits = elsewhere i j s testing finished k.waits w (λ e. cc);
  joined = k.joined;
}
Step-IsStuck i k (worker_pops j request queue w eq) =
    let e : [] ≡ request ∷ queue = sym k.idle ∙ eq in cc
Step-IsStuck {s} i k (worker_wakes j w) = record {
  closed = k.closed;
  alone = k.alone;
  idle = k.idle;
  waits = elsewhere i j s taking working k.waits w (λ e. cc);
  joined = k.joined;
}
Step-IsStuck {s} i k (worker_ends j w) = record {
  closed = k.closed;
  alone = k.alone;
  idle = k.idle;
  waits = elsewhere i j s working testing k.waits w (λ e. cc);
  joined = k.joined;
}

-- Defect: nothing wakes a worker that waits in `pop_request` when the process shuts down. If, with
-- the listening socket closed, `main` joins the workers while one of them waits, no connection is
-- left and the queue is empty, then that worker waits for ever, and `main` never gets behind the
-- joins to `fcgi::shutdown`.
pub shutdown_hangs :
    (i : ℕ) (s t : Server)
    → s.socket_listening ≡ false
    → s.global_list ≡ []
    → s.queue ≡ []
    → worker_at s i ≡ waiting
    → s.main ≡ joining
    → Reach s t
    → (worker_at t i ≡ waiting) × (t.main ≡ joining)
shutdown_hangs i s t closed alone idle waits joined r =
    let k =
      go (record { closed = closed; alone = alone; idle = idle; waits = waits; joined = joined })
        r in
    (k.waits, k.joined)
  where
    go : {s t : Server} → IsStuck i s → Reach s t → IsStuck i t
    go k here = k
    go k (next r st) = Step-IsStuck i (go k r) st
