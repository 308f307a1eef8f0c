-- ===== src/Server/Counters.antt =====
-- The counters of the workers and of the connections.
use tfcgi.Prelude.{
  ℕ, zero, suc, ◌++◌, Option, none, some, tally-append, ◌+◌, ◌%◌, ◌^◌, ◌≤◌, ◌<◌, ◌≡◌, ◌≢◌, refl,
  sym, ap, ◌∙◌, Bool-cases, inl, inr, List, [], ◌∷◌, length, length-append, length-insert,
  length-replicate, length-set, get_or, set, tally, tally-set, tally-replicate, arith,
}
use tfcgi.Connection.{Connection, new_connection}
use tfcgi.Server.{
  WorkerPhase, starting, testing, waiting, taking, working, finished, Entry, Server, AcceptResult,
  accepted, accept_failed, accept_retries, after_accept, worker_at, Step, calls_accept, accepts,
  stops_listening, joins, announces, connection_moves, pushes, erases, worker_starts, worker_waits,
  worker_exits, worker_pops, worker_wakes, worker_ends, Reach, here, next, start, update,
  all_connection_stats,
}

abbrev pub online : WorkerPhase → ℕ
online starting = 0
online testing = 1
online waiting = 1
online taking = 1
online working = 1
online finished = 0

abbrev pub sleeping : WorkerPhase → ℕ
sleeping starting = 0
sleeping testing = 0
sleeping waiting = 1
sleeping taking = 1
sleeping working = 0
sleeping finished = 0

abbrev pub pushes_one : Option ℕ → ℕ
pushes_one none = 0
pushes_one (some request_id) = 1

-- A request that is in the backlog, and not yet in the queue.
abbrev pub unpushed : Entry → ℕ
unpushed e = pushes_one e.pushing

pub record IsCounted (n : ℕ) (s : Server) : Type 0 where
  pub onlines : s.workers_online ≡ tally online s.workers % 2 ^ 32
  pub sleepers : s.workers_sleeping ≡ tally sleeping s.workers % 2 ^ 32
  pub queued : s.workers_backlog ≡ (length s.queue + tally unpushed s.global_list) % 2 ^ 32
  pub connected : s.socket_active ≡ length s.global_list % 2 ^ 32
  pub threads : length s.workers ≡ n

-- Only what it counts matters.
IsCounted-same :
    {n : ℕ} (s t : Server)
    → IsCounted n s
    → t.workers_online ≡ s.workers_online
    → t.workers_sleeping ≡ s.workers_sleeping
    → t.workers_backlog ≡ s.workers_backlog
    → t.socket_active ≡ s.socket_active
    → length t.queue ≡ length s.queue
    → length t.global_list ≡ length s.global_list
    → tally unpushed t.global_list ≡ tally unpushed s.global_list
    → t.workers ≡ s.workers
    → IsCounted n t
IsCounted-same s t k a b c d q g u w = record {
  onlines = a ∙ k.onlines ∙ ap (λ ws. tally online ws % 2 ^ 32) (sym w);
  sleepers = b ∙ k.sleepers ∙ ap (λ ws. tally sleeping ws % 2 ^ 32) (sym w);
  queued = omega (arith, c, q, u, k.queued);
  connected = omega (arith, d, g, k.connected);
  threads = ap length w ∙ k.threads;
}

after_accept-IsCounted :
    {n : ℕ} (result : AcceptResult) (c : Connection) (s : Server)
    → IsCounted n s
    → IsCounted n (after_accept result c s)
unfolding after_accept
after_accept-IsCounted (accepted fd) c s k = record {
  onlines = k.onlines;
  sleepers = k.sleepers;
  queued = omega (arith, k.queued);
  connected = omega (arith, k.connected);
  threads = k.threads;
}
after_accept-IsCounted (accept_failed e) c s k = elim (Bool-cases (accept_retries e)) [
  | inl again ↦ rw again k
  | inr over ↦ rw over (IsCounted-same s _ k refl refl refl refl refl refl refl refl)
]

pub worker-lt :
    (workers : List WorkerPhase) (i : ℕ) → get_or workers i finished ≢ finished → i < length workers
worker-lt [] i ne = absurd (ne refl)
worker-lt (p ∷ workers) zero ne = omega arith
worker-lt (p ∷ workers) (suc i) ne = omega (arith, worker-lt workers i ne)

-- A worker goes from `p` to `q`.
moved :
    (f : WorkerPhase → ℕ) (i : ℕ) (s : Server) (p q : WorkerPhase)
    → worker_at s i ≡ p
    → p ≢ finished
    → tally f (set s.workers i q) + f p ≡ tally f s.workers + f q
moved f i s p q w ne = omega (
  arith,
  tally-set f s.workers i q finished (worker-lt s.workers i (λ e. ne (sym w ∙ e))),
  ap f w,
)

-- An entry of the list is replaced by another.
pub length-exchange :
    {list : List Entry} (before after : List Entry) (e e' : Entry)
    → list ≡ before ++ (e ∷ after)
    → length (before ++ (e' ∷ after)) ≡ length list
length-exchange before after e e' split =
    omega (arith, ap length split, length-insert before after e, length-insert before after e')

tally-exchange :
    {list : List Entry} (before after : List Entry) (e e' : Entry)
    → e'.pushing ≡ e.pushing
    → list ≡ before ++ (e ∷ after)
    → tally unpushed (before ++ (e' ∷ after)) ≡ tally unpushed list
tally-exchange before after e e' same split = omega (
  arith,
  ap (tally unpushed) split,
  tally-append unpushed before (e ∷ after),
  tally-append unpushed before (e' ∷ after),
  ap pushes_one same,
)

pub Step-IsCounted : {n : ℕ} {s t : Server} → IsCounted n s → Step s t → IsCounted n t
Step-IsCounted {n} {s} k (calls_accept m l) =
    IsCounted-same s _ k refl refl refl refl refl refl refl refl
Step-IsCounted {n} {s} k (accepts result host socket sh m) =
    let c = new_connection host socket sh in
    IsCounted-same (after_accept result c s) _ (after_accept-IsCounted result c s k) refl refl refl
      refl refl refl refl refl
Step-IsCounted {n} {s} k (stops_listening m l) =
    IsCounted-same s _ k refl refl refl refl refl refl refl refl
Step-IsCounted {n} {s} k (joins m all) =
    IsCounted-same s _ k refl refl refl refl refl refl refl refl
Step-IsCounted {n} {s} k (connection_moves before after e c' split) =
    IsCounted-same s _ k refl refl refl refl refl
      (length-exchange before after e (record e { connection = c' }) split)
      (tally-exchange before after e (record e { connection = c' }) refl split) refl
Step-IsCounted {n} {s} k (announces before after e request_id split idle) = record {
  onlines = k.onlines;
  sleepers = k.sleepers;
  queued = omega (
    arith,
    k.queued,
    ap (tally unpushed) split,
    tally-append unpushed before (e ∷ after),
    tally-append unpushed before (record e { pushing = some request_id } ∷ after),
    ap pushes_one idle,
  );
  connected = omega (
    arith,
    k.connected,
    length-exchange before after e (record e { pushing = some request_id }) split,
  );
  threads = k.threads;
}
Step-IsCounted {n} {s} k (pushes before after e request_id split busy) = record {
  onlines = k.onlines;
  sleepers = k.sleepers;
  queued = omega (
    arith,
    k.queued,
    length-append s.queue ((e.fd, request_id) ∷ []),
    ap (tally unpushed) split,
    tally-append unpushed before (e ∷ after),
    tally-append unpushed before (record e { pushing = none } ∷ after),
    ap pushes_one busy,
  );
  connected =
      omega
        (arith, k.connected, length-exchange before after e (record e { pushing = none }) split);
  threads = k.threads;
}
Step-IsCounted {n} {s} k (erases before after e split idle) = record {
  onlines = k.onlines;
  sleepers = k.sleepers;
  queued = omega (
    arith,
    k.queued,
    ap (tally unpushed) split,
    tally-append unpushed before (e ∷ after),
    tally-append unpushed before after,
    ap pushes_one idle,
  );
  connected = omega (arith, k.connected, ap length split, length-insert before after e);
  threads = k.threads;
}
Step-IsCounted {n} {s} k (worker_starts i w) = record {
  onlines = omega (arith, k.onlines, moved online i s starting testing w (λ e. cc));
  sleepers = omega (arith, k.sleepers, moved sleeping i s starting testing w (λ e. cc));
  queued = k.queued;
  connected = k.connected;
  threads = length-set s.workers i testing ∙ k.threads;
}
Step-IsCounted {n} {s} k (worker_waits i w g) = record {
  onlines = omega (arith, k.onlines, moved online i s testing waiting w (λ e. cc));
  sleepers = omega (arith, k.sleepers, moved sleeping i s testing waiting w (λ e. cc));
  queued = k.queued;
  connected = k.connected;
  threads = length-set s.workers i waiting ∙ k.threads;
}
Step-IsCounted {n} {s} k (worker_exits i w g) = record {
  onlines = omega (arith, k.onlines, moved online i s testing finished w (λ e. cc));
  sleepers = omega (arith, k.sleepers, moved sleeping i s testing finished w (λ e. cc));
  queued = k.queued;
  connected = k.connected;
  threads = length-set s.workers i finished ∙ k.threads;
}
Step-IsCounted {n} {s} k (worker_pops i r queue w eq) = record {
  onlines = omega (arith, k.onlines, moved online i s waiting taking w (λ e. cc));
  sleepers = omega (arith, k.sleepers, moved sleeping i s waiting taking w (λ e. cc));
  queued = omega (arith, k.queued, ap length eq);
  connected = k.connected;
  threads = length-set s.workers i taking ∙ k.threads;
}
Step-IsCounted {n} {s} k (worker_wakes i w) = record {
  onlines = omega (arith, k.onlines, moved online i s taking working w (λ e. cc));
  sleepers = omega (arith, k.sleepers, moved sleeping i s taking working w (λ e. cc));
  queued = k.queued;
  connected = k.connected;
  threads = length-set s.workers i working ∙ k.threads;
}
Step-IsCounted {n} {s} k (worker_ends i w) = record {
  onlines = omega (arith, k.onlines, moved online i s working testing w (λ e. cc));
  sleepers = omega (arith, k.sleepers, moved sleeping i s working testing w (λ e. cc));
  queued = k.queued;
  connected = k.connected;
  threads = length-set s.workers i testing ∙ k.threads;
}

pub Reach-IsCounted : {n : ℕ} {s t : Server} → IsCounted n s → Reach s t → IsCounted n t
Reach-IsCounted k here = k
Reach-IsCounted k (next r st) = Step-IsCounted (Reach-IsCounted k r) st

pub start-IsCounted : (n : ℕ) → IsCounted n (start n)
start-IsCounted n = record {
  onlines = omega (arith, tally-replicate online n starting refl);
  sleepers = omega (arith, tally-replicate sleeping n starting refl);
  queued = omega arith;
  connected = omega arith;
  threads = length-replicate n starting;
}

sleeping-le : (p : WorkerPhase) → (sleeping p ≤ online p) × (online p ≤ 1)
sleeping-le starting = (omega arith, omega arith)
sleeping-le testing = (omega arith, omega arith)
sleeping-le waiting = (omega arith, omega arith)
sleeping-le taking = (omega arith, omega arith)
sleeping-le working = (omega arith, omega arith)
sleeping-le finished = (omega arith, omega arith)

tally-sleeping-le :
    (workers : List WorkerPhase)
    → (tally sleeping workers ≤ tally online workers) × (tally online workers ≤ length workers)
tally-sleeping-le [] = (omega arith, omega arith)
tally-sleeping-le (p ∷ workers) =
    let (a, b) = sleeping-le p in
    let (a2, b2) = tally-sleeping-le workers in (omega arith, omega arith)

length-all_connection_stats : (es : List Entry) → length (all_connection_stats es) ≡ length es
length-all_connection_stats [] = refl
length-all_connection_stats (e ∷ es) = ap suc (length-all_connection_stats es)

-- The statistics that `update` takes from a process with `n` workers, whatever its threads have done
-- and do between two of its reads. The number of the workers that run, and of those that count as
-- sleeping, are each right at the moment at which it is read, and at most `n`. The backlog is then
-- the length of the queue and the requests that threads of connections are about to push, and
-- `socket_active` is the number of the connections that are listed; both are modulo 2 ^ 32. There
-- are less than 2 ^ 32 workers.
pub update_counts :
    (n : ℕ) (s1 s2 s3 s4 s5 s6 : Server)
    → n < 2 ^ 32
    → Reach (start n) s1
    → Reach s1 s2
    → Reach s2 s3
    → Reach s3 s4
    → Reach s4 s5
    → Reach s5 s6
    → let stats = update s1 s2 s3 s4 s5 s6 in
      (stats.workers_online ≡ tally online s3.workers)
      × (stats.workers_online ≤ n)
      × (stats.workers_sleeping ≡ tally sleeping s4.workers)
      × (stats.workers_sleeping ≤ n)
      × (stats.workers_backlog ≡ (length s5.queue + tally unpushed s5.global_list) % 2 ^ 32)
      × (s6.socket_active ≡ length stats.connections % 2 ^ 32)
unfolding update
update_counts n s1 s2 s3 s4 s5 s6 small r1 r2 r3 r4 r5 r6 =
    let k3 = Reach-IsCounted (Reach-IsCounted (Reach-IsCounted (start-IsCounted n) r1) r2) r3 in
    let k4 = Reach-IsCounted k3 r4 in
    let k5 = Reach-IsCounted k4 r5 in
    let k6 = Reach-IsCounted k5 r6 in
    let (_, run3) = tally-sleeping-le s3.workers in
    let (sleep, run4) = tally-sleeping-le s4.workers in
    (
      omega (arith, k3.onlines, run3, k3.threads),
      omega (arith, k3.onlines, run3, k3.threads),
      omega (arith, k4.sleepers, sleep, run4, k4.threads),
      omega (arith, k4.sleepers, sleep, run4, k4.threads),
      k5.queued,
      omega (arith, k6.connected, length-all_connection_stats s6.global_list),
    )
