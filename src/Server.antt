-- ===== src/Server.antt =====
-- The process: `main` of src/main.cpp, the loop of `worker::thread_func` of src/request-workers.cpp
-- with its counters, the list of the connections with `create_connection` and
-- `close_listening_socket` of src/connection.cpp, and the statistics of src/stats.cpp. The threads
-- run together: a step is what one of them does between two moments at which others can act. Two
-- shared variables change in one step only where the source holds a mutex. What a worker does with a
-- request, and how a connection changes, are System's; here they only happen.
pub mod Counters
pub mod Shutdown
pub mod Callbacks
pub mod Drained
mod Tests
use tfcgi.Prelude.{
  ℕ, ◌+◌, ◌%◌, ◌^◌, ◌<◌, ◌≡◌, ◌≢◌, ◌⊎◌, inl, inr, Bool, true, false, ◌||◌, not, List, [], ◌∷◌, ◌++◌,
  length, if◌then◌else◌, get_or, set, replicate, All, ◌==◌, Option, none, some,
}
use tfcgi.Socket.{Errno, emfile, enfile, eagain, econnaborted, eintr, Socket}
use tfcgi.Request.{Shared, increment, decrement}
use tfcgi.Connection.{Host, Connection, new_connection}

-- A worker: before its thread runs, at the test of its loop, in `pop_request`, behind it and still
-- counted as sleeping, with a request, and behind its loop.
pub data WorkerPhase : Type 0 where
  starting testing waiting taking working finished : WorkerPhase

-- `main`: at the test of its loop, in `accept`, in the loop over `thread.join()`, and behind it.
pub data MainPhase : Type 0 where
  looping accepting joining shut_down : MainPhase

-- What `main` calls of the application.
pub data Call : Type 0 where
  startup : Call
  begin_shutdown shutdown : Bool → Call

-- A connection with its file descriptor, and the request that its thread has counted in the backlog
-- and not yet pushed.
pub record Entry : Type 0 where
  pub fd : ℕ
  pub connection : Connection
  pub pushing : Option ℕ

-- `InternalStats`, the counters of `worker`, `global_list`, and the queue of the workers. The queue
-- holds the file descriptor of the connection and the id of the request.
pub record Server : Type 0 where
  pub socket_listening : Bool
  pub quick_shutdown : Bool
  pub socket_active : ℕ
  pub workers_online : ℕ
  pub workers_sleeping : ℕ
  pub workers_backlog : ℕ
  pub queue : List (ℕ × ℕ)
  pub global_list : List Entry
  pub workers : List WorkerPhase
  pub main : MainPhase
  pub calls : List Call

-- What `accept` returns: a file descriptor, or -1.
pub data AcceptResult : Type 0 where
  accepted : ℕ → AcceptResult
  accept_failed : Errno → AcceptResult

-- The `switch (errno)` of `main`: which errors go on.
abbrev pub accept_retries : Errno → Bool
accept_retries emfile = true
accept_retries enfile = true
accept_retries eagain = true
accept_retries econnaborted = true
accept_retries eintr = true
accept_retries _ = false

-- The flag. The calls of `close` behind it change nothing here.
abbrev pub close_listening_socket : Server → Server
close_listening_socket s = record s { socket_listening = false }

-- `create_connection`, with the constructor of the connection.
abbrev pub create_connection : ℕ → Connection → Server → Server
create_connection fd c s = record s {
  socket_active = increment s.socket_active;
  global_list = record { fd = fd; connection = c; pushing = none } ∷ s.global_list;
}

-- What `main` does when `accept` returns; `c` is the connection that the constructor makes.
pub after_accept : AcceptResult → Connection → Server → Server
after_accept (accepted fd) c s = create_connection fd c s
after_accept (accept_failed e) c s = if accept_retries e then s else close_listening_socket s

-- The condition of the loop of a worker.
abbrev pub goes_on : Server → Bool
goes_on s = s.socket_listening || not (s.socket_active == 0)

abbrev pub worker_at : Server → ℕ → WorkerPhase
worker_at s i = get_or s.workers i finished

abbrev pub set_worker : ℕ → WorkerPhase → Server → Server
set_worker i p s = record s { workers = set s.workers i p }

pub data Step (s : Server) : Server → Type 0 where
  calls_accept :
      s.main ≡ looping → s.socket_listening ≡ true → Step s (record s { main = accepting })
  accepts :
      (result : AcceptResult) (host : Host) (socket : Socket) (sh : Shared)
      → s.main ≡ accepting
      → Step s (record (after_accept result (new_connection host socket sh) s) { main = looping })
  stops_listening :
      s.main ≡ looping
      → s.socket_listening ≡ false
      → Step s
          (record s { main = joining; calls = s.calls ++ (begin_shutdown s.quick_shutdown ∷ []) })
  joins :
      s.main ≡ joining
      → All (λ p. p ≡ finished) s.workers
      → Step s (record s { main = shut_down; calls = s.calls ++ (shutdown s.quick_shutdown ∷ []) })
  connection_moves :
      (before after : List Entry) (e : Entry) (c' : Connection)
      → s.global_list ≡ before ++ (e ∷ after)
      → Step s (record s { global_list = before ++ (record e { connection = c' } ∷ after) })
  -- `push_request`, on the thread of a connection: the counter, and then the queue.
  announces :
      (before after : List Entry) (e : Entry) (request_id : ℕ)
      → s.global_list ≡ before ++ (e ∷ after)
      → e.pushing ≡ none
      → Step s (record s {
        global_list = before ++ (record e { pushing = some request_id } ∷ after);
        workers_backlog = increment s.workers_backlog;
      })
  pushes :
      (before after : List Entry) (e : Entry) (request_id : ℕ)
      → s.global_list ≡ before ++ (e ∷ after)
      → e.pushing ≡ some request_id
      → Step s (record s {
        global_list = before ++ (record e { pushing = none } ∷ after);
        queue = s.queue ++ ((e.fd, request_id) ∷ []);
      })
  -- `global_list.erase`, with the destructor, at the end of the thread of the connection.
  erases :
      (before after : List Entry) (e : Entry)
      → s.global_list ≡ before ++ (e ∷ after)
      → e.pushing ≡ none
      → Step s
          (record s { global_list = before ++ after; socket_active = decrement s.socket_active })
  worker_starts :
      (i : ℕ)
      → worker_at s i ≡ starting
      → Step s (set_worker i testing (record s { workers_online = increment s.workers_online }))
  worker_waits :
      (i : ℕ)
      → worker_at s i ≡ testing
      → goes_on s ≡ true
      → Step s (set_worker i waiting (record s { workers_sleeping = increment s.workers_sleeping }))
  worker_exits :
      (i : ℕ)
      → worker_at s i ≡ testing
      → goes_on s ≡ false
      → Step s (set_worker i finished (record s { workers_online = decrement s.workers_online }))
  -- The critical section of `pop_request`, and the counter behind it.
  worker_pops :
      (i : ℕ) (request : ℕ × ℕ) (queue : List (ℕ × ℕ))
      → worker_at s i ≡ waiting
      → s.queue ≡ request ∷ queue
      → Step s (
          set_worker i taking
            (record s { queue = queue; workers_backlog = decrement s.workers_backlog }))
  worker_wakes :
      (i : ℕ)
      → worker_at s i ≡ taking
      → Step s (set_worker i working (record s { workers_sleeping = decrement s.workers_sleeping }))
  worker_ends : (i : ℕ) → worker_at s i ≡ working → Step s (set_worker i testing s)

pub data Reach (s : Server) : Server → Type 0 where
  here : Reach s s
  next : {t u : Server} → Reach s t → Step t u → Reach s u

-- `ConnectionStats` and `GlobalStats`.
pub record ConnectionStats : Type 0 where
  pub id : ℕ
  pub active_requests : ℕ
  pub socket_insane : Bool

pub record GlobalStats : Type 0 where
  pub socket_listening : Bool
  pub quick_shutdown : Bool
  pub workers_online : ℕ
  pub workers_sleeping : ℕ
  pub workers_backlog : ℕ
  pub connections : List ConnectionStats

abbrev pub connection_stats : Entry → ConnectionStats
connection_stats e = record {
  id = e.fd;
  active_requests = e.connection.shared.request_actives;
  socket_insane = e.connection.shared.socket.socket_insane;
}

abbrev pub all_connection_stats : List Entry → List ConnectionStats
all_connection_stats [] = []
all_connection_stats (e ∷ es) = connection_stats e ∷ all_connection_stats es

-- `update` reads one value after the other, so that each is of a state of its own; the connections
-- are read under the mutex of their list.
pub update : Server → Server → Server → Server → Server → Server → GlobalStats
update listening quick onlines sleepers backlog listed = record {
  socket_listening = listening.socket_listening;
  quick_shutdown = quick.quick_shutdown;
  workers_online = onlines.workers_online;
  workers_sleeping = sleepers.workers_sleeping;
  workers_backlog = backlog.workers_backlog;
  connections = all_connection_stats listed.global_list;
}

-- `main` in front of its loop, with `n` workers.
abbrev pub start : ℕ → Server
start n = record {
  socket_listening = true;
  quick_shutdown = false;
  socket_active = 0;
  workers_online = 0;
  workers_sleeping = 0;
  workers_backlog = 0;
  queue = [];
  global_list = [];
  workers = replicate n starting;
  main = looping;
  calls = startup ∷ [];
}

-- The first lines of `main`: the exit code where `startup` returned one, or the process in front of
-- the loop.
abbrev pub launch : ℕ → ℕ → ℕ ⊎ Server
launch result n = if result == 0 then inr (start n) else inl result
