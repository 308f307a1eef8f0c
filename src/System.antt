-- ===== src/System.antt =====
-- A connection and the workers, running together: `Connection::thread_func` of src/connection.cpp
-- and `worker::thread_func` of src/request-workers.cpp as one relation. A step is one round of the
-- thread of the connection, one call of `pop_request`, or what a worker does with a request from the
-- return of `pop_request` to the fall of `request_actives`; they come in any order.
pub mod Counts
pub mod Answers
pub mod Moves
pub mod Safety
pub mod Erased
mod Tests
use tfcgi.Prelude.{ℕ, ◌-◌, ◌≡◌, refl, Bool, true, false, List, [], ◌∷◌, ◌++◌, Option, some, set, ok}
use tfcgi.Socket.{Socket}
use tfcgi.Request.{Request, Shared}
use tfcgi.Worker.{AppOutput, AppEnd, pop_request, work}
use tfcgi.Connection.{Host, Connection, entry, new_connection, one_packet, teardown}

-- Where the thread of the connection stands: in the loop over the packets; behind the teardown, in
-- the loop that waits for `request_actives` to be 0; and behind `global_list.erase`.
pub data Phase : Type 0 where
  serving leaving gone : Phase

-- `running` has the ids of the requests that workers hold.
pub record System : Type 0 where
  pub connection : Connection
  pub running : List ℕ
  pub phase : Phase

module _ (host : Host) (respond : Request → List AppOutput × AppEnd) where
  -- A worker has done with the request `r`.
  abbrev pub ended : ℕ → Request → Connection → Connection
  ended request_id r c =
      let (r', sh) = work respond host.to_string r c.shared in
      record c { requests = set c.requests (request_id - 1) (some r'); shared = sh }

  pub data Step (s : System) : System → Type 0 where
    packet :
        {c' : Connection}
        → s.phase ≡ serving
        → s.connection.shared.socket.socket_insane ≡ true
        → one_packet host s.connection ≡ ok (true, c')
        → Step s (record s { connection = c' })
    breaks :
        {c' : Connection}
        → s.phase ≡ serving
        → s.connection.shared.socket.socket_insane ≡ true
        → one_packet host s.connection ≡ ok (false, c')
        → Step s (record s { connection = teardown c'; phase = leaving })
    leaves :
        s.phase ≡ serving
        → s.connection.shared.socket.socket_insane ≡ false
        → Step s (record s { connection = teardown s.connection; phase = leaving })
    takes :
        {request_id : ℕ} {sh : Shared}
        → pop_request s.connection.shared ≡ ok (request_id, sh)
        → Step s (record s {
          connection = record s.connection { shared = sh };
          running = request_id ∷ s.running;
        })
    ends :
        (before after : List ℕ) (request_id : ℕ) {r : Request}
        → s.running ≡ before ++ (request_id ∷ after)
        → entry request_id s.connection.requests ≡ some r
        → Step s
            (record s { connection = ended request_id r s.connection; running = before ++ after })
    erases :
        s.phase ≡ leaving
        → s.connection.shared.request_actives ≡ 0
        → Step s (record s { phase = gone })

  -- A connection that was just accepted; no request of it is queued or running.
  abbrev pub started : Socket → Shared → System
  started socket sh = record {
    connection = new_connection host socket (record sh { queue = [] });
    running = [];
    phase = serving;
  }

  pub data Reach (s : System) : System → Type 0 where
    here : Reach s s
    next : {t u : System} → Reach s t → Step t u → Reach s u
