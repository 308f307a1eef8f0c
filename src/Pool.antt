-- ===== src/Pool.antt =====
-- All connections of the process at once, with the workers: `Connection::global_list` and
-- `create_connection` of src/connection.cpp, and the one queue of src/request-workers.cpp that the
-- threads of all connections push to and all workers pop from. Each step is a step of one thread;
-- what it does to the connection is what System says of one connection.
pub mod Parts
pub mod Refines
pub mod Live
pub mod Drains
mod Tests
use tfcgi.Prelude.{
  ℕ, ◌-◌, ◌≡◌, Bool, true, false, List, [], ◌∷◌, ◌++◌, Option, none, some, get_elem?, set, ok,
}
use tfcgi.Socket.{Socket}
use tfcgi.Request.{Request, Shared, decrement}
use tfcgi.Worker.{AppOutput, AppEnd}
use tfcgi.Connection.{Host, Connection, entry, new_connection, one_packet, teardown}
use tfcgi.System.{Phase, serving, leaving, gone, ended}

-- A connection of the list; its thread may be behind `erase`, and then it is gone. The queue of its
-- `Shared` has what its thread pushes in one round, and `backlog` counts its requests in the queue.
pub record Slot : Type 0 where
  pub connection : Connection
  pub phase : Phase

-- `incoming` has the sockets that `accept` returns in turn. A request is named by the place of its
-- connection among all that were ever created, and by its id.
pub record Pool : Type 0 where
  pub incoming : List Socket
  pub slots : List Slot
  pub queue : List (ℕ × ℕ)
  pub running : List (ℕ × ℕ)

abbrev pub with_queue : List ℕ → Connection → Connection
with_queue queue c = record c { shared = record c.shared { queue = queue } }

-- The requests of one connection, as they stand in the queue of all.
abbrev pub tagged : ℕ → List ℕ → List (ℕ × ℕ)
tagged i [] = []
tagged i (request_id ∷ ids) = (i, request_id) ∷ tagged i ids

-- What the process has before the constructor of a connection runs.
abbrev pub unused : Socket → Shared
unused socket = record { socket = socket; wire = []; request_actives = 0; queue = []; backlog = 0 }

-- The thread of the connection `i` has made `c` of it, and pushed what `c` has in its queue.
abbrev pub stored : ℕ → Phase → Connection → Pool → Pool
stored i phase c p = record p {
  slots = set p.slots i (record { connection = with_queue [] c; phase = phase });
  queue = p.queue ++ tagged i c.shared.queue;
}

-- A worker has popped a request of the connection.
abbrev pub popped : Slot → Slot
popped sl = record sl {
  connection = record sl.connection {
    shared = record sl.connection.shared { backlog = decrement sl.connection.shared.backlog };
  };
}

module _ (host : Host) (respond : Request → List AppOutput × AppEnd) where
  abbrev pub new_slot : Socket → Slot
  new_slot socket = record {
    connection = new_connection host socket (unused socket);
    phase = serving;
  }

  pub data Step (p : Pool) : Pool → Type 0 where
    creates :
        {socket : Socket} {rest : List Socket}
        → p.incoming ≡ socket ∷ rest
        → Step p (record p { incoming = rest; slots = p.slots ++ (new_slot socket ∷ []) })
    packet :
        (i : ℕ) {sl : Slot} {c' : Connection}
        → get_elem? p.slots i ≡ some sl
        → sl.phase ≡ serving
        → sl.connection.shared.socket.socket_insane ≡ true
        → one_packet host (with_queue [] sl.connection) ≡ ok (true, c')
        → Step p (stored i sl.phase c' p)
    breaks :
        (i : ℕ) {sl : Slot} {c' : Connection}
        → get_elem? p.slots i ≡ some sl
        → sl.phase ≡ serving
        → sl.connection.shared.socket.socket_insane ≡ true
        → one_packet host (with_queue [] sl.connection) ≡ ok (false, c')
        → Step p (stored i leaving (teardown c') p)
    leaves :
        (i : ℕ) {sl : Slot}
        → get_elem? p.slots i ≡ some sl
        → sl.phase ≡ serving
        → sl.connection.shared.socket.socket_insane ≡ false
        → Step p (stored i leaving (teardown (with_queue [] sl.connection)) p)
    -- Some worker, whatever their number.
    takes :
        (i request_id : ℕ) {sl : Slot} {queue : List (ℕ × ℕ)}
        → p.queue ≡ (i, request_id) ∷ queue
        → get_elem? p.slots i ≡ some sl
        → Step p (record p {
          slots = set p.slots i (popped sl);
          queue = queue;
          running = (i, request_id) ∷ p.running;
        })
    ends :
        (before after : List (ℕ × ℕ)) (i request_id : ℕ) {sl : Slot} {r : Request}
        → p.running ≡ before ++ ((i, request_id) ∷ after)
        → get_elem? p.slots i ≡ some sl
        → entry request_id sl.connection.requests ≡ some r
        → Step p (record p {
          slots =
              set p.slots i
                (record sl { connection = ended host respond request_id r sl.connection });
          running = before ++ after;
        })
    erases :
        (i : ℕ) {sl : Slot}
        → get_elem? p.slots i ≡ some sl
        → sl.phase ≡ leaving
        → sl.connection.shared.request_actives ≡ 0
        → Step p (record p { slots = set p.slots i (record sl { phase = gone }) })

  pub data Reach (p : Pool) : Pool → Type 0 where
    here : Reach p p
    next : {q r : Pool} → Reach p q → Step q r → Reach p r

-- The process before it accepts a connection.
abbrev pub opened : List Socket → Pool
opened sockets = record { incoming = sockets; slots = []; queue = []; running = [] }
