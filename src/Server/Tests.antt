-- ===== src/Server/Tests.antt =====
-- The theorems on the process, on one with a single worker.
use tfcgi.Prelude.{
  ℕ, ◌+◌, ◌%◌, ◌^◌, ◌≤◌, ◌≡◌, inr, refl, true, false, [], ◌∷◌, length, tally, arith,
}
use tfcgi.Socket.{other_errno}
use tfcgi.Packet.Framing.{at}
use tfcgi.Request.Tests.{sharing}
use tfcgi.Connection.Tests.{host}
use tfcgi.Server.{
  starting, testing, waiting, finished, looping, joining, startup, begin_shutdown, shutdown,
  shut_down, launch, accepting, Server, accept_failed, after_accept, worker_at, calls_accept,
  accepts, stops_listening, joins, worker_starts, worker_waits, worker_exits, Reach, here, next,
  start, update,
}
use tfcgi.Server.Callbacks.{calls_before, AllJoined, callbacks_in_order}
use tfcgi.Server.Counters.{online, sleeping, unpushed, update_counts}
use tfcgi.Server.Drained.{Few, shutdown_after_connections}
use tfcgi.Server.Shutdown.{in_accept, closed_stays, shutdown_hangs}

-- The worker waits for a request, and `main` for a connection.
abbrev idle : Server
idle = record (start 1) {
  workers_online = 1;
  workers_sleeping = 1;
  workers = waiting ∷ [];
  main = accepting;
}

to_idle : Reach (start 1) idle
to_idle =
    next (next (next here (worker_starts 0 refl)) (worker_waits 0 refl refl))
      (calls_accept refl refl)

-- `accept` fails for good, and `main` closes the listening socket.
abbrev closed : Server
closed = record idle { socket_listening = false; main = looping }

from_idle : Reach idle closed
unfolding after_accept
from_idle =
    next here (accepts (accept_failed (other_errno 9)) host (at true []) (sharing [] 0) refl)

abbrev joined : Server
joined = record closed { main = joining; calls = startup ∷ begin_shutdown false ∷ [] }

to_joined : Reach closed joined
to_joined = next here (stops_listening refl refl)

-- One worker waits, and another comes late.
abbrev one_late : Server
one_late = record joined { workers = waiting ∷ starting ∷ [] }

one_testing : Server
one_testing = record one_late { workers = waiting ∷ testing ∷ []; workers_online = 2 }

to_testing : Reach one_late one_testing
unfolding one_testing
to_testing = next here (worker_starts 1 refl)

-- The worker comes late, and leaves its loop at once.
abbrev deserted : Server
deserted = record (start 1) {
  socket_listening = false;
  main = joining;
  calls = startup ∷ begin_shutdown false ∷ [];
}

to_deserted : Reach (start 1) deserted
unfolding after_accept
to_deserted =
    next
      (next (next here (calls_accept refl refl))
        (accepts (accept_failed (other_errno 9)) host (at true []) (sharing [] 0) refl))
      (stops_listening refl refl)

abbrev over : Server
over = record deserted {
  workers = finished ∷ [];
  main = shut_down;
  calls = startup ∷ begin_shutdown false ∷ shutdown false ∷ [];
}

to_over : Reach (start 1) over
to_over =
    next (next (next to_deserted (worker_starts 0 refl)) (worker_exits 0 refl refl))
      (joins refl (refl, tt))

to_over-Few : Few to_over
unfolding to_over to_deserted
to_over-Few = (
  (((((omega arith, omega arith), omega arith), omega arith), omega arith), omega arith),
  omega arith,
)

shutdown_after_connections_example : (over.socket_listening ≡ false) × (over.global_list ≡ [])
shutdown_after_connections_example =
    shutdown_after_connections 1 over to_over (omega arith) to_over-Few refl

update_counts_example :
    let stats = update idle idle idle idle closed joined in
    (stats.workers_online ≡ tally online idle.workers)
    × (stats.workers_online ≤ 1)
    × (stats.workers_sleeping ≡ tally sleeping idle.workers)
    × (stats.workers_sleeping ≤ 1)
    × (stats.workers_backlog ≡ (length closed.queue + tally unpushed closed.global_list) % 2 ^ 32)
    × (joined.socket_active ≡ length stats.connections % 2 ^ 32)
update_counts_example =
    update_counts 1 idle idle idle idle closed joined (omega arith) to_idle here here here from_idle
      to_joined

closed_stays_example :
    (joined.socket_listening ≡ false)
    × (length joined.global_list ≤ length closed.global_list + in_accept closed.main)
closed_stays_example = closed_stays closed joined refl to_joined

shutdown_hangs_example : (worker_at one_testing 0 ≡ waiting) × (one_testing.main ≡ joining)
shutdown_hangs_example = shutdown_hangs 0 one_late one_testing refl refl refl refl refl to_testing

launched_one : launch 0 1 ≡ inr (start 1)
launched_one = refl

callbacks_in_order_example :
    (◌≡◌ {A = ℕ} 0 0) × (idle.calls ≡ calls_before idle.main) × AllJoined idle.main idle.workers
callbacks_in_order_example = callbacks_in_order 0 1 (start 1) idle launched_one to_idle
