-- ===== src/Connection/Queue.antt =====
-- What the thread of a connection does to the queue of the workers: it puts requests behind those
-- that stand in it, whatever they are.
use tfcgi.Prelude.{
  ℕ, ◌≡◌, ◌-◌, refl, ap, ◌∙◌, Bool, true, false, List, [], ◌∷◌, ◌==◌, Option, none, some, set,
  Result, ok, stop, ◌>>=◌, if_then, >>=-then,
}
use tfcgi.Protocol
use tfcgi.Protocol.{Header}
use tfcgi.Packet.{read_packet, sink_to_vector, destroy}
use tfcgi.Nvp.Deserializer.{Parsed, looping, returned, raised, failed, out_of_fuel, feed_bytes}
use tfcgi.Nvp.Maps.{get_values_new_key}
use tfcgi.OStream.{OStream, Wire}
use tfcgi.Request.{
  State, ready, reading_params, pending, app_running, Request, Shared, handle_packet,
}
use tfcgi.Request.Queue.{behind, handle_packet-behind}
use tfcgi.Connection.{
  Host, Connection, grow, entry, with_socket, allocated, for_request, after_get_values,
  handle_get_values, for_management, dispatch, after_header, one_packet, discard, discard_by,
  discard_all, teardown,
}

-- The connection, with other requests in front of the queue.
abbrev pub queue_behind : List ℕ → Connection → Connection
queue_behind queue c = record c { shared = behind queue c.shared }

abbrev moved : List ℕ → Header × Connection → Result (Header × Connection)
moved queue (h, c) = ok (h, queue_behind queue c)

abbrev ended_round : List ℕ → Bool × Connection → Result (Bool × Connection)
ended_round queue (again, c) = ok (again, queue_behind queue c)

module _ (host : Host) (queue : List ℕ) where
  for_request-behind :
      (h : Header) (c : Connection)
      → for_request host h (queue_behind queue c) ≡ (for_request host h c >>= moved queue)
  unfolding for_request
  for_request-behind h c =
      let table = grow h.request_id c.requests in
      let r = allocated host h.request_id (entry h.request_id table) in
      ap
        (λ m. m >>= λ (h', r', sh).
          ok (h', record c { requests = set table (h.request_id - 1) (some r'); shared = sh }))
        (handle_packet-behind host.limit host.name_memory host.value_memory host.message queue h r
          c.shared)
      ∙ rest (handle_packet host.limit host.name_memory host.value_memory host.message h r c.shared)
    where
      rest :
          (m : Result (Header × Request × Shared))
          → ((m >>= λ (h', r', sh). ok (h', r', behind queue sh)) >>= λ (h', r', sh). ok (
            h',
            record c {
              requests = set (grow h.request_id c.requests) (h.request_id - 1) (some r');
              shared = sh;
            },
          ))
            ≡ ((m >>= λ (h', r', sh). ok (
              h',
              record c {
                requests = set (grow h.request_id c.requests) (h.request_id - 1) (some r');
                shared = sh;
              },
            ))
                >>= moved queue)
      rest (ok x) = refl
      rest (stop e) = refl

  after_get_values-behind :
      (h : Header) (c : Connection) (p : Parsed (OStream × Wire))
      → after_get_values host h (queue_behind queue c) p
        ≡ (after_get_values host h c p >>= moved queue)
  after_get_values-behind h c (looping d datas out) = refl
  after_get_values-behind h c (returned false d out) = refl
  after_get_values-behind h c (returned true d out) = refl
  after_get_values-behind h c (raised d out) = refl
  after_get_values-behind h c (failed e) = refl
  after_get_values-behind h c out_of_fuel = refl

  handle_get_values-behind :
      (h : Header) (c : Connection)
      → handle_get_values host h (queue_behind queue c)
        ≡ (handle_get_values host h c >>= moved queue)
  unfolding handle_get_values
  handle_get_values-behind h c =
      >>=-then (sink_to_vector h c.shared.socket) _ _ _ (λ (content, h', socket).
        after_get_values-behind h' (with_socket socket c) (
          feed_bytes (get_values_new_key host.hardware_concurrency host.to_string) host.limit
            c.get_value_handler content (c.get_value_result_stream, c.shared.wire)))

  dispatch-behind :
      (h : Header) (c : Connection)
      → dispatch host h (queue_behind queue c) ≡ (dispatch host h c >>= moved queue)
  unfolding dispatch for_management
  dispatch-behind h c =
      if_then (h.request_id == 0) _ _ _ _ _
        (if_then (h.type == Protocol.get_values) _ _ _ _ _ (handle_get_values-behind h c) refl)
        (for_request-behind h c)

  after_header-behind :
      (sane : Bool) (h : Header) (c : Connection)
      → after_header host sane h (queue_behind queue c)
        ≡ (after_header host sane h c >>= ended_round queue)
  unfolding after_header
  after_header-behind true h c =
      ap (λ m. m >>= λ (h', c'). destroy h' c'.shared.socket >>= λ s. ok (true, with_socket s c'))
        (dispatch-behind h c)
      ∙ rest (dispatch host h c)
    where
      rest :
          (m : Result (Header × Connection))
          → ((m >>= moved queue) >>= λ (h', c').
              destroy h' c'.shared.socket >>= λ s. ok (true, with_socket s c'))
            ≡ ((m >>= λ (h', c'). destroy h' c'.shared.socket >>= λ s. ok (true, with_socket s c'))
                >>= ended_round queue)
      rest (ok (h', c')) = >>=-then (destroy h' c'.shared.socket) _ _ _ (λ s. refl)
      rest (stop e) = refl
  after_header-behind false h c = >>=-then (destroy h c.shared.socket) _ _ _ (λ s. refl)

  -- One round of the loop is the same whatever requests stand in the queue, and puts its own
  -- behind them.
  pub one_packet-behind :
      (again : Bool) (c c' : Connection)
      → one_packet host c ≡ ok (again, c')
      → one_packet host (queue_behind queue c) ≡ ok (again, queue_behind queue c')
  unfolding one_packet
  one_packet-behind again c c' e =
      >>=-then (read_packet host.header_memory c.shared.socket) _ _ (ended_round queue)
        (λ (h, socket). after_header-behind socket.socket_insane h (with_socket socket c))
      ∙ ap (λ m. m >>= ended_round queue) e

  discard_by-behind :
      (st : State) (r : Request) (sh : Shared)
      → discard_by st r (behind queue sh)
        ≡ ((discard_by st r sh).0, behind queue (discard_by st r sh).1)
  unfolding discard_by
  discard_by-behind ready r sh = refl
  discard_by-behind reading_params r sh = refl
  discard_by-behind pending r sh = refl
  discard_by-behind app_running r sh = refl

  discard-behind :
      (o : Option Request) (sh : Shared)
      → discard o (behind queue sh) ≡ ((discard o sh).0, behind queue (discard o sh).1)
  discard-behind none sh = refl
  discard-behind (some r) sh = discard_by-behind r.state r sh

  discard_all-behind :
      (table : List (Option Request)) (sh : Shared)
      → discard_all table (behind queue sh)
        ≡ ((discard_all table sh).0, behind queue (discard_all table sh).1)
  unfolding discard_all
  discard_all-behind [] sh = refl
  discard_all-behind (o ∷ table) sh =
      rw (discard-behind o sh, discard_all-behind table (discard o sh).1) refl

  pub teardown-behind :
      (c : Connection) → teardown (queue_behind queue c) ≡ queue_behind queue (teardown c)
  unfolding teardown
  teardown-behind c = rw (discard_all-behind c.requests c.shared) refl
