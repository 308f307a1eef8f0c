-- ===== src/Connection/Effects.antt =====
-- What one packet does to a connection: to the request that it names, and to nothing else.
use tfcgi.Prelude.{
  tally, tally-set, get_or-set_self, get_or-set_ne, length-set, ℕ, ◌^◌, ◌+◌, ◌-◌, ◌≤◌, ◌<◌, ◌≡◌,
  ◌≢◌, refl, sym, ap, ◌∙◌, true, false, Bool-cases, inl, inr, List, Option, none, some, length, set,
  ◌==◌, ok, Ensures, Ensures->>=, Ensures_map, Ensures_elim, Ensures_bind_all, arith,
}
use mathlib.Core.Path.{subst}
use tfcgi.Protocol
use tfcgi.Protocol.{Header}
use tfcgi.Packet.{sink_to_vector}
use tfcgi.Nvp.Deserializer.{Parsed, looping, returned, raised, failed, out_of_fuel, feed_bytes}
use tfcgi.Nvp.Maps.{get_values_new_key}
use tfcgi.OStream.{OStream, Wire}
use tfcgi.Request.{State, ready, Request, Shared, handle_packet}
use tfcgi.Request.Lifecycle.{IsConsistent, Step, handle_packet-Handled}
use tfcgi.Connection.{
  Host, Connection, grow, entry, with_socket, allocated, for_request, after_get_values,
  handle_get_values, for_management, dispatch,
}
use tfcgi.Connection.Table.{Fits, IsTable, grow-Grown, entry-Fits, set-IsTable}

-- A number for each state, counted over the entries.
abbrev pub by_state : (State → ℕ) → Option Request → ℕ
by_state f none = 0
by_state f (some r) = f r.state

-- A packet for the request `request_id` took that request from `r` to `r'` by a step of its life.
pub record Effect (request_id : ℕ) (c c' : Connection) : Type 0 where
  pub r : Request
  pub r' : Request
  pub prior : (q : Request) → entry request_id c.requests ≡ some q → r ≡ q
  pub step : Step r r' c.shared c'.shared
  pub named : r.request_id ≡ request_id
  pub present : entry request_id c'.requests ≡ some r'
  pub others : (j : ℕ) → 0 < j → j ≢ request_id → entry j c'.requests ≡ entry j c.requests
  pub is_table : IsTable c'.requests
  pub tallies :
      (f : State → ℕ)
      → f ready ≡ 0
      → tally (by_state f) c'.requests + f r.state ≡ tally (by_state f) c.requests + f r'.state
  pub bounded : (n : ℕ) → request_id ≤ n → length c.requests ≤ n → length c'.requests ≤ n

-- A packet of the connection itself.
pub record Management (c c' : Connection) : Type 0 where
  pub same_requests : c'.requests ≡ c.requests
  pub same_actives : c'.shared.request_actives ≡ c.shared.request_actives
  pub same_queue : c'.shared.queue ≡ c.shared.queue

-- Where a packet goes.
pub data Dispatched (h : Header) (c c' : Connection) : Type 0 where
  to_connection : h.request_id ≡ 0 → Management c c' → Dispatched h c c'
  to_request : 0 < h.request_id → Effect h.request_id c c' → Dispatched h c c'

-- What a packet comes to.
pub data Outcome (c c' : Connection) : Type 0 where
  managed : Management c c' → Outcome c c'
  requested :
      (request_id : ℕ)
      → 0 < request_id
      → request_id < 2 ^ 16
      → Effect request_id c c'
      → Outcome c c'

module _ (host : Host) where
  pub allocated-Fits :
      (request_id : ℕ) (o : Option Request)
      → Fits request_id o
      → IsConsistent (allocated host request_id o)
        × ((allocated host request_id o).request_id ≡ request_id)
  allocated-Fits request_id none f = (tt, refl)
  allocated-Fits request_id (some r) f = f

  allocated_state :
      (request_id : ℕ) (o : Option Request) (f : State → ℕ)
      → f ready ≡ 0
      → by_state f o ≡ f (allocated host request_id o).state
  allocated_state request_id none f e = sym e
  allocated_state request_id (some r) f e = refl

  stored-Effect :
      (request_id : ℕ) (c : Connection) (r' : Request) (sh : Shared)
      → 0 < request_id
      → IsTable c.requests
      → (let r = allocated host request_id (entry request_id (grow request_id c.requests)) in
          IsConsistent r' × Step r r' c.shared sh × (r'.request_id ≡ r.request_id))
      → Effect request_id c (record c {
        requests = set (grow request_id c.requests) (request_id - 1) (some r');
        shared = sh;
      })
  stored-Effect request_id c r' sh pos t (consistent, st, same) =
      let table : List (Option Request) = grow request_id c.requests in
      let g = grow-Grown request_id c.requests in
      let inside : request_id - 1 < length table = omega (arith, g.reaches) in
      let fits =
        allocated-Fits request_id (entry request_id table)
          (entry-Fits request_id table pos (g.is_table t)) in
      record {
        r = allocated host request_id (entry request_id table);
        r' = r';
        prior = λ q e. ap (allocated host request_id) (g.entries request_id ∙ e);
        step = st;
        named = fits.1;
        present = get_or-set_self table (request_id - 1) (some r') none inside;
        others = λ j jpos ne.
            get_or-set_ne table (request_id - 1) (j - 1) (some r') none (λ e. ne (omega arith))
            ∙ g.entries j;
        is_table =
            set-IsTable request_id table (some r') pos (g.is_table t) (consistent, same ∙ fits.1);
        tallies = λ f e. omega (
          arith,
          tally-set (by_state f) table (request_id - 1) (some r') none inside,
          g.tallies (by_state f) refl,
          allocated_state request_id (entry request_id table) f e,
        );
        bounded =
            λ n a b. omega (arith, length-set table (request_id - 1) (some r'), g.bounded n a b);
      }

  for_request-Effect :
      (h : Header) (c : Connection)
      → 0 < h.request_id
      → IsTable c.requests
      → Ensures (for_request host h c) (λ (h', c'). Effect h.request_id c c')
  unfolding for_request
  for_request-Effect h c pos t =
      let r : Request =
        allocated host h.request_id (entry h.request_id (grow h.request_id c.requests)) in
      let fits = allocated-Fits h.request_id (entry h.request_id (grow h.request_id c.requests)) (
        entry-Fits h.request_id (grow h.request_id c.requests) pos
          ((grow-Grown h.request_id c.requests).is_table t)) in
      Ensures->>= _
        (handle_packet host.limit host.name_memory host.value_memory host.message h r c.shared) _
        (Ensures_map
          (handle_packet host.limit host.name_memory host.value_memory host.message h r c.shared)
          (λ (h', r', sh) handled. stored-Effect h.request_id c r' sh pos t handled)
          (handle_packet-Handled host.limit host.name_memory host.value_memory host.message h r
            c.shared fits.0))

  after_get_values-Management :
      (h : Header) (c0 c : Connection) (p : Parsed (OStream × Wire))
      → Management c0 c
      → Ensures (after_get_values host h c p) (λ (h', c'). Management c0 c')
  after_get_values-Management h c0 c (looping d datas out) m = tt
  after_get_values-Management h c0 c (returned false d (os, wire)) m = record {
    same_requests = m.same_requests;
    same_actives = m.same_actives;
    same_queue = m.same_queue;
  }
  after_get_values-Management h c0 c (returned true d (os, wire)) m = record {
    same_requests = m.same_requests;
    same_actives = m.same_actives;
    same_queue = m.same_queue;
  }
  after_get_values-Management h c0 c (raised d out) m = tt
  after_get_values-Management h c0 c (failed e) m = tt
  after_get_values-Management h c0 c out_of_fuel m = tt

  for_management-Management :
      (h : Header) (c : Connection)
      → Ensures (for_management host h c) (λ (h', c'). Management c c')
  unfolding for_management handle_get_values
  for_management-Management h c = elim (Bool-cases (h.type == Protocol.get_values)) [
    | inr other ↦ rw other (record { same_requests = refl; same_actives = refl; same_queue = refl })
    | inl values ↦ rw values (
        Ensures_bind_all _ (sink_to_vector h c.shared.socket) _ (λ (content, h', socket).
          after_get_values-Management h' c (with_socket socket c)
            (feed_bytes (get_values_new_key host.hardware_concurrency host.to_string) host.limit
              c.get_value_handler content (c.get_value_result_stream, c.shared.wire))
            (record { same_requests = refl; same_actives = refl; same_queue = refl })))
  ]

  pub dispatch-Dispatched :
      (h : Header) (c : Connection)
      → IsTable c.requests
      → Ensures (dispatch host h c) (λ (h', c'). Dispatched h c c')
  unfolding dispatch
  dispatch-Dispatched h c t = elim (Bool-cases (h.request_id == 0)) [
    | inl zero_id ↦ rw zero_id (
        Ensures_map (for_management host h c) (λ (h', c') m. to_connection (ground arith) m)
          (for_management-Management h c))
    | inr some_id ↦ rw some_id (
        Ensures_map (for_request host h c) (λ (h', c') f. to_request (ground arith) f)
          (for_request-Effect h c (ground arith) t))
  ]

  -- A packet is the business of the request that its header names: whatever it is, the entries of
  -- all other requests stay as they were, and the table stays one of consistent requests that stand
  -- at the places of their ids.
  pub dispatch_isolated :
      (h h' : Header) (c c' : Connection) (j : ℕ)
      → IsTable c.requests
      → 0 < j
      → j ≢ h.request_id
      → dispatch host h c ≡ ok (h', c')
      → (entry j c'.requests ≡ entry j c.requests) × IsTable c'.requests
  dispatch_isolated h h' c c' j t pos ne e =
      isolated (Ensures_elim (λ (x, y). Dispatched h c y) e (dispatch-Dispatched h c t))
    where
      isolated :
          Dispatched h c c' → (entry j c'.requests ≡ entry j c.requests) × IsTable c'.requests
      isolated (to_connection z m) =
          (ap (entry j) m.same_requests, subst IsTable (sym m.same_requests) t)
      isolated (to_request p f) = (f.others j pos ne, f.is_table)
