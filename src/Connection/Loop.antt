-- ===== src/Connection/Loop.antt =====
-- The thread of a connection comes to the end of its loop.
use tfcgi.Prelude.{
  ℕ, zero, suc, ◌+◌, ◌*◌, ◌≤◌, ap, [], ◌∷◌, ◌++◌, concat, length-append, ◌<◌, ◌≡◌, refl, ◌∙◌, Bool,
  true, false, Bool-cases, inl, inr, List, Option, some, length, ◌==◌, Result, ok, stop, Ensures,
  Ensures->>=, Ensures_map, arith,
}
use tfcgi.Protocol
use tfcgi.Protocol.{Header, header_bytes}
use tfcgi.Socket.{ReadResult, got, read_failed, Socket}
use tfcgi.Socket.Recv.{gots}
use tfcgi.Packet.Consume.{read_packet-Received}
use tfcgi.Socket.Follows.{Follows, FollowsOn, Follows-refl, Follows-trans, FollowsOn-trans}
use tfcgi.Packet.{read_packet, sink_to_vector, destroy}
use tfcgi.Packet.Follows.{read_packet-FollowsOn, sink_to_vector-Follows, destroy-Follows}
use tfcgi.Nvp.Deserializer.{Parsed, looping, returned, raised, failed, out_of_fuel, feed_bytes}
use tfcgi.Nvp.Maps.{get_values_new_key}
use tfcgi.OStream.{OStream, Wire}
use tfcgi.Request.{handle_packet}
use tfcgi.Request.Follows.{handle_packet-Leaves}
use tfcgi.Connection.{
  Host, Connection, grow, entry, with_socket, allocated, for_request, after_get_values,
  handle_get_values, for_management, dispatch, after_header, one_packet, after_packet, read_loop,
}

-- The bytes that the kernel returns.
abbrev pub received : List ReadResult → ℕ
received [] = 0
received (got bytes ∷ reads) = length bytes + received reads
received (read_failed e ∷ reads) = received reads

received-append : (xs ys : List ReadResult) → received (xs ++ ys) ≡ received xs + received ys
received-append [] ys = omega arith
received-append (got bytes ∷ xs) ys = omega (arith, received-append xs ys)
received-append (read_failed e ∷ xs) ys = received-append xs ys

received-gots : (chunks : List (List ℕ)) → received (gots chunks) ≡ length (concat chunks)
received-gots [] = refl
received-gots (c ∷ cs) = omega (arith, received-gots cs, length-append c (concat cs))

Follows-received :
    (reads : List ReadResult) (s : Socket) → Follows reads s → received s.reads ≤ received reads
Follows-received reads s (used, e) = omega (arith, ap received e, received-append used s.reads)

module _ (host : Host) where
  -- What an operation of the connection leaves of the answers of the kernel.
  abbrev Leaves : List ReadResult → Result (Header × Connection) → Type 0
  Leaves reads m = Ensures m (λ (h, c). Follows reads c.shared.socket)

  for_request-Leaves :
      (h : Header) (c : Connection) → Leaves c.shared.socket.reads (for_request host h c)
  unfolding for_request
  for_request-Leaves h c =
      let r = allocated host h.request_id (entry h.request_id (grow h.request_id c.requests)) in
      Ensures->>= _
        (handle_packet host.limit host.name_memory host.value_memory host.message h r c.shared) _
        (handle_packet-Leaves host.limit host.name_memory host.value_memory host.message h r
          c.shared)

  after_get_values-Leaves :
      (reads : List ReadResult) (h : Header) (c : Connection) (p : Parsed (OStream × Wire))
      → Follows reads c.shared.socket
      → Leaves reads (after_get_values host h c p)
  after_get_values-Leaves reads h c (looping d datas out) f = tt
  after_get_values-Leaves reads h c (returned false d (os, wire)) f = f
  after_get_values-Leaves reads h c (returned true d (os, wire)) f = f
  after_get_values-Leaves reads h c (raised d out) f = tt
  after_get_values-Leaves reads h c (failed e) f = tt
  after_get_values-Leaves reads h c out_of_fuel f = tt

  handle_get_values-Leaves :
      (h : Header) (c : Connection) → Leaves c.shared.socket.reads (handle_get_values host h c)
  unfolding handle_get_values
  handle_get_values-Leaves h c = Ensures->>= _ (sink_to_vector h c.shared.socket) _ (
      Ensures_map (sink_to_vector h c.shared.socket)
        (λ (content, h', socket) f.
          after_get_values-Leaves c.shared.socket.reads h' (with_socket socket c)
            (feed_bytes (get_values_new_key host.hardware_concurrency host.to_string) host.limit
              c.get_value_handler content (c.get_value_result_stream, c.shared.wire))
            f)
        (sink_to_vector-Follows h c.shared.socket))

  pub dispatch-Leaves :
      (h : Header) (c : Connection) → Leaves c.shared.socket.reads (dispatch host h c)
  unfolding dispatch for_management
  dispatch-Leaves h c = elim (Bool-cases (h.request_id == 0)) [
    | inr request ↦ rw request (for_request-Leaves h c)
    | inl management ↦ rw management (elim (Bool-cases (h.type == Protocol.get_values)) [
      | inl values ↦ rw values (handle_get_values-Leaves h c)
      | inr other ↦ rw other (Follows-refl c.shared.socket)
    ])
  ]

  after_header-Leaves :
      (sane : Bool) (h : Header) (c : Connection)
      → Ensures
          (after_header host sane h c)
          (λ (again, c'). Follows c.shared.socket.reads c'.shared.socket)
  unfolding after_header
  after_header-Leaves true h c = Ensures->>= _ (dispatch host h c) _ (
      Ensures_map (dispatch host h c)
        (λ (h', c') f. Ensures->>= _ (destroy h' c'.shared.socket) _ (
          Ensures_map (destroy h' c'.shared.socket)
            (λ t g. Follows-trans c.shared.socket.reads c'.shared.socket t f g)
            (destroy-Follows h' c'.shared.socket)))
        (dispatch-Leaves h c))
  after_header-Leaves false h c =
      Ensures->>= _ (destroy h c.shared.socket) _ (destroy-Follows h c.shared.socket)

  pub one_packet-FollowsOn :
      (c : Connection)
      → Ensures
          (one_packet host c)
          (λ (again, c'). FollowsOn c.shared.socket.reads c'.shared.socket)
  unfolding one_packet
  one_packet-FollowsOn c = Ensures->>= _ (read_packet host.header_memory c.shared.socket) _ (
      Ensures_map (read_packet host.header_memory c.shared.socket)
        (λ (h, t) f.
          Ensures_map (after_header host t.socket_insane h (with_socket t c))
            (λ (again, c') g. FollowsOn-trans c.shared.socket.reads t c'.shared.socket f g)
            (after_header-Leaves t.socket_insane h (with_socket t c)))
        (read_packet-FollowsOn host.header_memory c.shared.socket))

  read_loop_down :
      (fuel : ℕ) (c : Connection)
      → c.shared.socket.socket_insane ≡ false
      → read_loop host (suc fuel) c ≡ some (ok c)
  unfolding read_loop
  read_loop_down fuel c e = simp e

  pub read_loop_up :
      (fuel : ℕ) (c : Connection)
      → c.shared.socket.socket_insane ≡ true
      → read_loop host (suc fuel) c ≡ after_packet host (read_loop host fuel) (one_packet host c)
  unfolding read_loop
  read_loop_up fuel c e = simp e

  -- A header that was read with the flag up took eight bytes that the kernel returned.
  header_read :
      (c : Connection)
      → Ensures
          (read_packet host.header_memory c.shared.socket)
          (λ (h, t). t.socket_insane ≡ true → received t.reads + 8 ≤ received c.shared.socket.reads)
  header_read c =
      Ensures_map (read_packet host.header_memory c.shared.socket)
        (λ (h, t) r up.
          let (chunks, split, eight) = r up in
          omega (
            arith,
            ap received split,
            received-append (gots chunks) t.reads,
            received-gots chunks,
            eight,
          ))
        (read_packet-Received host.header_memory c.shared.socket)

  -- What a round that goes on has used.
  Goes : ℕ → Bool × Connection → Type 0
  Goes bytes (again, c') = again ≡ true → received c'.shared.socket.reads + 8 ≤ bytes

  after_header-Goes :
      (bytes : ℕ) (sane : Bool) (h : Header) (c : Connection)
      → (sane ≡ true → received c.shared.socket.reads + 8 ≤ bytes)
      → Ensures (after_header host sane h c) (Goes bytes)
  unfolding Goes after_header
  after_header-Goes bytes true h c few =
      Ensures_map (after_header host true h c)
        (λ (again, c') f up.
          omega (arith, few refl, Follows-received c.shared.socket.reads c'.shared.socket f))
        (after_header-Leaves true h c)
  after_header-Goes bytes false h c few =
      Ensures->>= _ (destroy h c.shared.socket) _
        (Ensures_map (destroy h c.shared.socket) (λ t f up. cc) (destroy-Follows h c.shared.socket))

  one_packet-Goes :
      (c : Connection) → Ensures (one_packet host c) (Goes (received c.shared.socket.reads))
  unfolding one_packet
  one_packet-Goes c = Ensures->>= _ (read_packet host.header_memory c.shared.socket) _ (
      Ensures_map (read_packet host.header_memory c.shared.socket)
        (λ (h, t) few.
          after_header-Goes (received c.shared.socket.reads) t.socket_insane h (with_socket t c)
            few)
        (header_read c))

  after_packet-some :
      (bytes : ℕ) (rounds : Connection → Option (Result Connection))
      (m : Result (Bool × Connection))
      → ((c : Connection)
          → received c.shared.socket.reads + 8 ≤ bytes
          → (r : Result Connection) × (rounds c ≡ some r))
      → Ensures m (Goes bytes)
      → (r : Result Connection) × (after_packet host rounds m ≡ some r)
  unfolding Goes
  after_packet-some bytes rounds (ok (true, c)) next h = next c (h refl)
  after_packet-some bytes rounds (ok (false, c)) next h = (ok c, refl)
  after_packet-some bytes rounds (stop e) next h = (stop e, refl)

  -- The loop over the packets comes to an end, however the packets go and however often `read` then
  -- reports the end of the input or an error: it returns, blocks in `read`, or stops with an exception
  -- or a fault. One round for each eight bytes that the kernel ever returns, and one more, are enough:
  -- a round takes a whole header from them, or else it is the last.
  pub read_loop_ends :
      (fuel : ℕ) (c : Connection)
      → received c.shared.socket.reads < 8 * fuel
      → (m : Result Connection) × (read_loop host fuel c ≡ some m)
  read_loop_ends zero c h = absurd (omega arith)
  read_loop_ends (suc fuel) c h = elim (Bool-cases c.shared.socket.socket_insane) [
    | inr down ↦ (ok c, read_loop_down fuel c down)
    | inl up ↦
        let (m, e) =
          after_packet-some (received c.shared.socket.reads) (read_loop host fuel)
            (one_packet host c) (λ c' few. read_loop_ends fuel c' (omega arith))
            (one_packet-Goes c) in
        (m, read_loop_up fuel c up ∙ e)
  ]
