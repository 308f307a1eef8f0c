-- ===== src/Connection/Rounds.antt =====
-- One round of the loop over the packets, as a step of the connection.
use tfcgi.Prelude.{
  ◌^◌, ◌<◌, ◌≡◌, refl, Bool, true, false, All, Ensures, Ensures->>=, Ensures_map, Ensures_bind_all,
}
use tfcgi.Protocol.{Header}
use tfcgi.Socket.{Socket}
use tfcgi.Packet.{read_packet, destroy}
use tfcgi.Packet.Words.{StoresBytes, read_packet-request_id-lt}
use tfcgi.Request.{Request, Shared}
use tfcgi.Request.Lifecycle.{Step, stays, begins, hands_over, cancels}
use tfcgi.Connection.{Host, Connection, with_socket, dispatch, after_header, one_packet}
use tfcgi.Connection.Table.{IsTable}
use tfcgi.Connection.Effects.{
  Dispatched, to_connection, to_request, Outcome, managed, requested, dispatch-Dispatched,
}

Step-with_socket :
    (r r' : Request) (sh sh' : Shared) (s t : Socket)
    → Step r r' (record sh { socket = s }) sh'
    → Step r r' sh (record sh' { socket = t })
Step-with_socket r r' sh sh' s t (stays e a q) = stays e a q
Step-with_socket r r' sh sh' s t (begins e e' a q) = begins e e' a q
Step-with_socket r r' sh sh' s t (hands_over e e' a q) = hands_over e e' a q
Step-with_socket r r' sh sh' s t (cancels e e' a q) = cancels e e' a q

-- What the socket is makes no difference.
Outcome-with_socket :
    (c c' : Connection) (s t : Socket) → Outcome (with_socket s c) c' → Outcome c (with_socket t c')
Outcome-with_socket c c' s t (managed m) = managed (record {
  same_requests = m.same_requests;
  same_actives = m.same_actives;
  same_queue = m.same_queue;
})
Outcome-with_socket c c' s t (requested i pos small f) = requested i pos small (record {
  r = f.r;
  r' = f.r';
  prior = f.prior;
  step = Step-with_socket f.r f.r' c.shared c'.shared s t f.step;
  named = f.named;
  present = f.present;
  others = f.others;
  is_table = f.is_table;
  tallies = f.tallies;
  bounded = f.bounded;
})

Dispatched-Outcome :
    (h : Header) (c c' : Connection) → h.request_id < 2 ^ 16 → Dispatched h c c' → Outcome c c'
Dispatched-Outcome h c c' small (to_connection z m) = managed m
Dispatched-Outcome h c c' small (to_request p f) = requested h.request_id p small f

module _ (host : Host) where
  after_header-Outcome :
      (sane : Bool) (h : Header) (c : Connection)
      → (sane ≡ true → h.request_id < 2 ^ 16)
      → IsTable c.requests
      → Ensures (after_header host sane h c) (λ (again, c'). Outcome c c')
  unfolding after_header
  after_header-Outcome true h c small t = Ensures->>= _ (dispatch host h c) _ (
      Ensures_map (dispatch host h c)
        (λ (h', c') d. Ensures_bind_all _ (destroy h' c'.shared.socket) _ (λ s.
          Outcome-with_socket c c' c.shared.socket s (Dispatched-Outcome h c c' (small refl) d)))
        (dispatch-Dispatched host h c t))
  after_header-Outcome false h c small t =
      Ensures_bind_all _ (destroy h c.shared.socket) _
        (λ s. managed (record { same_requests = refl; same_actives = refl; same_queue = refl }))

  pub one_packet-Outcome :
      (c : Connection)
      → IsTable c.requests
      → All StoresBytes c.shared.socket.reads
      → Ensures (one_packet host c) (λ (again, c'). Outcome c c')
  unfolding one_packet
  one_packet-Outcome c t bytes = Ensures->>= _ (read_packet host.header_memory c.shared.socket) _ (
      Ensures_map (read_packet host.header_memory c.shared.socket)
        (λ (h, s) small.
          Ensures_map (after_header host s.socket_insane h (with_socket s c))
            (λ (again, c') o. Outcome-with_socket c c' s c'.shared.socket o)
            (after_header-Outcome s.socket_insane h (with_socket s c) small t))
        (read_packet-request_id-lt host.header_memory c.shared.socket bytes))
