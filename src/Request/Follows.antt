-- ===== src/Request/Follows.antt =====
-- A request reads its packet and leaves the rest of the answers of the kernel.
use tfcgi.Prelude.{
  ℕ, Bool, true, false, List, Option, none, some, ◌==◌, if◌then◌else◌, Result, Ensures, Ensures->>=,
  Ensures_map, replicate,
}
use tfcgi.Protocol
use tfcgi.Protocol.{Header}
use tfcgi.Packet.{packet_recv_all, sink_to_vector}
use tfcgi.Packet.Follows.{packet_recv_all-Follows, sink_to_vector-Follows}
use tfcgi.Socket.Follows.{Follows, Follows-refl}
use tfcgi.Nvp.Deserializer.{
  Deserializer, Parsed, looping, returned, raised, failed, out_of_fuel, feed_bytes,
}
use tfcgi.Nvp.Maps.{Map, to_map_new_key}
use tfcgi.Request.{
  State, ready, reading_params, pending, app_running, Request, Shared, cancel, after_feed,
  handle_params, handle_begin, handle_stdin, handle_data, handle_packet, push_request,
}

-- What a handler leaves of the answers that `sh` has.
abbrev pub Leaves : Shared → Result (Header × Request × Shared) → Type 0
Leaves sh m = Ensures m (λ (h', r', sh'). Follows sh.socket.reads sh'.socket)

module _ (limit : ℕ) (name_memory value_memory : List ℕ) (message : Deserializer → List ℕ) where
  after_feed-Leaves :
      (h : Header) (r : Request) (sh0 sh : Shared) (p : Parsed Map)
      → Follows sh0.socket.reads sh.socket
      → Leaves sh0 (after_feed limit name_memory value_memory message h r sh p)
  unfolding cancel push_request
  after_feed-Leaves h r sh0 sh (looping d datas m) f = tt
  after_feed-Leaves h r sh0 sh (returned false d m) f = f
  after_feed-Leaves h r sh0 sh (returned true d m) f = f
  after_feed-Leaves h r sh0 sh (raised d m) f = f
  after_feed-Leaves h r sh0 sh (failed e) f = tt
  after_feed-Leaves h r sh0 sh out_of_fuel f = tt

  handle_params-Leaves :
      (o : Option Deserializer) (h : Header) (r : Request) (sh : Shared)
      → Leaves sh (handle_params limit name_memory value_memory message o h r sh)
  unfolding handle_params
  handle_params-Leaves none h r sh = Follows-refl sh.socket
  handle_params-Leaves (some d) h r sh = Ensures->>= _ (sink_to_vector h sh.socket) _ (
      Ensures_map (sink_to_vector h sh.socket)
        (λ (content, h', socket) f.
          after_feed-Leaves h' r sh (record sh { socket = socket })
            (feed_bytes to_map_new_key limit d content r.params) f)
        (sink_to_vector-Follows h sh.socket))

  handle_begin-Leaves :
      (st : State) (h : Header) (r : Request) (sh : Shared)
      → Leaves sh (handle_begin limit name_memory value_memory message st h r sh)
  unfolding handle_begin
  handle_begin-Leaves ready h r sh =
      Ensures->>= _ (packet_recv_all (replicate 8 0) h sh.socket) _
        (packet_recv_all-Follows (replicate 8 0) h sh.socket)
  handle_begin-Leaves reading_params h r sh = Follows-refl sh.socket
  handle_begin-Leaves pending h r sh = Follows-refl sh.socket
  handle_begin-Leaves app_running h r sh = Follows-refl sh.socket

  handle_stdin-Leaves :
      (st : State) (h : Header) (r : Request) (sh : Shared)
      → Leaves sh (handle_stdin limit name_memory value_memory message st h r sh)
  unfolding handle_stdin
  handle_stdin-Leaves ready h r sh = Follows-refl sh.socket
  handle_stdin-Leaves _ h r sh =
      Ensures->>= _ (sink_to_vector h sh.socket) _ (sink_to_vector-Follows h sh.socket)

  handle_data-Leaves :
      (st : State) (h : Header) (r : Request) (sh : Shared)
      → Leaves sh (handle_data limit name_memory value_memory message st h r sh)
  unfolding handle_data
  handle_data-Leaves ready h r sh = Follows-refl sh.socket
  handle_data-Leaves _ h r sh =
      Ensures->>= _ (sink_to_vector h sh.socket) _ (sink_to_vector-Follows h sh.socket)

  either :
      (P : Result (Header × Request × Shared) → Type 0) (b : Bool)
      {x y : Result (Header × Request × Shared)}
      → P x
      → P y
      → P (if b then x else y)
  either P true px py = px
  either P false px py = py

  pub handle_packet-Leaves :
      (h : Header) (r : Request) (sh : Shared)
      → Leaves sh (handle_packet limit name_memory value_memory message h r sh)
  unfolding handle_packet
  handle_packet-Leaves h r sh =
      let P = Leaves sh in
      let same = Follows-refl sh.socket in
      either P (h.type == Protocol.begin_request) (handle_begin-Leaves r.state h r sh) (
        either P (h.type == Protocol.abort_request) same (
          either P (h.type == Protocol.params) (handle_params-Leaves r.params_deserializer h r sh) (
            either P (h.type == Protocol.stdin) (handle_stdin-Leaves r.state h r sh) (
              either P (h.type == Protocol.data_stream) (handle_data-Leaves r.state h r sh)
                (either P (h.type == Protocol.get_values) same same)))))
