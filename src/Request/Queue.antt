-- ===== src/Request/Queue.antt =====
-- What `handle_packet` does to the queue of the workers: it looks at nothing in it, and puts at
-- most one request behind all others.
use tfcgi.Prelude.{
  ℕ, ◌≡◌, refl, ap, List, ◌∷◌, [], ◌++◌, ◌==◌, true, false, append_assoc, Option, none, some,
  replicate, Result, ok, ◌>>=◌, if_then, >>=-then,
}
use tfcgi.Protocol
use tfcgi.Protocol.{Header, begin_request_of}
use tfcgi.Packet.{sink_to_vector, packet_recv_all}
use tfcgi.Nvp.Deserializer.{
  Deserializer, Parsed, looping, returned, raised, failed, out_of_fuel, feed_bytes,
}
use tfcgi.Nvp.Maps.{Map, to_map_new_key}
use tfcgi.Request.{
  State, ready, reading_params, pending, app_running, Request, Shared, push_request, increment,
  after_feed, handle_params, handle_begin, handle_stdin, handle_data, cancel, handle_packet,
}

-- The same state, with other requests in front of the queue.
abbrev pub behind : List ℕ → Shared → Shared
behind queue sh = record sh { queue = queue ++ sh.queue }

abbrev moved : List ℕ → Header × Request × Shared → Result (Header × Request × Shared)
moved queue (h, r, sh) = ok (h, r, behind queue sh)

module _ (limit : ℕ) (name_memory value_memory : List ℕ) (message : Deserializer → List ℕ)
    (queue : List ℕ) where
  after_feed-behind :
      (h : Header) (r : Request) (sh : Shared) (p : Parsed Map)
      → after_feed limit name_memory value_memory message h r (behind queue sh) p
        ≡ (after_feed limit name_memory value_memory message h r sh p >>= moved queue)
  unfolding push_request cancel
  after_feed-behind h r sh (looping d datas m) = refl
  after_feed-behind h r sh (returned false d m) = refl
  after_feed-behind h r sh (returned true d m) =
      ap
        (λ q. ok (
          h,
          record r { params_deserializer = none; params = m; state = pending },
          record sh { queue = q; backlog = increment sh.backlog },
        ))
        (append_assoc queue sh.queue (r.request_id ∷ []))
  after_feed-behind h r sh (raised d m) = refl
  after_feed-behind h r sh (failed e) = refl
  after_feed-behind h r sh out_of_fuel = refl

  handle_params-behind :
      (o : Option Deserializer) (h : Header) (r : Request) (sh : Shared)
      → handle_params limit name_memory value_memory message o h r (behind queue sh)
        ≡ (handle_params limit name_memory value_memory message o h r sh >>= moved queue)
  unfolding handle_params
  handle_params-behind none h r sh = refl
  handle_params-behind (some d) h r sh =
      >>=-then (sink_to_vector h sh.socket) _ _ _ (λ (content, h', socket).
        after_feed-behind h' r (record sh { socket = socket })
          (feed_bytes to_map_new_key limit d content r.params))

  handle_begin-behind :
      (st : State) (h : Header) (r : Request) (sh : Shared)
      → handle_begin limit name_memory value_memory message st h r (behind queue sh)
        ≡ (handle_begin limit name_memory value_memory message st h r sh >>= moved queue)
  unfolding handle_begin
  handle_begin-behind ready h r sh =
      >>=-then (packet_recv_all (replicate 8 0) h sh.socket) _ _ _ (λ x. refl)
  handle_begin-behind reading_params h r sh = refl
  handle_begin-behind pending h r sh = refl
  handle_begin-behind app_running h r sh = refl

  handle_stdin-behind :
      (st : State) (h : Header) (r : Request) (sh : Shared)
      → handle_stdin limit name_memory value_memory message st h r (behind queue sh)
        ≡ (handle_stdin limit name_memory value_memory message st h r sh >>= moved queue)
  unfolding handle_stdin
  handle_stdin-behind ready h r sh = refl
  handle_stdin-behind _ h r sh = >>=-then (sink_to_vector h sh.socket) _ _ _ (λ x. refl)

  handle_data-behind :
      (st : State) (h : Header) (r : Request) (sh : Shared)
      → handle_data limit name_memory value_memory message st h r (behind queue sh)
        ≡ (handle_data limit name_memory value_memory message st h r sh >>= moved queue)
  unfolding handle_data
  handle_data-behind ready h r sh = refl
  handle_data-behind _ h r sh = >>=-then (sink_to_vector h sh.socket) _ _ _ (λ x. refl)

  pub handle_packet-behind :
      (h : Header) (r : Request) (sh : Shared)
      → handle_packet limit name_memory value_memory message h r (behind queue sh) ≡ (
          handle_packet limit name_memory value_memory message h r sh >>= λ (h', r', sh').
          ok (h', r', behind queue sh'))
  unfolding handle_packet
  handle_packet-behind h r sh =
      if_then (h.type == Protocol.begin_request) _ _ _ _ _ (handle_begin-behind r.state h r sh) (
        if_then (h.type == Protocol.abort_request) _ _ _ _ _ refl (
          if_then (h.type == Protocol.params) _ _ _ _ _
            (handle_params-behind r.params_deserializer h r sh)
            (if_then (h.type == Protocol.stdin) _ _ _ _ _ (handle_stdin-behind r.state h r sh) (
              if_then (h.type == Protocol.data_stream) _ _ _ _ _ (handle_data-behind r.state h r sh)
                (if_then (h.type == Protocol.get_values) _ _ _ _ _ refl refl)))))
