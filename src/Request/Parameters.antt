-- ===== src/Request/Parameters.antt =====
-- The parameters of a request, from the packets to the map that the application reads.
pub mod Tests
use tfcgi.Prelude.{
  ℕ, ◌≡◌, refl, ap, sym, ◌∙◌, ◌==◌, if◌then◌else◌, Bool, List, [], ◌∷◌, ◌++◌, none, some, length,
  All, ok, arith, eq_true, eq_false,
}
use mathlib.Core.List.{foldl}
use mathlib.Core.Path.{subst}
use tfcgi.Protocol
use tfcgi.Protocol.{Header}
use tfcgi.Socket.{Socket, ReadResult}
use tfcgi.Packet.{sink_to_vector}
use tfcgi.Packet.Framing.{at, sink_to_vector-gots, empty_packet_keeps_padding}
use tfcgi.Nvp.Deserializer.{Deserializer, forward, effective_max_pair_size}
use tfcgi.Nvp.Deserializer.WholePairs.{
  Pair, IsSmall, serialize_all, after_pair, after_pairs, after_pairs-IsReady,
  feed_bytes-serialize_all,
}
use tfcgi.Nvp.Deserializer.Rounds.{IsReady, feed_bytes_nil}
use tfcgi.Nvp.Maps.{Map, to_map_new_key}
use tfcgi.Nvp.Maps.Lookup.{map_get, last_value, map_get-foldl}
use tfcgi.Request.{pending, Request, Shared, handle_packet, handle_params, after_feed, push_request}
use tfcgi.Request.Arrival.{Arrival, pairs, IsArrival, headers, all_pairs, arrive}
use tfcgi.Request.Runs.{run_packets, run_packets_step, run_packets_last}

pub foldl-append :
    (ps qs : List Pair) (m : Map)
    → foldl to_map_new_key m (ps ++ qs) ≡ foldl to_map_new_key (foldl to_map_new_key m ps) qs
foldl-append [] qs m = refl
foldl-append (p ∷ ps) qs m = foldl-append ps qs (to_map_new_key m p)

pub after_pairs-max_pair_size :
    (ps : List Pair) (d : Deserializer) → (after_pairs ps d).max_pair_size ≡ d.max_pair_size
after_pairs-max_pair_size [] d = refl
after_pairs-max_pair_size ((key, val) ∷ ps) d =
    after_pairs-max_pair_size ps (after_pair (length key) (length val) d)

-- The request behind one packet of parameters.
abbrev pub after_arrival : Arrival → Deserializer → Request → Request
after_arrival a d r = record r {
  params_deserializer = some (after_pairs (pairs a) (forward d.remaining_len d));
  params = foldl to_map_new_key r.params (pairs a);
}

module _ (limit : ℕ) (name_memory value_memory : List ℕ) (message : Deserializer → List ℕ) where
  pub handle_packet-params :
      (h : Header) (r : Request) (sh : Shared)
      → h.type ≡ Protocol.params
      → handle_packet limit name_memory value_memory message h r sh
        ≡ handle_params limit name_memory value_memory message r.params_deserializer h r sh
  unfolding handle_packet
  handle_packet-params h r sh e =
      rw (eq_false h.type 1 (omega arith), eq_false h.type 2 (omega arith), eq_true h.type 4 e)

  -- One packet of parameters.
  handle_params-pairs :
      (p : Pair) (ps : List Pair) (d : Deserializer) (h h' : Header) (r : Request) (sh : Shared)
      (socket : Socket)
      → IsReady d
      → All (IsSmall (effective_max_pair_size limit d)) (p ∷ ps)
      → sink_to_vector h sh.socket ≡ ok (serialize_all (p ∷ ps), h', socket)
      → handle_params limit name_memory value_memory message (some d) h r sh
        ≡ ok (
          h',
          record r {
            params_deserializer = some (after_pairs (p ∷ ps) (forward d.remaining_len d));
            params = foldl to_map_new_key r.params (p ∷ ps);
          },
          record sh { socket = socket },
        )
  unfolding handle_params
  handle_params-pairs p ps d h h' r sh socket v small e = rw e (
      ap (after_feed limit name_memory value_memory message h' r (record sh { socket = socket }))
        (feed_bytes-serialize_all to_map_new_key limit p ps d r.params v small).0)

  -- The empty packet.
  pub handle_params-end :
      (d : Deserializer) (h : Header) (r : Request) (sh : Shared)
      → h.content_length ≡ 0
      → handle_params limit name_memory value_memory message (some d) h r sh
        ≡ ok (h, record r { params_deserializer = none; state = pending }, push_request r sh)
  unfolding handle_params push_request
  handle_params-end d h r sh e = rw (empty_packet_keeps_padding h sh.socket e).0 (
      ap (after_feed limit name_memory value_memory message h r sh)
        (feed_bytes_nil to_map_new_key limit d r.params))

  sunk_arrival :
      (most : ℕ) (a : Arrival) (left : List ReadResult) (sane : Bool)
      → IsArrival most a
      → sink_to_vector a.header (at sane (arrive (a ∷ []) left))
        ≡ ok (serialize_all (pairs a), record a.header { content_length = 0 }, at sane left)
  sunk_arrival most a left sane v =
      sink_to_vector-gots a.header a.content a.padding left sane v.size v.content_chunks
        v.padding_chunks v.content_length v.padding_length
      ∙ ap (λ (bs : List ℕ). ok (bs, record a.header { content_length = 0 }, at sane left)) v.bytes

  pub handle_packet-arrival :
      (a : Arrival) (d : Deserializer) (r : Request) (sh : Shared) (left : List ReadResult)
      (sane : Bool)
      → r.params_deserializer ≡ some d
      → IsReady d
      → IsArrival (effective_max_pair_size limit d) a
      → sh.socket ≡ at sane (arrive (a ∷ []) left)
      → handle_packet limit name_memory value_memory message a.header r sh
        ≡ ok (
          record a.header { content_length = 0 },
          after_arrival a d r,
          record sh { socket = at sane left },
        )
  handle_packet-arrival a d r sh left sane ed ready v wire =
      handle_packet-params a.header r sh v.type
      ∙ (ap (λ x. handle_params limit name_memory value_memory message x a.header r sh) ed
          ∙ handle_params-pairs a.first a.more d a.header (record a.header { content_length = 0 }) r
              sh (at sane left) ready v.small
              (ap (sink_to_vector a.header) wire
                ∙ sunk_arrival (effective_max_pair_size limit d) a left sane v))

  -- Some packets of parameters: the deserializer is ready for the next one.
  run_packets-arrivals :
      (arrivals : List Arrival) (hs : List Header) (d : Deserializer) (r : Request) (sh : Shared)
      (left : List ReadResult) (sane : Bool)
      → r.params_deserializer ≡ some d
      → IsReady d
      → All (IsArrival (effective_max_pair_size limit d)) arrivals
      → sh.socket ≡ at sane (arrive arrivals left)
      → (d' : Deserializer) × (run_packets limit name_memory value_memory message
            (headers arrivals ++ hs)
            r
            sh
          ≡ run_packets limit name_memory value_memory message hs
              (record r {
                params_deserializer = some d';
                params = foldl to_map_new_key r.params (all_pairs arrivals);
              })
              (record sh { socket = at sane left }))
  run_packets-arrivals [] hs d r sh left sane ed ready vs wire = (
    d,
    ap
          (λ x.
            run_packets limit name_memory value_memory message hs
              (record r { params_deserializer = x }) sh)
          ed
        ∙ ap
            (λ x.
              run_packets limit name_memory value_memory message hs
                (record r { params_deserializer = some d }) (record sh { socket = x }))
            wire,
  )
  run_packets-arrivals (a ∷ arrivals) hs d r sh left sane ed ready (v, vs) wire =
      let d1 = after_pairs (pairs a) (forward d.remaining_len d) in
      let same : effective_max_pair_size limit d ≡ effective_max_pair_size limit d1 =
        ap (λ n. if n == 0 then limit else n)
          (sym (after_pairs-max_pair_size (pairs a) (forward d.remaining_len d))) in
      let (d', e) =
        run_packets-arrivals arrivals hs d1 (after_arrival a d r)
          (record sh { socket = at sane (arrive arrivals left) }) left sane refl
          (after_pairs-IsReady (pairs a) (forward d.remaining_len d)
            (record { idle = ready.idle; at_new = ready.at_new }))
          (subst (λ most. All (IsArrival most) arrivals) same vs) refl in
      (
        d',
        run_packets_step limit name_memory value_memory message a.header
              (record a.header { content_length = 0 }) (headers arrivals ++ hs) r
              (after_arrival a d r) sh (record sh { socket = at sane (arrive arrivals left) })
              (handle_packet-arrival a d r sh (arrive arrivals left) sane ed ready v wire)
            ∙ e
            ∙ ap
                (λ m.
                  run_packets limit name_memory value_memory message hs
                    (record r { params_deserializer = some d'; params = m })
                    (record sh { socket = at sane left }))
                (sym (foldl-append (pairs a) (all_pairs arrivals) r.params)),
      )

  -- The parameters that the web server sends for a request, in any number of packets that each hold
  -- whole pairs with lengths of one byte, and the empty packet behind them, hand the request to the
  -- workers with the deserializer gone and a map that gives each key the value of its last pair.
  pub params_delivered :
      (arrivals : List Arrival) (d : Deserializer) (h : Header) (r : Request) (sh : Shared)
      (left : List ReadResult) (sane : Bool)
      → r.params_deserializer ≡ some d
      → IsReady d
      → All (IsArrival (effective_max_pair_size limit d)) arrivals
      → h.type ≡ Protocol.params
      → h.content_length ≡ 0
      → sh.socket ≡ at sane (arrive arrivals left)
      → (r' : Request) × (run_packets limit name_memory value_memory message
            (headers arrivals ++ (h ∷ []))
            r
            sh
          ≡ ok (r', push_request r (record sh { socket = at sane left })))
        × (r'.state ≡ pending)
        × (r'.params_deserializer ≡ none)
        × ((key : List ℕ)
            → map_get key r'.params ≡ last_value key (all_pairs arrivals) (map_get key r.params))
  unfolding push_request
  params_delivered arrivals d h r sh left sane ed ready vs t z wire =
      let (d', e) = run_packets-arrivals arrivals (h ∷ []) d r sh left sane ed ready vs wire in
      let r1 = record r {
        params_deserializer = some d';
        params = foldl to_map_new_key r.params (all_pairs arrivals);
      } in
      let sh1 = record sh { socket = at sane left } in
      (
        record r1 { params_deserializer = none; state = pending },
        e
            ∙ run_packets_last limit name_memory value_memory message h h r1 _ sh1 _
                (handle_packet-params h r1 sh1 t ∙ handle_params-end d' h r1 sh1 z),
        refl,
        refl,
        λ key. map_get-foldl key (all_pairs arrivals) r.params,
      )
