-- ===== src/Connection/Incoming/Rounds.antt =====
-- What the loop of `Connection::thread_func` makes of the packets of a request that come whole.
use tfcgi.Prelude.{
  ℕ, suc, ◌+◌, ◌<◌, ◌≡◌, refl, sym, ap, ◌∙◌, true, List, Option, [], ◌∷◌, ◌++◌, none, some, All,
  concat, length, arith, ok, if◌then◌else◌, ◌==◌,
}
use Prim.Native.Nat.add
use mathlib.Core.List.{foldl}
use mathlib.Core.Path.{subst}
use tfcgi.Protocol.{Header, header_bytes, begin_request_of}
use tfcgi.Protocol.Swap.{IsHeader}
use tfcgi.Socket.{ReadResult}
use tfcgi.Socket.Recv.{gots, IsChunks}
use tfcgi.Packet.Framing.{at}
use tfcgi.Nvp.Deserializer.{Deserializer, forward, effective_max_pair_size}
use tfcgi.Nvp.Deserializer.WholePairs.{after_pairs, after_pairs-IsReady}
use tfcgi.Nvp.Deserializer.Rounds.{IsReady}
use tfcgi.Nvp.Maps.{to_map_new_key}
use tfcgi.Request.{ready, pending, Request, Shared, increment, accept, push_request, handle_packet}
use tfcgi.Request.Arrival.{pairs}
use tfcgi.Request.Beginning.{Accepted, accept-Accepted, handle_packet-begin}
use tfcgi.Request.Parameters.{
  foldl-append, after_pairs-max_pair_size, after_arrival, handle_packet-arrival,
  handle_packet-params, handle_params-end,
}
use tfcgi.Connection.{Host, Connection, allocated, entry, after_packet, one_packet, read_loop}
use tfcgi.Connection.Loop.{read_loop_up}
use tfcgi.Connection.Incoming.{on_wire, Holds, one_packet-stored}
use tfcgi.Connection.Incoming.Packets.{
  Begin, IsBegin, End, IsEnd, Framed, IsFramed, framed_pairs, framed_reads,
}

module _ (host : Host) where
  open host use {limit, name_memory, value_memory, message}

  read_loop_on :
      (fuel : ℕ) (c c' : Connection)
      → c.shared.socket.socket_insane ≡ true
      → one_packet host c ≡ ok (true, c')
      → read_loop host (suc fuel) c ≡ read_loop host fuel c'
  read_loop_on fuel c c' up e =
      read_loop_up host fuel c up ∙ ap (after_packet host (read_loop host fuel)) e

  -- A packet for a request that the connection holds.
  read_loop-stored :
      (fuel request_id : ℕ) (h : Header) (chunks : List (List ℕ)) (rest : List ReadResult)
      (table : List (Option Request)) (c : Connection) (r r' : Request) (sh sh' : Shared)
      → 0 < request_id
      → h.request_id ≡ request_id
      → IsHeader h
      → IsChunks chunks
      → concat chunks ≡ header_bytes (on_wire h)
      → Holds table request_id r sh c
      → sh.socket ≡ at true (gots chunks ++ rest)
      → handle_packet limit name_memory value_memory message h r
          (record sh { socket = at true rest })
        ≡ ok (record h { content_length = 0 }, r', sh')
      → (c' : Connection) × (read_loop host (suc fuel) c ≡ read_loop host fuel c')
        × Holds table request_id r' sh' c'
  read_loop-stored fuel request_id h chunks rest table c r r' sh sh' pos named v ic e holds wire
        handled =
      let wire' : c.shared.socket ≡ at true (gots chunks ++ rest) =
        ap (λ (s : Shared). s.socket) holds.shared ∙ wire in
      let held : allocated host h.request_id (entry h.request_id c.requests) ≡ r =
        ap (λ i. allocated host i (entry i c.requests)) named
        ∙ ap (allocated host request_id) holds.present in
      let (c', round, holds') =
        one_packet-stored host h chunks rest c r' sh' (omega (arith, named)) v ic e wire' (
          ap
            (λ q.
              handle_packet limit name_memory value_memory message h q
                (record c.shared { socket = at true rest }))
            held
          ∙ ap
              (λ (s : Shared).
                handle_packet limit name_memory value_memory message h r
                  (record s { socket = at true rest }))
              holds.shared
          ∙ handled) in
      (
        c',
        read_loop_on fuel c c' (ap (λ s. s.socket_insane) wire') round,
        record {
          shared = holds'.shared;
          present = ap (λ i. entry i c'.requests) (sym named) ∙ holds'.present;
          others = λ j jpos ne.
              holds'.others j jpos (λ e. ne (omega (arith, named))) ∙ holds.others j jpos ne;
        },
      )

  -- Some packets of parameters.
  pub read_loop-framed :
      (fs : List Framed) (fuel request_id : ℕ) (table : List (Option Request)) (c : Connection)
      (d : Deserializer) (r : Request) (sh : Shared) (left : List ReadResult)
      → 0 < request_id
      → Holds table request_id r sh c
      → r.params_deserializer ≡ some d
      → IsReady d
      → All (IsFramed request_id (effective_max_pair_size limit d)) fs
      → sh.socket ≡ at true (framed_reads fs left)
      → (c' : Connection) × (d' : Deserializer) × (read_loop host (length fs + fuel) c
          ≡ read_loop host fuel c')
        × Holds table request_id
            (record r {
              params_deserializer = some d';
              params = foldl to_map_new_key r.params (framed_pairs fs);
            })
            (record sh { socket = at true left })
            c'
  read_loop-framed [] fuel request_id table c d r sh left pos holds ed idle vs wire = (
    c,
    d,
    rw add.zero refl,
    record {
      shared = holds.shared ∙ ap (λ s. record sh { socket = s }) wire;
      present = holds.present ∙ ap (λ x. some (record r { params_deserializer = x })) ed;
      others = holds.others;
    },
  )
  read_loop-framed (f ∷ fs) fuel request_id table c d r sh left pos holds ed idle (v, vs) wire =
      let before = forward d.remaining_len d in
      let d1 = after_pairs (pairs f.arrival) before in
      let rest = framed_reads fs left in
      let same : effective_max_pair_size limit d ≡ effective_max_pair_size limit d1 =
        ap (λ n. if n == 0 then limit else n)
          (sym (after_pairs-max_pair_size (pairs f.arrival) before)) in
      let content = gots f.arrival.content ++ (gots f.arrival.padding ++ rest) in
      let (c1, round, holds1) =
        read_loop-stored (length fs + fuel) request_id f.arrival.header f.chunks content table c r
          (after_arrival f.arrival d r) sh (record sh { socket = at true rest }) pos v.named
          v.header v.chunks v.bytes holds wire
          (handle_packet-arrival limit name_memory value_memory message f.arrival d r
            (record sh { socket = at true content }) rest true ed idle v.arrival refl) in
      let (c', d', rounds, holds') =
        read_loop-framed fs fuel request_id table c1 d1 (after_arrival f.arrival d r)
          (record sh { socket = at true rest }) left pos holds1 refl
          (after_pairs-IsReady (pairs f.arrival) before
            (record { idle = idle.idle; at_new = idle.at_new }))
          (subst (λ most. All (IsFramed request_id most) fs) same vs) refl in
      (
        c',
        d',
        rw add.suc (round ∙ rounds),
        record {
          shared = holds'.shared;
          present =
              holds'.present
              ∙ ap (λ m. some (record r { params_deserializer = some d'; params = m }))
                  (sym (foldl-append (pairs f.arrival) (framed_pairs fs) r.params));
          others = holds'.others;
        },
      )

  -- The end of the parameters.
  pub read_loop-end :
      (fuel request_id : ℕ) (l : End) (table : List (Option Request)) (c : Connection)
      (d : Deserializer) (r : Request) (sh : Shared) (left : List ReadResult)
      → 0 < request_id
      → IsEnd request_id l
      → Holds table request_id (record r { params_deserializer = some d }) sh c
      → sh.socket ≡ at true (gots l.chunks ++ left)
      → (c' : Connection) × (read_loop host (suc fuel) c ≡ read_loop host fuel c')
        × Holds table request_id
            (record r { params_deserializer = none; state = pending })
            (push_request r (record sh { socket = at true left }))
            c'
  unfolding push_request
  read_loop-end fuel request_id l table c d r sh left pos v holds wire =
      let r1 = record r { params_deserializer = some d } in
      let sh1 = record sh { socket = at true left } in
      read_loop-stored fuel request_id l.header l.chunks left table c r1 _ sh _ pos v.named v.header
        v.chunks v.bytes holds wire
        (handle_packet-params limit name_memory value_memory message l.header r1 sh1 v.type
          ∙ handle_params-end limit name_memory value_memory message d l.header r1 sh1 v.size
          ∙ ap
              (λ n. ok (
                record l.header { content_length = n },
                record r { params_deserializer = none; state = pending },
                push_request r sh1,
              ))
              v.size)

  -- BEGIN_REQUEST, on a request that is new or ready.
  pub read_loop-begin :
      (fuel request_id : ℕ) (b : Begin) (c : Connection) (rest : List ReadResult)
      → 0 < request_id
      → IsBegin request_id b
      → (allocated host request_id (entry request_id c.requests)).state ≡ ready
      → c.shared.socket ≡ at true (gots b.chunks ++ (gots b.content ++ (gots b.padding ++ rest)))
      → (c' : Connection) × (r' : Request) × (read_loop host (suc fuel) c ≡ read_loop host fuel c')
        × Accepted name_memory value_memory
            (begin_request_of (concat b.content))
            (allocated host request_id (entry request_id c.requests))
            r'
        × Holds c.requests request_id r'
            (record c.shared {
              socket = at true rest;
              request_actives = increment c.shared.request_actives;
            })
            c'
  read_loop-begin fuel request_id b c rest pos v idle wire =
      let r = allocated host request_id (entry request_id c.requests) in
      let content = gots b.content ++ (gots b.padding ++ rest) in
      let r' = accept name_memory value_memory (begin_request_of (concat b.content)) r in
      let sh' = record c.shared {
        socket = at true rest;
        request_actives = increment c.shared.request_actives;
      } in
      let (c', round, holds) =
        one_packet-stored host b.header b.chunks content c r' sh' (omega (arith, v.named)) v.header
          v.chunks v.bytes wire
          (ap
              (λ i.
                handle_packet limit name_memory value_memory message b.header
                  (allocated host i (entry i c.requests))
                  (record c.shared { socket = at true content }))
              v.named
            ∙ handle_packet-begin limit name_memory value_memory message b.header r
                (record c.shared { socket = at true content }) b.content b.padding rest true v.type
                idle v.size v.content v.padding v.content_length v.padding_length refl) in
      (
        c',
        r',
        read_loop_on fuel c c' (ap (λ s. s.socket_insane) wire) round,
        accept-Accepted name_memory value_memory (begin_request_of (concat b.content)) r,
        subst (λ i. Holds c.requests i r' sh' c') v.named holds,
      )
