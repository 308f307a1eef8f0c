-- ===== src/Connection/Incoming/Delivered.antt =====
-- A request that comes whole over a connection, from its BEGIN_REQUEST to the end of its parameters:
-- the loop of `Connection::thread_func` (src/connection.cpp) with `Request::handle_packet`.
use tfcgi.Prelude.{
  ℕ, suc, ◌+◌, ◌<◌, ◌≡◌, refl, ap, ◌∙◌, true, List, [], ◌∷◌, ◌++◌, none, some, All, length, concat,
  ◌≢◌,
}
use mathlib.Core.List.{foldl}
use tfcgi.Protocol.{begin_request_of, swap16}
use tfcgi.Socket.{ReadResult}
use tfcgi.Socket.Recv.{gots}
use tfcgi.Packet.Framing.{at}
use tfcgi.Nvp.Deserializer.{new_deserializer}
use tfcgi.Nvp.Maps.{to_map_new_key}
use tfcgi.Nvp.Maps.Lookup.{map_get, last_value, map_get_nothing, map_get-foldl}
use tfcgi.Request.{ready, pending, Request, increment, push_request}
use tfcgi.Connection.{Host, Connection, allocated, entry, read_loop}
use tfcgi.Connection.Table.{IsTable, entry-Fits}
use tfcgi.Connection.Effects.{allocated-Fits}
use tfcgi.Connection.Incoming.Packets.{
  Begin, IsBegin, End, IsEnd, Framed, IsFramed, framed_pairs, framed_reads, request_reads,
}
use tfcgi.Connection.Incoming.Rounds.{read_loop-begin, read_loop-framed, read_loop-end}

module _ (host : Host) where
  open host use {limit, name_memory, value_memory}

  -- A request that comes whole, in packets that are read in chunks of any sizes: BEGIN_REQUEST, any
  -- number of packets of parameters that each hold whole pairs with lengths of one byte, and the
  -- empty one. Where the table is well formed and the id has no request, or a ready one, it has a
  -- pending one behind them, with the role and the flags of the body of BEGIN_REQUEST, and
  -- parameters that give each key the value of its last pair; the id stands in the queue of the
  -- workers behind those that were there, the counts of active requests and of the backlog went up
  -- by one modulo 2 ^ 32, nothing was sent, the other requests are as they were, and the loop goes
  -- on with the bytes that follow.
  pub request_delivered :
      (fuel request_id : ℕ) (b : Begin) (fs : List Framed) (l : End) (c : Connection)
      (left : List ReadResult)
      → 0 < request_id
      → IsTable c.requests
      → (allocated host request_id (entry request_id c.requests)).state ≡ ready
      → IsBegin request_id b
      → All (IsFramed request_id limit) fs
      → IsEnd request_id l
      → c.shared.socket ≡ at true (request_reads b fs l left)
      → let body = begin_request_of (concat b.content) in
        (c' : Connection) × (r' : Request) × (read_loop host (suc (length fs + suc fuel)) c
          ≡ read_loop host fuel c')
        × (entry request_id c'.requests ≡ some r')
        × (r'.request_id ≡ request_id)
        × (r'.state ≡ pending)
        × (r'.begin_request ≡ record body { role = swap16 body.role })
        × ((key : List ℕ) → map_get key r'.params ≡ last_value key (framed_pairs fs) none)
        × (c'.shared ≡ record c.shared {
          socket = at true left;
          request_actives = increment c.shared.request_actives;
          queue = c.shared.queue ++ (request_id ∷ []);
          backlog = increment c.shared.backlog;
        })
        × ((j : ℕ) → 0 < j → j ≢ request_id → entry j c'.requests ≡ entry j c.requests)
  unfolding push_request
  request_delivered fuel request_id b fs l c left pos table idle vb vs vl wire =
      let named =
        (allocated-Fits host request_id (entry request_id c.requests)
          (entry-Fits request_id c.requests pos table)).1 in
      let (c1, r1, first, accepted, holds1) =
        read_loop-begin host (length fs + suc fuel) request_id b c
          (framed_reads fs (gots l.chunks ++ left)) pos vb idle wire in
      let (c2, d, middle, holds2) =
        read_loop-framed host fs (suc fuel) request_id c.requests c1
          (new_deserializer name_memory value_memory) r1 _ (gots l.chunks ++ left) pos holds1
          accepted.at_new (record { idle = refl; at_new = refl }) vs refl in
      let (c3, last, holds3) =
        read_loop-end host fuel request_id l c.requests c2 d
          (record r1 { params = foldl to_map_new_key r1.params (framed_pairs fs) }) _ left pos vl
          holds2 refl in
      (
        c3,
        _,
        first ∙ middle ∙ last,
        holds3.present,
        accepted.same_id ∙ named,
        refl,
        accepted.same_body,
        λ key.
            map_get-foldl key (framed_pairs fs) r1.params
            ∙ ap (λ m. last_value key (framed_pairs fs) (map_get key m)) accepted.no_params
            ∙ ap (last_value key (framed_pairs fs)) (map_get_nothing key),
        holds3.shared
            ∙ ap
                (λ i. record c.shared {
                  socket = at true left;
                  request_actives = increment c.shared.request_actives;
                  queue = c.shared.queue ++ (i ∷ []);
                  backlog = increment c.shared.backlog;
                })
                (accepted.same_id ∙ named),
        holds3.others,
      )
