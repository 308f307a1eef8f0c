-- ===== src/System/Answers.antt =====
-- A request from its first packet to its answer: the loop of `Connection::thread_func`
-- (src/connection.cpp), then `pop_request` and the work of a worker (src/request-workers.cpp).
mod Tests
use tfcgi.Prelude.{
  ℕ, suc, ◌+◌, ◌-◌, ◌<◌, ◌^◌, ◌≡◌, refl, sym, ap, ◌∙◌, true, List, [], ◌∷◌, ◌++◌, none, some, All,
  length, ok, concat, set, get_or, ◌/◌, ◌%◌, get_or-set_self, arith,
}
use mathlib.Core.Path.{subst}
use tfcgi.Packet.Framing.{at}
use tfcgi.Protocol
use tfcgi.Protocol.{EndRequestBody, end_request_bytes, header_bytes, begin_request_of, swap16}
use tfcgi.Socket.{ReadResult}
use tfcgi.OStream.{Wire}
use tfcgi.OStream.Packets.{record_bytes}
use tfcgi.OStream.Grows.{Extends}
use tfcgi.Nvp.Maps.Lookup.{map_get, last_value}
use tfcgi.Request.{ready, pending, Request, Shared, increment, decrement}
use tfcgi.Worker.{AppOutput, AppEnd, pop_request, work}
use tfcgi.Worker.Backlog.{pop_request_one}
use tfcgi.Worker.Finished.{role_status, work_ends, work-SameLife, work_shared}
use tfcgi.Connection.{Host, Connection, allocated, entry, read_loop}
use tfcgi.Connection.Table.{IsTable}
use tfcgi.Connection.Incoming.Packets.{
  Begin, IsBegin, End, IsEnd, Framed, IsFramed, framed_pairs, request_reads,
}
use tfcgi.Connection.Incoming.Delivered.{request_delivered}
use tfcgi.System.{ended}
use tfcgi.System.Moves.{get_or-lt}

-- The bytes of the number in the header of the first packet.
sent_id :
    (b : Begin) (n : ℕ)
    → n < 2 ^ 16
    → IsBegin (swap16 n) b
    → (get_or (concat b.chunks) 2 0 ≡ n / 256) × (get_or (concat b.chunks) 3 0 ≡ n % 256)
unfolding header_bytes
sent_id b n small v =
    let named = v.named in
    (
      ap (λ bytes. get_or bytes 2 0) v.bytes ∙ omega (arith, named),
      ap (λ bytes. get_or bytes 3 0) v.bytes ∙ omega (arith, named),
    )

module _ (host : Host) (respond : Request → List AppOutput × AppEnd) where
  -- A request that comes whole while no other waits is the one that the next worker gets, with the
  -- parameters that were sent. (The table is well formed, the id has no request or a ready one, the
  -- packets of parameters hold whole pairs with lengths of one byte, and the two counts are below
  -- 2 ^ 32 - 1.) When the worker has done with it, the last record that went out is an END_REQUEST
  -- with the status of its role, behind all that had gone out before; the count of active requests,
  -- the queue and the backlog are what they were before the request came. The entry of the table
  -- stays pending. Defect: the web server sent the request under the number `n`, with the bytes
  -- `n / 256` and `n % 256`, high byte first; it is queued, and the END_REQUEST answers, under the
  -- number with the two bytes swapped, so that the answer is to another request unless they are equal.
  pub request_answered :
      (fuel n : ℕ) (b : Begin) (fs : List Framed) (l : End) (c : Connection)
      (left : List ReadResult)
      → 0 < n
      → n < 2 ^ 16
      → IsTable c.requests
      → (allocated host (swap16 n) (entry (swap16 n) c.requests)).state ≡ ready
      → IsBegin (swap16 n) b
      → All (IsFramed (swap16 n) host.limit) fs
      → IsEnd (swap16 n) l
      → c.shared.socket ≡ at true (request_reads b fs l left)
      → c.shared.queue ≡ []
      → c.shared.request_actives + 1 < 2 ^ 32
      → c.shared.backlog + 1 < 2 ^ 32
      → (c1 : Connection) × (r : Request) × (sh : Shared) × (read_loop host
            (suc (length fs + suc fuel))
            c
          ≡ read_loop host fuel c1)
        × (pop_request c1.shared ≡ ok (swap16 n, sh))
        × (entry (swap16 n) c1.requests ≡ some r)
        × ((key : List ℕ) → map_get key r.params ≡ last_value key (framed_pairs fs) none)
        × (get_or (concat b.chunks) 2 0 ≡ n / 256)
        × (get_or (concat b.chunks) 3 0 ≡ n % 256)
        × (let c2 = ended host respond (swap16 n) r (record c1 { shared = sh }) in
            (c2.shared.request_actives ≡ c.shared.request_actives)
            × (c2.shared.queue ≡ [])
            × (c2.shared.backlog ≡ c.shared.backlog)
            × ((body : EndRequestBody) × (before : Wire) × Extends c.shared.wire before
                × (c2.shared.wire
                    ≡ before
                      ++ (record_bytes Protocol.end_request (swap16 n) (end_request_bytes body)
                          ∷ []))
                × (body.protocol_status
                    ≡ role_status (swap16 (begin_request_of (concat b.content)).role)))
            × ((r2 : Request) × (entry (swap16 n) c2.requests ≡ some r2) × (r2.state ≡ pending)))
  request_answered fuel n b fs l c left some_id small table idle vb vs vl wire empty few
        few_backlog =
      let request_id = swap16 n in
      let pos : 0 < swap16 n = omega arith in
      let (c1, r, loop, present, named, waits, body_same, params, shared, others) =
        request_delivered host fuel request_id b fs l c left pos table idle vb vs vl wire in
      let sh = record c1.shared { queue = []; backlog = decrement c1.shared.backlog } in
      let one : c1.shared.queue ≡ request_id ∷ [] =
        ap (λ (s : Shared). s.queue) shared ∙ ap (λ q. q ++ (request_id ∷ [])) empty in
      let (body, before, grows, sent, status, _, _, _, _) =
        work_ends respond host.to_string r sh (omega (arith, named)) in
      let wire_id = sent_id b n small vb in
      let (actives, queue, _, backlog) = work_shared respond host.to_string r sh in
      let r2 = (work respond host.to_string r sh).0 in
      (
        c1,
        r,
        sh,
        loop,
        pop_request_one [] request_id c1.shared one,
        present,
        params,
        wire_id.0,
        wire_id.1,
        (
          actives ∙ omega (arith, ap (λ (s : Shared). s.request_actives) shared),
          queue,
          backlog ∙ omega (arith, ap (λ (s : Shared). s.backlog) shared),
          (
            body,
            before,
            subst (λ (w : Wire). Extends w before) (ap (λ (s : Shared). s.wire) shared) grows,
            sent
                ∙ ap
                    (λ i.
                      before ++ (record_bytes Protocol.end_request i (end_request_bytes body) ∷ []))
                    named,
            status ∙ ap (λ q. role_status q.role) body_same,
          ),
          (
            r2,
            get_or-set_self c1.requests (request_id - 1) (some r2) none
                (get_or-lt c1.requests (request_id - 1) r present),
            (work-SameLife respond host.to_string r sh).1 ∙ waits,
          ),
        ),
      )
