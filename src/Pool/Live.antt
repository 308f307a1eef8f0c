-- ===== src/Pool/Live.antt =====
-- The requests that the queue and the workers refer to.
use tfcgi.Prelude.{
  ℕ, ◌≡◌, ◌≢◌, sym, Bool-cases, inl, inr, List, [], ◌∷◌, length, get_elem?, lt-get_elem?, some, All,
  arith, ltb,
}
use mathlib.Core.Path.{subst}
use tfcgi.Socket.{Socket}
use tfcgi.Packet.Words.{StoresBytes}
use tfcgi.Request.{Request, pending}
use tfcgi.Worker.{AppOutput, AppEnd}
use tfcgi.Connection.{Host, entry}
use tfcgi.System.{gone}
use tfcgi.System.Counts.{IsHeld, All-map}
use tfcgi.System.Safety.{IsSafe, gone_empty, Reach-IsSafe, started-IsSafe}
use tfcgi.Pool.{Slot, Pool, unused, Reach, opened}
use tfcgi.Pool.Parts.{part, All-part, IsBelow, part_below}
use tfcgi.Pool.Refines.{view, IsPool, Reach-IsPool, opened-IsPool}

-- The connection is not erased, and has the request, which is pending.
abbrev pub IsLive : Pool → ℕ → ℕ → Type 0
IsLive p i request_id =
    (sl : Slot) × (r : Request) × (get_elem? p.slots i ≡ some sl)
    × (sl.phase ≢ gone)
    × (entry request_id sl.connection.requests ≡ some r)
    × (r.state ≡ pending)

abbrev pub HasBytes : Socket → Type 0
HasBytes socket = All StoresBytes socket.reads

module _ (host : Host) (respond : Request → List AppOutput × AppEnd) where
  pub view-IsSafe :
      (p : Pool) (i : ℕ) (sl : Slot)
      → IsPool host respond HasBytes p
      → get_elem? p.slots i ≡ some sl
      → IsSafe (view i sl p)
  view-IsSafe p i sl k at =
      let (socket, bytes, r) = k.each i sl at in
      Reach-IsSafe host respond (started-IsSafe host respond socket (unused socket) bytes) r

  held-IsLive :
      (p : Pool) (i : ℕ) (sl : Slot) (ids : List ℕ)
      → get_elem? p.slots i ≡ some sl
      → (sl.phase ≡ gone → ids ≡ [])
      → All (IsHeld sl.connection.requests) ids
      → All (IsLive p i) ids
  held-IsLive p i sl [] at alive held = tt
  held-IsLive p i sl (request_id ∷ ids) at alive held =
      let not_gone : sl.phase ≢ gone = λ g. cons_ne (alive g) in
      All-map (λ j (r, pos, e, st). (sl, r, at, not_gone, e, st)) (request_id ∷ ids) held
    where
      cons_ne : request_id ∷ ids ≢ []
      cons_ne e = cc

  part-IsLive :
      (p : Pool) (i : ℕ) (queue : List (ℕ × ℕ))
      → All (IsBelow (length p.slots)) queue
      → ((sl : Slot)
          → get_elem? p.slots i ≡ some sl
          → (sl.phase ≡ gone → part i queue ≡ [])
            × All (IsHeld sl.connection.requests) (part i queue))
      → All (IsLive p i) (part i queue)
  part-IsLive p i queue below h = elim (Bool-cases (ltb i (length p.slots))) [
    | inl lt ↦
        let (sl, at) = lt-get_elem? p.slots i (ground arith) in
        let (alive, held) = h sl at in held-IsLive p i sl (part i queue) at alive held
    | inr ge ↦
        subst (All (IsLive p i)) (sym (part_below (length p.slots) i queue (ground arith) below)) tt
  ]

  queue-IsLive :
      (p : Pool)
      → IsPool host respond HasBytes p
      → All (λ (i, request_id). IsLive p i request_id) p.queue
  queue-IsLive p k = All-part (IsLive p) p.queue (λ i.
      part-IsLive p i p.queue k.queue_below (λ sl at. (
        λ g. (gone_empty (view i sl p) (view-IsSafe p i sl k at) g).0,
        (view-IsSafe p i sl k at).counts.queue_held,
      )))

  pub running-IsLive :
      (p : Pool)
      → IsPool host respond HasBytes p
      → All (λ (i, request_id). IsLive p i request_id) p.running
  running-IsLive p k = All-part (IsLive p) p.running (λ i.
      part-IsLive p i p.running k.running_below (λ sl at. (
        λ g. (gone_empty (view i sl p) (view-IsSafe p i sl k at) g).1,
        (view-IsSafe p i sl k at).counts.running_held,
      )))

  -- The references that the queue holds, and those of the workers, are never dangling: whatever the
  -- order in which the threads of all connections and the workers run, each of them is to a pending
  -- request in the table of a connection that is not erased. The reads of the sockets are of bytes.
  pub references-IsLive :
      (sockets : List Socket) (p : Pool)
      → All HasBytes sockets
      → Reach host respond (opened sockets) p
      → All (λ (i, request_id). IsLive p i request_id) p.queue
        × All (λ (i, request_id). IsLive p i request_id) p.running
  references-IsLive sockets p bytes r =
      let k =
        Reach-IsPool host respond HasBytes r (opened-IsPool host respond HasBytes sockets bytes) in
      (queue-IsLive p k, running-IsLive p k)
