-- ===== src/System/Erased.antt =====
-- What runs of a connection and the workers come to.
use tfcgi.Prelude.{
  tally, ℕ, suc, ◌+◌, ◌*◌, ◌^◌, ◌≤◌, ◌<◌, ◌≡◌, ◌≢◌, refl, ap, ◌⊎◌, inl, inr, List, [], ◌∷◌, length,
  length-append, All, arith,
}
use mathlib.Core.Path.{subst}
use tfcgi.Socket.{Socket}
use tfcgi.Packet.Words.{StoresBytes}
use tfcgi.Request.{Request, Shared}
use tfcgi.Worker.{AppOutput, AppEnd}
use tfcgi.Worker.Backlog.{pop_request_one}
use tfcgi.Worker.Finished.{work_shared}
use tfcgi.Connection.{Host}
use tfcgi.Connection.Effects.{by_state}
use tfcgi.Connection.Teardown.{reading}
use tfcgi.System.{
  Phase, serving, leaving, gone, System, Step, packet, breaks, leaves, takes, ends, erases, Reach,
  here, next, started,
}
use tfcgi.System.Counts.{actives-lt}
use tfcgi.System.Moves.{pop_request_same}
use tfcgi.System.Safety.{InPhase, IsSafe, gone_empty, Reach-IsSafe, started-IsSafe}

-- What is left to do once the connection is leaving.
abbrev pub open_phase : Phase → ℕ
open_phase serving = 1
open_phase leaving = 1
open_phase gone = 0

abbrev to_do : System → ℕ
to_do s = 2 * length s.connection.shared.queue + length s.running + open_phase s.phase

module _ (host : Host) (respond : Request → List AppOutput × AppEnd) where
  -- The number of steps of a run.
  abbrev pub steps : {s t : System} → Reach host respond s t → ℕ
  steps here = 0
  steps (next r st) = suc (steps r)

  pub started-Reach-IsSafe :
      (socket : Socket) (sh : Shared) (s : System)
      → All StoresBytes socket.reads
      → Reach host respond (started host respond socket sh) s
      → IsSafe s
  started-Reach-IsSafe socket sh s bytes r =
      Reach-IsSafe host respond (started-IsSafe host respond socket sh bytes) r

  -- However the packets of a connection and the workers interleave, `request_actives` is at every
  -- moment the number of the requests that read their parameters, wait in the queue, or are held by
  -- a worker, and is below 2 ^ 16. The reads of the socket are of bytes.
  pub actives_counted :
      (socket : Socket) (sh : Shared) (s : System)
      → All StoresBytes socket.reads
      → Reach host respond (started host respond socket sh) s
      → (s.connection.shared.request_actives
          ≡ length s.connection.shared.queue
            + length s.running
            + tally (by_state reading) s.connection.requests)
        × (s.connection.shared.request_actives < 2 ^ 16)
  actives_counted socket sh s bytes r =
      let v = started-Reach-IsSafe socket sh s bytes r in (v.counts.counted, actives-lt v.counts)

  -- No connection is erased, and with it its requests and streams, while one of its requests waits
  -- for a worker or is held by one. The reads of the socket are of bytes.
  pub erased_unused :
      (socket : Socket) (sh : Shared) (s : System)
      → All StoresBytes socket.reads
      → Reach host respond (started host respond socket sh) s
      → s.phase ≡ gone
      → (s.connection.shared.queue ≡ []) × (s.running ≡ [])
  erased_unused socket sh s bytes r e = gone_empty s (started-Reach-IsSafe socket sh s bytes r) e

  -- A step of a connection that left its loop.
  step_done :
      {s t : System}
      → IsSafe s
      → s.phase ≢ serving
      → Step host respond s t
      → (to_do t + 1 ≤ to_do s) × (t.phase ≢ serving)
  step_done v n (packet p up e) = absurd (n p)
  step_done v n (breaks p up e) = absurd (n p)
  step_done v n (leaves p down) = absurd (n p)
  step_done {s} v n (takes {request_id} {sh} e) =
      (omega (arith, ap length (pop_request_same request_id s.connection.shared sh e).0), n)
  step_done {s} v n (ends before after request_id {r} split e) = (
    omega (
      arith,
      ap length (work_shared respond host.to_string r s.connection.shared).1,
      ap length split,
      length-append before (request_id ∷ after),
      length-append before after,
    ),
    n,
  )
  step_done v n (erases p a) = (omega (arith, ap open_phase p), λ e. cc)

  -- A connection that left its loop and is not erased can go on.
  can_step : (s : System) → IsSafe s → s.phase ≡ leaving → (t : System) × Step host respond s t
  can_step s v p = go s.connection.shared.queue s.running refl refl
    where
      go :
          (queue running : List ℕ)
          → s.connection.shared.queue ≡ queue
          → s.running ≡ running
          → (t : System) × Step host respond s t
      go (i ∷ queue) running q w = (_, takes (pop_request_one queue i s.connection.shared q))
      go [] (i ∷ running) q w =
          let ((r, pos, e, st), rest) = subst (All _) w v.counts.running_held in
          (_, ends [] running i w e)
      go [] [] q w = (
        _,
        erases p (
            omega (
              arith,
              v.counts.counted,
              ap length q,
              ap length w,
              subst (λ x. InPhase x s.connection.requests s.connection.shared.request_actives) p
                  v.in_phase,
            )),
      )

  run_done :
      {s t : System}
      → IsSafe s
      → s.phase ≢ serving
      → (u : Reach host respond s t) → (steps u + to_do t ≤ to_do s) × (t.phase ≢ serving)
  run_done v n here = (omega arith, n)
  run_done v n (next u st) =
      let (le, n') = run_done v n u in
      let (less, n'') = step_done (Reach-IsSafe host respond v u) n' st in (omega arith, n'')

  goes_on :
      (t : System)
      → IsSafe t
      → t.phase ≢ serving
      → (t.phase ≡ gone) ⊎ ((u : System) × Step host respond t u)
  goes_on t v n = go t.phase refl
    where
      go : (p : Phase) → t.phase ≡ p → (t.phase ≡ gone) ⊎ ((u : System) × Step host respond t u)
      go serving e = absurd (n e)
      go leaving e = inr (can_step t v e)
      go gone e = inl e

  -- A connection that left its loop is erased, in whatever order the workers take and end its
  -- requests: its steps are at most two for each request in the queue, one for each request that a
  -- worker holds and one for the erasure, and when no more step can be made it is gone. The reads of
  -- the socket are of bytes, and calls of the application return.
  pub leaving_drains :
      (socket : Socket) (sh : Shared) (s t : System)
      → All StoresBytes socket.reads
      → Reach host respond (started host respond socket sh) s
      → s.phase ≡ leaving
      → (u : Reach host respond s t)
      → (steps u ≤ 2 * length s.connection.shared.queue + length s.running + 1)
        × ((t.phase ≡ gone) ⊎ ((t' : System) × Step host respond t t'))
  leaving_drains socket sh s t bytes r p u =
      let v = started-Reach-IsSafe socket sh s bytes r in
      let n : s.phase ≢ serving = λ e. cc in
      let (le, n') = run_done v n u in
      (omega (arith, le, ap open_phase p), goes_on t (Reach-IsSafe host respond v u) n')
