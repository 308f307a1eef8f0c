-- ===== src/Pool/Drains.antt =====
-- The end of the connections, once no socket is accepted any more.
use tfcgi.Prelude.{
  ℕ, suc, ◌≡◌, ◌≢◌, ◌≤◌, ◌+◌, ◌*◌, refl, sym, ap, ◌∙◌, ◌⊎◌, inl, inr, List, [], ◌∷◌, length,
  length-insert, get_elem?, lt-get_elem?, tally-set_at, All-set, All-get_elem?, some, All, arith,
  tally,
}
use mathlib.Core.Path.{subst}
use tfcgi.Socket.{Socket}
use tfcgi.Request.{Request}
use tfcgi.Worker.{AppOutput, AppEnd}
use tfcgi.Connection.{Host}
use tfcgi.System.{Phase, serving, leaving, gone, ended}
use tfcgi.System.Erased.{open_phase}
use tfcgi.System.Safety.{InPhase}
use tfcgi.Pool.{
  Slot, Pool, popped, Step, creates, packet, breaks, leaves, takes, ends, erases, Reach, here, next,
  opened,
}
use tfcgi.Pool.Parts.{part}
use tfcgi.Pool.Refines.{IsPool, Reach-IsPool, opened-IsPool}
use tfcgi.Pool.Live.{HasBytes, IsLive, view-IsSafe, running-IsLive}

abbrev pub still_open : Slot → ℕ
still_open sl = open_phase sl.phase

abbrev to_do : Pool → ℕ
to_do p = 2 * length p.queue + length p.running + tally still_open p.slots

-- Nothing is accepted any more, and each connection has left its loop.
abbrev pub IsLeaving : Pool → Type 0
IsLeaving p = (p.incoming ≡ []) × All (λ sl. sl.phase ≢ serving) p.slots

-- Nothing is left of the connections.
abbrev pub IsOver : Pool → Type 0
IsOver p = (p.queue ≡ []) × (p.running ≡ []) × All (λ sl. sl.phase ≡ gone) p.slots

module _ (host : Host) (respond : Request → List AppOutput × AppEnd) where
  abbrev pub steps : {p q : Pool} → Reach host respond p q → ℕ
  steps here = 0
  steps (next r st) = suc (steps r)

  step_done :
      {p q : Pool} → IsLeaving p → Step host respond p q → (to_do q + 1 ≤ to_do p) × IsLeaving q
  step_done {p} (none_left, left) (creates {socket} {rest} inc) =
      let e : [] ≡ socket ∷ rest = sym none_left ∙ inc in cc
  step_done {p} (none_left, left) (packet k {sl} at up sane e) =
      absurd (All-get_elem? (λ sl. sl.phase ≢ serving) p.slots k sl left at up)
  step_done {p} (none_left, left) (breaks k {sl} at up sane e) =
      absurd (All-get_elem? (λ sl. sl.phase ≢ serving) p.slots k sl left at up)
  step_done {p} (none_left, left) (leaves k {sl} at up down) =
      absurd (All-get_elem? (λ sl. sl.phase ≢ serving) p.slots k sl left at up)
  step_done {p} (none_left, left) (takes k request_id {sl} {queue} first at) = (
    omega (arith, ap length first, tally-set_at still_open p.slots k (popped sl) sl at),
    (
      none_left,
      All-set (λ sl. sl.phase ≢ serving) p.slots k (popped sl) left
          (All-get_elem? (λ sl. sl.phase ≢ serving) p.slots k sl left at),
    ),
  )
  step_done {p} (none_left, left) (ends before after k request_id {sl} {r} split at e) =
      let slk' : Slot = record sl { connection = ended host respond request_id r sl.connection } in
      (
        omega (
          arith,
          ap length split,
          length-insert before after (k, request_id),
          tally-set_at still_open p.slots k slk' sl at,
        ),
        (
          none_left,
          All-set (λ sl. sl.phase ≢ serving) p.slots k slk' left
              (All-get_elem? (λ sl. sl.phase ≢ serving) p.slots k sl left at),
        ),
      )
  step_done {p} (none_left, left) (erases k {sl} at lv none_active) =
      let slk' : Slot = record sl { phase = gone } in
      (
        omega (arith, tally-set_at still_open p.slots k slk' sl at, ap open_phase lv),
        (none_left, All-set (λ sl. sl.phase ≢ serving) p.slots k slk' left (λ e. cc)),
      )

  one_left :
      (slots : List Slot)
      → All (λ sl. sl.phase ≢ serving) slots
      → All (λ sl. sl.phase ≡ gone) slots
        ⊎ ((i : ℕ) × (sl : Slot) × (get_elem? slots i ≡ some sl) × (sl.phase ≡ leaving))
  one_left [] left = inl tt
  one_left (sl ∷ slots) (ne, left) = elim (one_left slots left) [
    | inr (i, sl', at, e) ↦ inr (suc i, sl', at, e)
    | inl rest ↦ here_first sl.phase refl rest
  ]
    where
      here_first :
          (p : Phase)
          → sl.phase ≡ p
          → All (λ sl. sl.phase ≡ gone) slots
          → All (λ sl. sl.phase ≡ gone) (sl ∷ slots)
            ⊎ ((i : ℕ) × (sl' : Slot) × (get_elem? (sl ∷ slots) i ≡ some sl')
                × (sl'.phase ≡ leaving))
      here_first serving e rest = absurd (ne e)
      here_first leaving e rest = inr (0, sl, refl, e)
      here_first gone e rest = inl (e, rest)

  can_step :
      (p : Pool)
      → IsPool host respond HasBytes p
      → IsLeaving p
      → All (λ (i, request_id). IsLive p i request_id) p.running
      → IsOver p ⊎ ((q : Pool) × Step host respond p q)
  can_step p k (none_left, left) live = go p.queue p.running refl refl
    where
      go :
          (queue running : List (ℕ × ℕ))
          → p.queue ≡ queue
          → p.running ≡ running
          → IsOver p ⊎ ((q : Pool) × Step host respond p q)
      go ((i, request_id) ∷ queue) running eq er =
          let (sl, at) = lt-get_elem? p.slots i (subst (All _) eq k.queue_below).0 in
          inr (_, takes i request_id eq at)
      go [] ((i, request_id) ∷ running) eq er =
          let ((sl, r, at, n, e, st), rest) = subst (All _) er live in
          inr (_, ends [] running i request_id er at e)
      go [] [] eq er = elim (one_left p.slots left) [
        | inl over ↦ inl (eq, er, over)
        | inr (i, sl, at, lv) ↦
            let safe = view-IsSafe host respond p i sl k at in
            inr (
              _,
              erases i at lv (
                  omega (
                    arith,
                    safe.counts.counted,
                    ap (λ queue. length (part i queue)) eq,
                    ap (λ running. length (part i running)) er,
                    subst
                        (λ x. InPhase x sl.connection.requests sl.connection.shared.request_actives)
                        lv safe.in_phase,
                  )),
            )
      ]

  run_done :
      {p q : Pool}
      → IsLeaving p
      → (u : Reach host respond p q) → (steps u + to_do q ≤ to_do p) × IsLeaving q
  run_done l here = (omega arith, l)
  run_done l (next u st) =
      let (le, l') = run_done l u in let (less, l'') = step_done l' st in (omega arith, l'')

  -- All connections of the process come to their end, in whatever order the workers take the
  -- requests of the one queue and end them: from a state in which no socket is left to accept and
  -- each connection has left its loop, a run has at most two steps for each request in the queue,
  -- one for each that a worker holds and one for each connection; and when it can go on no more,
  -- the queue is empty, no worker holds a request, and all connections are erased. The reads of the
  -- sockets are of bytes, calls of the application return, and for each request there is a worker
  -- that takes it.
  pub connections_drain :
      (sockets : List Socket) (p q : Pool)
      → All HasBytes sockets
      → Reach host respond (opened sockets) p
      → IsLeaving p
      → (u : Reach host respond p q)
      → (steps u ≤ 2 * length p.queue + length p.running + tally still_open p.slots)
        × (IsOver q ⊎ ((q' : Pool) × Step host respond q q'))
  connections_drain sockets p q bytes r l u =
      let (le, l') = run_done l u in
      let k0 =
        Reach-IsPool host respond HasBytes r (opened-IsPool host respond HasBytes sockets bytes) in
      (
        omega arith,
        can_step q (Reach-IsPool host respond HasBytes u k0) l'
            (running-IsLive host respond q (Reach-IsPool host respond HasBytes u k0)),
      )
