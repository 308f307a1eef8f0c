-- ===== src/System/Counts.antt =====
-- `request_actives` counts the requests that read their parameters, wait for a worker, or have one.
use tfcgi.Prelude.{
  tally, ℕ, ◌+◌, ◌-◌, ◌^◌, ◌≤◌, ◌<◌, ◌≡◌, refl, sym, ap, ◌∙◌, Bool-cases, inl, inr, List, [], ◌∷◌,
  ◌++◌, Option, none, some, length, length-append, All, ◌==◌, arith,
}
use mathlib.Core.Path.{subst}
use tfcgi.Request.{State, pending, Request}
use tfcgi.Request.Lifecycle.{Step, stays, begins, hands_over, cancels, Step-pending}
use tfcgi.Connection.{Connection, entry}
use tfcgi.Connection.Table.{IsTable}
use tfcgi.Connection.Effects.{by_state, Effect, Outcome, managed, requested}
use tfcgi.Connection.Teardown.{reading, held}

-- The request of that id is in the table, and was handed to the workers.
abbrev pub IsHeld : List (Option Request) → ℕ → Type 0
IsHeld table request_id =
    (r : Request) × (0 < request_id) × (entry request_id table ≡ some r) × (r.state ≡ pending)

-- The table, `request_actives`, the queue, and the requests that workers hold.
pub record IsCounted (table : List (Option Request)) (actives : ℕ) (queue running : List ℕ)
    : Type 0 where
  pub is_table : IsTable table
  pub short : length table < 2 ^ 16
  pub counted : actives ≡ length queue + length running + tally (by_state reading) table
  pub covered : length queue + length running ≤ tally (by_state held) table
  pub queue_held : All (IsHeld table) queue
  pub running_held : All (IsHeld table) running

pub All-map : {P Q : ℕ → Type 0} → ((i : ℕ) → P i → Q i) → (is : List ℕ) → All P is → All Q is
All-map f [] h = tt
All-map f (i ∷ is) (h, hs) = (f i h, All-map f is hs)

All-snoc : (P : ℕ → Type 0) (is : List ℕ) (i : ℕ) → All P is → P i → All P (is ++ (i ∷ []))
All-snoc P [] i h p = (p, tt)
All-snoc P (j ∷ is) i (h, hs) p = (h, All-snoc P is i hs p)

state_once : (o : Option Request) → by_state reading o + by_state held o ≤ 1
state_once none = omega arith
state_once (some r) = go r.state
  where
    go : (st : State) → reading st + held st ≤ 1
    go State.ready = omega arith
    go State.reading_params = omega arith
    go State.pending = omega arith
    go State.app_running = omega arith

tallies_le :
    (table : List (Option Request))
    → tally (by_state reading) table + tally (by_state held) table ≤ length table
tallies_le [] = omega arith
tallies_le (o ∷ table) = omega (arith, state_once o, tallies_le table)

-- So the unsigned int never wraps.
pub actives-lt :
    {table : List (Option Request)} {actives : ℕ} {queue running : List ℕ}
    → IsCounted table actives queue running
    → actives < 2 ^ 16
actives-lt {table} c = omega (arith, c.counted, c.covered, c.short, tallies_le table)

pub IsCounted-cong :
    {table table' : List (Option Request)} {actives actives' : ℕ} {queue queue' running : List ℕ}
    → table' ≡ table
    → actives' ≡ actives
    → queue' ≡ queue
    → IsCounted table actives queue running
    → IsCounted table' actives' queue' running
IsCounted-cong {table} {table'} {actives} {actives'} {queue} {queue'} {running} et ea eq c =
    subst (λ t. IsCounted t actives' queue' running) (sym et)
      (subst (λ a. IsCounted table a queue' running) (sym ea)
        (subst (λ q. IsCounted table actives q running) (sym eq) c))

-- A request of the workers stays theirs, whatever packet comes.
Effect-IsHeld :
    (request_id : ℕ) (c c' : Connection)
    → 0 < request_id
    → Effect request_id c c'
    → (i : ℕ) → IsHeld c.requests i
    → IsHeld c'.requests i
Effect-IsHeld request_id c c' pos f i (q, ipos, e, p) = elim (Bool-cases (i == request_id)) [
  | inr other ↦ (q, ipos, f.others i ipos (ground arith) ∙ e, p)
  | inl same ↦
      let ei : i ≡ request_id = ground arith in
      (
        f.r',
        ipos,
        ap (λ (j : ℕ). entry j c'.requests) ei ∙ f.present,
        (Step-pending
            (ap (λ (r : Request). r.state)
                (f.prior q (ap (λ (j : ℕ). entry j c.requests) (sym ei) ∙ e))
              ∙ p)
            f.step).0,
      )
]

Step-IsCounted :
    (request_id : ℕ) (c c' : Connection) (f : Effect request_id c c') (running : List ℕ)
    → 0 < request_id
    → request_id < 2 ^ 16
    → IsCounted c.requests c.shared.request_actives c.shared.queue running
    → Step f.r f.r' c.shared c'.shared
    → IsCounted c'.requests c'.shared.request_actives c'.shared.queue running
Step-IsCounted request_id c c' f running pos small k st = record {
  is_table = f.is_table;
  short = omega (arith, f.bounded (2 ^ 16 - 1) (omega arith) (omega (arith, k.short)));
  counted = counts.0;
  covered = counts.1;
  queue_held = still_held st;
  running_held = All-map (Effect-IsHeld request_id c c' pos f) running k.running_held;
}
  where
    reads :
        tally (by_state reading) c'.requests + reading f.r.state
        ≡ tally (by_state reading) c.requests + reading f.r'.state
    reads = f.tallies reading refl

    holds :
        tally (by_state held) c'.requests + held f.r.state
        ≡ tally (by_state held) c.requests + held f.r'.state
    holds = f.tallies held refl

    go :
        Step f.r f.r' c.shared c'.shared
        → (c'.shared.request_actives
            ≡ length c'.shared.queue + length running + tally (by_state reading) c'.requests)
          × (length c'.shared.queue + length running ≤ tally (by_state held) c'.requests)
    go (stays e a q) =
        omega (arith, reads, holds, ap reading e, ap held e, a, ap length q, k.counted, k.covered)
    go (begins e e' a q) = omega (
      arith,
      reads,
      holds,
      ap reading e,
      ap held e,
      ap reading e',
      ap held e',
      a,
      ap length q,
      k.counted,
      k.covered,
      actives-lt k,
    )
    go (hands_over e e' a q) = omega (
      arith,
      reads,
      holds,
      ap reading e,
      ap held e,
      ap reading e',
      ap held e',
      a,
      ap length q,
      length-append c.shared.queue (f.r.request_id ∷ []),
      k.counted,
      k.covered,
    )
    go (cancels e e' a q) = omega (
      arith,
      reads,
      holds,
      ap reading e,
      ap held e,
      ap reading e',
      ap held e',
      a,
      ap length q,
      k.counted,
      k.covered,
      actives-lt k,
    )

    counts :
        (c'.shared.request_actives
          ≡ length c'.shared.queue + length running + tally (by_state reading) c'.requests)
        × (length c'.shared.queue + length running ≤ tally (by_state held) c'.requests)
    counts = go st

    old_held : All (IsHeld c'.requests) c.shared.queue
    old_held = All-map (Effect-IsHeld request_id c c' pos f) c.shared.queue k.queue_held

    still_held : Step f.r f.r' c.shared c'.shared → All (IsHeld c'.requests) c'.shared.queue
    still_held (stays e a q) = subst (All (IsHeld c'.requests)) (sym q) old_held
    still_held (begins e e' a q) = subst (All (IsHeld c'.requests)) (sym q) old_held
    still_held (hands_over e e' a q) = subst (All (IsHeld c'.requests)) (sym q) (
        All-snoc (IsHeld c'.requests) c.shared.queue f.r.request_id old_held (
          f.r',
          subst (λ (i : ℕ). 0 < i) (sym f.named) pos,
          ap (λ (i : ℕ). entry i c'.requests) f.named ∙ f.present,
          e',
        ))
    still_held (cancels e e' a q) = subst (All (IsHeld c'.requests)) (sym q) old_held

-- A packet keeps the count.
pub Outcome-IsCounted :
    (c c' : Connection) (running : List ℕ)
    → IsCounted c.requests c.shared.request_actives c.shared.queue running
    → Outcome c c'
    → IsCounted c'.requests c'.shared.request_actives c'.shared.queue running
Outcome-IsCounted c c' running k (managed m) =
    IsCounted-cong m.same_requests m.same_actives m.same_queue k
Outcome-IsCounted c c' running k (requested i pos small f) =
    Step-IsCounted i c c' f running pos small k f.step
