-- ===== src/System/Safety.antt =====
-- What holds whenever the connection and the workers run together.
use tfcgi.Prelude.{
  tally, ℕ, ◌≡◌, ◌≢◌, refl, sym, ap, ◌∙◌, Bool, true, false, List, [], ◌∷◌, ◌++◌, Option, length,
  length-append, eq_nil_of_length, All, arith, ok, Ensures_elim,
}
use mathlib.Core.Path.{subst}
use tfcgi.Socket.{Socket}
use tfcgi.Socket.Follows.{FollowsOn, FollowsOn-Follows}
use tfcgi.Packet.Words.{StoresBytes, Follows-StoresBytes}
use tfcgi.Request.{Request, Shared}
use tfcgi.Worker.{AppOutput, AppEnd}
use tfcgi.Connection.{Host, Connection, one_packet}
use tfcgi.Connection.Effects.{by_state, Outcome}
use tfcgi.Connection.Loop.{one_packet-FollowsOn}
use tfcgi.Connection.Rounds.{one_packet-Outcome}
use tfcgi.Connection.Teardown.{reading}
use tfcgi.System.{
  Phase, serving, leaving, gone, System, Step, packet, breaks, leaves, takes, ends, erases, Reach,
  here, next, started, ended,
}
use tfcgi.System.Counts.{IsCounted, Outcome-IsCounted}
use tfcgi.System.Moves.{teardown-IsCounted, takes-IsCounted, ends-IsCounted}

-- Behind the teardown no request reads its parameters, and an erased connection has none active.
abbrev pub InPhase : Phase → List (Option Request) → ℕ → Type 0
InPhase serving table actives = Unit {0}
InPhase leaving table actives = tally (by_state reading) table ≡ 0
InPhase gone table actives = (tally (by_state reading) table ≡ 0) × (actives ≡ 0)

pub record IsSafe (s : System) : Type 0 where
  pub counts :
      IsCounted s.connection.requests s.connection.shared.request_actives s.connection.shared.queue
        s.running
  pub bytes : All StoresBytes s.connection.shared.socket.reads
  pub in_phase : InPhase s.phase s.connection.requests s.connection.shared.request_actives

-- An erased connection has no request that a worker has or waits for.
pub gone_empty :
    (s : System) → IsSafe s → s.phase ≡ gone → (s.connection.shared.queue ≡ []) × (s.running ≡ [])
gone_empty s v e =
    let (quiet, zero_actives) =
      subst (λ p. InPhase p s.connection.requests s.connection.shared.request_actives) e
        v.in_phase in
    (
      eq_nil_of_length s.connection.shared.queue (omega (arith, v.counts.counted)),
      eq_nil_of_length s.running (omega (arith, v.counts.counted)),
    )

module _ (host : Host) (respond : Request → List AppOutput × AppEnd) where
  round_counts :
      (again : Bool) (c c' : Connection) (running : List ℕ)
      → IsCounted c.requests c.shared.request_actives c.shared.queue running
      → All StoresBytes c.shared.socket.reads
      → one_packet host c ≡ ok (again, c')
      → IsCounted c'.requests c'.shared.request_actives c'.shared.queue running
        × All StoresBytes c'.shared.socket.reads
  round_counts again c c' running k bytes e = (
    Outcome-IsCounted c c' running k
        (Ensures_elim (λ (a, x). Outcome c x) e (one_packet-Outcome host c k.is_table bytes)),
    Follows-StoresBytes c.shared.socket.reads c'.shared.socket
        (FollowsOn-Follows c.shared.socket.reads c'.shared.socket (
          Ensures_elim (λ (a, x). FollowsOn c.shared.socket.reads x.shared.socket) e
            (one_packet-FollowsOn host c)))
        bytes,
  )

  ends-InPhase :
      (p : Phase) (table table' : List (Option Request)) (actives actives' : ℕ)
      → p ≢ gone
      → tally (by_state reading) table' ≡ tally (by_state reading) table
      → InPhase p table actives
      → InPhase p table' actives'
  ends-InPhase serving table table' a a' n e v = tt
  ends-InPhase leaving table table' a a' n e v = e ∙ v
  ends-InPhase gone table table' a a' n e v = absurd (n refl)

  takes-InPhase :
      (p : Phase) (table : List (Option Request)) (actives actives' : ℕ)
      → actives' ≡ actives
      → InPhase p table actives
      → InPhase p table actives'
  takes-InPhase p table a a' e v = subst (InPhase p table) (sym e) v

  nonempty : (before after : List ℕ) (i : ℕ) → [] ≢ before ++ (i ∷ after)
  nonempty before after i e = omega (arith, ap length e, length-append before (i ∷ after))

  pub Step-IsSafe : {s t : System} → Step host respond s t → IsSafe s → IsSafe t
  Step-IsSafe {s} (packet {c'} p up e) v =
      let (k, b) = round_counts true s.connection c' s.running v.counts v.bytes e in
      record {
        counts = k;
        bytes = b;
        in_phase = subst (λ q. InPhase q c'.requests c'.shared.request_actives) (sym p) tt;
      }
  Step-IsSafe {s} (breaks {c'} p up e) v =
      let (k, b) = round_counts false s.connection c' s.running v.counts v.bytes e in
      let (k', quiet, same) = teardown-IsCounted c' s.running k in
      record {
        counts = k';
        bytes = subst (λ (x : Socket). All StoresBytes x.reads) (sym same) b;
        in_phase = quiet;
      }
  Step-IsSafe {s} (leaves p down) v =
      let (k', quiet, same) = teardown-IsCounted s.connection s.running v.counts in
      record {
        counts = k';
        bytes = subst (λ (x : Socket). All StoresBytes x.reads) (sym same) v.bytes;
        in_phase = quiet;
      }
  Step-IsSafe {s} (takes {request_id} {sh} e) v =
      let (k, actives, same) =
        takes-IsCounted s.connection.requests s.connection.shared sh s.running request_id v.counts
          e in
      record {
        counts = k;
        bytes = subst (λ (x : Socket). All StoresBytes x.reads) (sym same) v.bytes;
        in_phase =
            takes-InPhase s.phase s.connection.requests s.connection.shared.request_actives
              sh.request_actives actives v.in_phase;
      }
  Step-IsSafe {s} (ends before after request_id {r} split e) v =
      let (k, tallies, same) =
        ends-IsCounted host respond s.connection before after request_id r
          (subst
            (IsCounted s.connection.requests s.connection.shared.request_actives
              s.connection.shared.queue)
            split v.counts)
          e in
      record {
        counts = k;
        bytes = subst (λ (x : Socket). All StoresBytes x.reads) (sym same) v.bytes;
        in_phase =
            ends-InPhase s.phase s.connection.requests
              (ended host respond request_id r s.connection).requests
              s.connection.shared.request_actives
              (ended host respond request_id r s.connection).shared.request_actives
              (λ g. nonempty before after request_id (sym (gone_empty s v g).1 ∙ split)) tallies
              v.in_phase;
      }
  Step-IsSafe {s} (erases p none_active) v = record {
    counts = v.counts;
    bytes = v.bytes;
    in_phase = (
      subst (λ q. InPhase q s.connection.requests s.connection.shared.request_actives) p v.in_phase,
      none_active,
    );
  }

  pub Reach-IsSafe : {s t : System} → IsSafe s → Reach host respond s t → IsSafe t
  Reach-IsSafe v here = v
  Reach-IsSafe v (next r st) = Step-IsSafe st (Reach-IsSafe v r)

  pub started-IsSafe :
      (socket : Socket) (sh : Shared)
      → All StoresBytes socket.reads
      → IsSafe (started host respond socket sh)
  started-IsSafe socket sh bytes = record {
    counts = record {
      is_table = tt;
      short = omega arith;
      counted = omega arith;
      covered = omega arith;
      queue_held = tt;
      running_held = tt;
    };
    bytes = bytes;
    in_phase = tt;
  }
