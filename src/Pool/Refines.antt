-- ===== src/Pool/Refines.antt =====
-- Each connection of the process, seen alone, is a System: the queue and the workers that it shares
-- with the others make no difference to it.
use tfcgi.Prelude.{
  ℕ, ◌-◌, ◌≡◌, ◌≢◌, ◌≤◌, refl, sym, ap, ◌∙◌, Bool, Bool-cases, inl, inr, true, false, List, [], ◌∷◌,
  ◌++◌, append-nil, ◌==◌, length, length-append, length-set, get_elem?, set, some, All, arith,
  get_elem?-set_self, get_elem?-set_ne, get_elem?-lt, get_elem?-snoc, ok,
}
use mathlib.Core.Path.{subst}
use mathlib.Core.Option.{some-injective}
use tfcgi.Socket.{Socket}
use tfcgi.Request.{Request, Shared}
use tfcgi.Worker.{AppOutput, AppEnd}
use tfcgi.Worker.Backlog.{pop_request_one}
use tfcgi.Worker.Finished.{work-queue}
use tfcgi.Connection.{Host, Connection, one_packet, teardown}
use tfcgi.Connection.Queue.{queue_behind, one_packet-behind, teardown-behind}
use tfcgi.System
use tfcgi.System.{Phase, serving, leaving, gone, System, started, ended}
use tfcgi.Pool.{
  Slot, Pool, with_queue, tagged, unused, stored, popped, new_slot, Step, creates, packet, breaks,
  leaves, takes, ends, erases, Reach, here, next, opened,
}
use tfcgi.Pool.Parts.{
  part, part_same, part_other, part-append, part-tagged, part-tagged_other, IsBelow, part_below,
  All-tagged, All-append, All-remove, All_more,
}

abbrev pub seen : List ℕ → List ℕ → Slot → System
seen queue running sl = record {
  connection = with_queue queue sl.connection;
  running = running;
  phase = sl.phase;
}

-- A connection, with its own part of the queue, and of the requests that workers hold.
abbrev pub view : ℕ → Slot → Pool → System
view i sl p = seen (part i p.queue) (part i p.running) sl

seen-cong :
    (sl : Slot) {queue queue' running running' : List ℕ}
    → queue ≡ queue'
    → running ≡ running'
    → seen queue running sl ≡ seen queue' running' sl
seen-cong sl {queue} {queue'} {running} {running'} eq er =
    ap (λ q. seen q running sl) eq ∙ ap (λ r. seen queue' r sl) er

stored-view :
    (i : ℕ) (phase : Phase) (c : Connection) (p : Pool)
    → view i (record { connection = with_queue [] c; phase = phase }) (stored i phase c p)
      ≡ record {
        connection = queue_behind (part i p.queue) c;
        running = part i p.running;
        phase = phase;
      }
stored-view i phase c p =
    ap
      (λ queue. record {
        connection = with_queue queue c;
        running = part i p.running;
        phase = phase;
      })
      (part-append i p.queue (tagged i c.shared.queue)
        ∙ ap (λ ids. part i p.queue ++ ids) (part-tagged i c.shared.queue))

stored_other :
    (i k : ℕ) (c : Connection) (queue : List (ℕ × ℕ))
    → k ≢ i
    → part i (queue ++ tagged k c.shared.queue) ≡ part i queue
stored_other i k c queue ne =
    part-append i queue (tagged k c.shared.queue)
    ∙ ap (λ ids. part i queue ++ ids) (part-tagged_other i k c.shared.queue ne)
    ∙ append-nil (part i queue)

ended-queue :
    (host : Host) (respond : Request → List AppOutput × AppEnd) (queue : List ℕ) (request_id : ℕ)
    (r : Request) (c : Connection)
    → ended host respond request_id r (with_queue queue c)
      ≡ with_queue queue (ended host respond request_id r c)
ended-queue host respond queue request_id r c =
    ap
      (λ ((r', sh) : Request × Shared). record c {
        requests = set c.requests (request_id - 1) (some r');
        shared = sh;
      })
      (work-queue respond host.to_string queue r c.shared)

module _ (host : Host) (respond : Request → List AppOutput × AppEnd) (P : Socket → Type 0) where
  -- Where the state of a connection after a step comes from.
  data Origin (i : ℕ) (sl' : Slot) (p q : Pool) : Type 0 where
    created :
        {socket : Socket}
        → P socket
        → view i sl' q ≡ started host respond socket (unused socket)
        → Origin i sl' p q
    stayed :
        {sl : Slot} → get_elem? p.slots i ≡ some sl → view i sl' q ≡ view i sl p → Origin i sl' p q
    moved :
        {sl : Slot}
        → get_elem? p.slots i ≡ some sl
        → System.Step host respond (view i sl p) (view i sl' q)
        → Origin i sl' p q

  -- One connection makes a step.
  replaced :
      (k : ℕ) (slk slk' : Slot) (p q : Pool)
      → get_elem? p.slots k ≡ some slk
      → q.slots ≡ set p.slots k slk'
      → ((i : ℕ) → k ≢ i → part i q.queue ≡ part i p.queue)
      → ((i : ℕ) → k ≢ i → part i q.running ≡ part i p.running)
      → System.Step host respond (view k slk p) (view k slk' q)
      → (i : ℕ) (sl' : Slot) → get_elem? q.slots i ≡ some sl'
      → Origin i sl' p q
  replaced k slk slk' p q e es same_queue same_running st i sl' e' = elim (Bool-cases (k == i)) [
    | inl same ↦
        let ki : k ≡ i = ground arith in
        let slots : get_elem? (set p.slots k slk') k ≡ some sl' =
          ap (λ xs. get_elem? xs k) (sym es) ∙ ap (get_elem? q.slots) ki ∙ e' in
        let new : slk' ≡ sl' =
          some-injective slk' sl' (sym (get_elem?-set_self p.slots k slk' slk e) ∙ slots) in
        subst (λ j. Origin j sl' p q) ki
          (moved e (subst (λ x. System.Step host respond (view k slk p) (view k x q)) new st))
    | inr other ↦
        let ne : k ≢ i = ground arith in
        stayed
          (sym (get_elem?-set_ne p.slots k i slk' ne) ∙ ap (λ xs. get_elem? xs i) (sym es) ∙ e')
          (seen-cong sl' (same_queue i ne) (same_running i ne))
  ]

  -- The round of a connection, with its part of the queue.
  round :
      (again : Bool) (i : ℕ) (sl : Slot) (c' : Connection) (p : Pool)
      → one_packet host (with_queue [] sl.connection) ≡ ok (again, c')
      → one_packet host (view i sl p).connection ≡ ok (again, queue_behind (part i p.queue) c')
  round again i sl c' p e =
      ap (λ queue. one_packet host (with_queue queue sl.connection))
        (sym (append-nil (part i p.queue)))
      ∙ one_packet-behind host (part i p.queue) again (with_queue [] sl.connection) c' e

  Step-Origin :
      {p q : Pool} (i : ℕ) (sl' : Slot)
      → All P p.incoming
      → All (IsBelow (length p.slots)) p.queue
      → All (IsBelow (length p.slots)) p.running
      → Step host respond p q
      → get_elem? q.slots i ≡ some sl'
      → Origin i sl' p q
  Step-Origin {p} i sl' ps below_q below_r (creates {socket} {rest} inc) e' =
      elim (get_elem?-snoc p.slots i (new_slot host respond socket) sl' e') [
        | inl old ↦ stayed old refl
        | inr (last, new) ↦ created (subst (All P) inc ps).0 (
            ap (seen (part i p.queue) (part i p.running)) (sym new)
            ∙ seen-cong (new_slot host respond socket)
                (part_below (length p.slots) i p.queue (omega (arith, last)) below_q)
                (part_below (length p.slots) i p.running (omega (arith, last)) below_r))
      ]
  Step-Origin {p} i sl' ps below_q below_r (packet k {sl} {c'} at up sane e) e' =
      replaced k sl (record { connection = with_queue [] c'; phase = sl.phase }) p
        (stored k sl.phase c' p) at refl (λ j ne. stored_other j k c' p.queue ne) (λ j ne. refl)
        (subst (System.Step host respond (view k sl p)) (sym (stored-view k sl.phase c' p))
          (System.packet up sane (round true k sl c' p e)))
        i sl' e'
  Step-Origin {p} i sl' ps below_q below_r (breaks k {sl} {c'} at up sane e) e' =
      replaced k sl (record { connection = with_queue [] (teardown c'); phase = leaving }) p
        (stored k leaving (teardown c') p) at refl
        (λ j ne. stored_other j k (teardown c') p.queue ne) (λ j ne. refl)
        (subst (System.Step host respond (view k sl p))
          (ap (λ c. record { connection = c; running = part k p.running; phase = leaving })
              (teardown-behind host (part k p.queue) c')
            ∙ sym (stored-view k leaving (teardown c') p))
          (System.breaks up sane (round false k sl c' p e)))
        i sl' e'
  Step-Origin {p} i sl' ps below_q below_r (leaves k {sl} at up down) e' =
      let c = with_queue [] sl.connection in
      replaced k sl (record { connection = with_queue [] (teardown c); phase = leaving }) p
        (stored k leaving (teardown c) p) at refl (λ j ne. stored_other j k (teardown c) p.queue ne)
        (λ j ne. refl)
        (subst (System.Step host respond (view k sl p))
          (ap
              (λ queue. record {
                connection = teardown (with_queue queue sl.connection);
                running = part k p.running;
                phase = leaving;
              })
              (sym (append-nil (part k p.queue)))
            ∙ ap (λ c. record { connection = c; running = part k p.running; phase = leaving })
                (teardown-behind host (part k p.queue) c)
            ∙ sym (stored-view k leaving (teardown c) p))
          (System.leaves up down))
        i sl' e'
  Step-Origin {p} i sl' ps below_q below_r (takes k request_id {sl} {queue} first at) e' =
      replaced k sl (popped sl) p _ at refl
        (λ j ne. sym (ap (part j) first ∙ part_other j k request_id queue ne))
        (λ j ne. part_other j k request_id p.running ne)
        (subst
          (λ running. System.Step host respond (view k sl p) (record {
            connection = with_queue (part k queue) (popped sl).connection;
            running = running;
            phase = sl.phase;
          }))
          (sym (part_same k request_id p.running))
          (System.takes (
            pop_request_one (part k queue) request_id (view k sl p).connection.shared
              (ap (part k) first ∙ part_same k request_id queue))))
        i sl' e'
  Step-Origin {p} i sl' ps below_q below_r (ends before after k request_id {sl} {r} split at e) e' =
      let slk' : Slot = record sl { connection = ended host respond request_id r sl.connection } in
      replaced k sl slk' p _ at refl (λ j ne. refl)
        (λ j ne.
          part-append j before after
          ∙ ap (λ ids. part j before ++ ids) (sym (part_other j k request_id after ne))
          ∙ sym (part-append j before ((k, request_id) ∷ after))
          ∙ ap (part j) (sym split))
        (subst (System.Step host respond (view k sl p))
          (ap
              (λ c. record {
                connection = c;
                running = part k before ++ part k after;
                phase = sl.phase;
              })
              (ended-queue host respond (part k p.queue) request_id r sl.connection)
            ∙ seen-cong slk' refl (sym (part-append k before after)))
          (System.ends (part k before) (part k after) request_id
            (ap (part k) split
              ∙ part-append k before ((k, request_id) ∷ after)
              ∙ ap (λ ids. part k before ++ ids) (part_same k request_id after))
            e))
        i sl' e'
  Step-Origin {p} i sl' ps below_q below_r (erases k {sl} at lv none_active) e' =
      replaced k sl (record sl { phase = gone }) p _ at refl (λ j ne. refl) (λ j ne. refl)
        (System.erases lv none_active) i sl' e'

  -- The queue and the workers name connections that were created, each of which ran as a System.
  pub record IsPool (p : Pool) : Type 0 where
    pub sockets : All P p.incoming
    pub queue_below : All (IsBelow (length p.slots)) p.queue
    pub running_below : All (IsBelow (length p.slots)) p.running
    pub each :
        (i : ℕ) (sl : Slot)
        → get_elem? p.slots i ≡ some sl
        → (socket : Socket) × P socket
          × System.Reach host respond (started host respond socket (unused socket)) (view i sl p)

  abbrev AllBelow : Pool → Type 0
  AllBelow p = All (IsBelow (length p.slots)) p.queue × All (IsBelow (length p.slots)) p.running

  same_length :
      (p q : Pool) (k : ℕ) (sl : Slot)
      → q.slots ≡ set p.slots k sl
      → All (IsBelow (length p.slots)) q.queue
      → All (IsBelow (length p.slots)) q.running
      → AllBelow q
  same_length p q k sl e a b =
      let len : length p.slots ≡ length q.slots = sym (ap length e ∙ length-set p.slots k sl) in
      (subst (λ n. All (IsBelow n) q.queue) len a, subst (λ n. All (IsBelow n) q.running) len b)

  stored-AllBelow :
      (k : ℕ) (sl : Slot) (phase : Phase) (c : Connection) (p : Pool)
      → get_elem? p.slots k ≡ some sl
      → AllBelow p
      → AllBelow (stored k phase c p)
  stored-AllBelow k sl phase c p at (a, b) =
      same_length p (stored k phase c p) k _ refl
        (All-append (length p.slots) p.queue (tagged k c.shared.queue) a
          (All-tagged (length p.slots) k c.shared.queue (get_elem?-lt p.slots k sl at)))
        b

  Step-AllBelow : {p q : Pool} → Step host respond p q → AllBelow p → AllBelow q
  Step-AllBelow {p} (creates {socket} {rest} inc) (a, b) =
      let more : length p.slots ≤ length (p.slots ++ (new_slot host respond socket ∷ [])) =
        omega (arith, length-append p.slots (new_slot host respond socket ∷ [])) in
      (All_more (length p.slots) _ p.queue more a, All_more (length p.slots) _ p.running more b)
  Step-AllBelow {p} (packet k {sl} {c'} at up sane e) h = stored-AllBelow k sl sl.phase c' p at h
  Step-AllBelow {p} (breaks k {sl} {c'} at up sane e) h =
      stored-AllBelow k sl leaving (teardown c') p at h
  Step-AllBelow {p} (leaves k {sl} at up down) h =
      stored-AllBelow k sl leaving (teardown (with_queue [] sl.connection)) p at h
  Step-AllBelow {p} (takes k request_id {sl} {queue} first at) (a, b) =
      let (lt, rest) = subst (All (IsBelow (length p.slots))) first a in
      same_length p
        (record p {
          slots = set p.slots k (popped sl);
          queue = queue;
          running = (k, request_id) ∷ p.running;
        })
        k (popped sl) refl rest (lt, b)
  Step-AllBelow {p} (ends before after k request_id {sl} {r} split at e) (a, b) =
      let slk' : Slot = record sl { connection = ended host respond request_id r sl.connection } in
      same_length p (record p { slots = set p.slots k slk'; running = before ++ after }) k slk' refl
        a
        (All-remove (length p.slots) before after (k, request_id)
          (subst (All (IsBelow (length p.slots))) split b))
  Step-AllBelow {p} (erases k {sl} at lv none_active) (a, b) =
      same_length p (record p { slots = set p.slots k (record sl { phase = gone }) }) k
        (record sl { phase = gone }) refl a b

  Step-sockets : {p q : Pool} → Step host respond p q → All P p.incoming → All P q.incoming
  Step-sockets (creates inc) ps = (subst (All P) inc ps).1
  Step-sockets (packet k at up sane e) ps = ps
  Step-sockets (breaks k at up sane e) ps = ps
  Step-sockets (leaves k at up down) ps = ps
  Step-sockets (takes k request_id first at) ps = ps
  Step-sockets (ends before after k request_id split at e) ps = ps
  Step-sockets (erases k at lv none_active) ps = ps

  pub Step-IsPool : {p q : Pool} → Step host respond p q → IsPool p → IsPool q
  Step-IsPool {p} {q} st k =
      let (a, b) = Step-AllBelow st (k.queue_below, k.running_below) in
      record {
        sockets = Step-sockets st k.sockets;
        queue_below = a;
        running_below = b;
        each = λ i sl at.
            arrived i sl (Step-Origin i sl k.sockets k.queue_below k.running_below st at);
      }
    where
      arrived :
          (i : ℕ) (sl : Slot)
          → Origin i sl p q
          → (socket : Socket) × P socket
            × System.Reach host respond (started host respond socket (unused socket)) (view i sl q)
      arrived i sl (created {socket} ps e) = (
        socket,
        ps,
        subst (System.Reach host respond (started host respond socket (unused socket))) (sym e)
            System.here,
      )
      arrived i sl (stayed {sl = old} at e) =
          let (socket, ps, r) = k.each i old at in
          (
            socket,
            ps,
            subst (System.Reach host respond (started host respond socket (unused socket))) (sym e)
                r,
          )
      arrived i sl (moved {sl = old} at made) =
          let (socket, ps, r) = k.each i old at in (socket, ps, System.next r made)

  pub Reach-IsPool : {p q : Pool} → Reach host respond p q → IsPool p → IsPool q
  Reach-IsPool here k = k
  Reach-IsPool (next r st) k = Step-IsPool st (Reach-IsPool r k)

  pub opened-IsPool : (sockets : List Socket) → All P sockets → IsPool (opened sockets)
  opened-IsPool sockets ps = record {
    sockets = ps;
    queue_below = tt;
    running_below = tt;
    each = λ i sl at. cc;
  }

  -- However the threads of all connections and the workers interleave over the one queue, each
  -- connection with its own part of the queue and of the requests that workers hold is a state that
  -- the connection reaches alone with workers of its own, from one of the accepted sockets. `P` is
  -- anything that holds of all the sockets.
  pub each_connection_alone :
      (sockets : List Socket) (p : Pool) (i : ℕ) (sl : Slot)
      → All P sockets
      → Reach host respond (opened sockets) p
      → get_elem? p.slots i ≡ some sl
      → (socket : Socket) × P socket
        × System.Reach host respond (started host respond socket (unused socket)) (view i sl p)
  each_connection_alone sockets p i sl ps r at =
      (Reach-IsPool r (opened-IsPool sockets ps)).each i sl at
