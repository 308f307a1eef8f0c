-- ===== src/Server/Callbacks.antt =====
-- What `main` calls of the application, and when.
use tfcgi.Prelude.{
  ℕ, zero, suc, ◌≡◌, ◌≢◌, ◌⊎◌, refl, sym, ap, ◌∙◌, Bool-cases, inl, inr, Bool, false, List, [], ◌∷◌,
  ◌++◌, get_or, set, All, ◌==◌, if◌then◌else◌, arith,
}
use mathlib.Core.Path.{subst}
use tfcgi.Connection.{Connection, new_connection}
use tfcgi.Server.{
  WorkerPhase, starting, testing, waiting, taking, working, finished, MainPhase, looping, accepting,
  joining, shut_down, Call, startup, begin_shutdown, shutdown, Server, AcceptResult, accepted,
  accept_failed, accept_retries, after_accept, worker_at, Step, calls_accept, accepts,
  stops_listening, joins, announces, connection_moves, pushes, erases, worker_starts, worker_waits,
  worker_exits, worker_pops, worker_wakes, worker_ends, Reach, here, next, start, launch,
}

-- The calls in front of a point of `main`.
abbrev pub calls_before : MainPhase → List Call
calls_before looping = startup ∷ []
calls_before accepting = startup ∷ []
calls_before joining = startup ∷ begin_shutdown false ∷ []
calls_before shut_down = startup ∷ begin_shutdown false ∷ shutdown false ∷ []

abbrev pub AllJoined : MainPhase → List WorkerPhase → Type 0
AllJoined looping workers = Unit {0}
AllJoined accepting workers = Unit {0}
AllJoined joining workers = Unit {0}
AllJoined shut_down workers = All (λ p. p ≡ finished) workers

finished_all :
    (i : ℕ) (workers : List WorkerPhase)
    → All (λ p. p ≡ finished) workers
    → get_or workers i finished ≡ finished
finished_all i [] h = refl
finished_all zero (p ∷ workers) (e, h) = e
finished_all (suc i) (p ∷ workers) (e, h) = finished_all i workers h

AllJoined-set :
    (m : MainPhase) (workers : List WorkerPhase) (i : ℕ) (p q : WorkerPhase)
    → get_or workers i finished ≡ p
    → p ≢ finished
    → AllJoined m workers
    → AllJoined m (set workers i q)
AllJoined-set looping workers i p q e ne h = tt
AllJoined-set accepting workers i p q e ne h = tt
AllJoined-set joining workers i p q e ne h = tt
AllJoined-set shut_down workers i p q e ne h = absurd (ne (sym e ∙ finished_all i workers h))

record IsOrderly (s : Server) : Type 0 where
  slow : s.quick_shutdown ≡ false
  called : s.calls ≡ calls_before s.main
  joined : AllJoined s.main s.workers

-- A step that leaves `main` where it is.
same_main :
    (s t : Server)
    → IsOrderly s
    → t.quick_shutdown ≡ s.quick_shutdown
    → t.calls ≡ s.calls
    → t.main ≡ s.main
    → AllJoined s.main t.workers
    → IsOrderly t
same_main s t k eq ec em j = record {
  slow = eq ∙ k.slow;
  called = ec ∙ k.called ∙ ap calls_before (sym em);
  joined = subst (λ m. AllJoined m t.workers) (sym em) j;
}

worker_moves :
    (s t : Server) (i : ℕ) (p q : WorkerPhase)
    → IsOrderly s
    → worker_at s i ≡ p
    → p ≢ finished
    → t.quick_shutdown ≡ s.quick_shutdown
    → t.calls ≡ s.calls
    → t.main ≡ s.main
    → t.workers ≡ set s.workers i q
    → IsOrderly t
worker_moves s t i p q k w ne eq ec em ew =
    same_main s t k eq ec em
      (subst (AllJoined s.main) (sym ew) (AllJoined-set s.main s.workers i p q w ne k.joined))

after_accept_main :
    (result : AcceptResult) (c : Connection) (s : Server)
    → ((after_accept result c s).quick_shutdown ≡ s.quick_shutdown)
      × ((after_accept result c s).calls ≡ s.calls)
      × ((after_accept result c s).workers ≡ s.workers)
unfolding after_accept
after_accept_main (accepted fd) c s = (refl, refl, refl)
after_accept_main (accept_failed e) c s = elim (Bool-cases (accept_retries e)) [
  | inl again ↦ rw again (refl, refl, refl)
  | inr over ↦ rw over (refl, refl, refl)
]

Step-IsOrderly : {s t : Server} → IsOrderly s → Step s t → IsOrderly t
Step-IsOrderly k (calls_accept m l) = record {
  slow = k.slow;
  called = k.called ∙ ap calls_before m;
  joined = tt;
}
Step-IsOrderly {s} k (accepts result host socket sh m) =
    let c = new_connection host socket sh in
    let (slow, calls, workers) = after_accept_main result c s in
    record { slow = slow ∙ k.slow; called = calls ∙ k.called ∙ ap calls_before m; joined = tt }
Step-IsOrderly {s} k (stops_listening m l) = record {
  slow = k.slow;
  called =
      ap (λ cs. cs ++ (begin_shutdown s.quick_shutdown ∷ [])) (k.called ∙ ap calls_before m)
      ∙ ap (λ q. startup ∷ begin_shutdown q ∷ []) k.slow;
  joined = tt;
}
Step-IsOrderly {s} k (joins m all) = record {
  slow = k.slow;
  called =
      ap (λ cs. cs ++ (shutdown s.quick_shutdown ∷ [])) (k.called ∙ ap calls_before m)
      ∙ ap (λ q. startup ∷ begin_shutdown false ∷ shutdown q ∷ []) k.slow;
  joined = all;
}
Step-IsOrderly {s} k (connection_moves before after e c' split) =
    same_main s _ k refl refl refl k.joined
Step-IsOrderly {s} k (announces before after x i split idle) =
    same_main s _ k refl refl refl k.joined
Step-IsOrderly {s} k (pushes before after x i split busy) = same_main s _ k refl refl refl k.joined
Step-IsOrderly {s} k (erases before after x split idle) = same_main s _ k refl refl refl k.joined
Step-IsOrderly {s} k (worker_starts i w) =
    worker_moves s _ i starting testing k w (λ e. cc) refl refl refl refl
Step-IsOrderly {s} k (worker_waits i w g) =
    worker_moves s _ i testing waiting k w (λ e. cc) refl refl refl refl
Step-IsOrderly {s} k (worker_exits i w g) =
    worker_moves s _ i testing finished k w (λ e. cc) refl refl refl refl
Step-IsOrderly {s} k (worker_pops i request queue w e) =
    worker_moves s _ i waiting taking k w (λ e. cc) refl refl refl refl
Step-IsOrderly {s} k (worker_wakes i w) =
    worker_moves s _ i taking working k w (λ e. cc) refl refl refl refl
Step-IsOrderly {s} k (worker_ends i w) =
    worker_moves s _ i working testing k w (λ e. cc) refl refl refl refl

launched : (result n : ℕ) (s : Server) → launch result n ≡ inr s → (result ≡ 0) × (start n ≡ s)
launched result n s e = elim (Bool-cases (result == 0)) [
  | inl ran ↦ (ground arith, ap server_or (sym (ap (λ b. launched_by b) ran) ∙ e))
  | inr failed ↦
      let wrong : ◌≡◌ {A = ℕ ⊎ Server} (inl result) (inr s) =
        sym (ap (λ b. launched_by b) failed) ∙ e in
      cc
]
  where
    launched_by : Bool → ℕ ⊎ Server
    launched_by b = if b then inr (start n) else inl result

    server_or : ℕ ⊎ Server → Server
    server_or (inl code) = s
    server_or (inr t) = t

-- Where `fcgi::startup` returns no error, `main` calls the application just once for each of its
-- callbacks and in their order, `startup`, `begin_shutdown` behind its loop and `shutdown` behind
-- the joins, none of them for a quick shutdown; and when `shutdown` has been called, the threads of
-- all workers have come to their end.
pub callbacks_in_order :
    (result n : ℕ) (s t : Server)
    → launch result n ≡ inr s
    → Reach s t
    → (result ≡ 0) × (t.calls ≡ calls_before t.main) × AllJoined t.main t.workers
callbacks_in_order result n s t e r =
    let (ran, begun) = launched result n s e in
    let k = go r (subst IsOrderly begun (record { slow = refl; called = refl; joined = tt })) in
    (ran, k.called, k.joined)
  where
    go : {s t : Server} → Reach s t → IsOrderly s → IsOrderly t
    go here k = k
    go (next r st) k = Step-IsOrderly (go r k) st
