-- ===== src/Socket/Follows.antt =====
-- What is read is read once: `recv_all` leaves the rest of the answers of the kernel.
use tfcgi.Prelude.{
  ℕ, ◌<◌, ◌≡◌, refl, sym, ap, ◌∙◌, Bool, false, List, [], ◌∷◌, ◌++◌, append_assoc, length,
  length-append, drop, Result, Ensures, Ensures->>=, Ensures_map, arith, ltb, Bool-cases, inl, inr,
}
use tfcgi.Socket.{
  Errno, ReadResult, got, read_failed, Socket, recv_retries, recv_loop, recv_all, after_got,
  after_read_failed,
}

-- The answers that are left are the last of `reads`.
abbrev pub Follows : List ReadResult → Socket → Type 0
Follows reads s = (used : List ReadResult) × (reads ≡ used ++ s.reads)

-- And one at least was used.
abbrev pub FollowsOn : List ReadResult → Socket → Type 0
FollowsOn reads s =
    (first : ReadResult) × (used : List ReadResult) × (reads ≡ first ∷ (used ++ s.reads))

pub Follows-refl : (s : Socket) → Follows s.reads s
Follows-refl s = ([], refl)

pub Follows-trans :
    (reads : List ReadResult) (s t : Socket) → Follows reads s → Follows s.reads t → Follows reads t
Follows-trans reads s t (u, e) (v, f) =
    (u ++ v, e ∙ ap (λ (l : List ReadResult). u ++ l) f ∙ sym (append_assoc u v t.reads))

pub FollowsOn-trans :
    (reads : List ReadResult) (s t : Socket)
    → FollowsOn reads s
    → Follows s.reads t
    → FollowsOn reads t
FollowsOn-trans reads s t (r, u, e) (v, f) = (
  r,
  u ++ v,
  e ∙ ap (λ (l : List ReadResult). r ∷ (u ++ l)) f ∙ ap (◌∷◌ r) (sym (append_assoc u v t.reads)),
)

pub FollowsOn-Follows : (reads : List ReadResult) (s : Socket) → FollowsOn reads s → Follows reads s
FollowsOn-Follows reads s (r, u, e) = (r ∷ u, e)

pub FollowsOn-lt :
    (reads : List ReadResult) (s : Socket) → FollowsOn reads s → length s.reads < length reads
FollowsOn-lt reads s (r, u, e) = omega (arith, ap length e, length-append u s.reads)

abbrev Leaves : List ReadResult → Result (List ℕ × Socket) → Type 0
Leaves reads m = Ensures m (λ (bytes, s). Follows reads s)

abbrev LeavesOn : List ReadResult → Result (List ℕ × Socket) → Type 0
LeavesOn reads m = Ensures m (λ (bytes, s). FollowsOn reads s)

one_more :
    (r : ReadResult) (reads : List ReadResult) (s : Socket)
    → Follows reads s
    → FollowsOn (r ∷ reads) s
one_more r reads s (u, e) = (r, u, ap (◌∷◌ r) e)

after_got-LeavesOn :
    (bs rest : List ℕ) (sane : Bool) (reads : List ReadResult) (more : Result (List ℕ × Socket))
    → Leaves reads more
    → LeavesOn (got bs ∷ reads) (after_got bs rest sane reads more)
after_got-LeavesOn [] rest sane reads more h = (got [], [], refl)
after_got-LeavesOn (b ∷ bs) rest sane reads more h =
    elim (Bool-cases (ltb (length rest) (length (b ∷ bs)))) [
      | inl over ↦ rw over tt
      | inr fits ↦ rw fits (
          Ensures->>= _ more _
            (Ensures_map more (λ (tail, s) f. one_more (got (b ∷ bs)) reads s f) h))
    ]

after_read_failed-LeavesOn :
    (e : Errno) (rest : List ℕ) (reads : List ReadResult) (more : Result (List ℕ × Socket))
    → Leaves reads more
    → LeavesOn (read_failed e ∷ reads) (after_read_failed e rest reads more)
after_read_failed-LeavesOn e rest reads more h = elim (Bool-cases (recv_retries e)) [
  | inl again ↦ rw again (Ensures_map more (λ (bytes, s) f. one_more (read_failed e) reads s f) h)
  | inr over ↦ rw over (read_failed e, [], refl)
]

recv_loop-Leaves :
    (reads : List ReadResult) (sane : Bool) (buffer : List ℕ)
    → Leaves reads (recv_loop reads sane buffer)
unfolding recv_loop
recv_loop-Leaves [] sane [] = ([], refl)
recv_loop-Leaves [] sane (x ∷ rest) = tt
recv_loop-Leaves (r ∷ reads) sane [] = ([], refl)
recv_loop-Leaves (got bs ∷ reads) sane (x ∷ rest) =
    Ensures_map _ (λ (bytes, s) f. FollowsOn-Follows (got bs ∷ reads) s f)
      (after_got-LeavesOn bs (x ∷ rest) sane reads _
        (recv_loop-Leaves reads sane (drop (length bs) (x ∷ rest))))
recv_loop-Leaves (read_failed e ∷ reads) sane (x ∷ rest) =
    Ensures_map _ (λ (bytes, s) f. FollowsOn-Follows (read_failed e ∷ reads) s f)
      (after_read_failed-LeavesOn e (x ∷ rest) reads _ (recv_loop-Leaves reads false (x ∷ rest)))

recv_loop-LeavesOn :
    (reads : List ReadResult) (sane : Bool) (x : ℕ) (rest : List ℕ)
    → LeavesOn reads (recv_loop reads sane (x ∷ rest))
unfolding recv_loop
recv_loop-LeavesOn [] sane x rest = tt
recv_loop-LeavesOn (got bs ∷ reads) sane x rest =
    after_got-LeavesOn bs (x ∷ rest) sane reads _
      (recv_loop-Leaves reads sane (drop (length bs) (x ∷ rest)))
recv_loop-LeavesOn (read_failed e ∷ reads) sane x rest =
    after_read_failed-LeavesOn e (x ∷ rest) reads _ (recv_loop-Leaves reads false (x ∷ rest))

pub recv_all-Follows :
    (buffer : List ℕ) (s : Socket) → Ensures (recv_all buffer s) (λ (bytes, t). Follows s.reads t)
unfolding recv_all
recv_all-Follows buffer s = recv_loop-Leaves s.reads s.socket_insane buffer

pub recv_all-FollowsOn :
    (buffer : List ℕ) (s : Socket)
    → 0 < length buffer
    → Ensures (recv_all buffer s) (λ (bytes, t). FollowsOn s.reads t)
unfolding recv_all
recv_all-FollowsOn [] s pos = absurd (omega arith)
recv_all-FollowsOn (x ∷ rest) s pos = recv_loop-LeavesOn s.reads s.socket_insane x rest
