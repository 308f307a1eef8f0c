-- ===== src/Socket/Received.antt =====
-- What a run of `recv_all` that returned has done, and what the flag `socket_insane` then tells.
use tfcgi.Prelude.{
  ℕ, ◌≤◌, ◌<◌, ◌≡◌, refl, ap, Bool, true, false, List, [], ◌∷◌, ◌++◌, length, drop, concat,
  length-append, length-drop, Result, ok, Ensures, Ensures->>=, Ensures_map, Ensures_elim, arith,
  ltb, Bool-cases, inl, inr,
}
use tfcgi.Socket.{
  Errno, ReadResult, got, read_failed, Socket, recv_retries, recv_loop, recv_all, after_got,
  after_read_failed,
}
use tfcgi.Socket.Recv.{gots, IsChunks}

-- What holds of a run of `recv_loop` that returned.
pub record Received (reads : List ReadResult) (sane : Bool) (buffer bytes : List ℕ) (s : Socket)
    : Type 0 where
  pub fits : length bytes ≡ length buffer
  pub was_sane : s.socket_insane ≡ true → sane ≡ true
  pub all_got :
      s.socket_insane ≡ true
      → (chunks : List (List ℕ)) × IsChunks chunks
        × (reads ≡ gots chunks ++ s.reads)
        × (bytes ≡ concat chunks)

module _ {reads : List ReadResult} {sane : Bool} where
  -- A call that failed: the flag is down.
  Received-down :
      (buffer : List ℕ) (left : List ReadResult)
      → Received reads sane buffer buffer (record { socket_insane = false; reads = left })
  Received-down buffer left = record { fits = refl; was_sane = λ h. cc; all_got = λ h. cc }

module _ (buffer : List ℕ) (reads : List ReadResult) (sane : Bool) where
  Received-got :
      (c tail : List ℕ) (s : Socket)
      → 0 < length c
      → length c ≤ length buffer
      → Received reads sane (drop (length c) buffer) tail s
      → Received (got c ∷ reads) sane buffer (c ++ tail) s
  Received-got c tail s pos le r = record {
    fits = omega (arith, length-append c tail, r.fits, length-drop (length c) buffer);
    was_sane = r.was_sane;
    all_got = λ h.
        let (cs, hs, e, b) = r.all_got h in (c ∷ cs, (pos, hs), ap (◌∷◌ (got c)) e, ap (◌++◌ c) b);
  }

  after_got-Received :
      (bs : List ℕ) (more : Result (List ℕ × Socket))
      → Ensures more (λ (tail, s). Received reads sane (drop (length bs) buffer) tail s)
      → Ensures
          (after_got bs buffer sane reads more)
          (λ (bytes, s). Received (got bs ∷ reads) sane buffer bytes s)
  after_got-Received [] more h = Received-down buffer reads
  after_got-Received (b ∷ bs) more h = elim (Bool-cases (ltb (length buffer) (length (b ∷ bs)))) [
    | inl over ↦ rw over tt
    | inr fits ↦ rw fits (
        Ensures->>= _ more _ (
          Ensures_map more
            (λ (tail, s) r. Received-got (b ∷ bs) tail s (omega arith) (ground arith) r) h))
  ]

  after_read_failed-Received :
      (e : Errno) (more : Result (List ℕ × Socket))
      → Ensures more (λ (bytes, s). Received reads false buffer bytes s)
      → Ensures
          (after_read_failed e buffer reads more)
          (λ (bytes, s). Received (read_failed e ∷ reads) sane buffer bytes s)
  after_read_failed-Received e more h = elim (Bool-cases (recv_retries e)) [
    | inl again ↦ rw again (
        Ensures_map more
          (λ (bytes, s) r. record {
            fits = r.fits;
            was_sane = λ up. absurd (down bytes s r up);
            all_got = λ up. absurd (down bytes s r up);
          })
          h)
    | inr over ↦ rw over (Received-down buffer reads)
  ]
    where
      down :
          (bytes : List ℕ) (s : Socket)
          → Received reads false buffer bytes s
          → s.socket_insane ≡ true
          → ⊥
      down bytes s r up = cc (r.was_sane up)

Received-full :
    (reads : List ReadResult) (sane : Bool)
    → Received reads sane [] [] (record { socket_insane = sane; reads = reads })
Received-full reads sane = record {
  fits = refl;
  was_sane = λ h. h;
  all_got = λ h. ([], tt, refl, refl);
}

recv_loop-Received :
    (reads : List ReadResult) (sane : Bool) (buffer : List ℕ)
    → Ensures (recv_loop reads sane buffer) (λ (bytes, s). Received reads sane buffer bytes s)
unfolding recv_loop
recv_loop-Received [] sane [] = Received-full [] sane
recv_loop-Received [] sane (x ∷ rest) = tt
recv_loop-Received (r ∷ reads) sane [] = Received-full (r ∷ reads) sane
recv_loop-Received (got bs ∷ reads) sane (x ∷ rest) =
    after_got-Received (x ∷ rest) reads sane bs _
      (recv_loop-Received reads sane (drop (length bs) (x ∷ rest)))
recv_loop-Received (read_failed e ∷ reads) sane (x ∷ rest) =
    after_read_failed-Received (x ∷ rest) reads sane e _ (recv_loop-Received reads false (x ∷ rest))

pub recv_all-Ensures :
    (buffer : List ℕ) (s : Socket)
    → Ensures (recv_all buffer s) (λ (bytes, t). Received s.reads s.socket_insane buffer bytes t)
unfolding recv_all
recv_all-Ensures buffer s = recv_loop-Received s.reads s.socket_insane buffer

pub recv_all-Received :
    (buffer bytes : List ℕ) (s t : Socket)
    → recv_all buffer s ≡ ok (bytes, t)
    → Received s.reads s.socket_insane buffer bytes t
recv_all-Received buffer bytes s t e =
    Ensures_elim (λ (b, u). Received s.reads s.socket_insane buffer b u) e
      (recv_all-Ensures buffer s)

-- When `recv_all` returns with the flag up, it was up before, no `read` failed, and the buffer is
-- full and holds exactly the bytes that the calls of `read` returned, in their order.
pub recv_all_sane :
    (buffer bytes : List ℕ) (s t : Socket)
    → recv_all buffer s ≡ ok (bytes, t)
    → t.socket_insane ≡ true
    → (s.socket_insane ≡ true)
      × (length bytes ≡ length buffer)
      × ((chunks : List (List ℕ)) × IsChunks chunks
          × (s.reads ≡ gots chunks ++ t.reads)
          × (bytes ≡ concat chunks))
recv_all_sane buffer bytes s t e up =
    let r = recv_all-Received buffer bytes s t e in (r.was_sane up, r.fits, r.all_got up)
