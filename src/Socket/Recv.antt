-- ===== src/Socket/Recv.antt =====
-- What `Connection::recv_all` stores, and what the flag `socket_insane` then tells.
use tfcgi.Prelude.{
  ℕ, ◌≤◌, ◌<◌, ◌≡◌, refl, sym, ap, ◌∙◌, Bool, true, false, List, [], ◌∷◌, ◌++◌, append_assoc,
  append-nil, length, drop, concat, All, length-append, length-drop, drop-drop, Result, ok, stop,
  arith, ge→ltb, ◌>>=◌,
}
use tfcgi.Socket.{Errno, ReadResult, got, read_failed, Socket, recv_retries, recv_loop, recv_all}

-- Calls of `read` that each return some bytes.
abbrev pub gots : List (List ℕ) → List ReadResult
gots [] = []
gots (c ∷ cs) = got c ∷ gots cs

abbrev pub IsChunks : List (List ℕ) → Type 0
IsChunks = All (λ c. 0 < length c)

recv_loop_done :
    (reads : List ReadResult) (sane : Bool) (buffer : List ℕ)
    → length buffer ≡ 0
    → recv_loop reads sane buffer ≡ ok ([], record { socket_insane = sane; reads = reads })
unfolding recv_loop
recv_loop_done [] sane [] h = refl
recv_loop_done (r ∷ reads) sane [] h = refl
recv_loop_done reads sane (x ∷ b) h = absurd (omega arith)

-- One successful `read` that fits the buffer.
recv_loop-got :
    (c : List ℕ) (reads : List ReadResult) (sane : Bool) (buffer : List ℕ)
    → 0 < length c
    → length c ≤ length buffer
    → recv_loop (got c ∷ reads) sane buffer
      ≡ (recv_loop reads sane (drop (length c) buffer) >>= λ (tail, s). ok (c ++ tail, s))
unfolding recv_loop
recv_loop-got [] reads sane buffer h le = absurd (omega arith)
recv_loop-got (x ∷ c) reads sane [] h le = absurd (omega arith)
recv_loop-got (x ∷ c) reads sane (y ∷ buffer) h le =
    rw (ge→ltb (length (y ∷ buffer)) (length (x ∷ c)) le)

-- What a loop that has stored `c` does with the rest of the buffer.
abbrev prepend : List ℕ → List ℕ × Socket → Result (List ℕ × Socket)
prepend c (tail, s) = ok (c ++ tail, s)

prepend-prepend :
    (c d : List ℕ) (m : Result (List ℕ × Socket))
    → ((m >>= prepend d) >>= prepend c) ≡ (m >>= prepend (c ++ d))
prepend-prepend c d (ok (tail, s)) = rw append_assoc
prepend-prepend c d (stop e) = refl

prepend_nil : (m : Result (List ℕ × Socket)) → m ≡ (m >>= prepend [])
prepend_nil (ok a) = refl
prepend_nil (stop e) = refl

-- A run of successful calls that do not yet fill the buffer.
recv_loop-gots_append :
    (chunks : List (List ℕ)) (more : List ReadResult) (sane : Bool) (buffer : List ℕ)
    → IsChunks chunks
    → length (concat chunks) ≤ length buffer
    → recv_loop (gots chunks ++ more) sane buffer
      ≡ (recv_loop more sane (drop (length (concat chunks)) buffer) >>= prepend (concat chunks))
recv_loop-gots_append [] more sane buffer h le = prepend_nil _
recv_loop-gots_append (c ∷ cs) more sane buffer (h, hs) le =
    let lens = length-append c (concat cs) in
    recv_loop-got c (gots cs ++ more) sane buffer h (omega (arith, lens))
    ∙ ap (λ m. m >>= prepend c)
        (recv_loop-gots_append cs more sane (drop (length c) buffer) hs
          (omega (arith, lens, length-drop (length c) buffer)))
    ∙ prepend-prepend c (concat cs) _
    ∙ rw (drop-drop, lens)

recv_loop-gots :
    (chunks : List (List ℕ)) (left : List ReadResult) (sane : Bool) (buffer : List ℕ)
    → IsChunks chunks
    → length (concat chunks) ≡ length buffer
    → recv_loop (gots chunks ++ left) sane buffer
      ≡ ok (concat chunks, record { socket_insane = sane; reads = left })
recv_loop-gots chunks left sane buffer h e =
    recv_loop-gots_append chunks left sane buffer h (omega arith)
    ∙ rw (
      recv_loop_done left sane (drop (length (concat chunks)) buffer)
          (omega (arith, length-drop (length (concat chunks)) buffer)),
      append-nil,
    )

recv_loop_retries :
    (e : Errno) (more : List ReadResult) (sane : Bool) (buffer : List ℕ)
    → recv_retries e ≡ true
    → 0 < length buffer
    → recv_loop (read_failed e ∷ more) sane buffer ≡ recv_loop more false buffer
unfolding recv_loop
recv_loop_retries e more sane [] again h = absurd (omega arith)
recv_loop_retries e more sane (x ∷ rest) again h = rw again

-- When the kernel returns the bytes of the buffer in chunks of any sizes, `recv_all` stores exactly
-- these bytes, makes no further call of `read`, and leaves the flag as it was.
pub recv_all-gots :
    (chunks : List (List ℕ)) (left : List ReadResult) (sane : Bool) (buffer : List ℕ)
    → IsChunks chunks
    → length (concat chunks) ≡ length buffer
    → recv_all buffer (record { socket_insane = sane; reads = gots chunks ++ left })
      ≡ ok (concat chunks, record { socket_insane = sane; reads = left })
unfolding recv_all
recv_all-gots chunks left sane buffer h e = recv_loop-gots chunks left sane buffer h e

-- The end of the input, where a byte is still wanted.
pub recv_all_eof :
    (x : ℕ) (rest : List ℕ) (left : List ReadResult) (sane : Bool)
    → recv_all (x ∷ rest) (record { socket_insane = sane; reads = got [] ∷ left })
      ≡ ok (x ∷ rest, record { socket_insane = false; reads = left })
unfolding recv_all
recv_all_eof x rest left sane = refl

-- An error after which the code tries again (EINTR, ENOBUFS) loses nothing, for the bytes all
-- arrive, but the flag is down: the caller takes the connection for dead.
pub recv_all_interrupted :
    (e : Errno) (before after : List (List ℕ)) (left : List ReadResult) (sane : Bool)
    (buffer : List ℕ)
    → recv_retries e ≡ true
    → IsChunks before
    → IsChunks after
    → 0 < length (concat after)
    → length (concat before ++ concat after) ≡ length buffer
    → recv_all buffer (record {
      socket_insane = sane;
      reads = gots before ++ read_failed e ∷ (gots after ++ left);
    })
      ≡ ok (concat before ++ concat after, record { socket_insane = false; reads = left })
unfolding recv_all
recv_all_interrupted e before after left sane buffer again hb ha pos fits =
    let lens = length-append (concat before) (concat after) in
    let rest = drop (length (concat before)) buffer in
    let len : length rest ≡ length (concat after) =
      omega (arith, lens, length-drop (length (concat before)) buffer) in
    recv_loop-gots_append before (read_failed e ∷ (gots after ++ left)) sane buffer hb
      (omega (arith, lens))
    ∙ rw (
      recv_loop_retries e (gots after ++ left) sane rest again (omega arith),
      recv_loop-gots after left false rest ha (sym len),
    )
