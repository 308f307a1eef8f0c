-- ===== src/Socket/Send.antt =====
-- What `Connection::send_packet` hands to the kernel.
use tfcgi.Prelude.{
  ℕ, ◌-◌, ◌≤◌, ◌<◌, ◌≡◌, refl, sym, ap, ◌∙◌, List, [], ◌∷◌, ◌++◌, append_assoc, length, take, drop,
  All, length-drop, take-append-drop, Result, ok, Ensures, Ensures->>=, Ensures_map, Ensures_elim,
  arith, ltb, eq_nil_of_length, ge→ltb, Bool-cases, inl, inr, ◌≢◌,
}
use tfcgi.Socket.{
  Errno, SendResult, sent, send_failed, SendAction, try_again, give_up, raise, on_send_error,
  send_packet, after_send_failed,
}

-- No peer has reset the connection (ECONNRESET, EPIPE).
abbrev pub StaysUp : SendResult → Type 0
StaysUp (sent n) = Unit {0}
StaysUp (send_failed e) = on_send_error e ≢ give_up

-- The bytes that `send_packet` handed over, of the packet `packet`.
pub record Handed (sends : List SendResult) (packet out : List ℕ) : Type 0 where
  pub is_prefix : (rest : List ℕ) × (packet ≡ out ++ rest)
  pub whole : All StaysUp sends → out ≡ packet

Handed-nil : (sends : List SendResult) → Handed sends [] []
Handed-nil sends = record { is_prefix = ([], refl); whole = λ _. refl }

Handed-sent :
    (n : ℕ) (sends : List SendResult) (packet tail : List ℕ)
    → Handed sends (drop n packet) tail
    → Handed (sent n ∷ sends) packet (take n packet ++ tail)
Handed-sent n sends packet tail h = record {
  is_prefix = (
    h.is_prefix.0,
    sym (take-append-drop n packet)
        ∙ ap (◌++◌ (take n packet)) h.is_prefix.1
        ∙ sym (append_assoc (take n packet) tail h.is_prefix.0),
  );
  whole = λ (_, up). ap (◌++◌ (take n packet)) (h.whole up) ∙ take-append-drop n packet;
}

after_send_failed-Handed :
    (e : Errno) (sends : List SendResult) (packet : List ℕ)
    (more : Result (List ℕ × List SendResult))
    → Ensures more (λ (out, left). Handed sends packet out)
    → Ensures
        (after_send_failed (on_send_error e) sends more)
        (λ (out, left). Handed (send_failed e ∷ sends) packet out)
after_send_failed-Handed e sends packet more h = go (on_send_error e) refl
  where
    go :
        (a : SendAction)
        → on_send_error e ≡ a
        → Ensures
            (after_send_failed a sends more)
            (λ (out, left). Handed (send_failed e ∷ sends) packet out)
    go try_again q =
        Ensures_map more
          (λ (out, left) r. record { is_prefix = r.is_prefix; whole = λ (_, up). r.whole up }) h
    go give_up q = record { is_prefix = (packet, refl); whole = λ (up, _). absurd (up q) }
    go raise q = tt

send_packet-Ensures :
    (sends : List SendResult) (packet : List ℕ)
    → Ensures (send_packet sends packet) (λ (out, left). Handed sends packet out)
unfolding send_packet
send_packet-Ensures [] [] = Handed-nil []
send_packet-Ensures [] (b ∷ bs) = tt
send_packet-Ensures (r ∷ sends) [] = Handed-nil (r ∷ sends)
send_packet-Ensures (sent n ∷ sends) (b ∷ bs) = elim (Bool-cases (ltb (length (b ∷ bs)) n)) [
  | inl over ↦ rw over tt
  | inr fits ↦ rw fits (
      Ensures->>= _ (send_packet sends (drop n (b ∷ bs))) _ (
        Ensures_map _ (λ (tail, left) h. Handed-sent n sends (b ∷ bs) tail h)
          (send_packet-Ensures sends (drop n (b ∷ bs)))))
]
send_packet-Ensures (send_failed e ∷ sends) (b ∷ bs) =
    after_send_failed-Handed e sends (b ∷ bs) _ (send_packet-Ensures sends (b ∷ bs))

send_packet-Handed :
    (sends left : List SendResult) (packet out : List ℕ)
    → send_packet sends packet ≡ ok (out, left)
    → Handed sends packet out
send_packet-Handed sends left packet out e =
    Ensures_elim (λ (o, _). Handed sends packet o) e (send_packet-Ensures sends packet)

-- Whenever `send_packet` returns, the bytes that it handed over are a prefix of the packet, in
-- order and none twice.
pub send_packet_prefix :
    (sends left : List SendResult) (packet out : List ℕ)
    → send_packet sends packet ≡ ok (out, left)
    → (rest : List ℕ) × (packet ≡ out ++ rest)
send_packet_prefix sends left packet out e = (send_packet-Handed sends left packet out e).is_prefix

-- When `send_packet` returns and no `send` failed with ECONNRESET or EPIPE, it handed over the whole
-- packet.
pub send_packet_whole :
    (sends left : List SendResult) (packet out : List ℕ)
    → send_packet sends packet ≡ ok (out, left)
    → All StaysUp sends
    → out ≡ packet
send_packet_whole sends left packet out e up = (send_packet-Handed sends left packet out e).whole up

-- The results of `send` while it hands over `k` bytes, some at a time, with errors after which the
-- code tries again (ENOBUFS, ENETUNREACH, ENETDOWN, EINTR) anywhere between.
abbrev pub Delivers : ℕ → List SendResult → Type 0
Delivers k [] = k ≡ 0
Delivers k (sent n ∷ sends) = (0 < k) × (n ≤ k) × Delivers (k - n) sends
Delivers k (send_failed e ∷ sends) = (0 < k) × (on_send_error e ≡ try_again) × Delivers k sends

send_packet_nil : (left : List SendResult) → send_packet left [] ≡ ok ([], left)
unfolding send_packet
send_packet_nil [] = refl
send_packet_nil (r ∷ left) = refl

send_packet-sent :
    (n : ℕ) (sends : List SendResult) (packet : List ℕ) {tail : List ℕ} {left : List SendResult}
    → 0 < length packet
    → n ≤ length packet
    → send_packet sends (drop n packet) ≡ ok (tail, left)
    → send_packet (sent n ∷ sends) packet ≡ ok (take n packet ++ tail, left)
unfolding send_packet
send_packet-sent n sends [] pos le e = absurd (omega arith)
send_packet-sent n sends (b ∷ bs) pos le e = rw (ge→ltb (length (b ∷ bs)) n le, e)

send_packet-retry :
    (e : Errno) (sends : List SendResult) (packet : List ℕ)
    → 0 < length packet
    → on_send_error e ≡ try_again
    → send_packet (send_failed e ∷ sends) packet ≡ send_packet sends packet
unfolding send_packet
send_packet-retry e sends [] pos again = absurd (omega arith)
send_packet-retry e sends (b ∷ bs) pos again = rw again

-- `send_packet` returns, and has sent the whole packet, whenever the kernel takes its bytes, in
-- pieces of any sizes and with any number of errors to try again after.
pub send_packet-Delivers :
    (sends left : List SendResult) (packet : List ℕ)
    → Delivers (length packet) sends
    → send_packet (sends ++ left) packet ≡ ok (packet, left)
send_packet-Delivers [] left packet h = rw (eq_nil_of_length packet h) (send_packet_nil left)
send_packet-Delivers (sent n ∷ sends) left packet (pos, le, h) =
    send_packet-sent n (sends ++ left) packet pos le
      (send_packet-Delivers sends left (drop n packet) (rw (length-drop n packet) h))
    ∙ ap (λ p. ok (p, left)) (take-append-drop n packet)
send_packet-Delivers (send_failed e ∷ sends) left packet (pos, again, h) =
    send_packet-retry e (sends ++ left) packet pos again ∙ send_packet-Delivers sends left packet h
