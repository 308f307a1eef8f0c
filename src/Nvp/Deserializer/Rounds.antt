-- ===== src/Nvp/Deserializer/Rounds.antt =====
-- How `feed` enters its loop.
use tfcgi.Prelude.{
  ℕ, suc, ◌+◌, ◌<◌, ◌≡◌, refl, ap, ◌∙◌, true, List, [], ◌∷◌, length, take, drop, ge→ltb, arith,
}
use tfcgi.Nvp.Deserializer.{
  read_new, Deserializer, returned, parse_switch, parse_loop, feed_bytes, while_len, after_copy,
  copy_pending, forward,
}

-- The deserializer waits for no bytes and is about to read a new pair.
pub record IsReady (d : Deserializer) : Type 0 where
  pub idle : d.remaining_len ≡ 0
  pub at_new : d.parse_state ≡ read_new

module _ {S : Type 0} (new_key : S → List ℕ × List ℕ → S) (limit : ℕ) where
  -- A packet handed to a deserializer that waits for nothing goes to the loop.
  feed_bytes_idle :
      (d : Deserializer) (b : ℕ) (bs : List ℕ) (s : S)
      → d.remaining_len ≡ 0
      → feed_bytes new_key limit d (b ∷ bs) s
        ≡ parse_loop new_key limit (length (b ∷ bs) + 2) (forward d.remaining_len d) (b ∷ bs) s
  unfolding feed_bytes
  feed_bytes_idle d b bs s v =
      let datas : List ℕ = b ∷ bs in
      rw (ge→ltb (length datas) d.remaining_len (omega arith)) (
        ap
          (λ n.
            after_copy
              (λ d'.
                parse_loop new_key limit (length datas + 2) (forward d.remaining_len d')
                  (drop n datas) s)
              (copy_pending d (take n datas)))
          v)

  pub feed_bytes_nil :
      (d : Deserializer) (s : S) → feed_bytes new_key limit d [] s ≡ returned true d s
  unfolding feed_bytes
  feed_bytes_nil d s = refl

  pub feed_bytes_pos :
      (d : Deserializer) (datas : List ℕ) (s : S)
      → d.remaining_len ≡ 0
      → 0 < length datas
      → feed_bytes new_key limit d datas s
        ≡ parse_loop new_key limit (length datas + 2) (forward d.remaining_len d) datas s
  feed_bytes_pos d [] s v h = absurd (omega arith)
  feed_bytes_pos d (b ∷ bs) s v h = feed_bytes_idle d b bs s v

  -- The first round of the loop.
  pub feed_bytes_round :
      (d : Deserializer) (datas : List ℕ) (s : S)
      → d.remaining_len ≡ 0
      → 0 < length datas
      → feed_bytes new_key limit d datas s
        ≡ while_len
            (parse_loop new_key limit (length datas + 1))
            (parse_switch new_key limit d.parse_state (forward d.remaining_len d) datas s)
  unfolding parse_loop
  feed_bytes_round d datas s v h =
      feed_bytes_pos d datas s v h
      ∙ ap (λ f. parse_loop new_key limit f (forward d.remaining_len d) datas s)
          (let e : length datas + 2 ≡ suc (length datas + 1) = omega arith in e)
