-- ===== src/Nvp/Deserializer/LongLengths.antt =====
-- Lengths of four bytes, which the FastCGI specification allows and `Deserializer::feed` does not
-- survive.
use tfcgi.Prelude.{
  ℕ, ◌+◌, ◌-◌, ◌%◌, ◌^◌, ◌≤◌, ◌<◌, ◌≡◌, ◌≢◌, ap, ◌∙◌, false, not, List, [], ◌∷◌, length, ◌==◌, ok,
  out_of_bounds, ge→ltb, eq_false, le→leb, lt→ltb, arith,
}
use tfcgi.Nvp.Deserializer.{
  ParseState, read_new, read_name_len, read_value_len, Deserializer, LenField, name_field,
  value_field, read_keyval_length, set_field, returned, failed, parse_body, parse_value_len,
  parse_switch, parse_loop, feed_bytes, handle_keyval, while_len, load32, ntohl, pair_size, to_host,
  effective_max_pair_size, forward,
}
use tfcgi.Nvp.Deserializer.Rounds.{IsReady, feed_bytes_round}

-- A length with the top bit set and all of its four bytes.
read_keyval_length_long :
    (field : LenField) (d : Deserializer) (b0 b1 b2 b3 : ℕ) (rest : List ℕ)
    → 128 ≤ b0
    → read_keyval_length field d (b0 ∷ b1 ∷ b2 ∷ b3 ∷ rest)
      ≡ ok (not (length rest == 4), forward 4 (set_field field (b0 ∷ b1 ∷ b2 ∷ b3 ∷ []) d), rest)
unfolding read_keyval_length
read_keyval_length_long field d b0 b1 b2 b3 rest h =
    rw (le→leb 128 b0 h, ge→ltb (length (b0 ∷ b1 ∷ b2 ∷ b3 ∷ rest)) 4 (omega arith))
      (let e : length (b0 ∷ b1 ∷ b2 ∷ b3 ∷ rest) - 4 ≡ length rest = omega arith in rw e)

-- The object behind two lengths of four bytes.
abbrev pub long_lengths : List ℕ → List ℕ → Deserializer → Deserializer
long_lengths a c d =
    record (forward 4
      (set_field value_field c (forward 4 (set_field name_field a (forward d.remaining_len d))))) {
        parse_state = read_value_len;
      }

module _ {S : Type 0} (new_key : S → List ℕ × List ℕ → S) (limit : ℕ) where
  -- A packet that starts with a pair whose name has a length of four bytes, and that does not hold
  -- exactly four bytes more, is dropped: `feed` returns false with no pair delivered, whatever the
  -- packet holds after the length, and expects the length of the value in the next packet.
  pub feed_bytes_long_name :
      (d : Deserializer) (b0 b1 b2 b3 : ℕ) (rest : List ℕ) (s : S)
      → IsReady d
      → 128 ≤ b0
      → length rest ≢ 4
      → feed_bytes new_key limit d (b0 ∷ b1 ∷ b2 ∷ b3 ∷ rest) s
        ≡ returned false
            (record (forward 4
              (set_field name_field (b0 ∷ b1 ∷ b2 ∷ b3 ∷ []) (forward d.remaining_len d))) {
                parse_state = read_name_len;
              })
            s
  feed_bytes_long_name d b0 b1 b2 b3 rest s v h ne =
      feed_bytes_round new_key limit d (b0 ∷ b1 ∷ b2 ∷ b3 ∷ rest) s v.idle (omega arith)
      ∙ ap (while_len (parse_loop new_key limit (length (b0 ∷ b1 ∷ b2 ∷ b3 ∷ rest) + 1)))
          (switch_long v.at_new)
    where
      switch_long :
          {st : ParseState}
          → st ≡ read_new
          → parse_switch new_key limit st (forward d.remaining_len d) (b0 ∷ b1 ∷ b2 ∷ b3 ∷ rest) s
            ≡ returned false
                (record (forward 4
                  (set_field name_field (b0 ∷ b1 ∷ b2 ∷ b3 ∷ []) (forward d.remaining_len d))) {
                    parse_state = read_name_len;
                  })
                s
      switch_long e =
          unfold parse_switch in
          rw (
            e,
            read_keyval_length_long name_field (forward d.remaining_len d) b0 b1 b2 b3 rest h,
            eq_false (length rest) 4 ne,
          )

  parse_switch-long_lengths :
      {st : ParseState} (d : Deserializer) (a0 a1 a2 a3 c0 c1 c2 c3 : ℕ) (s : S)
      → st ≡ read_new
      → 128 ≤ a0
      → 128 ≤ c0
      → parse_switch new_key limit st
          (forward d.remaining_len d)
          (a0 ∷ a1 ∷ a2 ∷ a3 ∷ c0 ∷ c1 ∷ c2 ∷ c3 ∷ [])
          s
        ≡ returned false (long_lengths (a0 ∷ a1 ∷ a2 ∷ a3 ∷ []) (c0 ∷ c1 ∷ c2 ∷ c3 ∷ []) d) s
  unfolding parse_switch parse_value_len
  parse_switch-long_lengths d a0 a1 a2 a3 c0 c1 c2 c3 s e ha hc =
      let d0 : Deserializer = forward d.remaining_len d in
      rw (e, read_keyval_length_long name_field d0 a0 a1 a2 a3 (c0 ∷ c1 ∷ c2 ∷ c3 ∷ []) ha)
        (rw (
          read_keyval_length_long value_field
            (forward 4 (set_field name_field (a0 ∷ a1 ∷ a2 ∷ a3 ∷ []) d0)) c0 c1 c2 c3 [] hc))

  parse_body_wrapped :
      (d : Deserializer) (datas : List ℕ) (s : S)
      → pair_size (to_host d) ≤ effective_max_pair_size limit d
      → pair_size (to_host d) ≤ length datas
      → length datas < load32 (ntohl d.name_len) + load32 (ntohl d.value_len)
      → parse_body new_key limit d datas s ≡ failed out_of_bounds
  unfolding parse_body handle_keyval
  parse_body_wrapped d datas s most fits over = rw (
    ge→ltb (effective_max_pair_size limit d) (pair_size (to_host d)) most,
    le→leb (pair_size (to_host d)) (length datas) fits,
    lt→ltb (length datas) (load32 (ntohl d.name_len) + load32 (ntohl d.value_len)) over,
  )

  -- Two lengths of four bytes each, alone in a packet, and a next packet that holds as much as the
  -- two lengths say: `feed` builds views of 2 ^ 31 bytes and more into that packet, a read out of
  -- bounds. The top bits stay in the lengths, and the sum of the two wraps round to pass the checks.
  pub feed_bytes-long_lengths :
      (d : Deserializer) (a0 a1 a2 a3 c0 c1 c2 c3 : ℕ) (datas : List ℕ) (s : S)
      → IsReady d
      → 128 ≤ a0
      → 128 ≤ c0
      → 0 < length datas
      → length datas < 2 ^ 16
      → (load32 (a3 ∷ a2 ∷ a1 ∷ a0 ∷ []) + load32 (c3 ∷ c2 ∷ c1 ∷ c0 ∷ [])) % 2 ^ 32
        ≤ effective_max_pair_size limit d
      → (load32 (a3 ∷ a2 ∷ a1 ∷ a0 ∷ []) + load32 (c3 ∷ c2 ∷ c1 ∷ c0 ∷ [])) % 2 ^ 32 ≤ length datas
      → let d' = long_lengths (a0 ∷ a1 ∷ a2 ∷ a3 ∷ []) (c0 ∷ c1 ∷ c2 ∷ c3 ∷ []) d in
        (feed_bytes new_key limit d (a0 ∷ a1 ∷ a2 ∷ a3 ∷ c0 ∷ c1 ∷ c2 ∷ c3 ∷ []) s
          ≡ returned false d' s)
        × (feed_bytes new_key limit d' datas s ≡ failed out_of_bounds)
  unfolding parse_switch
  feed_bytes-long_lengths d a0 a1 a2 a3 c0 c1 c2 c3 datas s r ha hc pos small most fits =
      let d1 : Deserializer = long_lengths (a0 ∷ a1 ∷ a2 ∷ a3 ∷ []) (c0 ∷ c1 ∷ c2 ∷ c3 ∷ []) d in
      (
        feed_bytes_round new_key limit d (a0 ∷ a1 ∷ a2 ∷ a3 ∷ c0 ∷ c1 ∷ c2 ∷ c3 ∷ []) s r.idle
              (omega arith)
            ∙ ap (while_len (parse_loop new_key limit 9))
                (parse_switch-long_lengths d a0 a1 a2 a3 c0 c1 c2 c3 s r.at_new ha hc),
        feed_bytes_round new_key limit d1 datas s r.idle pos
            ∙ ap (while_len (parse_loop new_key limit (length datas + 1)))
                (parse_body_wrapped (forward d1.remaining_len d1) datas s most fits (omega arith)),
      )
