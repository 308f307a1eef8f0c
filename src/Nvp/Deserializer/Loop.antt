-- ===== src/Nvp/Deserializer/Loop.antt =====
-- The loop of `Deserializer::feed` ends on every input.
use tfcgi.Prelude.{
  ℕ, zero, suc, ◌+◌, ◌-◌, ◌≤◌, ◌<◌, ◌≡◌, refl, Bool, true, false, List, [], ◌∷◌, length, take, drop,
  ltb, leb, Result, ok, stop, Bool-cases, inl, inr, length-drop, arith,
}
use native.Mathlib.Nat.{le_refl}
use tfcgi.Nvp.Deserializer.{
  name_field, value_field, ParseState, read_new, read_name_len, read_value_len, will_read_buffer,
  read_buffer, Deserializer, LenField, read_keyval_length, Parsed, looping, returned, raised,
  failed, out_of_fuel, parse_body, parse_value_len, parse_switch, parse_loop, feed_bytes,
  after_keyval, after_value_len, after_name_len, while_len, after_copy, copy_pending, pair_size,
  to_host, forward,
}

-- A length that was read takes a byte of the data at least.
abbrev Takes : ℕ → Result (Bool × Deserializer × List ℕ) → Type 0
Takes n (ok (true, d, datas)) = Unit
Takes n (ok (false, d, datas)) = length datas < n
Takes n (stop e) = Unit

read_keyval_length-Takes :
    (field : LenField) (d : Deserializer) (datas : List ℕ)
    → Takes (length datas) (read_keyval_length field d datas)
unfolding read_keyval_length
read_keyval_length-Takes field d [] = tt
read_keyval_length-Takes field d (b ∷ rest) = elim (Bool-cases (leb 128 b)) [
  | inl long ↦ rw long (ground (arith, length-drop 3 rest))
  | inr short ↦ rw short (omega arith)
]

module _ {S : Type 0} where
  -- A round that goes on is about to read a new pair, and has at most `n` bytes left.
  abbrev Leaves : ℕ → Parsed S → Type 0
  Leaves n (looping d datas s) = (d.parse_state ≡ read_new) × (length datas ≤ n)
  Leaves n (returned r d s) = Unit {0}
  Leaves n (raised d s) = Unit {0}
  Leaves n (failed e) = Unit {0}
  Leaves n out_of_fuel = ⊥

  after_keyval-Leaves :
      (n : ℕ) (d : Deserializer) (datas : List ℕ) (r : Result S)
      → d.parse_state ≡ read_new
      → length datas ≤ n
      → Leaves n (after_keyval d datas r)
  after_keyval-Leaves n d datas (ok s) e h = (e, h)
  after_keyval-Leaves n d datas (stop x) e h = tt

-- A return, the exception or a fault.
abbrev pub Ends : {S : Type 0} → Parsed S → Type 0
Ends (looping d datas s) = ⊥
Ends (returned r d s) = Unit {0}
Ends (raised d s) = Unit {0}
Ends (failed e) = Unit {0}
Ends out_of_fuel = ⊥

module _ {S : Type 0} (new_key : S → List ℕ × List ℕ → S) (limit : ℕ) where
  parse_body-Leaves :
      (n : ℕ) (d : Deserializer) (datas : List ℕ) (s : S)
      → length datas ≤ n
      → Leaves n (parse_body new_key limit d datas s)
  unfolding parse_body
  parse_body-Leaves n d datas s h = ground (arith, length-drop (pair_size (to_host d)) datas)

  after_value_len-Leaves :
      (n : ℕ) (s : S) (r : Result (Bool × Deserializer × List ℕ))
      → Takes n r
      → Leaves (n - 1) (after_value_len new_key limit s r)
  after_value_len-Leaves n s (ok (true, d, datas)) h = tt
  after_value_len-Leaves n s (ok (false, d, datas)) h =
      parse_body-Leaves (n - 1) d datas s (omega arith)
  after_value_len-Leaves n s (stop e) h = tt

  parse_value_len-Leaves :
      (d : Deserializer) (datas : List ℕ) (s : S)
      → Leaves (length datas - 1) (parse_value_len new_key limit d datas s)
  unfolding parse_value_len
  parse_value_len-Leaves d datas s =
      after_value_len-Leaves (length datas) s _ (read_keyval_length-Takes value_field d datas)

  Leaves-mono : (m n : ℕ) (r : Parsed S) → m ≤ n → Leaves m r → Leaves n r
  Leaves-mono m n (looping d datas s) le (e, h) = (e, omega arith)
  Leaves-mono m n (returned r d s) le h = tt
  Leaves-mono m n (raised d s) le h = tt
  Leaves-mono m n (failed e) le h = tt
  Leaves-mono m n out_of_fuel le h = h

  after_name_len-Leaves :
      (n : ℕ) (s : S) (r : Result (Bool × Deserializer × List ℕ))
      → Takes n r
      → Leaves (n - 2) (after_name_len new_key limit s r)
  after_name_len-Leaves n s (ok (true, d, datas)) h = tt
  after_name_len-Leaves n s (ok (false, d, datas)) h =
      Leaves-mono (length datas - 1) (n - 2) _ (omega arith) (parse_value_len-Leaves d datas s)
  after_name_len-Leaves n s (stop e) h = tt

  -- From a new pair a round takes two bytes.
  parse_switch_new-Leaves :
      {st : ParseState} (d : Deserializer) (datas : List ℕ) (s : S)
      → st ≡ read_new
      → Leaves (length datas - 2) (parse_switch new_key limit st d datas s)
  unfolding parse_switch
  parse_switch_new-Leaves d datas s e =
      rw e (after_name_len-Leaves (length datas) s _ (read_keyval_length-Takes name_field d datas))

  parse_switch-Leaves :
      (st : ParseState) (d : Deserializer) (datas : List ℕ) (s : S)
      → Leaves (length datas) (parse_switch new_key limit st d datas s)
  unfolding parse_switch
  parse_switch-Leaves read_new d datas s =
      Leaves-mono (length datas - 2) (length datas) _ (omega arith)
        (parse_switch_new-Leaves d datas s refl)
  parse_switch-Leaves read_name_len d datas s =
      Leaves-mono (length datas - 1) (length datas) _ (omega arith)
        (parse_value_len-Leaves d datas s)
  parse_switch-Leaves read_value_len d datas s =
      parse_body-Leaves (length datas) d datas s (le_refl (length datas))
  parse_switch-Leaves will_read_buffer d datas s =
      parse_body-Leaves (length datas) d datas s (le_refl (length datas))
  parse_switch-Leaves read_buffer d datas s =
      after_keyval-Leaves (length datas) _ datas _ refl (le_refl (length datas))

  while_len-Ends :
      (n : ℕ) (rounds : Deserializer → List ℕ → S → Parsed S) (r : Parsed S)
      → ((d : Deserializer) (datas : List ℕ) (s : S)
          → d.parse_state ≡ read_new
          → length datas ≤ n
          → 0 < length datas
          → Ends (rounds d datas s))
      → Leaves n r
      → Ends (while_len rounds r)
  while_len-Ends n rounds (looping d [] s) h l = tt
  while_len-Ends n rounds (looping d (b ∷ bs) s) h (e, le) = h d (b ∷ bs) s e le (omega arith)
  while_len-Ends n rounds (returned r d s) h l = tt
  while_len-Ends n rounds (raised d s) h l = tt
  while_len-Ends n rounds (failed x) h l = tt
  while_len-Ends n rounds out_of_fuel h l = absurd l

  parse_loop_new-Ends :
      (fuel : ℕ) (d : Deserializer) (datas : List ℕ) (s : S)
      → d.parse_state ≡ read_new
      → length datas < fuel
      → Ends (parse_loop new_key limit fuel d datas s)
  unfolding parse_loop
  parse_loop_new-Ends zero d datas s e h = absurd (omega arith)
  parse_loop_new-Ends (suc fuel) d datas s e h =
      while_len-Ends (length datas - 2) (parse_loop new_key limit fuel) _
        (λ d' datas' s' e' le pos. parse_loop_new-Ends fuel d' datas' s' e' (omega arith))
        (parse_switch_new-Leaves d datas s e)

  parse_loop-Ends :
      (fuel : ℕ) (d : Deserializer) (datas : List ℕ) (s : S)
      → length datas + 1 < fuel
      → Ends (parse_loop new_key limit fuel d datas s)
  unfolding parse_loop
  parse_loop-Ends zero d datas s h = absurd (omega arith)
  parse_loop-Ends (suc fuel) d datas s h =
      while_len-Ends (length datas) (parse_loop new_key limit fuel) _
        (λ d' datas' s' e' le pos. parse_loop_new-Ends fuel d' datas' s' e' (omega arith))
        (parse_switch-Leaves d.parse_state d datas s)

  after_copy-Ends :
      (k : Deserializer → Parsed S) (r : Result Deserializer)
      → ((d : Deserializer) → Ends (k d))
      → Ends (after_copy k r)
  after_copy-Ends k (ok d) h = h d
  after_copy-Ends k (stop x) h = tt

  -- On every content of a packet and in every state of the deserializer `feed` comes to an end: it
  -- returns, throws or reads or writes out of bounds, and the bound on its rounds is never reached.
  pub feed_bytes-Ends :
      (d : Deserializer) (datas : List ℕ) (s : S) → Ends (feed_bytes new_key limit d datas s)
  unfolding feed_bytes
  feed_bytes-Ends d [] s = tt
  feed_bytes-Ends d (b ∷ bs) s = elim (Bool-cases (ltb (length (b ∷ bs)) d.remaining_len)) [
    | inl wait ↦ rw wait (
        after_copy-Ends
          (λ d'. returned false (record d' { remaining_len = d.remaining_len - length (b ∷ bs) }) s)
          (copy_pending d (b ∷ bs)) (λ d'. tt))
    | inr go ↦ rw go (
        after_copy-Ends
          (λ d'.
            parse_loop new_key limit (length (b ∷ bs) + 2) (forward d.remaining_len d')
              (drop d.remaining_len (b ∷ bs)) s)
          (copy_pending d (take d.remaining_len (b ∷ bs)))
          (λ d'.
            parse_loop-Ends (length (b ∷ bs) + 2) (forward d.remaining_len d')
              (drop d.remaining_len (b ∷ bs)) s
              (omega (arith, length-drop d.remaining_len (b ∷ bs)))))
  ]
