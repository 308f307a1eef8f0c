-- ===== src/Nvp/Deserializer/WholePairs.antt =====
-- Packets that hold whole pairs with lengths of one byte: each pair is delivered, in order.
use tfcgi.Prelude.{
  ℕ, suc, ◌+◌, ◌-◌, ◌≤◌, ◌<◌, ◌≡◌, refl, ap, ◌∙◌, false, List, [], ◌∷◌, ◌++◌, length, ok, All,
  length-append, take-append_self, drop-append_self, drop-append_add, append_assoc, ge→ltb, gt→leb,
  le→leb, arith,
}
use Prim.Native.Nat.add
use mathlib.Core.List.{foldl}
use tfcgi.Nvp.Serializer.{serialize}
use tfcgi.Nvp.Serializer.Sizes.{serialize_short}
use tfcgi.Nvp.Deserializer.{
  ParseState, read_new, Deserializer, LenField, name_field, value_field, read_keyval_length,
  set_field, Parsed, looping, returned, parse_body, parse_value_len, parse_switch, parse_loop,
  feed_bytes, handle_keyval, while_len, load32, pair_size, to_host, effective_max_pair_size,
  forward,
}
use tfcgi.Nvp.Deserializer.Rounds.{IsReady, feed_bytes_pos}

pub read_keyval_length_short :
    (field : LenField) (d : Deserializer) (b : ℕ) (rest : List ℕ)
    → b ≤ 127
    → read_keyval_length field d (b ∷ rest)
      ≡ ok (false, forward 1 (set_field field (0 ∷ 0 ∷ 0 ∷ b ∷ []) d), rest)
unfolding read_keyval_length
read_keyval_length_short field d b rest h = rw (gt→leb 128 b (omega arith))

-- The object with the lengths of a pair, each read from one byte.
abbrev pub with_lengths : ℕ → ℕ → Deserializer → Deserializer
with_lengths n v d = forward 1 (
    set_field value_field (0 ∷ 0 ∷ 0 ∷ v ∷ [])
      (forward 1 (set_field name_field (0 ∷ 0 ∷ 0 ∷ n ∷ []) d)))

-- A name and a value.
abbrev pub Pair : Type 0
Pair = List ℕ × List ℕ

-- What `serialize` writes for some pairs, one after the other.
abbrev pub serialize_all : List Pair → List ℕ
serialize_all [] = []
serialize_all ((key, val) ∷ ps) = (serialize key val).bytes ++ serialize_all ps

-- Both lengths fit a byte, and together they keep to the limit.
abbrev pub IsSmall : ℕ → Pair → Type 0
IsSmall most (key, val) = (length key ≤ 127) × (length val ≤ 127) × (length key + length val ≤ most)

-- What the object is after a pair, and after some.
abbrev pub after_pair : ℕ → ℕ → Deserializer → Deserializer
after_pair n v d =
    forward (n + v) (record (to_host (with_lengths n v d)) { parse_state = read_new })

abbrev pub after_pairs : List Pair → Deserializer → Deserializer
after_pairs [] d = d
after_pairs ((key, val) ∷ ps) d = after_pairs ps (after_pair (length key) (length val) d)

pub after_pairs-IsReady :
    (ps : List Pair) (d : Deserializer) → IsReady d → IsReady (after_pairs ps d)
after_pairs-IsReady [] d v = v
after_pairs-IsReady ((key, val) ∷ ps) d v =
    after_pairs-IsReady ps _ (record { idle = v.idle; at_new = refl })

pub length-serialize_all :
    (most : ℕ) (ps : List Pair) → All (IsSmall most) ps → length ps ≤ length (serialize_all ps)
length-serialize_all most [] h = omega arith
length-serialize_all most ((key, val) ∷ ps) ((hk, hv, _), hs) =
    rw (serialize_short key val hk hv) (
      omega (arith, length-append (key ++ val) (serialize_all ps), length-serialize_all most ps hs))

serialize_all_pos :
    (most : ℕ) (p : Pair) (ps : List Pair)
    → All (IsSmall most) (p ∷ ps)
    → 0 < length (serialize_all (p ∷ ps))
serialize_all_pos most p ps h = omega (arith, length-serialize_all most (p ∷ ps) h)

module _ {S : Type 0} (new_key : S → List ℕ × List ℕ → S) (limit : ℕ) where
  -- The two lengths of one byte bring the loop to the body of the pair.
  pub parse_switch_short :
      {st : ParseState} (d : Deserializer) (n v : ℕ) (rest : List ℕ) (s : S)
      → st ≡ read_new
      → n ≤ 127
      → v ≤ 127
      → parse_switch new_key limit st d (n ∷ v ∷ rest) s
        ≡ parse_body new_key limit (with_lengths n v d) rest s
  unfolding parse_switch parse_value_len
  parse_switch_short d n v rest s e hn hv =
      rw (e, read_keyval_length_short name_field d n (v ∷ rest) hn)
        (rw (
          read_keyval_length_short value_field
            (forward 1 (set_field name_field (0 ∷ 0 ∷ 0 ∷ n ∷ []) d)) v rest hv))

  pub pair_size-with_lengths :
      (n v : ℕ) (d : Deserializer)
      → n ≤ 127
      → v ≤ 127
      → pair_size (to_host (with_lengths n v d)) ≡ n + v
  pair_size-with_lengths n v d hn hv = omega arith

  handle_keyval_whole :
      (d : Deserializer) (key val rest : List ℕ) (s : S)
      → load32 d.name_len ≡ length key
      → load32 d.value_len ≡ length val
      → handle_keyval new_key limit d (key ++ (val ++ rest)) s ≡ ok (new_key s (key, val))
  unfolding handle_keyval
  handle_keyval_whole d key val rest s en ev =
      let l1 = length-append key (val ++ rest) in
      let l2 = length-append val rest in
      rw (
        en,
        ev,
        ge→ltb (length (key ++ (val ++ rest))) (length key + length val) (omega arith),
        take-append_self,
        drop-append_self,
        take-append_self,
      )

  parse_body_whole :
      (d : Deserializer) (key val rest : List ℕ) (s : S)
      → length key ≤ 127
      → length val ≤ 127
      → length key + length val ≤ effective_max_pair_size limit d
      → parse_body new_key limit (with_lengths (length key) (length val) d) (key ++ (val ++ rest)) s
        ≡ looping (after_pair (length key) (length val) d) rest (new_key s (key, val))
  unfolding parse_body
  parse_body_whole d key val rest s hk hv fits =
      let l1 = length-append key (val ++ rest) in
      let l2 = length-append val rest in
      let whole =
        handle_keyval_whole (to_host (with_lengths (length key) (length val) d)) key val rest s
          (omega arith) (omega arith) in
      rw (pair_size-with_lengths (length key) (length val) d hk hv) (
        rw (
          ge→ltb (effective_max_pair_size limit d) (length key + length val) fits,
          le→leb (length key + length val) (length (key ++ (val ++ rest))) (omega arith),
          whole,
          drop-append_add,
          drop-append_self,
        ))

  -- One round of the loop over a pair that `serialize` wrote.
  parse_loop-pair :
      (fuel : ℕ) (d : Deserializer) (key val rest : List ℕ) (s : S)
      → IsReady d
      → IsSmall (effective_max_pair_size limit d) (key, val)
      → parse_loop new_key limit (suc fuel) d ((serialize key val).bytes ++ rest) s
        ≡ while_len
            (parse_loop new_key limit fuel)
            (looping (after_pair (length key) (length val) d) rest (new_key s (key, val)))
  unfolding parse_loop
  parse_loop-pair fuel d key val rest s v (hk, hv, fits) = rw (serialize_short key val hk hv) (
      ap (while_len (parse_loop new_key limit fuel)) (
        ap (λ bs. parse_switch new_key limit d.parse_state d (length key ∷ length val ∷ bs) s)
          (append_assoc key val rest)
        ∙ parse_switch_short d (length key) (length val) (key ++ (val ++ rest)) s v.at_new hk hv
        ∙ parse_body_whole d key val rest s hk hv fits))

  while_len_more :
      (rounds : Deserializer → List ℕ → S → Parsed S) (d : Deserializer) (datas : List ℕ) (s : S)
      → 0 < length datas
      → while_len rounds (looping d datas s) ≡ rounds d datas s
  while_len_more rounds d [] s h = absurd (omega arith)
  while_len_more rounds d (b ∷ bs) s h = refl

  -- The loop over some pairs, and what follows them in the packet.
  pub parse_loop-pairs :
      (ps : List Pair) (fuel : ℕ) (d : Deserializer) (b : ℕ) (bs : List ℕ) (s : S)
      → IsReady d
      → All (IsSmall (effective_max_pair_size limit d)) ps
      → parse_loop new_key limit (length ps + fuel) d (serialize_all ps ++ b ∷ bs) s
        ≡ parse_loop new_key limit fuel (after_pairs ps d) (b ∷ bs) (foldl new_key s ps)
  parse_loop-pairs [] fuel d b bs s v h = rw add.zero
  parse_loop-pairs ((key, val) ∷ ps) fuel d b bs s v (h, hs) =
      let rest = serialize_all ps ++ b ∷ bs in
      rw (add.suc, append_assoc)
        (parse_loop-pair (length ps + fuel) d key val rest s v h
          ∙ while_len_more (parse_loop new_key limit (length ps + fuel)) _ rest _
              (omega (arith, length-append (serialize_all ps) (b ∷ bs)))
          ∙ parse_loop-pairs ps fuel (after_pair (length key) (length val) d) b bs
              (new_key s (key, val)) (record { idle = v.idle; at_new = refl }) hs)

  parse_loop-whole :
      (p : Pair) (ps : List Pair) (fuel : ℕ) (d : Deserializer) (s : S)
      → IsReady d
      → All (IsSmall (effective_max_pair_size limit d)) (p ∷ ps)
      → parse_loop new_key limit (length (p ∷ ps) + fuel) d (serialize_all (p ∷ ps)) s
        ≡ returned false (after_pairs (p ∷ ps) d) (foldl new_key s (p ∷ ps))
  parse_loop-whole (key, val) [] fuel d s v (h, hs) =
      rw add.suc (parse_loop-pair (0 + fuel) d key val [] s v h)
  parse_loop-whole (key, val) (q ∷ ps) fuel d s v (h, hs) =
      let rest = serialize_all (q ∷ ps) in
      rw add.suc (
        parse_loop-pair (length (q ∷ ps) + fuel) d key val rest s v h
        ∙ while_len_more (parse_loop new_key limit (length (q ∷ ps) + fuel)) _ rest _
            (serialize_all_pos (effective_max_pair_size limit d) q ps hs)
        ∙ parse_loop-whole q ps fuel (after_pair (length key) (length val) d) (new_key s (key, val))
            (record { idle = v.idle; at_new = refl }) hs)

  -- A packet that holds whole pairs as `serialize` writes them, each with lengths of one byte and
  -- within the limit, calls `new_key` on each pair in order and returns false; the deserializer
  -- is ready for the next packet.
  pub feed_bytes-serialize_all :
      (p : Pair) (ps : List Pair) (d : Deserializer) (s : S)
      → IsReady d
      → All (IsSmall (effective_max_pair_size limit d)) (p ∷ ps)
      → (feed_bytes new_key limit d (serialize_all (p ∷ ps)) s
          ≡ returned false
              (after_pairs (p ∷ ps) (forward d.remaining_len d))
              (foldl new_key s (p ∷ ps)))
        × IsReady (after_pairs (p ∷ ps) (forward d.remaining_len d))
  feed_bytes-serialize_all p ps d s v h =
      let n = length (serialize_all (p ∷ ps)) in
      let k = length (p ∷ ps) in
      let ready : IsReady (forward d.remaining_len d) = record {
        idle = v.idle;
        at_new = v.at_new;
      } in
      let enough : n + 2 ≡ k + (n + 2 - k) =
        omega (arith, length-serialize_all (effective_max_pair_size limit d) (p ∷ ps) h) in
      (
        feed_bytes_pos new_key limit d (serialize_all (p ∷ ps)) s v.idle
              (serialize_all_pos (effective_max_pair_size limit d) p ps h)
            ∙ ap
                (λ f.
                  parse_loop new_key limit f (forward d.remaining_len d) (serialize_all (p ∷ ps)) s)
                enough
            ∙ parse_loop-whole p ps (n + 2 - k) (forward d.remaining_len d) s ready h,
        after_pairs-IsReady (p ∷ ps) (forward d.remaining_len d) ready,
      )
