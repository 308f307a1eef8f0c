-- ===== src/Nvp/Deserializer/SplitPairs.antt =====
-- Pairs that are split between packets, which the FastCGI specification allows and
-- `Deserializer::feed` does not survive.
use tfcgi.Prelude.{
  ℕ, suc, ◌+◌, ◌-◌, ◌≤◌, ◌<◌, ◌≡◌, ap, ◌∙◌, false, List, [], ◌∷◌, ◌++◌, length, take, drop, ok,
  out_of_bounds, length-append, length-replicate, replicate, length-take, length-drop, take_self,
  drop_self, ge→ltb, gt→leb, arith,
}
use tfcgi.Nvp.Deserializer.{
  ParseState, read_new, Deserializer, read_keyval_length, resize, Parsed, returned, failed,
  parse_body, parse_value_len, parse_switch, parse_loop, feed_bytes, while_len, after_copy,
  copy_pending, to_host, effective_max_pair_size, forward, split_pair,
}
use tfcgi.Nvp.Deserializer.WholePairs.{with_lengths, parse_switch_short, pair_size-with_lengths}
use tfcgi.Nvp.Deserializer.Rounds.{IsReady, feed_bytes_round}

-- The buffer of a split pair has room for the whole pair.
length-split_pair :
    (total : ℕ) (d : Deserializer) (front : List ℕ)
    → length front ≤ total
    → length (split_pair total d front).string_buffer ≡ total
length-split_pair total d front h = omega (
  arith,
  length-append front (drop (length front) (resize d.string_buffer total)),
  length-drop (length front) (resize d.string_buffer total),
  length-append (take total d.string_buffer) (replicate (total - length d.string_buffer) 0),
  length-take total d.string_buffer,
  length-replicate {A = ℕ} (total - length d.string_buffer) 0,
)

-- What the object is when the rest of a split pair has come.
abbrev filled : ℕ → Deserializer → List ℕ → List ℕ → Deserializer
filled total d front back =
    let buffer = (split_pair total d front).string_buffer in
    record (split_pair total d front) {
      string_buffer =
          take (length front) buffer ++ back ++ drop (length front + length back) buffer;
    }

copy_pending_split :
    (total : ℕ) (d : Deserializer) (front back : List ℕ)
    → length front + length back ≡ total
    → 0 < length back
    → copy_pending (split_pair total d front) back ≡ ok (filled total d front back)
unfolding copy_pending
copy_pending_split total d front [] h pos = absurd (omega arith)
copy_pending_split total d front (b ∷ bs) h pos = rw (
    ge→ltb (length (split_pair total d front).string_buffer) (length front + length (b ∷ bs))
      (omega (arith, length-split_pair total d front)))

module _ {S : Type 0} (new_key : S → List ℕ × List ℕ → S) (limit : ℕ) where
  parse_switch_nil :
      {st : ParseState} (d : Deserializer) (s : S)
      → st ≡ read_new
      → parse_switch new_key limit st d [] s ≡ failed out_of_bounds
  unfolding parse_switch
  parse_switch_nil d s e = unfold read_keyval_length in rw e

  -- A packet of one byte, which is the length of a name and at most 127, is read past its end by a
  -- deserializer that is ready for a pair.
  pub feed_bytes_one_byte :
      (d : Deserializer) (b : ℕ) (s : S)
      → IsReady d
      → b ≤ 127
      → feed_bytes new_key limit d (b ∷ []) s ≡ failed out_of_bounds
  feed_bytes_one_byte d b s v h =
      feed_bytes_round new_key limit d (b ∷ []) s v.idle (omega arith)
      ∙ ap (while_len (parse_loop new_key limit (length (b ∷ []) + 1))) (switch_one v.at_new)
    where
      switch_one :
          {st : ParseState}
          → st ≡ read_new
          → parse_switch new_key limit st (forward d.remaining_len d) (b ∷ []) s
            ≡ failed out_of_bounds
      switch_one e =
          unfold parse_switch parse_value_len read_keyval_length in
          rw (e, gt→leb 128 b (omega arith))

  parse_switch_split :
      {st : ParseState} (d : Deserializer) (n v : ℕ) (front : List ℕ) (s : S)
      → st ≡ read_new
      → n ≤ 127
      → v ≤ 127
      → n + v ≤ effective_max_pair_size limit d
      → length front < n + v
      → parse_switch new_key limit st d (n ∷ v ∷ front) s
        ≡ returned false (split_pair (n + v) (to_host (with_lengths n v d)) front) s
  unfolding parse_body
  parse_switch_split d n v front s e hn hv fits short =
      parse_switch_short new_key limit d n v front s e hn hv
      ∙ rw (pair_size-with_lengths new_key limit n v d hn hv) (
          rw (
            ge→ltb (effective_max_pair_size limit d) (n + v) fits,
            gt→leb (n + v) (length front) short,
          ))

  -- The loop entered with no data left.
  parse_loop_nil :
      (fuel : ℕ) (d : Deserializer) (s : S)
      → d.parse_state ≡ read_new
      → parse_loop new_key limit (suc fuel) d [] s ≡ failed out_of_bounds
  unfolding parse_loop
  parse_loop_nil fuel d s new =
      ap (while_len (parse_loop new_key limit fuel)) (parse_switch_nil d s new)

  -- The bytes that the deserializer waits for come, and no more.
  feed_bytes_rest :
      (d d' : Deserializer) (back : List ℕ) (s : S)
      → 0 < length back
      → d.remaining_len ≡ length back
      → copy_pending d back ≡ ok d'
      → d'.parse_state ≡ read_new
      → feed_bytes new_key limit d back s ≡ failed out_of_bounds
  unfolding feed_bytes
  feed_bytes_rest d d' [] s pos e copied new = absurd (omega arith)
  feed_bytes_rest d d' (b ∷ bs) s pos e copied new =
      rw (ge→ltb (length (b ∷ bs)) d.remaining_len (omega arith)) (
        ap (λ n. after_copy (k n) (copy_pending d (take n (b ∷ bs)))) e
        ∙ ap (λ l. after_copy (k (length (b ∷ bs))) (copy_pending d l)) (take_self (b ∷ bs))
        ∙ ap (after_copy (k (length (b ∷ bs)))) copied
        ∙ ap
            (λ l. parse_loop new_key limit (length (b ∷ bs) + 2) (forward (length (b ∷ bs)) d') l s)
            (drop_self (b ∷ bs))
        ∙ ap (λ f. parse_loop new_key limit f (forward (length (b ∷ bs)) d') [] s)
            (let e : length (b ∷ bs) + 2 ≡ suc (length (b ∷ bs) + 1) = omega arith in e)
        ∙ parse_loop_nil (length (b ∷ bs) + 1) (forward (length (b ∷ bs)) d') s new)
    where
      k : ℕ → Deserializer → Parsed S
      k n d'' = parse_loop new_key limit (length (b ∷ bs) + 2) (forward n d'') (drop n (b ∷ bs)) s

  -- A pair with lengths of one byte each and within the limit, which is the first of its packet, and
  -- is split between that and the next one anywhere behind its lengths, is lost: `feed` of the first
  -- packet returns false, and `feed` of the second, which holds just the rest of the pair, reads past
  -- the end of the packet. (The source never enters its state READ_BUFFER.)
  pub feed_bytes-split_pair :
      (d : Deserializer) (n v : ℕ) (front back : List ℕ) (s : S)
      → IsReady d
      → n ≤ 127
      → v ≤ 127
      → n + v ≤ effective_max_pair_size limit d
      → length front + length back ≡ n + v
      → 0 < length back
      → let d' =
          split_pair (n + v) (to_host (with_lengths n v (forward d.remaining_len d))) front in
        (feed_bytes new_key limit d (n ∷ v ∷ front) s ≡ returned false d' s)
        × (feed_bytes new_key limit d' back s ≡ failed out_of_bounds)
  feed_bytes-split_pair d n v front back s r hn hv fits whole pos =
      let d0 : Deserializer = forward d.remaining_len d in
      (
        feed_bytes_round new_key limit d (n ∷ v ∷ front) s r.idle (omega arith)
            ∙ ap (while_len (parse_loop new_key limit (length (n ∷ v ∷ front) + 1)))
                (parse_switch_split d0 n v front s r.at_new hn hv fits (omega arith)),
        feed_bytes_rest (split_pair (n + v) (to_host (with_lengths n v d0)) front)
            (filled (n + v) (to_host (with_lengths n v d0)) front back) back s pos (omega arith)
            (copy_pending_split (n + v) (to_host (with_lengths n v d0)) front back whole pos)
            r.at_new,
      )
