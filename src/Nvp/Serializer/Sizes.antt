-- ===== src/Nvp/Serializer/Sizes.antt =====
-- The lengths that `serialize_size` writes, against the encoding that the FastCGI specification
-- (section 3.4) gives: one byte below 128, or four bytes, highest first, with the top bit set.
use Prim.Native.Nat.{bit_or}
use tfcgi.Prelude.{
  ap, ◌∙◌, ℕ, zero, suc, ◌+◌, ◌-◌, ◌*◌, ◌/◌, ◌%◌, ◌^◌, ◌≤◌, ◌<◌, ◌≡◌, refl, Bool, true, false, List,
  [], ◌∷◌, ◌++◌, Option, none, some, length, ltb, leb, ◌==◌, if◌then◌else◌, take, drop,
  length-append, take-append_self, drop-append_self, ge→ltb, Bool-cases, inl, inr, append_assoc,
  length_error, arith, gt→leb, le→leb,
}
use tfcgi.Nvp.Serializer.{wrote, serialize_size, serialize, long_size}

-- The decoder of the specification.
pub decode_length : List ℕ → Option (ℕ × List ℕ)
decode_length [] = none
decode_length (b3 ∷ []) = if leb 128 b3 then none else some (b3, [])
decode_length (b3 ∷ b2 ∷ []) = if leb 128 b3 then none else some (b3, b2 ∷ [])
decode_length (b3 ∷ b2 ∷ b1 ∷ []) = if leb 128 b3 then none else some (b3, b2 ∷ b1 ∷ [])
decode_length (b3 ∷ b2 ∷ b1 ∷ b0 ∷ rest) =
    if leb 128 b3
    then some (b3 % 128 * 16777216 + b2 * 65536 + b1 * 256 + b0, rest)
    else some (b3, b2 ∷ b1 ∷ b0 ∷ rest)

-- Setting bit 7 of each byte below `n` comes to replacing the bit by a one.
top_bits_agree : ℕ → Bool
top_bits_agree zero = true
top_bits_agree (suc b) = if bit_or b 0x80 == b % 128 + 128 then top_bits_agree b else false

top_bits_agree_lem : (n b : ℕ) → b < n → top_bits_agree n ≡ true → bit_or b 0x80 ≡ b % 128 + 128
unfolding top_bits_agree
top_bits_agree_lem zero b below e = absurd (omega arith)
top_bits_agree_lem (suc n) b below e = ground (arith, top_bits_agree_lem n b)

bytes_agree : top_bits_agree 256 ≡ true
unfolding top_bits_agree
bytes_agree = refl

set_top_bit : (b : ℕ) → b < 256 → bit_or b 0x80 ≡ b % 128 + 128
set_top_bit b h = top_bits_agree_lem 256 b h bytes_agree

pub serialize_size_short : (n : ℕ) → n ≤ 127 → serialize_size n ≡ wrote (n ∷ [])
unfolding serialize_size
serialize_size_short n h = ground arith

serialize_size_long : (n : ℕ) → 127 < n → n ≤ 0x8FFFFFFF → serialize_size n ≡ wrote (long_size n)
unfolding serialize_size
serialize_size_long n lo hi = ground arith

long_size-decode :
    (n : ℕ) (rest : List ℕ) → decode_length (long_size n ++ rest) ≡ some (n % 2 ^ 31, rest)
unfolding decode_length
long_size-decode n rest =
    rw
      (
        set_top_bit (n / 16777216 % 256) (omega arith),
        le→leb 128 (n / 16777216 % 256 % 128 + 128) (omega arith),
      )
      (ground arith)

decode_length_short : (n : ℕ) (rest : List ℕ) → n ≤ 127 → decode_length (n ∷ rest) ≡ some (n, rest)
unfolding decode_length
decode_length_short n [] h = rw (gt→leb 128 n (omega arith))
decode_length_short n (a ∷ []) h = rw (gt→leb 128 n (omega arith))
decode_length_short n (a ∷ b ∷ []) h = rw (gt→leb 128 n (omega arith))
decode_length_short n (a ∷ b ∷ c ∷ rest) h = rw (gt→leb 128 n (omega arith))

-- A length below 2 ^ 31 is written without an exception, and the decoder of the specification reads
-- it back and leaves whatever follows; so it does on either side of the bound of one byte.
pub decode_length-serialize_size :
    (n : ℕ) (rest : List ℕ)
    → n < 2 ^ 31
    → ((serialize_size n).raised ≡ none)
      × (decode_length ((serialize_size n).bytes ++ rest) ≡ some (n, rest))
decode_length-serialize_size n rest h = elim (Bool-cases (ltb 127 n)) [
  | inl long ↦
      rw (serialize_size_long n (ground arith) (omega arith))
        (refl, rw (long_size-decode n rest) (ground arith))
  | inr short ↦
      rw (serialize_size_short n (ground arith)) (refl, decode_length_short n rest (ground arith))
]

-- The header promises lengths up to 0x8FFFFFFF. From 2 ^ 31 on `serialize_size` raises nothing,
-- and what it writes stands for the length less 2 ^ 31.
pub serialize_size_wraps :
    (n : ℕ) (rest : List ℕ)
    → 2 ^ 31 ≤ n
    → n ≤ 0x8FFFFFFF
    → ((serialize_size n).raised ≡ none)
      × (decode_length ((serialize_size n).bytes ++ rest) ≡ some (n - 2 ^ 31, rest))
serialize_size_wraps n rest lo hi =
    rw (serialize_size_long n (omega arith) hi) (refl, rw (long_size-decode n rest) (ground arith))

-- Beyond 0x8FFFFFFF it raises `length_error`, and has written nothing.
pub serialize_size_too_long :
    (n : ℕ) → 0x8FFFFFFF < n → serialize_size n ≡ record { bytes = []; raised = some length_error }
unfolding serialize_size
serialize_size_too_long n h = ground arith

-- A pair, as the specification decodes it.
abbrev cut_pair : ℕ → ℕ → List ℕ → Option ((List ℕ × List ℕ) × List ℕ)
cut_pair n v bs =
    if ltb (length bs) (n + v)
    then none
    else some ((take n bs, take v (drop n bs)), drop v (drop n bs))

abbrev then_value : ℕ → Option (ℕ × List ℕ) → Option ((List ℕ × List ℕ) × List ℕ)
then_value n none = none
then_value n (some (v, bs)) = cut_pair n v bs

abbrev then_name : Option (ℕ × List ℕ) → Option ((List ℕ × List ℕ) × List ℕ)
then_name none = none
then_name (some (n, bs)) = then_value n (decode_length bs)

pub decode_pair : List ℕ → Option ((List ℕ × List ℕ) × List ℕ)
decode_pair bs = then_name (decode_length bs)

cut_pair_exact :
    (key val rest : List ℕ)
    → cut_pair (length key) (length val) (key ++ (val ++ rest)) ≡ some ((key, val), rest)
cut_pair_exact key val rest =
    let l1 = length-append key (val ++ rest) in
    let l2 = length-append val rest in
    rw (
      ge→ltb (length (key ++ (val ++ rest))) (length key + length val) (omega arith),
      take-append_self,
      drop-append_self,
      take-append_self,
      drop-append_self,
    )

serialize_bytes :
    (key val : List ℕ)
    → (serialize_size (length key)).raised ≡ none
    → (serialize_size (length val)).raised ≡ none
    → serialize key val
      ≡ wrote (
          (serialize_size (length key)).bytes
          ++ ((serialize_size (length val)).bytes ++ (key ++ val)))
unfolding serialize
serialize_bytes key val ek ev = rw (ek, ev)

-- Name and value of any lengths below 2 ^ 31 are written whole, without an exception, and the
-- decoder of the specification reads them back and leaves whatever follows.
pub decode_pair-serialize :
    (key val rest : List ℕ)
    → length key < 2 ^ 31
    → length val < 2 ^ 31
    → ((serialize key val).raised ≡ none)
      × (decode_pair ((serialize key val).bytes ++ rest) ≡ some ((key, val), rest))
unfolding decode_pair
decode_pair-serialize key val rest hk hv =
    let vrest = (serialize_size (length val)).bytes ++ (key ++ (val ++ rest)) in
    let (ek, dk) = decode_length-serialize_size (length key) vrest hk in
    let (ev, dv) = decode_length-serialize_size (length val) (key ++ (val ++ rest)) hv in
    rw (serialize_bytes key val ek ev) (
      refl,
      simp append_assoc
          (ap then_name dk ∙ ap (then_value (length key)) dv ∙ cut_pair_exact key val rest),
    )

-- A pair whose two lengths fit a byte each.
pub serialize_short :
    (key val : List ℕ)
    → length key ≤ 127
    → length val ≤ 127
    → serialize key val ≡ wrote (length key ∷ length val ∷ (key ++ val))
unfolding serialize
serialize_short key val hk hv =
    rw (serialize_size_short (length key) hk, serialize_size_short (length val) hv)
