-- ===== src/Nvp/Deserializer.antt =====
-- `fcgi::NVP::Deserializer` of include/fcgi/name-value-pairs.hpp and src/name-value-pairs.cpp.
-- The fields hold what the C++ object holds: the two lengths as four bytes of memory each, and
-- `current_buffer` as the object that it points into with the offset. The virtual method
-- `new_key` is a parameter that updates the state of the class that inherits.
pub mod Loop
pub mod WholePairs
pub mod Rounds
pub mod SplitPairs
pub mod LongLengths
use tfcgi.Prelude.{
  ℕ, zero, suc, ◌+◌, ◌-◌, ◌*◌, ◌%◌, ◌^◌, Bool, true, false, not, List, [], ◌∷◌, ◌++◌, length, take,
  drop, get_or, replicate, ltb, leb, ◌==◌, if◌then◌else◌, Stop, out_of_bounds, Result, ok, stop,
  ◌>>=◌,
}

-- The enum of parser states. No line of the source assigns the last two.
pub data ParseState : Type 0 where
  read_new read_name_len read_value_len will_read_buffer read_buffer : ParseState

-- Where `current_buffer` points.
pub data Pointer : Type 0 where
  nowhere : Pointer
  into_name into_value into_string : ℕ → Pointer

pub record Deserializer : Type 0 where
  pub string_buffer : List ℕ
  pub name_len : List ℕ
  pub value_len : List ℕ
  pub current_buffer : Pointer
  pub remaining_len : ℕ
  pub parse_state : ParseState
  pub max_pair_size : ℕ

-- The global `fcgi::limits::nvp_max_pair_size` as the library sets it.
abbrev pub nvp_max_pair_size : ℕ
nvp_max_pair_size = 0xFFFF

-- A new object. What the constructor leaves uninitialised is the argument.
abbrev pub new_deserializer : List ℕ → List ℕ → Deserializer
new_deserializer name_memory value_memory = record {
  string_buffer = [];
  name_len = name_memory;
  value_len = value_memory;
  current_buffer = nowhere;
  remaining_len = 0;
  parse_state = read_new;
  max_pair_size = 0;
}

-- `if (max_pair_size)`, against the global limit.
abbrev pub effective_max_pair_size : ℕ → Deserializer → ℕ
effective_max_pair_size limit d = if d.max_pair_size == 0 then limit else d.max_pair_size

-- A uint32_t in memory: its value on a little-endian host, and `ntohl` of it.
abbrev pub load32 : List ℕ → ℕ
load32 m = get_or m 0 0 + 256 * get_or m 1 0 + 65536 * get_or m 2 0 + 16777216 * get_or m 3 0

abbrev pub ntohl : List ℕ → List ℕ
ntohl m = get_or m 3 0 ∷ get_or m 2 0 ∷ get_or m 1 0 ∷ get_or m 0 0 ∷ []

abbrev pub advance : ℕ → Pointer → Pointer
advance n nowhere = nowhere
advance n (into_name k) = into_name (k + n)
advance n (into_value k) = into_value (k + n)
advance n (into_string k) = into_string (k + n)

-- The part of the macro `forward` that acts on the object; `data` and `len` are `drop`s of the list.
abbrev pub forward : ℕ → Deserializer → Deserializer
forward n d = record d { current_buffer = advance n d.current_buffer }

-- `memcpy` of `bs` to offset `k` of an object.
abbrev pub copy_to : List ℕ → ℕ → List ℕ → Result (List ℕ)
copy_to object k bs =
    if ltb (length object) (k + length bs)
    then stop out_of_bounds
    else ok (take k object ++ bs ++ drop (k + length bs) object)

copy_at : Pointer → Deserializer → List ℕ → Result Deserializer
copy_at nowhere d bs = stop out_of_bounds
copy_at (into_name k) d bs = copy_to d.name_len k bs >>= λ m. ok (record d { name_len = m })
copy_at (into_value k) d bs = copy_to d.value_len k bs >>= λ m. ok (record d { value_len = m })
copy_at (into_string k) d bs =
    copy_to d.string_buffer k bs >>= λ m. ok (record d { string_buffer = m })

-- `memcpy(current_buffer, data, n)`; of no bytes it does nothing, whatever the pointer.
pub copy_pending : Deserializer → List ℕ → Result Deserializer
unfolding copy_at
copy_pending d [] = ok d
copy_pending d (b ∷ bs) = copy_at d.current_buffer d (b ∷ bs)

-- The field that `dest` of `read_keyval_length` refers to.
pub data LenField : Type 0 where
  name_field value_field : LenField

abbrev pub field_memory : LenField → Deserializer → List ℕ
field_memory name_field d = d.name_len
field_memory value_field d = d.value_len

abbrev pub set_field : LenField → List ℕ → Deserializer → Deserializer
set_field name_field m d = record d { name_len = m }
set_field value_field m d = record d { value_len = m }

abbrev pub into_field : LenField → ℕ → Pointer
into_field name_field = into_name
into_field value_field = into_value

-- The result is true when the caller is to wait for more; with the data that are left.
-- `data[0]` past the end of the packet is read out of bounds. Bit 7 of a byte is `128 ≤ b`.
pub read_keyval_length : LenField → Deserializer → List ℕ → Result (Bool × Deserializer × List ℕ)
read_keyval_length field d [] = stop out_of_bounds
read_keyval_length field d (b ∷ rest) =
    let datas = b ∷ rest in
    let len = length datas in
    if leb 128 b
    then (if ltb len 4
        then ok (
          true,
          record (set_field field ((b % 128) ∷ (rest ++ drop len (field_memory field d))) d) {
            remaining_len = 4 - len;
            current_buffer = into_field field len;
          },
          datas,
        )
        else ok (not (len - 4 == 4), forward 4 (set_field field (take 4 datas) d), drop 4 datas))
    else ok (false, forward 1 (set_field field (0 ∷ 0 ∷ 0 ∷ b ∷ []) d), rest)

-- The two assignments of `ntohl`, and the sum of the two lengths, which is one of uint32_t.
abbrev pub to_host : Deserializer → Deserializer
to_host d = record d { name_len = ntohl d.name_len; value_len = ntohl d.value_len }

abbrev pub pair_size : Deserializer → ℕ
pair_size d = (load32 d.name_len + load32 d.value_len) % 2 ^ 32

-- What a run of the body of the loop, or the whole of `feed`, comes to.
pub data Parsed (S : Type 0) : Type 0 where
  -- Go on to `while (len)` with these data.
  looping : Deserializer → List ℕ → S → Parsed S
  -- `return` of that value.
  returned : Bool → Deserializer → S → Parsed S
  -- `pair_size_error` is thrown.
  raised : Deserializer → S → Parsed S
  failed : Stop → Parsed S
  -- No behaviour of the code: the model's bound on the rounds of the loop was too small.
  out_of_fuel : Parsed S

-- `std::vector::resize`
abbrev pub resize : List ℕ → ℕ → List ℕ
resize v n = take n v ++ replicate (n - length v) 0

-- "Split packets": the part of the pair that has come goes to `string_buffer`.
abbrev pub split_pair : ℕ → Deserializer → List ℕ → Deserializer
split_pair total d datas = record d {
  string_buffer = datas ++ drop (length datas) (resize d.string_buffer total);
  current_buffer = into_string (length datas);
  remaining_len = total - length datas;
}

module _ {S : Type 0} where
  abbrev pub after_keyval : Deserializer → List ℕ → Result S → Parsed S
  after_keyval d datas (ok s) = looping d datas s
  after_keyval d datas (stop e) = failed e

  -- `while (len)`, with the rounds that follow.
  abbrev pub while_len : (Deserializer → List ℕ → S → Parsed S) → Parsed S → Parsed S
  while_len rounds (looping d [] s) = returned false d s
  while_len rounds (looping d (b ∷ bs) s) = rounds d (b ∷ bs) s
  while_len rounds (returned r d s) = returned r d s
  while_len rounds (raised d s) = raised d s
  while_len rounds (failed e) = failed e
  while_len rounds out_of_fuel = out_of_fuel

  abbrev pub after_copy : (Deserializer → Parsed S) → Result Deserializer → Parsed S
  after_copy k (ok d) = k d
  after_copy k (stop e) = failed e

module _ {S : Type 0} (new_key : S → List ℕ × List ℕ → S) (limit : ℕ) where
  -- `handle_keyval`: the two views must lie in the `buffer` that it is given.
  pub handle_keyval : Deserializer → List ℕ → S → Result S
  handle_keyval d buffer s =
      let n = load32 d.name_len in
      let v = load32 d.value_len in
      if ltb (length buffer) (n + v)
      then stop out_of_bounds
      else ok (new_key s (take n buffer, take v (drop n buffer)))

  -- From `case READ_VALUE_LEN` on.
  pub parse_body : Deserializer → List ℕ → S → Parsed S
  unfolding handle_keyval
  parse_body d0 datas s =
      let d = to_host d0 in
      let total = pair_size d in
      if ltb (effective_max_pair_size limit d) total
      then raised d s
      else if leb total (length datas)
      then after_keyval (forward total (record d { parse_state = read_new })) (drop total datas)
          (handle_keyval d datas s)
      else returned false (split_pair total d datas) s

  abbrev pub after_value_len : S → Result (Bool × Deserializer × List ℕ) → Parsed S
  after_value_len s (ok (true, d, datas)) =
      returned false (record d { parse_state = read_value_len }) s
  after_value_len s (ok (false, d, datas)) = parse_body d datas s
  after_value_len s (stop e) = failed e

  -- From `case READ_NAME_LEN` on.
  pub parse_value_len : Deserializer → List ℕ → S → Parsed S
  unfolding parse_body
  parse_value_len d datas s = after_value_len s (read_keyval_length value_field d datas)

  abbrev pub after_name_len : S → Result (Bool × Deserializer × List ℕ) → Parsed S
  after_name_len s (ok (true, d, datas)) =
      returned false (record d { parse_state = read_name_len }) s
  after_name_len s (ok (false, d, datas)) = parse_value_len d datas s
  after_name_len s (stop e) = failed e

  -- The switch of the loop, by the state.
  pub parse_switch : ParseState → Deserializer → List ℕ → S → Parsed S
  unfolding parse_value_len
  parse_switch read_new d datas s = after_name_len s (read_keyval_length name_field d datas)
  parse_switch read_name_len d datas s = parse_value_len d datas s
  parse_switch read_value_len d datas s = parse_body d datas s
  parse_switch will_read_buffer d datas s = parse_body d datas s
  parse_switch read_buffer d datas s =
      after_keyval (record d { parse_state = read_new }) datas (handle_keyval d d.string_buffer s)

  pub parse_loop : ℕ → Deserializer → List ℕ → S → Parsed S
  unfolding parse_switch
  parse_loop zero d datas s = out_of_fuel
  parse_loop (suc fuel) d datas s =
      while_len (parse_loop fuel) (parse_switch d.parse_state d datas s)

  -- `feed` on the content of the packet, which is shorter than 2 ^ 16. Each round of the loop but
  -- the first takes two bytes at least, so `length datas + 2` rounds are enough.
  pub feed_bytes : Deserializer → List ℕ → S → Parsed S
  unfolding copy_pending parse_loop
  feed_bytes d [] s = returned true d s
  feed_bytes d (b ∷ bs) s =
      let datas = b ∷ bs in
      let n = d.remaining_len in
      if ltb (length datas) n
      then after_copy (λ d'. returned false (record d' { remaining_len = n - length datas }) s)
          (copy_pending d datas)
      else after_copy (λ d'. parse_loop (length datas + 2) (forward n d') (drop n datas) s)
          (copy_pending d (take n datas))
