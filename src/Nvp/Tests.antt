-- ===== src/Nvp/Tests.antt =====
-- The theorems on name-value pairs, on small streams.
use mathlib.Core.List.{foldl}
use tfcgi.Prelude.{◌≡◌, refl, false, [], ◌∷◌, ◌++◌, none, some, out_of_bounds, arith}
use tfcgi.Nvp.Serializer.{serialize, serialize_size}
use tfcgi.Nvp.Serializer.Sizes.{
  decode_length, decode_pair, decode_pair-serialize, serialize_size_wraps,
}
use tfcgi.Nvp.Deserializer.{
  Deserializer, new_deserializer, nvp_max_pair_size, feed_bytes, returned, failed, forward,
  set_field, name_field, read_name_len, split_pair, to_host,
}
use tfcgi.Nvp.Deserializer.Loop.{Ends, feed_bytes-Ends}
use tfcgi.Nvp.Deserializer.WholePairs.{
  Pair, serialize_all, after_pairs, with_lengths, feed_bytes-serialize_all,
}
use tfcgi.Nvp.Deserializer.Rounds.{IsReady}
use tfcgi.Nvp.Deserializer.SplitPairs.{feed_bytes_one_byte, feed_bytes-split_pair}
use tfcgi.Nvp.Deserializer.LongLengths.{long_lengths, feed_bytes_long_name, feed_bytes-long_lengths}
use tfcgi.Nvp.Maps.{Map, to_map_new_key}

abbrev new : Deserializer
new = new_deserializer (0 ∷ 0 ∷ 0 ∷ 0 ∷ []) (0 ∷ 0 ∷ 0 ∷ 0 ∷ [])

new-IsReady : IsReady new
new-IsReady = record { idle = refl; at_new = refl }

-- "A" is "xy", and then "z".
abbrev a_xy : Pair
a_xy = (65 ∷ [], 120 ∷ 121 ∷ [])

abbrev a_z : Pair
a_z = (65 ∷ [], 122 ∷ [])

abbrev nothing : Map
nothing = []

decode_pair-serialize_example :
    ((serialize (65 ∷ []) (120 ∷ 121 ∷ [])).raised ≡ none)
    × (decode_pair ((serialize (65 ∷ []) (120 ∷ 121 ∷ [])).bytes ++ (7 ∷ []))
        ≡ some ((65 ∷ [], 120 ∷ 121 ∷ []), 7 ∷ []))
decode_pair-serialize_example =
    decode_pair-serialize (65 ∷ []) (120 ∷ 121 ∷ []) (7 ∷ []) (omega arith) (omega arith)

serialize_size_wraps_example :
    ((serialize_size 2147483653).raised ≡ none)
    × (decode_length ((serialize_size 2147483653).bytes ++ []) ≡ some (5, []))
serialize_size_wraps_example = serialize_size_wraps 2147483653 [] (omega arith) (omega arith)

feed_bytes-serialize_all_example :
    (feed_bytes to_map_new_key nvp_max_pair_size new (serialize_all (a_xy ∷ a_z ∷ [])) nothing
      ≡ returned false
          (after_pairs (a_xy ∷ a_z ∷ []) (forward 0 new))
          (foldl to_map_new_key nothing (a_xy ∷ a_z ∷ [])))
    × IsReady (after_pairs (a_xy ∷ a_z ∷ []) (forward 0 new))
feed_bytes-serialize_all_example =
    feed_bytes-serialize_all to_map_new_key nvp_max_pair_size a_xy (a_z ∷ []) new nothing
      new-IsReady
      ((omega arith, omega arith, omega arith), ((omega arith, omega arith, omega arith), tt))

feed_bytes-Ends_example :
    Ends (feed_bytes to_map_new_key nvp_max_pair_size new (1 ∷ 200 ∷ 0 ∷ []) nothing)
feed_bytes-Ends_example =
    feed_bytes-Ends to_map_new_key nvp_max_pair_size new (1 ∷ 200 ∷ 0 ∷ []) nothing

-- A name of 256 bytes.
feed_bytes_long_name_example :
    feed_bytes to_map_new_key nvp_max_pair_size new (128 ∷ 0 ∷ 1 ∷ 0 ∷ 2 ∷ 65 ∷ []) nothing
    ≡ returned false
        (record (forward 4 (set_field name_field (128 ∷ 0 ∷ 1 ∷ 0 ∷ []) (forward 0 new))) {
          parse_state = read_name_len;
        })
        nothing
feed_bytes_long_name_example =
    feed_bytes_long_name to_map_new_key nvp_max_pair_size new 128 0 1 0 (2 ∷ 65 ∷ []) nothing
      new-IsReady (omega arith) (λ e. omega (arith, e))

feed_bytes_one_byte_example :
    feed_bytes to_map_new_key nvp_max_pair_size new (5 ∷ []) nothing ≡ failed out_of_bounds
feed_bytes_one_byte_example =
    feed_bytes_one_byte to_map_new_key nvp_max_pair_size new 5 nothing new-IsReady (omega arith)

-- "A" is "xy", with the "y" in the next packet.
feed_bytes-split_pair_example :
    let d' = split_pair 3 (to_host (with_lengths 1 2 (forward 0 new))) (65 ∷ 120 ∷ []) in
    (feed_bytes to_map_new_key nvp_max_pair_size new (1 ∷ 2 ∷ 65 ∷ 120 ∷ []) nothing
      ≡ returned false d' nothing)
    × (feed_bytes to_map_new_key nvp_max_pair_size d' (121 ∷ []) nothing ≡ failed out_of_bounds)
feed_bytes-split_pair_example =
    feed_bytes-split_pair to_map_new_key nvp_max_pair_size new 1 2 (65 ∷ 120 ∷ []) (121 ∷ [])
      nothing new-IsReady (omega arith) (omega arith) (omega arith) refl (omega arith)

-- Name and value of two bytes each, with their lengths in four bytes.
feed_bytes-long_lengths_example :
    let d' = long_lengths (128 ∷ 0 ∷ 0 ∷ 2 ∷ []) (128 ∷ 0 ∷ 0 ∷ 2 ∷ []) new in
    (feed_bytes to_map_new_key nvp_max_pair_size new
        (128 ∷ 0 ∷ 0 ∷ 2 ∷ 128 ∷ 0 ∷ 0 ∷ 2 ∷ [])
        nothing
      ≡ returned false d' nothing)
    × (feed_bytes to_map_new_key nvp_max_pair_size d' (65 ∷ 66 ∷ 120 ∷ 121 ∷ []) nothing
        ≡ failed out_of_bounds)
feed_bytes-long_lengths_example =
    feed_bytes-long_lengths to_map_new_key nvp_max_pair_size new 128 0 0 2 128 0 0 2
      (65 ∷ 66 ∷ 120 ∷ 121 ∷ []) nothing new-IsReady (omega arith) (omega arith) (omega arith)
      (omega arith) (omega arith) (omega arith)
