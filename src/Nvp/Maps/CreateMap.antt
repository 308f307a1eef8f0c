-- ===== src/Nvp/Maps/CreateMap.antt =====
-- `NVP::CreateMap` of include/fcgi/name-value-pairs.hpp: a deserializer with a map of its own, which
-- `ToMap::new_key` writes through the reference of the base class.
use tfcgi.Prelude.{
  ℕ, ◌≡◌, refl, ap, ◌∙◌, Bool, true, false, List, [], ◌∷◌, none, All, Result, ok, stop, blocked,
  thrown, pair_size_error,
}
use tfcgi.Nvp.Deserializer.{
  Deserializer, new_deserializer, Parsed, looping, returned, raised, failed, out_of_fuel,
  feed_bytes,
}
use tfcgi.Nvp.Deserializer.WholePairs.{Pair, IsSmall, serialize_all, feed_bytes-serialize_all}
use tfcgi.Nvp.Deserializer.Rounds.{feed_bytes_nil}
use tfcgi.Nvp.Maps.{Map, to_map_new_key}
use tfcgi.Nvp.Maps.Lookup.{map_get, last_value, map_get_nothing, map_get-foldl}

pub record CreateMap : Type 0 where
  pub deserializer : Deserializer
  pub map : Map

-- A new object, on memory that is not initialised.
abbrev pub new_create_map : List ℕ → List ℕ → CreateMap
new_create_map name_memory value_memory = record {
  deserializer = new_deserializer name_memory value_memory;
  map = [];
}

abbrev map_fed : Parsed Map → Result (Bool × CreateMap)
map_fed (looping d datas m) = stop blocked
map_fed (returned all d m) = ok (all, record { deserializer = d; map = m })
map_fed (raised d m) = stop (thrown pair_size_error)
map_fed (failed e) = stop e
map_fed out_of_fuel = stop blocked

-- `feed`, on the content of a packet.
pub feed_map : ℕ → CreateMap → List ℕ → Result (Bool × CreateMap)
feed_map limit c datas = map_fed (feed_bytes to_map_new_key limit c.deserializer datas c.map)

-- The map goes to the caller, and the object is destroyed.
abbrev pub sink : CreateMap → Map
sink c = c.map

-- A new object that got a packet with whole pairs as `serialize` writes them, and the empty one,
-- hands over a map that gives each key the value of its last pair, and no other key a value.
pub sink-serialize_all :
    (limit : ℕ) (name_memory value_memory : List ℕ) (p : Pair) (ps : List Pair)
    → All (IsSmall limit) (p ∷ ps)
    → (c c' : CreateMap) × (feed_map limit
          (new_create_map name_memory value_memory)
          (serialize_all (p ∷ ps))
        ≡ ok (false, c))
      × (feed_map limit c [] ≡ ok (true, c'))
      × ((key : List ℕ) → map_get key (sink c') ≡ last_value key (p ∷ ps) none)
unfolding feed_map
sink-serialize_all limit name_memory value_memory p ps small =
    let new = new_deserializer name_memory value_memory in
    let (fed, _) =
      feed_bytes-serialize_all to_map_new_key limit p ps new []
        (record { idle = refl; at_new = refl }) small in
    (
      _,
      _,
      ap map_fed fed,
      ap map_fed (feed_bytes_nil to_map_new_key limit _ _),
      λ key. map_get-foldl key (p ∷ ps) [] ∙ ap (last_value key (p ∷ ps)) (map_get_nothing key),
    )
