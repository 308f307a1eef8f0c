-- ===== src/Nvp/Maps.antt =====
-- The classes that inherit from the deserializer: `NVP::ToMap` of
-- include/fcgi/name-value-pairs.hpp and `Connection::GetValueHandler` of src/connection.cpp.
pub mod Lookup
pub mod CreateMap
use tfcgi.Prelude.{
  ℕ, ◌*◌, ◌%◌, ◌^◌, Bool, true, false, ◌&&◌, List, [], ◌∷◌, Option, none, some, ◌==◌, if◌then◌else◌,
}
use tfcgi.Nvp.Serializer.{serialize}
use tfcgi.OStream.{Wire, OStream, write}
use Prim.Native.Char.{code}
use Prim.Native.String.{String}
use Prim.Native.String

-- `std::string_view::operator==`
pub same_bytes : List ℕ → List ℕ → Bool
same_bytes [] [] = true
same_bytes (x ∷ xs) (y ∷ ys) = x == y && same_bytes xs ys
same_bytes _ _ = false

-- `NVP::map`, an unordered map from texts to texts.
abbrev pub Map : Type 0
Map = List (List ℕ × List ℕ)

-- `map[key] = value`
pub map_set : List ℕ → List ℕ → Map → Map
unfolding same_bytes
map_set key value [] = (key, value) ∷ []
map_set key value ((k, v) ∷ m) =
    if same_bytes k key then (k, value) ∷ m else (k, v) ∷ map_set key value m

-- `ToMap::new_key`
pub to_map_new_key : Map → List ℕ × List ℕ → Map
unfolding map_set
to_map_new_key m (key, value) = map_set key value m

abbrev pub codes : String → List ℕ
codes String.[] = []
codes (String.◌∷◌ c s) = code c ∷ codes s

-- `GetValueHandler::new_key`, on `output_stream` and what went out. The parameters are
-- `std::thread::hardware_concurrency()` and `std::to_string`. (The calls of syslog are left out.)
module _ (hardware_concurrency : ℕ) (to_string : ℕ → List ℕ) where
  abbrev pub answer : List ℕ → List ℕ → OStream × Wire → OStream × Wire
  answer key value (os, wire) = write (serialize key value).bytes os wire

  pub get_values_new_key : OStream × Wire → List ℕ × List ℕ → OStream × Wire
  unfolding same_bytes
  get_values_new_key out (key, value) =
      if same_bytes key (codes "FCGI_MPXS_CONNS")
      then answer (codes "FCGI_MPXS_CONNS") (codes "1") out
      else if same_bytes key (codes "FCGI_MAX_REQS")
      then answer (codes "FCGI_MAX_REQS") (to_string (hardware_concurrency * 20 % 2 ^ 32)) out
      else if same_bytes key (codes "FCGI_MAX_CONNS")
      then answer (codes "FCGI_MAX_CONNS") (to_string hardware_concurrency) out
      else out
