-- ===== src/Nvp/Maps/Lookup.antt =====
-- What a map holds after the parameters of a request.
use tfcgi.Prelude.{
  ℕ, ◌≡◌, refl, ap, ◌∙◌, true, List, [], ◌∷◌, Option, none, some, if◌then◌else◌, arith,
}
use mathlib.Core.List.{foldl}
use tfcgi.Nvp.Maps.{same_bytes, Map, map_set, to_map_new_key}

-- The value under a key, if it has one.
pub map_get : List ℕ → Map → Option (List ℕ)
map_get key [] = none
map_get key ((k, v) ∷ m) = if same_bytes k key then some v else map_get key m

pub map_get_nothing : (key : List ℕ) → map_get key [] ≡ none
unfolding map_get
map_get_nothing key = refl

same_bytes_refl : (xs : List ℕ) → same_bytes xs xs ≡ true
unfolding same_bytes
same_bytes_refl [] = refl
same_bytes_refl (x ∷ xs) = ground (arith, same_bytes_refl xs)

same_bytes→eq : (xs ys : List ℕ) → same_bytes xs ys ≡ true → xs ≡ ys
unfolding same_bytes
same_bytes→eq [] [] h = refl
same_bytes→eq (x ∷ xs) (y ∷ ys) h = ground (arith, same_bytes→eq xs ys)
same_bytes→eq [] (y ∷ ys) h = cc
same_bytes→eq (x ∷ xs) [] h = cc

map_get-map_set :
    (j key value : List ℕ) (m : Map)
    → map_get j (map_set key value m) ≡ (if same_bytes key j then some value else map_get j m)
unfolding map_get map_set
map_get-map_set j key value [] = refl
map_get-map_set j key value ((k, v) ∷ m) = ground (
  arith,
  same_bytes→eq k key,
  same_bytes→eq k j,
  same_bytes→eq key j,
  same_bytes_refl k,
  map_get-map_set j key value m,
)

-- The value of the last pair with that key, or else `before`.
pub last_value : List ℕ → List (List ℕ × List ℕ) → Option (List ℕ) → Option (List ℕ)
last_value key [] before = before
last_value key ((k, v) ∷ ps) before =
    last_value key ps (if same_bytes k key then some v else before)

-- After the pairs of a stream the map gives each key the value of its last pair, and every other
-- key what it gave before.
pub map_get-foldl :
    (key : List ℕ) (ps : List (List ℕ × List ℕ)) (m : Map)
    → map_get key (foldl to_map_new_key m ps) ≡ last_value key ps (map_get key m)
unfolding last_value to_map_new_key
map_get-foldl key [] m = refl
map_get-foldl key ((k, v) ∷ ps) m =
    map_get-foldl key ps (map_set k v m) ∙ ap (last_value key ps) (map_get-map_set key k v m)
