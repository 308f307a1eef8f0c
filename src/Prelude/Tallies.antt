-- ===== src/Prelude/Tallies.antt =====
-- Sums over a list, and what `set` does to them and to the entries.
use Prim.Native.Nat.{ℕ, zero, suc, ◌+◌, ◌<◌}
use mathlib.Core.Path.{◌≡◌, refl, ap, subst}
use mathlib.Core.Logic.{◌≢◌, ◌⊎◌, inl, inr}
use mathlib.Core.Option.{some, some-injective}
use mathlib.Core.List.{List, [], ◌∷◌, ◌++◌}
use native.Mathlib.Omega.{arith}
use tfcgi.Prelude.Lists.{length, get_or, get_elem?, set, replicate, All}

module _ {ℓ} {A : Type ℓ} where
  -- The sum of a number for each entry.
  abbrev pub tally : (A → ℕ) → List A → ℕ
  tally f [] = 0
  tally f (x ∷ xs) = f x + tally f xs

  pub tally-append : (f : A → ℕ) (xs ys : List A) → tally f (xs ++ ys) ≡ tally f xs + tally f ys
  tally-append f [] ys = omega arith
  tally-append f (x ∷ xs) ys = omega (arith, tally-append f xs ys)

  pub tally-replicate : (f : A → ℕ) (n : ℕ) (x : A) → f x ≡ 0 → tally f (replicate n x) ≡ 0
  tally-replicate f zero x e = refl
  tally-replicate f (suc n) x e = omega (arith, e, tally-replicate f n x e)

  pub tally-set :
      (f : A → ℕ) (xs : List A) (i : ℕ) (v d : A)
      → i < length xs
      → tally f (set xs i v) + f (get_or xs i d) ≡ tally f xs + f v
  tally-set f [] i v d h = absurd (omega arith)
  tally-set f (x ∷ xs) zero v d h = omega arith
  tally-set f (x ∷ xs) (suc i) v d h = omega (arith, tally-set f xs i v d (omega arith))

  pub get_or-set_self :
      (xs : List A) (i : ℕ) (v d : A) → i < length xs → get_or (set xs i v) i d ≡ v
  get_or-set_self [] i v d h = absurd (omega arith)
  get_or-set_self (x ∷ xs) zero v d h = refl
  get_or-set_self (x ∷ xs) (suc i) v d h = get_or-set_self xs i v d (omega arith)

  pub get_or-set_ne :
      (xs : List A) (i j : ℕ) (v d : A) → i ≢ j → get_or (set xs i v) j d ≡ get_or xs j d
  get_or-set_ne [] i j v d h = refl
  get_or-set_ne (x ∷ xs) zero zero v d h = absurd (h refl)
  get_or-set_ne (x ∷ xs) zero (suc j) v d h = refl
  get_or-set_ne (x ∷ xs) (suc i) zero v d h = refl
  get_or-set_ne (x ∷ xs) (suc i) (suc j) v d h = get_or-set_ne xs i j v d (λ e. h (ap suc e))

  pub get_elem?-set_self :
      (xs : List A) (i : ℕ) (v w : A) → get_elem? xs i ≡ some w → get_elem? (set xs i v) i ≡ some v
  get_elem?-set_self [] i v w e = cc
  get_elem?-set_self (x ∷ xs) zero v w e = refl
  get_elem?-set_self (x ∷ xs) (suc i) v w e = get_elem?-set_self xs i v w e

  pub get_elem?-set_ne :
      (xs : List A) (i j : ℕ) (v : A) → i ≢ j → get_elem? (set xs i v) j ≡ get_elem? xs j
  get_elem?-set_ne [] i j v h = refl
  get_elem?-set_ne (x ∷ xs) zero zero v h = absurd (h refl)
  get_elem?-set_ne (x ∷ xs) zero (suc j) v h = refl
  get_elem?-set_ne (x ∷ xs) (suc i) zero v h = refl
  get_elem?-set_ne (x ∷ xs) (suc i) (suc j) v h = get_elem?-set_ne xs i j v (λ e. h (ap suc e))

  pub get_elem?-lt : (xs : List A) (i : ℕ) (v : A) → get_elem? xs i ≡ some v → i < length xs
  get_elem?-lt [] i v e = cc
  get_elem?-lt (x ∷ xs) zero v e = omega arith
  get_elem?-lt (x ∷ xs) (suc i) v e = omega (arith, get_elem?-lt xs i v e)

  pub lt-get_elem? : (xs : List A) (i : ℕ) → i < length xs → (v : A) × (get_elem? xs i ≡ some v)
  lt-get_elem? [] i lt = absurd (omega arith)
  lt-get_elem? (x ∷ xs) zero lt = (x, refl)
  lt-get_elem? (x ∷ xs) (suc i) lt = lt-get_elem? xs i (omega arith)

  pub tally-set_at :
      (f : A → ℕ) (xs : List A) (i : ℕ) (v w : A)
      → get_elem? xs i ≡ some w
      → tally f (set xs i v) + f w ≡ tally f xs + f v
  tally-set_at f [] i v w e = cc
  tally-set_at f (x ∷ xs) zero v w e = omega (arith, ap f (some-injective x w e))
  tally-set_at f (x ∷ xs) (suc i) v w e = omega (arith, tally-set_at f xs i v w e)

  pub All-set {κ} :
      (P : A → Type κ) (xs : List A) (i : ℕ) (v : A) → All P xs → P v → All P (set xs i v)
  All-set P [] i v h p = tt
  All-set P (x ∷ xs) zero v (h, hs) p = (p, hs)
  All-set P (x ∷ xs) (suc i) v (h, hs) p = (h, All-set P xs i v hs p)

  pub All-get_elem? {κ} :
      (P : A → Type κ) (xs : List A) (i : ℕ) (v : A) → All P xs → get_elem? xs i ≡ some v → P v
  All-get_elem? P [] i v h e = cc
  All-get_elem? P (x ∷ xs) zero v (h, hs) e = subst P (some-injective x v e) h
  All-get_elem? P (x ∷ xs) (suc i) v (h, hs) e = All-get_elem? P xs i v hs e

  -- What stands in a list with one element more at its end.
  pub get_elem?-snoc :
      (xs : List A) (i : ℕ) (x v : A)
      → get_elem? (xs ++ (x ∷ [])) i ≡ some v
      → (get_elem? xs i ≡ some v) ⊎ ((i ≡ length xs) × (x ≡ v))
  get_elem?-snoc [] zero x v e = inr (refl, some-injective x v e)
  get_elem?-snoc [] (suc i) x v e = cc
  get_elem?-snoc (y ∷ xs) zero x v e = inl e
  get_elem?-snoc (y ∷ xs) (suc i) x v e = elim (get_elem?-snoc xs i x v e) [
    | inl h ↦ inl h
    | inr (h, k) ↦ inr (ap suc h, k)
  ]

  pub length-set : (xs : List A) (i : ℕ) (v : A) → length (set xs i v) ≡ length xs
  length-set [] i v = refl
  length-set (x ∷ xs) zero v = refl
  length-set (x ∷ xs) (suc i) v = ap suc (length-set xs i v)
