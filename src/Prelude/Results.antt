-- ===== src/Prelude/Results.antt =====
-- Code that can stop before it returns: it waits for input that never comes, it leaves the memory
-- that it may touch, or an exception leaves it.
use mathlib.Core.Path.{◌≡◌, refl, subst}
use mathlib.Core.Bool.{Bool, true, false}
use tfcgi.Prelude.Tests.{if◌then◌else◌}

-- `std::logic_error`, `fcgi::NVP::Deserializer::pair_size_error`, `std::length_error`,
-- `std::system_error`.
pub data Exception : Type 0 where
  logic_error pair_size_error length_error system_error : Exception

pub data Stop : Type 0 where
  -- The thread sleeps in a system call that never returns.
  blocked : Stop
  -- Undefined behaviour: a read or a write out of bounds.
  out_of_bounds : Stop
  thrown : Exception → Stop

pub data Result {ℓ} (A : Type ℓ) : Type ℓ where
  ok : A → Result A
  stop : Stop → Result A

module _ {ℓ κ} {A : Type ℓ} {B : Type κ} where
  infixl 5 ◌>>=◌
  -- `stop` skips what follows.
  abbrev pub ◌>>=◌ : Result A → (A → Result B) → Result B
  stop why >>= next = stop why
  ok value >>= next = next value

  -- A run of two parts that returned: what the first returned.
  pub >>=-eq-ok :
      (first : Result A) (next : A → Result B) {result : B}
      → (first >>= next) ≡ ok result
      → (value : A) × (first ≡ ok value) × (next value ≡ ok result)
  >>=-eq-ok (stop why) next e = cc
  >>=-eq-ok (ok value) next e = (value, refl, e)

-- What holds of the value, where there is one.
abbrev pub Ensures {ℓ κ} : {A : Type ℓ} → Result A → (A → Type κ) → Type κ
Ensures (ok a) P = P a
Ensures (stop e) P = Unit {_}

module _ {ℓ κ} {A : Type ℓ} where
  pub Ensures->>= {μ} :
      {B : Type κ} (Q : B → Type μ) (m : Result A) (f : A → Result B)
      → Ensures m (λ a. Ensures (f a) Q)
      → Ensures (m >>= f) Q
  Ensures->>= Q (ok a) f h = h
  Ensures->>= Q (stop e) f h = tt

  pub Ensures_map :
      {P Q : A → Type κ} (m : Result A) → ((a : A) → P a → Q a) → Ensures m P → Ensures m Q
  Ensures_map (ok a) f h = f a h
  Ensures_map (stop e) f h = tt

  pub Ensures_elim : (P : A → Type κ) {m : Result A} {a : A} → m ≡ ok a → Ensures m P → P a
  Ensures_elim P e h = subst (λ r. Ensures r P) e h

  -- Whatever the value is.
  pub Ensures_all : {P : A → Type κ} (m : Result A) → ((a : A) → P a) → Ensures m P
  Ensures_all (ok a) h = h a
  Ensures_all (stop e) h = tt

  pub Ensures_bind_all {μ} :
      {B : Type κ} (Q : B → Type μ) (m : Result A) (f : A → Result B)
      → ((a : A) → Ensures (f a) Q)
      → Ensures (m >>= f) Q
  Ensures_bind_all Q (ok a) f h = h a
  Ensures_bind_all Q (stop e) f h = tt

module _ {ℓ κ μ} {A : Type ℓ} {B : Type κ} {C : Type μ} where
  -- A last step that a run of two parts takes, taken by its second part.
  pub >>=-then :
      (m : Result A) (f' : A → Result C) (f : A → Result B) (g : B → Result C)
      → ((a : A) → f' a ≡ (f a >>= g))
      → (m >>= f') ≡ ((m >>= f) >>= g)
  >>=-then (ok a) f' f g h = h a
  >>=-then (stop e) f' f g h = refl

module _ {ℓ κ} {A : Type ℓ} {B : Type κ} where
  pub if_then :
      (b : Bool) (g : A → Result B) (x y : Result A) (x' y' : Result B)
      → x' ≡ (x >>= g)
      → y' ≡ (y >>= g)
      → (if b then x' else y') ≡ ((if b then x else y) >>= g)
  if_then true g x y x' y' e e' = e
  if_then false g x y x' y' e e' = e'
