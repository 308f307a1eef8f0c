-- ===== src/Pool/Parts.antt =====
-- The part of one connection in what all connections share.
use tfcgi.Prelude.{
  ℕ, ◌≡◌, ◌≢◌, ◌<◌, ◌≤◌, refl, ap, ◌∙◌, Bool-cases, inl, inr, List, [], ◌∷◌, ◌++◌, ◌==◌,
  if◌then◌else◌, eq_true, eq_false, All, arith,
}
use mathlib.Core.Path.{subst}
use tfcgi.Pool.{tagged}

-- The requests of the connection `i`, in their order.
abbrev pub part : ℕ → List (ℕ × ℕ) → List ℕ
part i [] = []
part i ((j, request_id) ∷ queue) =
    let rest = part i queue in if j == i then request_id ∷ rest else rest

pub part_same :
    (i request_id : ℕ) (queue : List (ℕ × ℕ))
    → part i ((i, request_id) ∷ queue) ≡ request_id ∷ part i queue
part_same i request_id queue = rw (eq_true i i refl) refl

pub part_other :
    (i j request_id : ℕ) (queue : List (ℕ × ℕ))
    → j ≢ i
    → part i ((j, request_id) ∷ queue) ≡ part i queue
part_other i j request_id queue ne = rw (eq_false j i ne) refl

pub part-append : (i : ℕ) (xs ys : List (ℕ × ℕ)) → part i (xs ++ ys) ≡ part i xs ++ part i ys
part-append i [] ys = refl
part-append i ((j, request_id) ∷ xs) ys = elim (Bool-cases (j == i)) [
  | inl e ↦ rw (e, part-append i xs ys) refl
  | inr e ↦ rw (e, part-append i xs ys) refl
]

pub part-tagged : (i : ℕ) (ids : List ℕ) → part i (tagged i ids) ≡ ids
part-tagged i [] = refl
part-tagged i (request_id ∷ ids) =
    part_same i request_id (tagged i ids) ∙ ap (◌∷◌ request_id) (part-tagged i ids)

pub part-tagged_other : (i j : ℕ) (ids : List ℕ) → j ≢ i → part i (tagged j ids) ≡ []
part-tagged_other i j [] ne = refl
part-tagged_other i j (request_id ∷ ids) ne =
    part_other i j request_id (tagged j ids) ne ∙ part-tagged_other i j ids ne

-- The requests of connections whose places are below `n`.
abbrev pub IsBelow : ℕ → ℕ × ℕ → Type 0
IsBelow n (i, request_id) = i < n

pub part_below :
    (n i : ℕ) (queue : List (ℕ × ℕ)) → n ≤ i → All (IsBelow n) queue → part i queue ≡ []
part_below n i [] le h = refl
part_below n i ((j, request_id) ∷ queue) le (lt, h) =
    part_other i j request_id queue (λ e. omega arith) ∙ part_below n i queue le h

pub All-tagged : (n i : ℕ) (ids : List ℕ) → i < n → All (IsBelow n) (tagged i ids)
All-tagged n i [] lt = tt
All-tagged n i (request_id ∷ ids) lt = (lt, All-tagged n i ids lt)

-- What holds of the requests of each connection holds of all.
pub All-part :
    (P : ℕ → ℕ → Type 0) (queue : List (ℕ × ℕ))
    → ((i : ℕ) → All (P i) (part i queue))
    → All (λ (i, request_id). P i request_id) queue
All-part P [] h = tt
All-part P ((j, request_id) ∷ queue) h = (
  (subst (All (P j)) (part_same j request_id queue) (h j)).0,
  All-part P queue (λ i. elim (Bool-cases (j == i)) [
    | inl e ↦
        let ji : j ≡ i = ground arith in
        (subst (All (P i))
          (ap (λ k. part i ((k, request_id) ∷ queue)) ji ∙ part_same i request_id queue) (h i)).1
    | inr e ↦
        let ne : j ≢ i = ground arith in
        subst (All (P i)) (part_other i j request_id queue ne) (h i)
  ]),
)

pub All-append :
    (n : ℕ) (xs ys : List (ℕ × ℕ))
    → All (IsBelow n) xs
    → All (IsBelow n) ys
    → All (IsBelow n) (xs ++ ys)
All-append n [] ys a b = b
All-append n (x ∷ xs) ys (a, as') b = (a, All-append n xs ys as' b)

pub All-remove :
    (n : ℕ) (before after : List (ℕ × ℕ)) (x : ℕ × ℕ)
    → All (IsBelow n) (before ++ (x ∷ after))
    → All (IsBelow n) (before ++ after)
All-remove n [] after x (a, as') = as'
All-remove n (y ∷ before) after x (a, as') = (a, All-remove n before after x as')

pub All_more : (m n : ℕ) (xs : List (ℕ × ℕ)) → m ≤ n → All (IsBelow m) xs → All (IsBelow n) xs
All_more m n [] le h = tt
All_more m n ((i, request_id) ∷ xs) le (a, as') = (omega arith, All_more m n xs le as')
