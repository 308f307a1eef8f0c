-- ===== src/Connection/Table.antt =====
-- The table of the requests of a connection.
use tfcgi.Prelude.{
  tally, tally-append, tally-replicate, ℕ, zero, suc, ◌+◌, ◌-◌, ◌≤◌, ◌<◌, ◌≡◌, refl, Bool-cases,
  inl, inr, List, [], ◌∷◌, ◌++◌, Option, none, some, length, length-append, length-replicate,
  get_or, set, replicate, ltb, arith,
}
use mathlib.Core.Path.{subst}
use tfcgi.Request.{Request}
use tfcgi.Request.Lifecycle.{IsConsistent}
use tfcgi.Connection.{grow, entry}

-- What an entry at the place of request id `i` is.
abbrev pub Fits : ℕ → Option Request → Type 0
Fits i none = Unit {0}
Fits i (some r) = IsConsistent r × (r.request_id ≡ i)

abbrev pub TableFrom : ℕ → List (Option Request) → Type 0
TableFrom i [] = Unit {0}
TableFrom i (o ∷ table) = Fits i o × TableFrom (suc i) table

-- Each request stands at the place of its id, and is consistent.
abbrev pub IsTable : List (Option Request) → Type 0
IsTable table = TableFrom 1 table

TableFrom-set :
    (i k : ℕ) (table : List (Option Request)) (o : Option Request)
    → TableFrom i table
    → Fits (i + k) o
    → TableFrom i (set table k o)
TableFrom-set i k [] o t f = tt
TableFrom-set i zero (x ∷ table) o (g, t) f = (subst (λ (n : ℕ). Fits n o) (omega arith) f, t)
TableFrom-set i (suc k) (x ∷ table) o (g, t) f =
    (g, TableFrom-set (suc i) k table o t (subst (λ (n : ℕ). Fits n o) (omega arith) f))

TableFrom-get :
    (i k : ℕ) (table : List (Option Request))
    → TableFrom i table
    → Fits (i + k) (get_or table k none)
TableFrom-get i k [] t = tt
TableFrom-get i zero (x ∷ table) (g, t) = subst (λ (n : ℕ). Fits n x) (omega arith) g
TableFrom-get i (suc k) (x ∷ table) (g, t) =
    subst (λ (n : ℕ). Fits n (get_or table k none)) (omega arith) (TableFrom-get (suc i) k table t)

TableFrom-replicate : (i n : ℕ) → TableFrom i (replicate n none)
TableFrom-replicate i zero = tt
TableFrom-replicate i (suc n) = (tt, TableFrom-replicate (suc i) n)

TableFrom-append :
    (i n : ℕ) (table : List (Option Request))
    → TableFrom i table
    → TableFrom i (table ++ replicate n none)
TableFrom-append i n [] t = TableFrom-replicate i n
TableFrom-append i n (x ∷ table) (g, t) = (g, TableFrom-append (suc i) n table t)

get_or-replicate : (n i : ℕ) → get_or {A = Option Request} (replicate n none) i none ≡ none
get_or-replicate zero i = refl
get_or-replicate (suc n) zero = refl
get_or-replicate (suc n) (suc i) = get_or-replicate n i

get_or-append_none :
    (table : List (Option Request)) (n i : ℕ)
    → get_or (table ++ replicate n none) i none ≡ get_or table i none
get_or-append_none [] n i = get_or-replicate n i
get_or-append_none (x ∷ table) n zero = refl
get_or-append_none (x ∷ table) n (suc i) = get_or-append_none table n i

-- What `resize` does to the table: nothing that an entry or a sum would show.
pub record Grown (request_id : ℕ) (table table' : List (Option Request)) : Type 0 where
  pub reaches : request_id ≤ length table'
  pub bounded : (n : ℕ) → request_id ≤ n → length table ≤ n → length table' ≤ n
  pub entries : (j : ℕ) → entry j table' ≡ entry j table
  pub tallies : (f : Option Request → ℕ) → f none ≡ 0 → tally f table' ≡ tally f table
  pub is_table : IsTable table → IsTable table'

pub grow-Grown :
    (request_id : ℕ) (table : List (Option Request))
    → Grown request_id table (grow request_id table)
grow-Grown request_id table = elim (Bool-cases (ltb (length table) request_id)) [
  | inl short ↦
      let more = request_id - length table in
      let len = length-append table (replicate more none) in
      let len2 = length-replicate {A = Option Request} more none in
      rw short (record {
        reaches = ground (arith, len, len2);
        bounded = λ n a b. ground (arith, len, len2);
        entries = λ j. get_or-append_none table more (j - 1);
        tallies = λ f e.
            omega
              (arith, tally-append f table (replicate more none), tally-replicate f more none e);
        is_table = λ t. TableFrom-append 1 more table t;
      })
  | inr enough ↦ rw enough (record {
    reaches = ground arith;
    bounded = λ n a b. b;
    entries = λ j. refl;
    tallies = λ f e. refl;
    is_table = λ t. t;
  })
]

pub entry-Fits :
    (request_id : ℕ) (table : List (Option Request))
    → 0 < request_id
    → IsTable table
    → Fits request_id (entry request_id table)
entry-Fits request_id table pos t =
    subst (λ (n : ℕ). Fits n (entry request_id table)) (omega arith)
      (TableFrom-get 1 (request_id - 1) table t)

pub set-IsTable :
    (request_id : ℕ) (table : List (Option Request)) (o : Option Request)
    → 0 < request_id
    → IsTable table
    → Fits request_id o
    → IsTable (set table (request_id - 1) o)
set-IsTable request_id table o pos t f =
    TableFrom-set 1 (request_id - 1) table o t (subst (λ (n : ℕ). Fits n o) (omega arith) f)
