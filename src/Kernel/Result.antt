-- ===== src/Kernel/Result.antt =====
-- packages/kernel/src/result.ts: success or failure as a value.
pub mod Laws
use counted.Base.{List, [], ◌∷◌, ◌++◌, Bool, true, false}

pub data Result {ℓ κ} (A : Type ℓ) (E : Type κ) : Type (ℓ ⊔ κ) where
  ok : A → Result A E
  err : E → Result A E

module _ {ℓ κ} {A : Type ℓ} {E : Type κ} where
  abbrev pub is_ok : Result A E → Bool
  is_ok (ok a) = true
  is_ok (err e) = false

  abbrev pub unwrap_or : Result A E → A → A
  unwrap_or (ok a) fallback = a
  unwrap_or (err e) fallback = fallback

infixl 5 ◌>>=◌
-- `flatMap`: the first `Err` short-circuits.
abbrev pub ◌>>=◌ {ℓ κ μ} :
    {A : Type ℓ} {B : Type κ} {E : Type μ} → Result A E → (A → Result B E) → Result B E
ok a >>= f = f a
err e >>= f = err e

-- `map`
abbrev pub map_ok {ℓ κ μ} :
    {A : Type ℓ} {B : Type κ} {E : Type μ} → (A → B) → Result A E → Result B E
map_ok f (ok a) = ok (f a)
map_ok f (err e) = err e

-- `mapErr`
abbrev pub map_err {ℓ κ μ} :
    {A : Type ℓ} {E : Type κ} {F : Type μ} → (E → F) → Result A E → Result A F
map_err f (ok a) = ok a
map_err f (err e) = err (f e)

-- What `partition` returns.
pub record Parts {ℓ κ} (A : Type ℓ) (E : Type κ) : Type (ℓ ⊔ κ) where
  pub values : List A
  pub errors : List E

module _ {ℓ κ} {A : Type ℓ} {E : Type κ} where
  -- The loop of `all`, with the values gathered so far.
  pub all_from : List A → List (Result A E) → Result (List A) E
  all_from values [] = ok values
  all_from values (ok a ∷ rs) = all_from (values ++ a ∷ []) rs
  all_from values (err e ∷ rs) = err e

  pub all : List (Result A E) → Result (List A) E
  unfolding all_from
  all rs = all_from [] rs

  -- The loop of `partition`.
  pub partition_from : Parts A E → List (Result A E) → Parts A E
  partition_from p [] = p
  partition_from p (ok a ∷ rs) = partition_from (record p { values = p.values ++ a ∷ [] }) rs
  partition_from p (err e ∷ rs) = partition_from (record p { errors = p.errors ++ e ∷ [] }) rs

  pub partition : List (Result A E) → Parts A E
  unfolding partition_from
  partition rs = partition_from (record { values = []; errors = [] }) rs
