-- ===== src/Kernel/Result/Laws.antt =====
-- What `all` and `partition` gather.
use mathlib.Core.List.{append_assoc, append-nil}
use counted.Base.{List, [], ◌∷◌, ◌++◌, ◌≡◌, refl, ap, ◌∙◌, arith}
use counted.Kernel.Result.{
  Result, ok, err, unwrap_or, ◌>>=◌, all_from, all, Parts, partition_from, partition,
}

module _ {ℓ κ} {A : Type ℓ} {E : Type κ} where
  abbrev pub oks : List (Result A E) → List A
  oks [] = []
  oks (ok a ∷ rs) = a ∷ oks rs
  oks (err e ∷ rs) = oks rs

  abbrev pub errs : List (Result A E) → List E
  errs [] = []
  errs (ok a ∷ rs) = errs rs
  errs (err e ∷ rs) = e ∷ errs rs

  -- The first error, or all the values.
  abbrev pub first_err : List E → List A → Result (List A) E
  first_err [] values = ok values
  first_err (e ∷ es) values = err e

  all_from_lem :
      (values : List A) (rs : List (Result A E))
      → all_from values rs ≡ first_err (errs rs) (values ++ oks rs)
  unfolding all_from
  all_from_lem values [] = rw append-nil
  all_from_lem values (ok a ∷ rs) = rw (all_from_lem (values ++ a ∷ []) rs, append_assoc)
  all_from_lem values (err e ∷ rs) = refl

  -- `all` returns the first error if there is one, and otherwise all the values in order.
  pub all_lem : (rs : List (Result A E)) → all rs ≡ first_err (errs rs) (oks rs)
  unfolding all
  all_lem rs = all_from_lem [] rs

  partition_from_lem :
      (p : Parts A E) (rs : List (Result A E))
      → partition_from p rs ≡ record { values = p.values ++ oks rs; errors = p.errors ++ errs rs }
  unfolding partition_from
  partition_from_lem p [] = simp append-nil
  partition_from_lem p (ok a ∷ rs) =
      partition_from_lem (record p { values = p.values ++ a ∷ [] }) rs ∙ (simp append_assoc)
  partition_from_lem p (err e ∷ rs) =
      partition_from_lem (record p { errors = p.errors ++ e ∷ [] }) rs ∙ (simp append_assoc)

  -- `partition` keeps every value and every error, each in order.
  pub partition_lem :
      (rs : List (Result A E)) → partition rs ≡ record { values = oks rs; errors = errs rs }
  unfolding partition
  partition_lem rs = partition_from_lem _ rs

-- A chain that succeeds did so at its first step, and from there on.
pub bind_ok {ℓ κ μ} :
    {A : Type ℓ} {B : Type κ} {E : Type μ} (r : Result A E) (f : A → Result B E) (b : B)
    → (r >>= f) ≡ ok b
    → (a : A) × (r ≡ ok a) × (f a ≡ ok b)
bind_ok (ok a) f b h = (a, refl, h)
bind_ok (err e) f b h = absurd (ground arith)

pub ok_injective {ℓ κ} :
    {A : Type ℓ} {E : Type κ} (a b : A) → ◌≡◌ {A = Result A E} (ok a) (ok b) → a ≡ b
ok_injective a b h = ap (λ r. unwrap_or r a) h
