-- ===== src/Tenancy/Store/Laws.antt =====
-- What is found after something was saved.
use counted.Base.{
  List, [], ◌∷◌, some, String, ◌≡◌, refl, arith, find, if◌then◌else◌, ◌==◌, text_equality,
}
use counted.Tenancy.Store.{has_key, upsert}

module _ {T : Type 0} (key : T → String) where
  pub find-key :
      (xs : List T) (id : String) (t : T) → find (has_key key id) xs ≡ some t → key t ≡ id
  find-key [] id t h = absurd (ground arith)
  find-key (x ∷ xs) id t h = ground (arith, find-key xs id t, text_equality.same_iff (key x) id)

  pub find-upsert :
      (t : T) (xs : List T) (id : String)
      → find (has_key key id) (upsert key t xs)
        ≡ (if key t == id then some t else find (has_key key id) xs)
  unfolding upsert
  find-upsert t [] id = refl
  find-upsert t (x ∷ xs) id = ground (
    arith,
    find-upsert t xs id,
    text_equality.same_iff (key x) (key t),
    text_equality.same_iff (key x) id,
    text_equality.same_iff (key t) id,
  )
