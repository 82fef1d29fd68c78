-- ===== src/Dict.antt =====
-- Go's maps with string keys: association lists, with the laws of lookup.
use aifstudio.Prelude.{
  String, ◌≡◌, refl, List, [], ◌∷◌, Option, none, some, arith, str_eq, str_eq_iff, if◌then◌else◌,
}

module _ {ℓ} {V : Type ℓ} where
  unfoldable pub lookup : String → List (String × V) → Option V
  lookup k [] = none
  lookup k ((j, v) ∷ m) = if str_eq j k then some v else lookup k m

  unfoldable pub insert : String → V → List (String × V) → List (String × V)
  insert k v [] = (k, v) ∷ []
  insert k v ((j, w) ∷ m) = if str_eq j k then (k, v) ∷ m else (j, w) ∷ insert k v m

  unfoldable pub delete : String → List (String × V) → List (String × V)
  delete k [] = []
  delete k ((j, w) ∷ m) = let rest = delete k m in if str_eq j k then rest else (j, w) ∷ rest

  pub lookup-insert :
      (k j : String) (v : V) (m : List (String × V))
      → lookup j (insert k v m) ≡ (if str_eq k j then some v else lookup j m)
  unfolding lookup insert
  lookup-insert k j v [] = refl
  lookup-insert k j v ((i, w) ∷ m) =
      ground (arith, str_eq_iff k j, str_eq_iff i k, str_eq_iff i j, lookup-insert k j v m)

  pub lookup-delete :
      (k j : String) (m : List (String × V))
      → lookup j (delete k m) ≡ (if str_eq k j then none else lookup j m)
  unfolding lookup delete
  lookup-delete k j [] = ground arith
  lookup-delete k j ((i, w) ∷ m) =
      ground (arith, str_eq_iff k j, str_eq_iff i k, str_eq_iff i j, lookup-delete k j m)
