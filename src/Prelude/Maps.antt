-- ===== src/Prelude/Maps.antt =====
-- Go's `map[string]V` as an association list: one entry for each key is what the functions read.
use mathlib.Core.Path.{◌≡◌, subst}
use mathlib.Core.Logic.{inl, inr}
use mathlib.Core.Option.{Option, none, some}
use mathlib.Core.List.{List, [], ◌∷◌}
use native.Mathlib.Omega.{arith}
use go_code_goes_here.Prelude.Bools.{if◌then◌else◌, Bool-cases}
use go_code_goes_here.Prelude.Lists.{All}
use go_code_goes_here.Prelude.Texts.{Bytes, same, same_iff}

module _ {ℓ} {V : Type ℓ} where
  -- m[k], with `none` for a key that is not there
  unfoldable pub lookup : Bytes → List (Bytes × V) → Option V
  lookup k [] = none
  lookup k ((j, v) ∷ m) = if same j k then some v else lookup k m

  -- delete(m, k)
  unfoldable pub delete : Bytes → List (Bytes × V) → List (Bytes × V)
  delete k [] = []
  delete k ((j, v) ∷ m) = let rest = delete k m in if same j k then rest else (j, v) ∷ rest

  -- m[k] = v
  unfoldable pub store : Bytes → V → List (Bytes × V) → List (Bytes × V)
  unfolding delete
  store k v m = (k, v) ∷ delete k m

  pub lookup-delete :
      (k j : Bytes) (m : List (Bytes × V))
      → lookup j (delete k m) ≡ (if same k j then none else lookup j m)
  unfolding lookup delete
  lookup-delete k j [] = ground arith
  lookup-delete k j ((i, v) ∷ m) =
      ground (arith, lookup-delete k j m, same_iff i k, same_iff i j, same_iff k j)

  pub lookup-store :
      (k j : Bytes) (v : V) (m : List (Bytes × V))
      → lookup j (store k v m) ≡ (if same k j then some v else lookup j m)
  unfolding store lookup
  lookup-store k j v m = ground (arith, lookup-delete k j m)

pub All-delete :
    {V : Type 0} (P : Bytes × V → Type 0) (k : Bytes) (m : List (Bytes × V))
    → All P m
    → All P (delete k m)
unfolding delete
All-delete P k [] h = tt
All-delete P k ((j, v) ∷ m) h = elim (Bool-cases (same j k)) [
  | inl e ↦ rw (delete, e) (All-delete P k m h.1)
  | inr e ↦ rw (delete, e) (h.0, All-delete P k m h.1)
]

pub All-lookup :
    {V : Type 0} (P : Bytes × V → Type 0) (k : Bytes) (v : V) (m : List (Bytes × V))
    → All P m
    → lookup k m ≡ some v
    → P (k, v)
unfolding lookup
All-lookup P k v [] h e = absurd (ground (arith, e))
All-lookup P k v ((j, w) ∷ m) h e = elim (Bool-cases (same j k)) [
  | inl b ↦ let q : (j, w) ≡ (k, v) = ground (arith, b, e, same_iff j k) in subst P q h.0
  | inr b ↦ All-lookup P k v m h.1 (rw (lookup, b) at e)
]

-- What holds of every value.
module _ {V : Type 0} (P : V → Type 0) where
  abbrev pub AllValues : List (Bytes × V) → Type 0
  AllValues = All (λ c. P c.1)

  pub AllValues-delete : (k : Bytes) (m : List (Bytes × V)) → AllValues m → AllValues (delete k m)
  AllValues-delete k m h = All-delete (λ c. P c.1) k m h

  pub AllValues-store :
      (k : Bytes) (v : V) (m : List (Bytes × V)) → P v → AllValues m → AllValues (store k v m)
  unfolding store
  AllValues-store k v m p h = (p, AllValues-delete k m h)

  pub AllValues-lookup :
      (k : Bytes) (v : V) (m : List (Bytes × V)) → AllValues m → lookup k m ≡ some v → P v
  AllValues-lookup k v m h e = All-lookup (λ c. P c.1) k v m h e

pub ruleset map_laws = (lookup-delete, lookup-store)
