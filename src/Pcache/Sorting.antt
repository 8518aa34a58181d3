-- ===== src/Pcache/Sorting.antt =====
-- sort.Slice as pcache/pcache.go uses it: the result holds the same entries, and if `less` is a strict
-- weak order, no entry is less than one before it. Which order entries that compare alike take is
-- left open, as sort.Slice is not stable.
pub mod Insertion
use mathlib.Core.List.{Perm, Pairwise}
use go_code_goes_here.Prelude.{◌≡◌, Bool, true, false, List}

module _ {ℓ} {A : Type ℓ} where
  pub record IsStrictWeak (less : A → A → Bool) : Type ℓ where
    pub irreflexive : (a : A) → less a a ≡ false
    pub transitive : (a b c : A) → less a b ≡ true → less b c ≡ true → less a c ≡ true
    pub negatively_transitive : (a b c : A) → less a b ≡ false → less b c ≡ false → less a c ≡ false

  abbrev pub IsSorted : (A → A → Bool) → List A → Type ℓ
  IsSorted less = Pairwise (λ a b. less b a ≡ false)

pub record Sorter (A : Type 0) : Type 0 where
  pub sort_slice : (A → A → Bool) → List A → List A
  pub sort_slice-perm : (less : A → A → Bool) (xs : List A) → Perm (sort_slice less xs) xs
  pub sort_slice-IsSorted :
      (less : A → A → Bool) (xs : List A) → IsStrictWeak less → IsSorted less (sort_slice less xs)
