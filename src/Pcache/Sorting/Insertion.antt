-- ===== src/Pcache/Sorting/Insertion.antt =====
-- A sort that meets the contract of sort.Slice: insertion into a sorted list.
use mathlib.Core.List.{Perm, Pairwise, not-mem-nil, eq-or-mem_of_mem-cons}
use mathlib.Core.List.Perm
use mathlib.Core.Logic.Or
use go_code_goes_here.Prelude.{
  ◌≡◌, refl, Bool, true, false, List, [], ◌∷◌, if◌then◌else◌, Bool-cases, inl, inr,
}
use go_code_goes_here.Pcache.Sorting.{IsStrictWeak, IsSorted, Sorter}

module _ {A : Type 0} (less : A → A → Bool) where
  insert : A → List A → List A
  insert x [] = x ∷ []
  insert x (y ∷ ys) = let rest = insert x ys in if less x y then x ∷ y ∷ ys else y ∷ rest

  pub insertion_sort : List A → List A
  insertion_sort [] = []
  insertion_sort (x ∷ xs) = insert x (insertion_sort xs)

  insert-perm : (x : A) (xs : List A) → Perm (insert x xs) (x ∷ xs)
  unfolding insert
  insert-perm x [] = Perm.refl (x ∷ [])
  insert-perm x (y ∷ ys) = elim (Bool-cases (less x y)) [
    | inl e ↦ rw (e, insert) (Perm.refl (x ∷ y ∷ ys))
    | inr e ↦ rw (e, insert) (Perm.trans (Perm.cons y (insert-perm x ys)) (Perm.swap x y ys))
  ]

  pub insertion_sort-perm : (xs : List A) → Perm (insertion_sort xs) xs
  unfolding insertion_sort
  insertion_sort-perm [] = Perm.nil
  insertion_sort-perm (x ∷ xs) =
      Perm.trans (insert-perm x (insertion_sort xs)) (Perm.cons x (insertion_sort-perm xs))

  false_prop : (b : Bool) → IsProp (b ≡ false)
  false_prop b = hlevel

  bool_false : (b : Bool) → (b ≡ true → ⊥) → b ≡ false
  bool_false true h = absurd (h refl)
  bool_false false h = refl

  module _ (weak : IsStrictWeak less) where
    not_less : (x y z : A) → less x y ≡ true → less z y ≡ false → less z x ≡ false
    not_less x y z e f = bool_false (less z x) (λ h. cc (weak.transitive z x y h e))

    insert-IsSorted : (x : A) (xs : List A) → IsSorted less xs → IsSorted less (insert x xs)
    unfolding insert
    insert-IsSorted x [] s = Pairwise.cons (λ z m. absurd (not-mem-nil m)) Pairwise.nil
    insert-IsSorted x (y ∷ ys) (Pairwise.cons below s) = elim (Bool-cases (less x y)) [
      | inl e ↦
          rw (e, insert)
            (Pairwise.cons
              (λ z m.
                Or.elim (false_prop (less z x)) (eq-or-mem_of_mem-cons m)
                  (λ q. rw q (not_less x y y e (weak.irreflexive y)))
                  (λ m'. not_less x y z e (below z m')))
              (Pairwise.cons below s))
      | inr e ↦
          rw (e, insert)
            (Pairwise.cons
              (λ z m.
                Or.elim (false_prop (less z y))
                  (eq-or-mem_of_mem-cons ((Perm.mem_iff (insert-perm x ys)).0 m)) (λ q. rw q e)
                  (λ m'. below z m'))
              (insert-IsSorted x ys s))
    ]

    pub insertion_sort-IsSorted : (xs : List A) → IsSorted less (insertion_sort xs)
    unfolding insertion_sort
    insertion_sort-IsSorted [] = Pairwise.nil
    insertion_sort-IsSorted (x ∷ xs) =
        insert-IsSorted x (insertion_sort xs) (insertion_sort-IsSorted xs)

unfoldable pub insertion : (A : Type 0) → Sorter A
unfolding insertion_sort insert
insertion A = record {
  sort_slice = insertion_sort;
  sort_slice-perm = insertion_sort-perm;
  sort_slice-IsSorted = λ less xs weak. insertion_sort-IsSorted less weak xs;
}
