-- ===== src/Pcache/Slices.antt =====
-- The two slice helpers of pcache/pcache.go, `apts` and `rpfs`, and what `rpfs` leaves.
use mathlib.Core.List.{Perm, perm_middle}
use mathlib.Core.List.Perm
use go_code_goes_here.Prelude.{
  ℕ, suc, ◌-◌, ◌≡◌, refl, ap, sym, List, [], ◌∷◌, ◌++◌, none, some, arith, length, get_elem?, set,
  take, length-append, get_elem?-append_at, set-append_at, take-append_at, append_assoc, append-nil,
  ◌∙◌, subst, All, All-split,
}

module _ {ℓ} {A : Type ℓ} where
  -- s = append(s, p)
  unfoldable pub apts : List A → A → List A
  apts s p = s ++ p ∷ []

  -- s[i], s[j] = s[j], s[i]: both are read before either is written. Out of range Go panics; here
  -- nothing changes, and no caller does it.
  swap : List A → ℕ → ℕ → List A
  swap s i j = elim (get_elem? s i) [
    | none ↦ s
    | some a ↦ elim (get_elem? s j) [ none ↦ s | some b ↦ set (set s i b) j a ]
  ]

  -- swap entry i with the last one, and cut the last one off
  unfoldable pub rpfs : List A → ℕ → List A
  unfolding swap
  rpfs s i = take (length s - 1) (swap s (length s - 1) i)

  -- The list before its last entry, and the last entry.
  unfoldable pub unsnoc : A → List A → List A × A
  unsnoc x [] = ([], x)
  unsnoc x (y ∷ ys) = let (front, z) = unsnoc y ys in (x ∷ front, z)

  -- The last entry moved to the front.
  unfoldable pub bring_last : List A → List A
  unfolding unsnoc
  bring_last [] = []
  bring_last (x ∷ xs) = let (front, z) = unsnoc x xs in z ∷ front

  pub unsnoc_lem : (x : A) (xs : List A) → (unsnoc x xs).0 ++ (unsnoc x xs).1 ∷ [] ≡ x ∷ xs
  unfolding unsnoc
  unsnoc_lem x [] = refl
  unsnoc_lem x (y ∷ ys) = ap (λ r. x ∷ r) (unsnoc_lem y ys)

  pub length-bring_last : (xs : List A) → length (bring_last xs) ≡ length xs
  unfolding bring_last
  length-bring_last [] = refl
  length-bring_last (x ∷ xs) =
      let (front, z) = unsnoc x xs in
      omega (arith, ap length (unsnoc_lem x xs), length-append front (z ∷ []))

  swap_lem :
      (s : List A) (i j : ℕ) (a b : A)
      → get_elem? s i ≡ some a
      → get_elem? s j ≡ some b
      → swap s i j ≡ set (set s i b) j a
  unfolding swap
  swap_lem s i j a b p q = ground arith

  -- Cut at a known length.
  rpfs_at :
      (s : List A) (i n : ℕ) (a b : A)
      → length s ≡ suc n
      → get_elem? s n ≡ some a
      → get_elem? s i ≡ some b
      → rpfs s i ≡ take n (set (set s n b) i a)
  unfolding rpfs
  rpfs_at s i n a b e p q =
      let e' : length s - 1 ≡ n = omega arith in rw e' (ap (take n) (swap_lem s n i a b p q))

  length-snoc : (pre : List A) (x : A) → length (pre ++ x ∷ []) ≡ suc (length pre)
  length-snoc pre x = omega (arith, length-append pre (x ∷ []))

  rpfs_last : (pre : List A) (x : A) → rpfs (pre ++ x ∷ []) (length pre) ≡ pre
  rpfs_last pre x =
      let g = get_elem?-append_at pre x [] in
      rpfs_at _ _ _ x x (length-snoc pre x) g g
      ∙ rw (set-append_at, set-append_at) (take-append_at pre (x ∷ []))

  rpfs_inner :
      (pre : List A) (x : A) (front : List A) (z : A)
      → rpfs (pre ++ x ∷ (front ++ z ∷ [])) (length pre) ≡ pre ++ z ∷ front
  rpfs_inner pre x front z =
      rpfs_at _ _ (length (pre ++ x ∷ front)) z x (rw regroup (length-snoc (pre ++ x ∷ front) z))
        (rw regroup (get_elem?-append_at (pre ++ x ∷ front) z [])) (get_elem?-append_at pre x _)
      ∙ ap (λ r. take (length (pre ++ x ∷ front)) (set r (length pre) z)) first_write
      ∙ ap (take (length (pre ++ x ∷ front))) second_write
      ∙ rw same_length (take-append_at (pre ++ z ∷ front) (x ∷ []))
    where
      regroup : pre ++ x ∷ (front ++ z ∷ []) ≡ (pre ++ x ∷ front) ++ z ∷ []
      regroup = sym (append_assoc pre (x ∷ front) (z ∷ []))

      first_write :
          set (pre ++ x ∷ (front ++ z ∷ [])) (length (pre ++ x ∷ front)) x
          ≡ pre ++ x ∷ (front ++ x ∷ [])
      first_write =
          rw regroup (set-append_at (pre ++ x ∷ front) z [] x)
          ∙ append_assoc pre (x ∷ front) (x ∷ [])

      second_write :
          set (pre ++ x ∷ (front ++ x ∷ [])) (length pre) z ≡ (pre ++ z ∷ front) ++ x ∷ []
      second_write =
          set-append_at pre x (front ++ x ∷ []) z ∙ sym (append_assoc pre (z ∷ front) (x ∷ []))

      same_length : length (pre ++ x ∷ front) ≡ length (pre ++ z ∷ front)
      same_length = omega (arith, length-append pre (x ∷ front), length-append pre (z ∷ front))

  -- Behind a prefix, `rpfs` at the first entry puts the last one in its place.
  pub rpfs-append :
      (pre : List A) (x : A) (rest : List A)
      → rpfs (pre ++ x ∷ rest) (length pre) ≡ pre ++ bring_last rest
  unfolding bring_last
  rpfs-append pre x [] = rpfs_last pre x ∙ sym (append-nil pre)
  rpfs-append pre x (y ∷ ys) =
      ap (λ r. rpfs (pre ++ x ∷ r) (length pre)) (sym (unsnoc_lem y ys))
      ∙ rpfs_inner pre x (unsnoc y ys).0 (unsnoc y ys).1

  pub bring_last-perm : (xs : List A) → Perm (bring_last xs) xs
  unfolding bring_last
  bring_last-perm [] = Perm.nil
  bring_last-perm (x ∷ xs) = rw (← unsnoc_lem x xs) (
      subst (λ r. Perm ((unsnoc x xs).1 ∷ r) ((unsnoc x xs).0 ++ (unsnoc x xs).1 ∷ []))
        (append-nil (unsnoc x xs).0) (Perm.symm (perm_middle (unsnoc x xs).0 [])))

  pub All-bring_last {κ} : (P : A → Type κ) (xs : List A) → All P xs → All P (bring_last xs)
  unfolding bring_last
  All-bring_last P [] h = tt
  All-bring_last P (x ∷ xs) h =
      let parts = All-split P (unsnoc x xs).0 ((unsnoc x xs).1 ∷ []) (rw (unsnoc_lem x xs) h) in
      (parts.1.0, parts.0)
