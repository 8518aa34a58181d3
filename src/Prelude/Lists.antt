-- ===== src/Prelude/Lists.antt =====
-- Lists measured and indexed by native numbers, under the library's names.
use Prim.Native.Nat.{ℕ, zero, suc, ◌+◌}
use mathlib.Core.Path.{◌≡◌, refl, sym, ap, ◌∙◌, subst}
use mathlib.Core.Logic.{◌⊎◌, inl, inr}
use mathlib.Core.List.{List, [], ◌∷◌, ◌++◌, Perm, Permᴰ}
use native.Mathlib.Nat.{ℕ_set}
use mathlib.Core.Logic.{∥∥₁_elim}
use mathlib.Core.Option.{Option, none, some}
use native.Mathlib.Omega.{arith}

module _ {ℓ} {A : Type ℓ} where
  abbrev pub length : List A → ℕ
  length [] = 0
  length (x ∷ xs) = suc (length xs)

  abbrev pub get_elem? : List A → ℕ → Option A
  get_elem? [] i = none
  get_elem? (x ∷ xs) zero = some x
  get_elem? (x ∷ xs) (suc i) = get_elem? xs i

  -- A write out of bounds changes nothing.
  abbrev pub set : List A → ℕ → A → List A
  set [] i v = []
  set (x ∷ xs) zero v = v ∷ xs
  set (x ∷ xs) (suc i) v = x ∷ set xs i v

  abbrev pub take : ℕ → List A → List A
  take zero xs = []
  take (suc n) [] = []
  take (suc n) (x ∷ xs) = x ∷ take n xs

  pub length-append : (xs ys : List A) → length (xs ++ ys) ≡ length xs + length ys
  length-append [] ys = omega arith
  length-append (x ∷ xs) ys = omega (arith, length-append xs ys)

  pub length-set : (xs : List A) (i : ℕ) (v : A) → length (set xs i v) ≡ length xs
  length-set [] i v = refl
  length-set (x ∷ xs) zero v = refl
  length-set (x ∷ xs) (suc i) v = ap suc (length-set xs i v)

  pub get_elem?-length : (xs : List A) → get_elem? xs (length xs) ≡ none
  get_elem?-length [] = refl
  get_elem?-length (x ∷ xs) = get_elem?-length xs

  -- The entry and the write behind a prefix.
  pub get_elem?-append_at :
      (pre : List A) (x : A) (rest : List A) → get_elem? (pre ++ x ∷ rest) (length pre) ≡ some x
  get_elem?-append_at [] x rest = refl
  get_elem?-append_at (p ∷ pre) x rest = get_elem?-append_at pre x rest

  pub set-append_at :
      (pre : List A) (x : A) (rest : List A) (v : A)
      → set (pre ++ x ∷ rest) (length pre) v ≡ pre ++ v ∷ rest
  set-append_at [] x rest v = refl
  set-append_at (p ∷ pre) x rest v = ap (λ r. p ∷ r) (set-append_at pre x rest v)

  pub take-append_at : (pre rest : List A) → take (length pre) (pre ++ rest) ≡ pre
  take-append_at [] rest = refl
  take-append_at (p ∷ pre) rest = ap (λ r. p ∷ r) (take-append_at pre rest)

module _ {ℓ κ} {A : Type ℓ} (P : A → Type κ) where
  -- A property of every entry.
  abbrev pub All : List A → Type κ
  All [] = Unit
  All (x ∷ xs) = P x × All xs

  pub All-append : (xs ys : List A) → All xs → All ys → All (xs ++ ys)
  All-append [] ys hx hy = hy
  All-append (x ∷ xs) ys hx hy = (hx.0, All-append xs ys hx.1 hy)

  pub All-split : (xs ys : List A) → All (xs ++ ys) → All xs × All ys
  All-split [] ys h = (tt, h)
  All-split (x ∷ xs) ys h = let (hx, hy) = All-split xs ys h.1 in ((h.0, hx), hy)

module _ {ℓ κ} {A : Type ℓ} {P Q : A → Type κ} where
  pub All-map : ((x : A) → P x → Q x) → (xs : List A) → All P xs → All Q xs
  All-map f [] h = tt
  All-map f (x ∷ xs) h = (f x h.0, All-map f xs h.1)

module _ {ℓ κ} {A : Type ℓ} {P Q R : A → Type κ} where
  pub All-map2 : ((x : A) → P x → Q x → R x) → (xs : List A) → All P xs → All Q xs → All R xs
  All-map2 f [] h k = tt
  All-map2 f (x ∷ xs) h k = (f x h.0 k.0, All-map2 f xs h.1 k.1)

module _ {ℓ} {A : Type ℓ} where
  -- The sum of a weight over the entries.
  abbrev pub total : (A → ℕ) → List A → ℕ
  total m [] = 0
  total m (x ∷ xs) = m x + total m xs

  pub total-append : (m : A → ℕ) (xs ys : List A) → total m (xs ++ ys) ≡ total m xs + total m ys
  total-append m [] ys = omega arith
  total-append m (x ∷ xs) ys = omega (arith, total-append m xs ys)

  total-permd : (m : A → ℕ) {xs ys : List A} → Permᴰ xs ys → total m xs ≡ total m ys
  total-permd m Permᴰ.nil = refl
  total-permd m (Permᴰ.cons e d) = omega (arith, ap m e, total-permd m d)
  total-permd m (Permᴰ.swap e f) = omega (arith, ap m e, ap m f)
  total-permd m (Permᴰ.trans d e) = total-permd m d ∙ total-permd m e

  pub total-perm : (m : A → ℕ) {xs ys : List A} → Perm xs ys → total m xs ≡ total m ys
  total-perm m {xs} {ys} p = ∥∥₁_elim p (ℕ_set (total m xs) (total m ys)) (total-permd m)

module _ {ℓ κ} {A : Type ℓ} {P : A → Type κ} (prop : (x : A) → IsProp (P x)) where
  All-prop : (xs : List A) → IsProp (All P xs)
  All-prop [] h k = refl
  All-prop (x ∷ xs) h k = λ i. (prop x h.0 k.0 i, All-prop xs h.1 k.1 i)

  All-permd : {xs ys : List A} → Permᴰ xs ys → All P xs → All P ys
  All-permd Permᴰ.nil h = tt
  All-permd (Permᴰ.cons e d) h = (subst P e h.0, All-permd d h.1)
  All-permd (Permᴰ.swap e f) h = (subst P f h.1.0, (subst P e h.0, h.1.1))
  All-permd (Permᴰ.trans d e) h = All-permd e (All-permd d h)

  pub All-perm : {xs ys : List A} → Perm xs ys → All P xs → All P ys
  All-perm {xs} {ys} p h = ∥∥₁_elim p (All-prop ys) (λ d. All-permd d h)

pub List-cases {ℓ} :
    {A : Type ℓ} (xs : List A) → (xs ≡ []) ⊎ ((x : A) × (rest : List A) × (xs ≡ x ∷ rest))
List-cases [] = inl refl
List-cases (x ∷ xs) = inr (x, xs, refl)

abbrev last_or : {A : Type 0} → A → List A → A
last_or d [] = d
last_or d (x ∷ xs) = last_or x xs

last_or-snoc : {A : Type 0} (xs : List A) (x d : A) → last_or d (xs ++ x ∷ []) ≡ x
last_or-snoc [] x d = refl
last_or-snoc (y ∷ xs) x d = last_or-snoc xs x y

pub snoc_inj : {A : Type 0} (xs ys : List A) (x y : A) → xs ++ x ∷ [] ≡ ys ++ y ∷ [] → x ≡ y
snoc_inj xs ys x y h = sym (last_or-snoc xs x x) ∙ ap (last_or x) h ∙ last_or-snoc ys y x
