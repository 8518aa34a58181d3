-- ===== src/Pcache/Sweep.antt =====
-- The loop of `updateCache` in pcache/pcache.go: `for i := 0; i < len(s); i++ { … }`, whose body
-- keeps the entry at i, changed perhaps, or removes it by `rpfs` and takes `i--`.
use mathlib.Core.List.{Perm}
use mathlib.Core.List.Perm
use go_code_goes_here.Prelude.{
  ℕ, zero, suc, ◌+◌, ◌≤◌, ◌≡◌, refl, subst, ◌∙◌, List, [], ◌∷◌, ◌++◌, Option, none, some, arith,
  length, get_elem?, set, append_assoc, append-nil, All, get_elem?-append_at, set-append_at,
  length-append, get_elem?-length, Option-cases, inl, inr, total, total-perm,
}
use go_code_goes_here.Pcache.Slices.{
  rpfs, rpfs-append, bring_last, length-bring_last, bring_last-perm, All-bring_last,
}

-- A property of a value that may be there, and its weight.
abbrev pub Each : {A : Type 0} → (A → Type 0) → Option A → Type 0
Each Q none = Unit
Each Q (some y) = Q y

abbrev pub weight : {A : Type 0} → (A → ℕ) → Option A → ℕ
weight m none = 0
weight m (some y) = m y

module _ {ℓ} {A S : Type ℓ} (body : A → S → Option A × S) where
  -- The fuel bounds the rounds; `get_elem?` finds nothing exactly when i < len(s) fails.
  unfoldable pub sweep : ℕ → ℕ → List A → S → List A × S
  sweep zero i xs s = (xs, s)
  sweep (suc fuel) i xs s = elim (get_elem? xs i) [
    | none ↦ (xs, s)
    | some x ↦
        let (kept, s') = body x s in
        elim kept [
          | none ↦ sweep fuel i (rpfs xs i) s'
          | some y ↦ sweep fuel (i + 1) (set xs i y) s'
        ]
  ]

  -- One entry after the other, each once: the list of those kept, and the state behind the last.
  unfoldable pub one_by_one : List A → S → List A × S
  one_by_one [] s = ([], s)
  one_by_one (x ∷ xs) s =
      let (kept, s') = body x s in
      let (rest, s'') = one_by_one xs s' in
      elim kept [ none ↦ (rest, s'') | some y ↦ (y ∷ rest, s'') ]

  -- The order in which the loop meets the entries that are left.
  unfoldable pub order : ℕ → List A → S → List A
  order zero xs s = []
  order (suc n) [] s = []
  order (suc n) (x ∷ xs) s =
      let (kept, s') = body x s in
      elim kept [ none ↦ x ∷ order n (bring_last xs) s' | some y ↦ x ∷ order n xs s' ]

  sweep_drops :
      (n : ℕ) (pre : List A) (x : A) (rest : List A) (s : S)
      → (body x s).0 ≡ none
      → sweep (suc n) (length pre) (pre ++ x ∷ rest) s
        ≡ sweep n (length pre) (pre ++ bring_last rest) (body x s).1
  unfolding sweep
  sweep_drops n pre x rest s e =
      rw (get_elem?-append_at pre x rest, e, sweep) (rw (rpfs-append pre x rest))

  sweep_keeps :
      (n : ℕ) (pre : List A) (x : A) (rest : List A) (s : S) (y : A)
      → (body x s).0 ≡ some y
      → sweep (suc n) (length pre) (pre ++ x ∷ rest) s
        ≡ sweep n (length (pre ++ y ∷ [])) ((pre ++ y ∷ []) ++ rest) (body x s).1
  unfolding sweep
  sweep_keeps n pre x rest s y e =
      let at_next : length pre + 1 ≡ length (pre ++ y ∷ []) =
        omega (arith, length-append pre (y ∷ [])) in
      rw (get_elem?-append_at pre x rest, e, sweep)
        (rw (set-append_at pre x rest y, at_next, append_assoc pre (y ∷ []) rest))

  sweep_ends : (n : ℕ) (pre : List A) (s : S) → sweep n (length pre) (pre ++ []) s ≡ (pre ++ [], s)
  unfolding sweep
  sweep_ends zero pre s = refl
  sweep_ends (suc n) pre s =
      let at_end : get_elem? (pre ++ []) (length pre) ≡ none =
        rw (append-nil pre) (get_elem?-length pre) in
      rw (at_end, sweep)

  sweep-one_by_one :
      (n : ℕ) (pre rest : List A) (s : S)
      → length rest ≤ n
      → sweep n (length pre) (pre ++ rest) s
        ≡ (pre ++ (one_by_one (order n rest s) s).0, (one_by_one (order n rest s) s).1)
  unfolding one_by_one order
  sweep-one_by_one zero pre [] s h = sweep_ends 0 pre s
  sweep-one_by_one zero pre (x ∷ rest) s h = absurd (omega arith)
  sweep-one_by_one (suc n) pre [] s h = sweep_ends (suc n) pre s
  sweep-one_by_one (suc n) pre (x ∷ rest) s h = elim (Option-cases (body x s).0) [
    | inl e ↦
        let ih =
          sweep-one_by_one n pre (bring_last rest) (body x s).1
            (omega (arith, length-bring_last rest)) in
        sweep_drops n pre x rest s e ∙ ih ∙ rw (e, order) (rw (e, one_by_one))
    | inr (y, e) ↦
        let ih = sweep-one_by_one n (pre ++ y ∷ []) rest (body x s).1 (omega arith) in
        sweep_keeps n pre x rest s y e
        ∙ ih
        ∙ rw (e, order) (rw (e, one_by_one, append_assoc pre (y ∷ [])))
  ]

  order-perm : (n : ℕ) (xs : List A) (s : S) → length xs ≤ n → Perm (order n xs s) xs
  unfolding order
  order-perm zero [] s h = Perm.nil
  order-perm zero (x ∷ xs) s h = absurd (omega arith)
  order-perm (suc n) [] s h = Perm.nil
  order-perm (suc n) (x ∷ xs) s h = elim (Option-cases (body x s).0) [
    | inl e ↦
        rw (e, order)
          (Perm.cons x (
            Perm.trans
              (order-perm n (bring_last xs) (body x s).1 (omega (arith, length-bring_last xs)))
              (bring_last-perm xs)))
    | inr (y, e) ↦ rw (e, order) (Perm.cons x (order-perm n xs (body x s).1 (omega arith)))
  ]

  -- The whole loop, on as much fuel as the list is long, handles every entry exactly once, in some
  -- order, and keeps what the body keeps, in that order.
  pub sweep_lem :
      (xs : List A) (s : S)
      → (ys : List A) × Perm ys xs × (sweep (length xs) 0 xs s ≡ one_by_one ys s)
  sweep_lem xs s = (
    order (length xs) xs s,
    order-perm (length xs) xs s (omega arith),
    sweep-one_by_one (length xs) [] xs s (omega arith),
  )

  All-order : (P : A → Type 0) (n : ℕ) (xs : List A) (s : S) → All P xs → All P (order n xs s)
  unfolding order
  All-order P zero xs s h = tt
  All-order P (suc n) [] s h = tt
  All-order P (suc n) (x ∷ xs) s h = elim (Option-cases (body x s).0) [
    | inl e ↦
        rw (e, order) (h.0, All-order P n (bring_last xs) (body x s).1 (All-bring_last P xs h.1))
    | inr (y, e) ↦ rw (e, order) (h.0, All-order P n xs (body x s).1 h.1)
  ]

-- Rules for the loop: what holds of every entry before, and is made true of what the body keeps,
-- holds of every entry after; a state invariant holds at the end.
module _ {A S : Type 0} (body : A → S → Option A × S) (P Q : A → Type 0) (I : S → Type 0)
    (keep : (x : A) (s : S) → P x → I s → Each Q (body x s).0 × I (body x s).1) where
  one_by_one_inv :
      (xs : List A) (s : S)
      → All P xs
      → I s
      → All Q (one_by_one body xs s).0 × I (one_by_one body xs s).1
  unfolding one_by_one
  one_by_one_inv [] s h i = (tt, i)
  one_by_one_inv (x ∷ xs) s h i =
      let (q, i') = keep x s h.0 i in
      let (qs, i'') = one_by_one_inv xs (body x s).1 h.1 i' in
      elim (Option-cases (body x s).0) [
        | inl e ↦ rw (e, one_by_one) (qs, i'')
        | inr (y, e) ↦ rw (e, one_by_one) ((subst (Each Q) e q, qs), i'')
      ]

  pub sweep_inv :
      (xs : List A) (s : S)
      → All P xs
      → I s
      → All Q (sweep body (length xs) 0 xs s).0 × I (sweep body (length xs) 0 xs s).1
  sweep_inv xs s h i =
      rw (sweep-one_by_one body (length xs) [] xs s (omega arith))
        (one_by_one_inv (order body (length xs) xs s) s (All-order body P (length xs) xs s h) i)

-- Weights that no round of the body raises, or lowers, together with a weight of the state.
module _ {A S : Type 0} (body : A → S → Option A × S) (m m' : A → ℕ) (n : S → ℕ) where
  abbrev before : A → S → ℕ
  before x s = m x + n s

  abbrev after : A → S → ℕ
  after x s = weight m' (body x s).0 + n (body x s).1

  one_by_one_le :
      ((x : A) (s : S) → after x s ≤ before x s)
      → (xs : List A) (s : S)
      → total m' (one_by_one body xs s).0 + n (one_by_one body xs s).1 ≤ total m xs + n s
  unfolding one_by_one
  one_by_one_le step [] s = omega arith
  one_by_one_le step (x ∷ xs) s = ground (arith, step x s, one_by_one_le step xs (body x s).1)

  one_by_one_ge :
      ((x : A) (s : S) → before x s ≤ after x s)
      → (xs : List A) (s : S)
      → total m xs + n s ≤ total m' (one_by_one body xs s).0 + n (one_by_one body xs s).1
  unfolding one_by_one
  one_by_one_ge step [] s = omega arith
  one_by_one_ge step (x ∷ xs) s = ground (arith, step x s, one_by_one_ge step xs (body x s).1)

  pub sweep-total_le :
      ((x : A) (s : S) → after x s ≤ before x s)
      → (xs : List A) (s : S)
      → total m' (sweep body (length xs) 0 xs s).0 + n (sweep body (length xs) 0 xs s).1
        ≤ total m xs + n s
  sweep-total_le step xs s =
      let (ys, p, e) = sweep_lem body xs s in rw (e, ← total-perm m p) (one_by_one_le step ys s)

  pub sweep-total_ge :
      ((x : A) (s : S) → before x s ≤ after x s)
      → (xs : List A) (s : S)
      → total m xs + n s
        ≤ total m' (sweep body (length xs) 0 xs s).0 + n (sweep body (length xs) 0 xs s).1
  sweep-total_ge step xs s =
      let (ys, p, e) = sweep_lem body xs s in rw (e, ← total-perm m p) (one_by_one_ge step ys s)

-- The same, where each round keeps an invariant of the state, and may use it.
module _ {A S : Type 0} (body : A → S → Option A × S) (m m' : A → ℕ) (n : S → ℕ) (I : S → Type 0)
    (step : (x : A) (s : S) → I s → before body m m' n x s ≤ after body m m' n x s)
    (keep : (x : A) (s : S) → I s → I (body x s).1) where
  one_by_one_ge_inv :
      (xs : List A) (s : S)
      → I s
      → (total m xs + n s ≤ total m' (one_by_one body xs s).0 + n (one_by_one body xs s).1)
        × I (one_by_one body xs s).1
  unfolding one_by_one
  one_by_one_ge_inv [] s i = (omega arith, i)
  one_by_one_ge_inv (x ∷ xs) s i =
      let (h, i') = one_by_one_ge_inv xs (body x s).1 (keep x s i) in
      elim (Option-cases (body x s).0) [
        | inl e ↦ (ground (arith, step x s i, h), rw (e, one_by_one) i')
        | inr (y, e) ↦ (ground (arith, step x s i, h), rw (e, one_by_one) i')
      ]

  pub sweep-total_ge_inv :
      (xs : List A) (s : S)
      → I s
      → (total m xs + n s
          ≤ total m' (sweep body (length xs) 0 xs s).0 + n (sweep body (length xs) 0 xs s).1)
        × I (sweep body (length xs) 0 xs s).1
  sweep-total_ge_inv xs s i =
      let (ys, p, e) = sweep_lem body xs s in rw (e, ← total-perm m p) (one_by_one_ge_inv ys s i)
