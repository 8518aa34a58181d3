-- ===== src/Prelude/Texts.antt =====
-- Go strings as lists of bytes, with the functions of the package `strings` that the program calls.
use Prim.Native.Nat.{ℕ}
use Prim.Native.Char.{code}
use Prim.Native.String.{String}
use mathlib.Core.Path.{◌≡◌, refl, sym, ap, ◌∙◌}
use mathlib.Core.Logic.{◌↔◌, ◌≢◌}
use mathlib.Core.Bool.{Bool, true, false, ◌&&◌}
use mathlib.Core.List.{reverse, reverse-cons, List, [], ◌∷◌, ◌++◌, append_assoc}
use native.Mathlib.Omega.{arith}
use go_code_goes_here.Prelude.Bools.{◌==◌, if◌then◌else◌}
use go_code_goes_here.Prelude.Lists.{All}

abbrev pub Bytes : Type 0
Bytes = List ℕ

-- The bytes of a literal in ASCII.
abbrev pub codes : String → Bytes
codes String.[] = []
codes (String.◌∷◌ c s) = code c ∷ codes s

-- Go's `==` on strings.
unfoldable pub same : Bytes → Bytes → Bool
same [] [] = true
same [] (y ∷ ys) = false
same (x ∷ xs) [] = false
same (x ∷ xs) (y ∷ ys) = x == y && same xs ys

pub same_refl : (a : Bytes) → same a a ≡ true
unfolding same
same_refl [] = refl
same_refl (x ∷ xs) = ground (arith, same_refl xs)

pub eq-of-same : (a b : Bytes) → same a b ≡ true → a ≡ b
unfolding same
eq-of-same [] [] h = refl
eq-of-same [] (y ∷ ys) h = cc
eq-of-same (x ∷ xs) [] h = cc
eq-of-same (x ∷ xs) (y ∷ ys) h = ground (arith, eq-of-same xs ys)

pub same_iff : (a b : Bytes) → (same a b ≡ true) ↔ (a ≡ b)
same_iff a b = (eq-of-same a b, λ e. ap (same a) (sym e) ∙ same_refl a)

pub same-ne : (a b : Bytes) → a ≢ b → same a b ≡ false
same-ne a b h = ground (arith, same_iff a b)

-- strings.Join
glue : Bytes → List Bytes → Bytes → Bytes
glue sep [] out = out
glue sep (p ∷ ps) out = glue sep ps (out ++ sep ++ p)

unfoldable pub join : List Bytes → Bytes → Bytes
unfolding glue
join [] sep = []
join (p ∷ ps) sep = glue sep ps p

-- strings.Split by a separator of one byte: at least one part.
unfoldable pub split : Bytes → ℕ → List Bytes
split [] sep = [] ∷ []
split (c ∷ s) sep = elim (c == sep) [
  | true ↦ [] ∷ split s sep
  | false ↦ elim (split s sep) [ [] ↦ (c ∷ []) ∷ [] | p ∷ ps ↦ (c ∷ p) ∷ ps ]
]

-- strings.HasPrefix
unfoldable pub has_prefix : Bytes → Bytes → Bool
has_prefix s [] = true
has_prefix [] (p ∷ ps) = false
has_prefix (c ∷ s) (p ∷ ps) = c == p && has_prefix s ps

-- strings.TrimPrefix and strings.TrimSuffix by a text of one byte.
unfoldable pub trim_prefix : Bytes → ℕ → Bytes
trim_prefix [] p = []
trim_prefix (c ∷ s) p = if c == p then s else c ∷ s

unfoldable pub trim_suffix : Bytes → ℕ → Bytes
trim_suffix [] p = []
trim_suffix (c ∷ []) p = if c == p then [] else c ∷ []
trim_suffix (c ∷ d ∷ s) p = c ∷ trim_suffix (d ∷ s) p

abbrev pub Lacks : ℕ → Bytes → Type 0
Lacks b = All (λ c. c ≢ b)

pub has_prefix-append : (p s : Bytes) → has_prefix (p ++ s) p ≡ true
unfolding has_prefix
has_prefix-append [] s = refl
has_prefix-append (c ∷ p) s = ground (arith, has_prefix-append p s)

pub trim_suffix-append : (s : Bytes) (p : ℕ) → trim_suffix (s ++ p ∷ []) p ≡ s
unfolding trim_suffix
trim_suffix-append [] p = ground arith
trim_suffix-append (c ∷ []) p = ground arith
trim_suffix-append (c ∷ d ∷ s) p = ap (λ r. c ∷ r) (trim_suffix-append (d ∷ s) p)

pub trim_suffix-keep : (s : Bytes) (c p : ℕ) → c ≢ p → trim_suffix (s ++ c ∷ []) p ≡ s ++ c ∷ []
unfolding trim_suffix
trim_suffix-keep [] c p h = ground (arith, h)
trim_suffix-keep (d ∷ []) c p h = ground (arith, h)
trim_suffix-keep (d ∷ e ∷ s) c p h = ap (λ r. d ∷ r) (trim_suffix-keep (e ∷ s) c p h)

glue-append :
    (sep : Bytes) (ps : List Bytes) (a b : Bytes) → glue sep ps (a ++ b) ≡ a ++ glue sep ps b
unfolding glue
glue-append sep [] a b = refl
glue-append sep (p ∷ ps) a b =
    let e : (a ++ b) ++ sep ++ p ≡ a ++ (b ++ sep ++ p) = simp append_assoc in
    ap (glue sep ps) e ∙ glue-append sep ps a (b ++ sep ++ p)

pub join-cons :
    (p q : Bytes) (ps : List Bytes) (sep : Bytes)
    → join (p ∷ q ∷ ps) sep ≡ p ++ (sep ++ join (q ∷ ps) sep)
unfolding join glue
join-cons p q ps sep =
    let e : p ++ sep ++ q ≡ p ++ (sep ++ q) = simp append_assoc in
    ap (glue sep ps) e
    ∙ glue-append sep ps p (sep ++ q)
    ∙ ap (λ t. p ++ t) (glue-append sep ps sep q)

split-whole : (p : Bytes) (b : ℕ) → Lacks b p → split p b ≡ p ∷ []
unfolding split
split-whole [] b h = refl
split-whole (c ∷ p) b h = ground (arith, h.0, split-whole p b h.1)

split-append : (p rest : Bytes) (b : ℕ) → Lacks b p → split (p ++ b ∷ rest) b ≡ p ∷ split rest b
unfolding split
split-append [] rest b h = ground arith
split-append (c ∷ p) rest b h = ground (arith, h.0, split-append p rest b h.1)

pub split-join :
    (p : Bytes) (ps : List Bytes) (b : ℕ)
    → All (Lacks b) (p ∷ ps)
    → split (join (p ∷ ps) (b ∷ [])) b ≡ p ∷ ps
unfolding join glue
split-join p [] b h = split-whole p b h.0
split-join p (q ∷ ps) b h =
    rw join-cons
      (split-append p (join (q ∷ ps) (b ∷ [])) b h.0 ∙ ap (λ t. p ∷ t) (split-join q ps b h.1))

-- A text that is joined ends as its last part does.
pub join-last :
    (ps : List Bytes) (l : Bytes) (c : ℕ) (sep : Bytes)
    → (x : Bytes) × (join (ps ++ (l ++ c ∷ []) ∷ []) sep ≡ x ++ c ∷ [])
unfolding join glue
join-last [] l c sep = (l, refl)
join-last (p ∷ []) l c sep = (p ++ sep ++ l, simp append_assoc)
join-last (p ∷ q ∷ ps) l c sep =
    let (x, e) = join-last (q ∷ ps) l c sep in
    (
      p ++ (sep ++ x),
      join-cons p q (ps ++ (l ++ c ∷ []) ∷ []) sep
          ∙ ap (λ t. p ++ (sep ++ t)) e
          ∙ simp append_assoc,
    )

join-snoc :
    (p : Bytes) (ps : List Bytes) (q sep : Bytes)
    → join ((p ∷ ps) ++ q ∷ []) sep ≡ join (p ∷ ps) sep ++ sep ++ q
unfolding join glue
join-snoc p [] q sep = refl
join-snoc p (p' ∷ ps) q sep = join-snoc (p ++ sep ++ p') ps q sep

join-two_last :
    (ps : List Bytes) (p q sep : Bytes)
    → join ((ps ++ p ∷ []) ++ q ∷ []) sep ≡ join (ps ++ p ∷ []) sep ++ sep ++ q
join-two_last [] p q sep = join-snoc p [] q sep
join-two_last (p' ∷ ps) p q sep = join-snoc p' (ps ++ p ∷ []) q sep

-- One part more in front of a reversed list is one more behind its text.
pub join-reverse :
    (p q : Bytes) (ps : List Bytes) (sep : Bytes)
    → join (reverse (p ∷ q ∷ ps)) sep ≡ join (reverse (q ∷ ps)) sep ++ sep ++ p
join-reverse p q ps sep =
    rw (reverse-cons p (q ∷ ps), reverse-cons q ps) (join-two_last (reverse ps) q p sep)

pub join-one : (p sep : Bytes) → join (p ∷ []) sep ≡ p
unfolding join glue
join-one p sep = refl

pub has_prefix-split : (s p : Bytes) → has_prefix s p ≡ true → (rest : Bytes) × (s ≡ p ++ rest)
unfolding has_prefix
has_prefix-split s [] h = (s, refl)
has_prefix-split [] (d ∷ p) h = absurd (ground (arith, h))
has_prefix-split (c ∷ s) (d ∷ p) h =
    let (rest, e) = has_prefix-split s p (ground (arith, h)) in
    let same_byte : c ≡ d = ground (arith, h) in
    (rest, ap (λ t. c ∷ t) e ∙ ap (λ x. x ∷ p ++ rest) same_byte)
