-- ===== src/Lca/Address.antt =====
-- The test of lca/lca-manager.go on an allocator's reply, the regular expression
-- ^(?:[0-9]{1,3}\.){3}[0-9]{1,3}:[0-9]{1,5}$ as a matcher: the byte behind a run of digits is no
-- digit, so the longest run is the only one that can match.
use go_code_goes_here.Prelude.{
  ℕ, ◌≤◌, ◌≡◌, refl, ap, ◌∙◌, Bytes, Bool, true, false, ◌&&◌, [], ◌∷◌, ◌++◌, Option, none, some,
  arith, leb, ◌==◌, if◌then◌else◌, length, All, append-nil, Option-cases, inl, inr,
}

unfoldable pub is_digit : ℕ → Bool
is_digit c = leb b'0' c && leb c b'9'

-- The longest run of digits at the front, and the rest.
unfoldable pub span : Bytes → Bytes × Bytes
unfolding is_digit
span [] = ([], [])
span (c ∷ s) = let (d, rest) = span s in if is_digit c then (c ∷ d, rest) else ([], c ∷ s)

after : ℕ → Bytes → Option Bytes
after sep [] = none
after sep (c ∷ rest) = if c == sep then some rest else none

fits : ℕ → Bytes → Bool
fits max d = leb 1 (length d) && leb (length d) max

-- [0-9]{1,max} and the separator behind it
unfoldable pub field : ℕ → ℕ → Bytes → Option Bytes
unfolding span after fits
field max sep s = let (d, rest) = span s in if fits max d then after sep rest else none

-- [0-9]{1,max}$
unfoldable pub last_field : ℕ → Bytes → Bool
unfolding span fits
last_field max s = let (d, rest) = span s in elim rest [ [] ↦ fits max d | c ∷ r ↦ false ]

abbrev pub dot : ℕ
dot = b'.'

abbrev pub colon : ℕ
colon = b':'

infixl 5 ◌>>=◌
abbrev ◌>>=◌ : {A B : Type 0} → Option A → (A → Option B) → Option B
none >>= f = none
some a >>= f = f a

port_of : Bytes → Option Bytes
port_of s = do b ← field 3 dot s; c ← field 3 dot b; d ← field 3 dot c; field 3 colon d

unfoldable pub is_address : Bytes → Bool
unfolding port_of
is_address s = elim (port_of s) [ none ↦ false | some p ↦ last_field 5 p ]

abbrev pub IsDigit : ℕ → Type 0
IsDigit c = (b'0' ≤ c) × (c ≤ b'9')

-- One to max digits.
abbrev pub IsNumber : ℕ → Bytes → Type 0
IsNumber max d = All IsDigit d × (1 ≤ length d) × (length d ≤ max)

-- Four numbers of one to three digits and a port of one to five.
pub record IsAddress (s : Bytes) : Type 0 where
  pub a : Bytes
  pub b : Bytes
  pub c : Bytes
  pub d : Bytes
  pub port : Bytes
  pub spelled : s ≡ a ++ dot ∷ (b ++ dot ∷ (c ++ dot ∷ (d ++ colon ∷ port)))
  pub a_number : IsNumber 3 a
  pub b_number : IsNumber 3 b
  pub c_number : IsNumber 3 c
  pub d_number : IsNumber 3 d
  pub port_number : IsNumber 5 port

span_lem : (s : Bytes) → (s ≡ (span s).0 ++ (span s).1) × All IsDigit (span s).0
unfolding span
span_lem [] = (refl, tt)
span_lem (c ∷ s) = let (e, h) = span_lem s in ground (arith, e, h, ap (λ (t : Bytes). c ∷ t) e)

span-append :
    (d : Bytes) (c : ℕ) (rest : Bytes)
    → All IsDigit d
    → is_digit c ≡ false
    → span (d ++ c ∷ rest) ≡ (d, c ∷ rest)
unfolding span
span-append [] c rest h e = ground arith
span-append (x ∷ d) c rest h e = ground (arith, span-append d c rest h.1 e)

span-digits : (d : Bytes) → All IsDigit d → span d ≡ (d, [])
unfolding span
span-digits [] h = refl
span-digits (x ∷ d) h = ground (arith, span-digits d h.1)

after_sound : (sep : ℕ) (t r : Bytes) → after sep t ≡ some r → t ≡ sep ∷ r
unfolding after
after_sound sep [] r h = cc
after_sound sep (c ∷ t) r h = ground arith

field_sound :
    (max sep : ℕ) (s r : Bytes)
    → field max sep s ≡ some r
    → (d : Bytes) × (s ≡ d ++ sep ∷ r) × IsNumber max d
unfolding field
field_sound max sep s r h =
    let (e, digits) = span_lem s in
    let rest : after sep (span s).1 ≡ some r = ground arith in
    (
      (span s).0,
      e ∙ ap (λ t. (span s).0 ++ t) (after_sound sep (span s).1 r rest),
      (digits, ground arith, ground arith),
    )

field_complete :
    (max sep : ℕ) (d r : Bytes)
    → IsNumber max d
    → is_digit sep ≡ false
    → field max sep (d ++ sep ∷ r) ≡ some r
unfolding field
field_complete max sep d r h e = rw (span-append d sep r h.0 e, field) (ground arith)

last_field_sound : (max : ℕ) (s : Bytes) → last_field max s ≡ true → IsNumber max s
unfolding last_field
last_field_sound max s h = go (span s).1 refl
  where
    go : (rest : Bytes) → (span s).1 ≡ rest → IsNumber max s
    go [] e =
        let (whole, digits) = span_lem s in
        let same_text : s ≡ (span s).0 =
          whole ∙ ap (λ t. (span s).0 ++ t) e ∙ append-nil (span s).0 in
        let whole_fits : fits max (span s).0 ≡ true = ground arith in
        rw same_text (digits, ground arith, ground arith)
    go (c ∷ r) e = absurd (ground arith)

last_field_complete : (max : ℕ) (s : Bytes) → IsNumber max s → last_field max s ≡ true
unfolding last_field
last_field_complete max s h = ground (arith, span-digits s h.0)

bind-eq-some :
    {A B : Type 0} (m : Option A) (f : A → Option B) {b : B}
    → (m >>= f) ≡ some b
    → (a : A) × (m ≡ some a) × (f a ≡ some b)
bind-eq-some none f h = cc
bind-eq-some (some a) f h = (a, refl, h)

-- A text that passes the test is four numbers of one to three digits, with dots between them, and
-- behind a colon one to five digits.
pub is_address_sound : (s : Bytes) → is_address s ≡ true → IsAddress s
unfolding is_address
is_address_sound s h = elim (Option-cases (port_of s)) [
  | inl e ↦ absurd (ground arith)
  | inr (p, e) ↦
      let (b, e1, k1) = bind-eq-some (field 3 dot s) _ e in
      let (c, e2, k2) = bind-eq-some (field 3 dot b) _ k1 in
      let (d, e3, e4) = bind-eq-some (field 3 dot c) _ k2 in
      let (f1, s1, n1) = field_sound 3 dot s b e1 in
      let (f2, s2, n2) = field_sound 3 dot b c e2 in
      let (f3, s3, n3) = field_sound 3 dot c d e3 in
      let (f4, s4, n4) = field_sound 3 colon d p e4 in
      record {
        a = f1;
        b = f2;
        c = f3;
        d = f4;
        port = p;
        spelled =
            s1
            ∙ ap (λ t. f1 ++ dot ∷ t)
                (s2 ∙ ap (λ t. f2 ++ dot ∷ t) (s3 ∙ ap (λ t. f3 ++ dot ∷ t) s4));
        a_number = n1;
        b_number = n2;
        c_number = n3;
        d_number = n4;
        port_number = last_field_sound 5 p (ground (arith, e, h));
      }
]

-- Every text of four numbers of one to three digits, with dots between them, and behind a colon one to
-- five digits, passes the test.
pub is_address_complete : (s : Bytes) → IsAddress s → is_address s ≡ true
unfolding is_address
is_address_complete s h = rw h.spelled (
    rw (field_complete 3 dot h.a _ h.a_number dot_ends, is_address)
      (rw (field_complete 3 dot h.b _ h.b_number dot_ends) (
        rw (field_complete 3 dot h.c _ h.c_number dot_ends) (
          rw (field_complete 3 colon h.d h.port h.d_number colon_ends)
            (last_field_complete 5 h.port h.port_number)))))
  where
    dot_ends : is_digit dot ≡ false
    dot_ends = unfold is_digit in refl

    colon_ends : is_digit colon ≡ false
    colon_ends = unfold is_digit in refl
