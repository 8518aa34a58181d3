-- ===== src/Strconv.antt =====
-- What the program uses of Go's strconv and strings to print and read numbers: Itoa, ParseInt in base
-- ten with 64 bits, TrimSpace.
pub mod Laws
use mathlib.Core.List.{foldl}
use go_code_goes_here.Prelude.{
  ℕ, zero, suc, ◌+◌, ◌-◌, ◌*◌, ◌/◌, ◌%◌, ◌^◌, Bytes, Bool, true, false, ◌&&◌, ◌||◌, List, [], ◌∷◌,
  Option, none, some, ltb, leb, ◌==◌, if◌then◌else◌,
}

-- The digits of n in front of `out`; the fuel bounds the number of digits.
unfoldable pub digits : ℕ → ℕ → Bytes → Bytes
digits zero n out = out
digits (suc fuel) n out =
    let shorter = digits fuel (n / 10) ((b'0' + n % 10) ∷ out) in
    if ltb n 10 then (b'0' + n) ∷ out else shorter

-- strconv.Itoa of a number that is not negative
unfoldable pub itoa : ℕ → Bytes
unfolding digits
itoa n = digits (suc n) n []

-- An integer, with the names of the library's: `negsuc n` is -(n + 1).
pub data ℤ : Type 0 where
  pos negsuc : ℕ → ℤ

-- The number that digits spell behind n; `none` on a byte that is no digit.
unfoldable pub read_digits : Bytes → ℕ → Option ℕ
read_digits [] n = some n
read_digits (c ∷ s) n =
    let rest = read_digits s (n * 10 + (c - b'0')) in
    if leb b'0' c && leb c b'9' then rest else none

-- strconv.ParseUint on what stands behind the sign: there has to be a digit
read_number : Bytes → Option ℕ
unfolding read_digits
read_number [] = none
read_number (c ∷ s) = read_digits (c ∷ s) 0

negated : ℕ → ℤ
negated n = if n == 0 then pos 0 else negsuc (n - 1)

-- The range of int64: -2^63 is in it, and 2^63 is not.
in_range : Bool → ℕ → Option ℤ
unfolding negated
in_range negative n =
    if negative
    then if leb n (2 ^ 63) then some (negated n) else none
    else if ltb n (2 ^ 63)
    then some (pos n)
    else none

signed : Bool → Bytes → Option ℤ
unfolding read_number in_range
signed negative s = elim (read_number s) [ none ↦ none | some n ↦ in_range negative n ]

-- strconv.ParseInt(s, 10, 64), with `none` for an error
unfoldable pub parse_int : Bytes → Option ℤ
unfolding signed
parse_int [] = none
parse_int (c ∷ s) =
    if c == b'-' then signed true s else if c == b'+' then signed false s else signed false (c ∷ s)

-- unicode.IsSpace, of ASCII
unfoldable pub is_space : ℕ → Bool
is_space c = c == b' ' || (leb 9 c && leb c 13)

unfoldable pub trim_left : Bytes → Bytes
unfolding is_space
trim_left [] = []
trim_left (c ∷ s) = if is_space c then trim_left s else c ∷ s

unfoldable pub trim_right : Bytes → Bytes
unfolding is_space
trim_right [] = []
trim_right (c ∷ s) = elim (trim_right s) [
  | [] ↦ if is_space c then [] else c ∷ []
  | d ∷ t ↦ c ∷ d ∷ t
]

-- strings.TrimSpace
unfoldable pub trim_space : Bytes → Bytes
unfolding trim_left trim_right
trim_space s = trim_right (trim_left s)
