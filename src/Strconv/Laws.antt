-- ===== src/Strconv/Laws.antt =====
-- What Itoa prints, and that ParseInt reads it back.
use go_code_goes_here.Prelude.{
  ℕ, zero, suc, ◌+◌, ◌/◌, ◌%◌, ◌^◌, ◌≤◌, ◌<◌, ◌≡◌, refl, Bytes, [], ◌∷◌, ◌++◌, some, arith, length,
  All,
}
use native.Mathlib.Nat.{pow-suc}
use go_code_goes_here.Strconv.{
  pos, digits, itoa, read_digits, parse_int, trim_left, trim_right, trim_space,
}

abbrev pub IsDigit : ℕ → Type 0
IsDigit c = (b'0' ≤ c) × (c ≤ b'9')

digits-IsDigit : (fuel n : ℕ) (out : Bytes) → All IsDigit out → All IsDigit (digits fuel n out)
unfolding digits
digits-IsDigit zero n out h = h
digits-IsDigit (suc fuel) n out h =
    ground (arith, digits-IsDigit fuel (n / 10) ((b'0' + n % 10) ∷ out))

pub itoa-IsDigit : (n : ℕ) → All IsDigit (itoa n)
unfolding itoa
itoa-IsDigit n = digits-IsDigit (suc n) n [] tt

-- At most as many digits as the power of ten above n has zeros.
length-digits-le :
    (fuel n k : ℕ) (out : Bytes) → n < 10 ^ suc k → length (digits fuel n out) ≤ suc k + length out
unfolding digits
length-digits-le zero n k out h = omega arith
length-digits-le (suc fuel) n zero out h = ground arith
length-digits-le (suc fuel) n (suc k) out h =
    ground (arith, length-digits-le fuel (n / 10) k ((b'0' + n % 10) ∷ out), pow-suc 10 (suc k))

length-digits-ge : (fuel n : ℕ) (out : Bytes) → length out ≤ length (digits fuel n out)
unfolding digits
length-digits-ge zero n out = omega arith
length-digits-ge (suc fuel) n out =
    ground (arith, length-digits-ge fuel (n / 10) ((b'0' + n % 10) ∷ out))

pub length-itoa_pos : (n : ℕ) → 1 ≤ length (itoa n)
unfolding itoa
length-itoa_pos n = ground (arith, length-digits-ge n (n / 10) ((b'0' + n % 10) ∷ []))

-- A port number has at most five digits.
pub length-itoa_port : (n : ℕ) → n < 65536 → length (itoa n) ≤ 5
unfolding itoa
length-itoa_port n h =
    let in_five : n < 10 ^ 5 = omega arith in omega (arith, length-digits-le (suc n) n 4 [] in_five)

read_digits-digits :
    (fuel n : ℕ) (out : Bytes) → n < fuel → read_digits (digits fuel n out) 0 ≡ read_digits out n
unfolding read_digits digits
read_digits-digits zero n out h = absurd (omega arith)
read_digits-digits (suc fuel) n out h =
    ground (arith, read_digits-digits fuel (n / 10) ((b'0' + n % 10) ∷ out))

pub read_digits-itoa : (n : ℕ) → read_digits (itoa n) 0 ≡ some n
unfolding itoa read_digits
read_digits-itoa n = read_digits-digits (suc n) n [] (omega arith)

-- A text of digits with no sign reads as the number that its digits spell.
parse_int-digits :
    (d : Bytes) (n : ℕ)
    → All IsDigit d
    → 1 ≤ length d
    → read_digits d 0 ≡ some n
    → n < 2 ^ 63
    → parse_int d ≡ some (pos n)
unfolding parse_int
parse_int-digits [] n h l r f = absurd (omega arith)
parse_int-digits (c ∷ d) n h l r f = ground arith

-- ParseInt reads back what Itoa prints, in the range of int64.
pub parse_int-itoa : (n : ℕ) → n < 2 ^ 63 → parse_int (itoa n) ≡ some (pos n)
parse_int-itoa n f =
    parse_int-digits (itoa n) n (itoa-IsDigit n) (length-itoa_pos n) (read_digits-itoa n) f

trim_left-digits : (d : Bytes) (c : ℕ) → IsDigit c → trim_left (c ∷ d) ≡ c ∷ d
unfolding trim_left
trim_left-digits d c h = ground arith

trim_right-digits : (d : Bytes) → All IsDigit d → trim_right (d ++ b'\n' ∷ []) ≡ d
unfolding trim_right
trim_right-digits [] h = refl
trim_right-digits (c ∷ []) h = ground arith
trim_right-digits (c ∷ e ∷ d) h = ground (arith, trim_right-digits (e ∷ d) h.1)

-- TrimSpace takes the newline off a printed number.
pub trim_space-digits : (d : Bytes) → All IsDigit d → trim_space (d ++ b'\n' ∷ []) ≡ d
unfolding trim_space
trim_space-digits [] h = refl
trim_space-digits (c ∷ d) h =
    rw (trim_left-digits (d ++ b'\n' ∷ []) c h.0) (trim_right-digits (c ∷ d) h)
