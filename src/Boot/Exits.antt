-- ===== src/Boot/Exits.antt =====
-- How a main function goes on: a call that fails ends the program by log.Fatal, or by its usage and
-- os.Exit(1). A main function is a chain of such calls, in a do block.
use go_code_goes_here.Prelude.{◌≡◌, refl, Option, none, some}
use go_code_goes_here.World.{Error, Result, ok, err}

pub data Exit : Type 0 where
  fatal : Error → Exit
  no_bootstraps usage : Exit

pub data Outcome (A : Type 0) : Type 0 where
  starts : A → Outcome A
  exits : Exit → Outcome A

-- `if err != nil { log.Fatal… }`
abbrev pub settle : {A : Type 0} → Result A → Outcome A
settle (ok a) = starts a
settle (err e) = exits (fatal e)

abbrev pub passed : Option Error → Outcome (Unit {0})
passed none = starts tt
passed (some e) = exits (fatal e)

module _ {S : Type 0} where
  abbrev pub follow : {A B : Type 0} → (A → S → Outcome B × S) → Outcome A → S → Outcome B × S
  follow f (starts a) s = f a s
  follow f (exits e) s = (exits e, s)

  infixl 5 ◌>>=◌ ◌>>◌
  unfoldable pub ◌>>=◌ :
      {A B : Type 0} → (S → Outcome A × S) → (A → S → Outcome B × S) → S → Outcome B × S
  (m >>= f) s = follow f (m s).0 (m s).1

  abbrev pub ◌>>◌ :
      {B : Type 0} → (S → Outcome (Unit {0}) × S) → (S → Outcome B × S) → S → Outcome B × S
  m >> k = m >>= λ _. k

  abbrev pub give : {A : Type 0} → A → S → Outcome A × S
  give a s = (starts a, s)

  abbrev pub stop : {A : Type 0} → Exit → S → Outcome A × S
  stop e s = (exits e, s)

  abbrev pub or_fatal : {A : Type 0} → (S → Result A × S) → S → Outcome A × S
  or_fatal m s = (settle (m s).0, (m s).1)

  abbrev pub checked : (S → Option Error × S) → S → Outcome (Unit {0}) × S
  checked m s = (passed (m s).0, (m s).1)

  abbrev pub pure_or_fatal : {A : Type 0} → Result A → S → Outcome A × S
  pure_or_fatal r s = or_fatal (λ s. (r, s)) s

-- What holds of a program that starts.
pub data Started {S A : Type 0} (P : A → Type 0) : Outcome A × S → Type 0 where
  starting : {a : A} {s : S} → P a → Started P (starts a, s)
  exiting : {e : Exit} {s : S} → Started P (exits e, s)

module _ {S A B : Type 0} {P : A → Type 0} {Q : B → Type 0} where
  -- What the first call establishes, the rest may use.
  pub >>=-Started :
      (m : S → Outcome A × S) (f : A → S → Outcome B × S) (s : S)
      → Started P (m s)
      → ((a : A) (s' : S) → P a → Started Q (f a s'))
      → Started Q ((m >>= f) s)
  unfolding ◌>>=◌
  >>=-Started m f s h k = go (m s).0 (m s).1 h
    where
      go : (r : Outcome A) (s' : S) → Started P (r, s') → Started Q (follow f r s')
      go (starts a) s' (starting h) = k a s' h
      go (exits e) s' h = exiting

pub anything : {S A : Type 0} (r : Outcome A) (s : S) → Started (λ _. Unit {0}) (r, s)
anything (starts a) s = starting tt
anything (exits e) s = exiting

module _ {S A B : Type 0} {Q : B → Type 0} where
  -- Nothing is known of the first call.
  pub then-Started :
      (m : S → Outcome A × S) (f : A → S → Outcome B × S) (s : S)
      → ((a : A) (s' : S) → Started Q (f a s'))
      → Started Q ((m >>= f) s)
  then-Started m f s k = >>=-Started m f s (anything (m s).0 (m s).1) (λ a s' h. k a s')

pub settle-Started :
    {S A : Type 0} {P : A → Type 0} (r : Result A) (s : S)
    → ((a : A) → r ≡ ok a → P a)
    → Started P (settle r, s)
settle-Started (ok a) s k = starting (k a refl)
settle-Started (err e) s k = exiting
