-- ===== src/App/Id/Digits.antt =====
-- The digits of a number on a stream, in decimal or in hexadecimal.
use libatapp.Prelude.{
  ℕ, zero, suc, ◌+◌, ◌*◌, ◌/◌, ◌%◌, ◌^◌, ◌<◌, ◌≡◌, refl, ap, ◌∙◌, Bool, true, false, List, [], ◌∷◌,
  ◌++◌, ◌==◌, arith, if-cases,
}
use libatapp.App.Id.{is_blank, digit_char, digits, chars, shown_number}

abbrev pub base_of : Bool → ℕ
base_of true = 16
base_of false = 10

-- what stands in front of the digits
abbrev pub prefix : Bool → List ℕ
prefix true = b'0' ∷ b'x' ∷ []
prefix false = []

-- the number that digits stand for, behind a number that was read
abbrev pub number : Bool → ℕ → List ℕ → ℕ
number hex n [] = n
number hex n (d ∷ ds) = number hex (n * base_of hex + d) ds

abbrev pub AllDigits : Bool → List ℕ → Type 0
AllDigits hex [] = Unit
AllDigits hex (d ∷ ds) = (d < base_of hex) × AllDigits hex ds

-- there is a first digit
abbrev pub Starts : List ℕ → Type 0
Starts [] = ⊥
Starts (d ∷ ds) = Unit

-- the numbers that some digits are enough for
abbrev room_of : Bool → ℕ → ℕ
room_of hex zero = 1
room_of hex (suc n) = base_of hex * room_of hex n

div-mod : (hex : Bool) (n : ℕ) → n / base_of hex * base_of hex + n % base_of hex ≡ n
div-mod true n = omega arith
div-mod false n = omega arith

only_digit :
    (hex : Bool) (n : ℕ) → (n / base_of hex == 0) ≡ true → 0 * base_of hex + n % base_of hex ≡ n
only_digit true n e = ground (arith, e)
only_digit false n e = ground (arith, e)

div-room_of :
    (hex : Bool) (n fuel : ℕ) → n < room_of hex (suc fuel) → n / base_of hex < room_of hex fuel
div-room_of true n fuel h = omega (arith, h)
div-room_of false n fuel h = omega (arith, h)

mod-base_of : (hex : Bool) (n : ℕ) → n % base_of hex < base_of hex
mod-base_of true n = omega arith
mod-base_of false n = omega arith

digits-number :
    (hex : Bool) (fuel n : ℕ) (later : List ℕ)
    → n < room_of hex fuel
    → number hex 0 (digits (base_of hex) fuel n later) ≡ number hex n later
unfolding digits
digits-number hex zero n later h = ap (λ x. number hex x later) (omega (arith, h))
digits-number hex (suc fuel) n later h =
    if-cases (λ ds. number hex 0 ds ≡ number hex n later) (n / base_of hex == 0) _ _
      (λ e. ap (λ x. number hex x later) (only_digit hex n e))
      (λ e.
        digits-number hex fuel (n / base_of hex) (n % base_of hex ∷ later)
          (div-room_of hex n fuel h)
        ∙ ap (λ x. number hex x later) (div-mod hex n))

digits-AllDigits :
    (hex : Bool) (fuel n : ℕ) (later : List ℕ)
    → AllDigits hex later
    → AllDigits hex (digits (base_of hex) fuel n later)
unfolding digits
digits-AllDigits hex zero n later h = h
digits-AllDigits hex (suc fuel) n later h =
    let all : AllDigits hex (n % base_of hex ∷ later) = (mod-base_of hex n, h) in
    if-cases (AllDigits hex) (n / base_of hex == 0) _ _ (λ e. all)
      (λ e. digits-AllDigits hex fuel (n / base_of hex) (n % base_of hex ∷ later) all)

digits-Starts :
    (base fuel n : ℕ) (later : List ℕ) → Starts later → Starts (digits base fuel n later)
unfolding digits
digits-Starts base zero n later h = h
digits-Starts base (suc fuel) n later h =
    if-cases Starts (n / base == 0) _ _ (λ e. tt)
      (λ e. digits-Starts base fuel (n / base) (n % base ∷ later) tt)

digits-Starts_any : (base fuel n : ℕ) → Starts (digits base (suc fuel) n [])
unfolding digits
digits-Starts_any base fuel n =
    if-cases Starts (n / base == 0) _ _ (λ e. tt)
      (λ e. digits-Starts base fuel (n / base) (n % base ∷ []) tt)

-- the digits of a number of 63 bits
unfoldable pub numerals : Bool → ℕ → List ℕ
unfolding digits
numerals hex n = digits (base_of hex) 20 n []

pub numerals-AllDigits : (hex : Bool) (n : ℕ) → AllDigits hex (numerals hex n)
unfolding numerals
numerals-AllDigits hex n = digits-AllDigits hex 20 n [] tt

pub numerals-Starts : (hex : Bool) (n : ℕ) → Starts (numerals hex n)
unfolding numerals
numerals-Starts hex n = digits-Starts_any (base_of hex) 19 n

pub numerals-number : (hex : Bool) (n : ℕ) → n < 2 ^ 63 → number hex 0 (numerals hex n) ≡ n
unfolding numerals
numerals-number true n h = digits-number true 20 n [] (omega (arith, h))
numerals-number false n h = digits-number false 20 n [] (omega (arith, h))

pub shown_number-numerals :
    (hex : Bool) (n : ℕ) → shown_number hex n ≡ prefix hex ++ chars (numerals hex n)
unfolding shown_number numerals
shown_number-numerals true n = refl
shown_number-numerals false n = refl

-- no dot, and something that is not blank at the front
abbrev pub NoDots : List ℕ → Type 0
NoDots [] = Unit
NoDots (c ∷ cs) = ((c == b'.') ≡ false) × NoDots cs

abbrev pub IsText : List ℕ → Type 0
IsText [] = ⊥
IsText (c ∷ cs) = (is_blank c ≡ false) × NoDots (c ∷ cs)

digit_char_lem :
    (hex : Bool) (d : ℕ)
    → d < base_of hex
    → (is_blank (digit_char d) ≡ false) × ((digit_char d == b'.') ≡ false)
digit_char_lem true d h = (ground (arith, h), ground (arith, h))
digit_char_lem false d h = (ground (arith, h), ground (arith, h))

chars-NoDots : (hex : Bool) (ds : List ℕ) → AllDigits hex ds → NoDots (chars ds)
chars-NoDots hex [] h = tt
chars-NoDots hex (d ∷ ds) h = ((digit_char_lem hex d h.0).1, chars-NoDots hex ds h.1)

chars-IsText :
    (hex : Bool) (ds : List ℕ) → AllDigits hex ds → Starts ds → IsText (prefix hex ++ chars ds)
chars-IsText true ds h s = (refl, (refl, (refl, chars-NoDots true ds h)))
chars-IsText false [] h s = absurd s
chars-IsText false (d ∷ ds) h s = ((digit_char_lem false d h.0).0, chars-NoDots false (d ∷ ds) h)

pub numerals-IsText : (hex : Bool) (n : ℕ) → IsText (prefix hex ++ chars (numerals hex n))
numerals-IsText hex n =
    chars-IsText hex (numerals hex n) (numerals-AllDigits hex n) (numerals-Starts hex n)
