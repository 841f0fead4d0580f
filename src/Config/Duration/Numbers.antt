-- ===== src/Config/Duration/Numbers.antt =====
-- pick_number and skip_space on text that is written as a number.
use libatapp.Prelude.{
  ℕ, ◌+◌, ◌*◌, ◌%◌, ◌^◌, ◌<◌, ◌≤◌, ◌≡◌, refl, ap, ◌∙◌, Bool, true, false, not, ◌&&◌, Option, none,
  some, List, [], ◌∷◌, ◌++◌, map, ◌==◌, arith, if◌then◌else◌,
}
use libatapp.Config.Duration.{
  decimal_digit, octal_digit, hex_digit, Picked, pick_digits, pick_signs, negate_if, skip_space,
  pick_unsigned, pick_number,
}
use libatapp.Config.Duration.Units.{bits_of}

-- the number that digits stand for, behind a number that was read
abbrev pub value : ℕ → List ℕ → ℕ
value n [] = n
value n (d ∷ ds) = value (n * 10 + d) ds

abbrev pub digit_byte : ℕ → ℕ
digit_byte d = b'0' + d

abbrev pub AllDigits : List ℕ → Type 0
AllDigits [] = Unit
AllDigits (d ∷ ds) = (d < 10) × AllDigits ds

value_ge : (n : ℕ) (ds : List ℕ) → n ≤ value n ds
value_ge n [] = omega arith
value_ge n (d ∷ ds) = omega (arith, value_ge (n * 10 + d) ds)

digit-byte : (d : ℕ) → d < 10 → decimal_digit (digit_byte d) ≡ some d
digit-byte d h = ground (arith, h)

-- text that does not go on with a digit
abbrev NoDigit : List ℕ → Type 0
NoDigit [] = Unit
NoDigit (c ∷ cs) = decimal_digit c ≡ none

pick_digits-stop :
    (n : ℕ) (rest : List ℕ) → NoDigit rest → pick_digits decimal_digit 10 n rest ≡ (n, rest)
unfolding pick_digits
pick_digits-stop n [] h = refl
pick_digits-stop n (c ∷ cs) h =
    ap
      (λ o. elim o as (λ (x : Option ℕ). Picked) [
        | none ↦ (n, c ∷ cs)
        | some e ↦ pick_digits decimal_digit 10 ((n * 10 + e) % 2 ^ 64) cs
      ])
      h

pick_digits-value :
    (n : ℕ) (ds rest : List ℕ)
    → AllDigits ds
    → NoDigit rest
    → value n ds < 2 ^ 63
    → pick_digits decimal_digit 10 n (map digit_byte ds ++ rest) ≡ (value n ds, rest)
unfolding pick_digits
pick_digits-value n [] rest h stop low = pick_digits-stop n rest stop
pick_digits-value n (d ∷ ds) rest h stop low =
    let fits : (n * 10 + d) % 2 ^ 64 ≡ n * 10 + d = omega (arith, value_ge (n * 10 + d) ds, low) in
    ap
      (λ o. elim o as (λ (x : Option ℕ). Picked) [
        | none ↦ (n, digit_byte d ∷ (map digit_byte ds ++ rest))
        | some e ↦ pick_digits decimal_digit 10 ((n * 10 + e) % 2 ^ 64) (map digit_byte ds ++ rest)
      ])
      (digit-byte d h.0)
    ∙ ap (λ m. pick_digits decimal_digit 10 m (map digit_byte ds ++ rest)) fits
    ∙ pick_digits-value (n * 10 + d) ds rest h.1 stop low

if_false : (b : Bool) (x y : Picked) → b ≡ false → (if b then x else y) ≡ y
if_false b x y e = ap (λ v. if v then x else y) e

pick_signs-digit :
    (b : Bool) (d : ℕ) (rest : List ℕ)
    → d < 10
    → pick_signs b (digit_byte d ∷ rest) ≡ (b, digit_byte d ∷ rest)
unfolding pick_signs
pick_signs-digit b d rest h =
    let no : digit_byte d == b'-' ≡ false = ground (arith, h) in
    ap (λ v. if v then pick_signs (not b) rest else (b, digit_byte d ∷ rest)) no

-- What is relied on of the utility library: a space is one of the first 33 bytes, and a byte before the
-- letter A has no other small form.
pub record IsAscii (is_space : ℕ → Bool) (tolower : ℕ → ℕ) : Type 0 where
  pub space_low : (c : ℕ) → is_space c ≡ true → c ≤ 32
  pub lower_same : (c : ℕ) → c < 65 → tolower c ≡ c

module _ (is_space : ℕ → Bool) (tolower : ℕ → ℕ) (ascii : IsAscii is_space tolower) where
  abbrev pub AllSpace : List ℕ → Type 0
  AllSpace [] = Unit
  AllSpace (c ∷ cs) = (is_space c ≡ true) × AllSpace cs

  abbrev pub NoSpace : List ℕ → Type 0
  NoSpace [] = Unit
  NoSpace (c ∷ cs) = is_space c ≡ false

  pub skip_space-gap :
      (gap rest : List ℕ)
      → AllSpace gap
      → NoSpace rest
      → skip_space is_space tolower (gap ++ rest) ≡ rest
  unfolding skip_space
  skip_space-gap [] [] g h = refl
  skip_space-gap [] (c ∷ cs) g h = rw h refl
  skip_space-gap (c ∷ gap) rest g h = rw g.0 (skip_space-gap gap rest g.1 h)

  pub high_NoSpace : (c : ℕ) → 32 < c → is_space c ≡ false
  high_NoSpace c h = ground (arith, ascii.space_low c, h)

  -- text that goes on with no digit, nor with an x
  abbrev pub Ends : List ℕ → Type 0
  Ends [] = Unit
  Ends (c ∷ cs) = (decimal_digit c ≡ none) × (tolower c == b'x' ≡ false)

  Ends-NoDigit : (rest : List ℕ) → Ends rest → NoDigit rest
  Ends-NoDigit [] h = tt
  Ends-NoDigit (c ∷ cs) h = h.0

  two_bytes :
      (c d : ℕ) (ds : List ℕ)
      → (c == b'0' && tolower d == b'x') ≡ false
      → c == b'\\' ≡ false
      → pick_unsigned is_space tolower (c ∷ d ∷ ds) ≡ pick_digits decimal_digit 10 0 (c ∷ d ∷ ds)
  unfolding pick_unsigned
  two_bytes c d ds x o =
      if_false (c == b'0' && tolower d == b'x') (pick_digits (λ e. hex_digit (tolower e)) 16 0 ds)
        (if c == b'\\'
          then pick_digits octal_digit 8 0 (d ∷ ds)
          else pick_digits decimal_digit 10 0 (c ∷ d ∷ ds))
        x
      ∙ if_false (c == b'\\') (pick_digits octal_digit 8 0 (d ∷ ds))
          (pick_digits decimal_digit 10 0 (c ∷ d ∷ ds)) o

  pick_unsigned-value :
      (d : ℕ) (ds rest : List ℕ)
      → AllDigits (d ∷ ds)
      → Ends rest
      → value 0 (d ∷ ds) < 2 ^ 63
      → pick_unsigned is_space tolower (map digit_byte (d ∷ ds) ++ rest) ≡ (value 0 (d ∷ ds), rest)
  unfolding pick_unsigned
  pick_unsigned-value d [] [] h e low =
      if_false (digit_byte d == b'\\') (0, []) (pick_digits decimal_digit 10 0 (digit_byte d ∷ []))
        (ground (arith, h.0))
      ∙ pick_digits-value 0 (d ∷ []) [] h tt low
  pick_unsigned-value d [] (c ∷ cs) h e low =
      two_bytes (digit_byte d) c cs (ground (arith, e.1)) (ground (arith, h.0))
      ∙ pick_digits-value 0 (d ∷ []) (c ∷ cs) h e.0 low
  pick_unsigned-value d (d' ∷ ds) rest h e low =
      let digit : tolower (digit_byte d') ≡ digit_byte d' =
        ascii.lower_same (digit_byte d') (omega (arith, h.1.0)) in
      let no_x : tolower (digit_byte d') == b'x' ≡ false =
        ap (λ c. c == b'x') digit ∙ ground (arith, h.1.0) in
      two_bytes (digit_byte d) (digit_byte d') (map digit_byte ds ++ rest) (ground (arith, no_x))
        (ground (arith, h.0))
      ∙ pick_digits-value 0 (d ∷ d' ∷ ds) rest h (Ends-NoDigit rest e) low

  abbrev pub minus_sign : Bool → List ℕ → List ℕ
  minus_sign false text = text
  minus_sign true text = b'-' ∷ text

  pub pick_number-value :
      (minus : Bool) (d : ℕ) (ds rest : List ℕ)
      → AllDigits (d ∷ ds)
      → Ends rest
      → value 0 (d ∷ ds) < 2 ^ 63
      → pick_number is_space tolower (minus_sign minus (map digit_byte (d ∷ ds) ++ rest))
        ≡ (bits_of minus (value 0 (d ∷ ds)), rest)
  unfolding pick_number pick_signs
  pick_number-value false d ds rest h e low =
      ap (λ p. negate_if p.0 (pick_unsigned is_space tolower p.1))
        (pick_signs-digit false d (map digit_byte ds ++ rest) h.0)
      ∙ ap (negate_if false) (pick_unsigned-value d ds rest h e low)
  pick_number-value true d ds rest h e low =
      ap (λ p. negate_if p.0 (pick_unsigned is_space tolower p.1))
        (pick_signs-digit true d (map digit_byte ds ++ rest) h.0)
      ∙ ap (negate_if true) (pick_unsigned-value d ds rest h e low)
