-- ===== src/Config/Duration/Meaning.antt =====
-- A duration that is written as a number with a unit is read as that number of the unit.
use mathlib.Core.Path.{subst}
use mathlib.Core.List.{Memᴰ}
use libatapp.Prelude.{
  All, ℕ, ◌*◌, ◌^◌, ◌<◌, ◌≤◌, ◌≡◌, refl, sym, ap, ◌∙◌, Bool, true, false, List, [], ◌∷◌, ◌++◌, map,
  ◌==◌, arith,
}
use libatapp.Config.Duration.{skip_space, pick_number, with_unit, pick_const_data}
use libatapp.Config.Duration.Units.{
  DurationUnit, nanosecond, microsecond, millisecond, second, minute, hour, day, week, names, size,
  factor, All-Mem, with_unit-names, by_unit, IsMeant, bits_of, by_unit-IsMeant,
}
use libatapp.Config.Duration.Numbers.{
  value, digit_byte, AllDigits, IsAscii, AllSpace, NoSpace, skip_space-gap, high_NoSpace, Ends,
  minus_sign, pick_number-value,
}

-- the name of a unit begins with a small letter, which is not x
abbrev Head : List ℕ → Type 0
Head [] = Unit
Head (c ∷ cs) = (97 ≤ c) × (c == b'x' ≡ false)

names_begin : (u : DurationUnit) → All Head (names u)
names_begin nanosecond = ((omega arith, refl), ((omega arith, refl), ((omega arith, refl), tt)))
names_begin microsecond = ((omega arith, refl), ((omega arith, refl), ((omega arith, refl), tt)))
names_begin millisecond = ((omega arith, refl), ((omega arith, refl), ((omega arith, refl), tt)))
names_begin second = (
  tt,
  ((omega arith, refl), ((omega arith, refl), ((omega arith, refl), ((omega arith, refl), tt)))),
)
names_begin minute = ((omega arith, refl), ((omega arith, refl), ((omega arith, refl), tt)))
names_begin hour = ((omega arith, refl), ((omega arith, refl), ((omega arith, refl), tt)))
names_begin day = ((omega arith, refl), ((omega arith, refl), ((omega arith, refl), tt)))
names_begin week = ((omega arith, refl), ((omega arith, refl), ((omega arith, refl), tt)))

value_fits : (u : DurationUnit) (n : ℕ) → n * factor u < 2 ^ 63 → n < 2 ^ 63
value_fits nanosecond n h = omega (arith, h)
value_fits microsecond n h = omega (arith, h)
value_fits millisecond n h = omega (arith, h)
value_fits second n h = omega (arith, h)
value_fits minute n h = omega (arith, h)
value_fits hour n h = omega (arith, h)
value_fits day n h = omega (arith, h)
value_fits week n h = omega (arith, h)

module _ (is_space : ℕ → Bool) (tolower : ℕ → ℕ) (ascii : IsAscii is_space tolower) where
  letter_high : (c : ℕ) → 97 ≤ tolower c → 65 ≤ c
  letter_high c h = ground (arith, ascii.lower_same c, h)

  word-NoSpace : (word : List ℕ) → Head (map tolower word) → NoSpace is_space tolower ascii word
  word-NoSpace [] h = tt
  word-NoSpace (c ∷ cs) h = high_NoSpace is_space tolower ascii c (omega (arith, letter_high c h.0))

  word-Ends : (word : List ℕ) → Head (map tolower word) → Ends is_space tolower ascii word
  word-Ends [] h = tt
  word-Ends (c ∷ cs) h = (ground (arith, letter_high c h.0), h.1)

  gap-Ends :
      (gap word : List ℕ)
      → AllSpace is_space tolower ascii gap
      → Head (map tolower word)
      → Ends is_space tolower ascii (gap ++ word)
  gap-Ends [] word g h = word-Ends word h
  gap-Ends (c ∷ gap) word g h =
      let low = ascii.space_low c g.0 in
      (
        ground (arith, low),
        ap (λ d. d == b'x') (ascii.lower_same c (omega (arith, low))) ∙ ground (arith, low),
      )

  number-NoSpace :
      (minus : Bool) (d : ℕ) (rest : List ℕ)
      → NoSpace is_space tolower ascii
          (minus_sign is_space tolower ascii minus (digit_byte d ∷ rest))
  number-NoSpace false d rest = high_NoSpace is_space tolower ascii (digit_byte d) (omega arith)
  number-NoSpace true d rest = high_NoSpace is_space tolower ascii b'-' (omega arith)

  -- A text of a number and the name of a unit, in letters of any size and with spaces in front of either,
  -- is read as that many units, with the sign of the number, if the number is below 2 ^ 63 and, for
  -- minutes and longer units, the number of seconds that it makes is so too.
  pub pick_const_data-IsMeant :
      (u : DurationUnit) (minus : Bool) (d : ℕ) (ds lead gap word : List ℕ)
      → AllDigits (d ∷ ds)
      → AllSpace is_space tolower ascii lead
      → AllSpace is_space tolower ascii gap
      → Memᴰ (map tolower word) (names u)
      → value 0 (d ∷ ds) * factor u < 2 ^ 63
      → IsMeant minus (value 0 (d ∷ ds) * size u) (
          pick_const_data is_space tolower (
            lead
            ++ minus_sign is_space tolower ascii minus (map digit_byte (d ∷ ds) ++ (gap ++ word))))
  unfolding pick_const_data
  pick_const_data-IsMeant u minus d ds lead gap word digits l g m fits =
      let n = value 0 (d ∷ ds) in
      let head = All-Mem Head (map tolower word) (names u) (names_begin u) m in
      let text =
        minus_sign is_space tolower ascii minus (map digit_byte (d ∷ ds) ++ (gap ++ word)) in
      let trimmed =
        skip_space-gap is_space tolower ascii lead text l
          (number-NoSpace minus d (map digit_byte ds ++ (gap ++ word))) in
      let number =
        pick_number-value is_space tolower ascii minus d ds (gap ++ word) digits
          (gap-Ends gap word g head) (value_fits u n fits) in
      let unit = skip_space-gap is_space tolower ascii gap word g (word-NoSpace word head) in
      let read =
        ap
          (λ t.
            let (bits, rest) = pick_number is_space tolower t in
            with_unit bits (map tolower (skip_space is_space tolower rest)))
          trimmed
        ∙ ap (λ p. with_unit p.0 (map tolower (skip_space is_space tolower p.1))) number
        ∙ ap (λ w. with_unit (bits_of minus n) (map tolower w)) unit
        ∙ All-Mem (λ w. with_unit (bits_of minus n) w ≡ by_unit u (bits_of minus n))
            (map tolower word) (names u) (with_unit-names (bits_of minus n) u) m in
      subst (IsMeant minus (n * size u)) (sym read) (by_unit-IsMeant minus u n fits)
