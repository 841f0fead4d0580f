-- ===== src/Config/Duration.antt =====
-- Durations in text: pick_number at int64_t and pick_const_data for a Duration, with skip_space, in
-- src/atframe/atapp_conf.cpp, over lists of bytes. A number is kept as its 64 bits, and an overflow of
-- it wraps around. `is_space` and `tolower` are those of the utility library.
pub mod Units
pub mod Numbers
pub mod Meaning
pub mod Tests
use Prim.Native.Char.{code}
use Prim.Native.String.{String}
use libatapp.Prelude.{
  bytes_eq, ℕ, zero, suc, ◌+◌, ◌-◌, ◌*◌, ◌%◌, ◌^◌, Bool, true, false, not, ◌&&◌, ◌||◌, Option, none,
  some, List, [], ◌∷◌, map, leb, ltb, ◌==◌, if◌then◌else◌,
}
use libatapp.Prelude.Int.{ℤ, pos, from_low64, to_int32, quotient, remainder, scaled}

-- the bytes of a literal
abbrev pub bytes_of : String → List ℕ
bytes_of String.[] = []
bytes_of (String.◌∷◌ c s) = code c ∷ bytes_of s

pub record Duration : Type 0 where
  pub seconds : ℤ
  pub nanos : ℤ

-- the digits of base 10, of base 16 in small letters, and of base 8
abbrev pub decimal_digit : ℕ → Option ℕ
decimal_digit c = if leb b'0' c && leb c b'9' then some (c - b'0') else none

abbrev pub octal_digit : ℕ → Option ℕ
octal_digit c = if leb b'0' c && leb c b'7' then some (c - b'0') else none

abbrev pub hex_digit : ℕ → Option ℕ
hex_digit c =
    if leb b'0' c && leb c b'9'
    then some (c - b'0')
    else if leb b'a' c && leb c b'f'
    then some (c - b'a' + 10)
    else none

-- a number that was read, and the text behind it
abbrev pub Picked : Type 0
Picked = ℕ × List ℕ

-- one loop of pick_number
unfoldable pub pick_digits : (ℕ → Option ℕ) → ℕ → ℕ → List ℕ → Picked
pick_digits digit base out [] = (out, [])
pick_digits digit base out (c ∷ cs) = elim (digit c) [
  | none ↦ (out, c ∷ cs)
  | some d ↦ pick_digits digit base ((out * base + d) % 2 ^ 64) cs
]

-- the minus signs in front of a number: whether their number is odd
pub pick_signs : Bool → List ℕ → Bool × List ℕ
pick_signs negative [] = (negative, [])
pick_signs negative (c ∷ cs) =
    let more = pick_signs (not negative) cs in if c == b'-' then more else (negative, c ∷ cs)

abbrev pub negate_if : Bool → Picked → Picked
negate_if false (out, rest) = (out, rest)
negate_if true (out, rest) = ((2 ^ 64 - out) % 2 ^ 64, rest)

abbrev pub named : List ℕ → List (List ℕ) → Bool
named unit [] = false
named unit (name ∷ names) = bytes_eq unit name || named unit names

-- a whole number of seconds
abbrev pub whole : ℕ → Duration
whole bits = record { seconds = from_low64 (bits % 2 ^ 64); nanos = pos 0 }

-- a number of parts of a second; `each` is the number of nanoseconds of one
abbrev pub parts : ℕ → ℕ → ℕ → Duration
parts bits in_second each = record {
  seconds = quotient (from_low64 bits) in_second;
  nanos = to_int32 (scaled (remainder (from_low64 bits) in_second) each);
}

-- a number with its unit in small letters
unfoldable pub with_unit : ℕ → List ℕ → Duration
with_unit bits unit =
    if named unit ([] ∷ bytes_of "s" ∷ bytes_of "sec" ∷ bytes_of "second" ∷ bytes_of "seconds" ∷ [])
    then whole bits
    else if named unit (bytes_of "ms" ∷ bytes_of "millisecond" ∷ bytes_of "milliseconds" ∷ [])
    then parts bits 1000 1000000
    else if named unit (bytes_of "us" ∷ bytes_of "microsecond" ∷ bytes_of "microseconds" ∷ [])
    then parts bits 1000000 1000
    else if named unit (bytes_of "ns" ∷ bytes_of "nanosecond" ∷ bytes_of "nanoseconds" ∷ [])
    then parts bits 1000000000 1
    else if named unit (bytes_of "m" ∷ bytes_of "minute" ∷ bytes_of "minutes" ∷ [])
    then whole (bits * 60)
    else if named unit (bytes_of "h" ∷ bytes_of "hour" ∷ bytes_of "hours" ∷ [])
    then whole (bits * 3600)
    else if named unit (bytes_of "d" ∷ bytes_of "day" ∷ bytes_of "days" ∷ [])
    then whole (bits * 3600 * 24)
    else if named unit (bytes_of "w" ∷ bytes_of "week" ∷ bytes_of "weeks" ∷ [])
    then whole (bits * 3600 * 24 * 7)
    else whole bits

module _ (is_space : ℕ → Bool) (tolower : ℕ → ℕ) where
  -- static const char *skip_space(begin, end)
  pub skip_space : List ℕ → List ℕ
  skip_space [] = []
  skip_space (c ∷ cs) = let rest = skip_space cs in if is_space c then rest else c ∷ cs

  abbrev pub pick_unsigned : List ℕ → Picked
  unfolding pick_digits
  pick_unsigned [] = (0, [])
  pick_unsigned (c ∷ []) = if c == b'\\' then (0, []) else pick_digits decimal_digit 10 0 (c ∷ [])
  pick_unsigned (c ∷ d ∷ ds) =
      if c == b'0' && tolower d == b'x'
      then pick_digits (λ e. hex_digit (tolower e)) 16 0 ds
      else if c == b'\\'
      then pick_digits octal_digit 8 0 (d ∷ ds)
      else pick_digits decimal_digit 10 0 (c ∷ d ∷ ds)

  -- static const char *pick_number(out, begin, end)
  unfoldable pub pick_number : List ℕ → Picked
  unfolding pick_signs pick_unsigned
  pick_number text =
      let (negative, rest) = pick_signs false text in negate_if negative (pick_unsigned rest)

  -- static void pick_const_data(value, dur)
  unfoldable pub pick_const_data : List ℕ → Duration
  unfolding skip_space pick_number with_unit
  pick_const_data value =
      let (bits, rest) = pick_number (skip_space value) in
      with_unit bits (map tolower (skip_space rest))
