-- ===== src/Config/Duration/Units.antt =====
-- The units of a duration, and what a number of one of them is.
use mathlib.Core.List.{Memᴰ}
use mathlib.Core.Path.{subst}
use native.Mathlib.Nat.{add-mul}
use libatapp.Prelude.{
  All, ℕ, zero, suc, ◌+◌, ◌-◌, ◌*◌, ◌/◌, ◌%◌, ◌^◌, ◌<◌, ◌≡◌, refl, sym, ap, ◌∙◌, Bool, true, false,
  List, [], ◌∷◌, arith,
}
use libatapp.Prelude.Int.{pos, from_low64, to_int32, negated, signed, quotient, remainder, scaled}
use libatapp.Config.Duration.{Duration, bytes_of, whole, parts, with_unit}

pub data DurationUnit : Type 0 where
  nanosecond microsecond millisecond second minute hour day week : DurationUnit

abbrev pub names : DurationUnit → List (List ℕ)
names nanosecond = bytes_of "ns" ∷ bytes_of "nanosecond" ∷ bytes_of "nanoseconds" ∷ []
names microsecond = bytes_of "us" ∷ bytes_of "microsecond" ∷ bytes_of "microseconds" ∷ []
names millisecond = bytes_of "ms" ∷ bytes_of "millisecond" ∷ bytes_of "milliseconds" ∷ []
names second = [] ∷ bytes_of "s" ∷ bytes_of "sec" ∷ bytes_of "second" ∷ bytes_of "seconds" ∷ []
names minute = bytes_of "m" ∷ bytes_of "minute" ∷ bytes_of "minutes" ∷ []
names hour = bytes_of "h" ∷ bytes_of "hour" ∷ bytes_of "hours" ∷ []
names day = bytes_of "d" ∷ bytes_of "day" ∷ bytes_of "days" ∷ []
names week = bytes_of "w" ∷ bytes_of "week" ∷ bytes_of "weeks" ∷ []

-- the nanoseconds of a unit
abbrev pub size : DurationUnit → ℕ
size nanosecond = 1
size microsecond = 1000
size millisecond = 1000000
size second = 1000000000
size minute = 60000000000
size hour = 3600000000000
size day = 86400000000000
size week = 604800000000000

-- what a number of the unit is multiplied by before it is stored
abbrev pub factor : DurationUnit → ℕ
factor minute = 60
factor hour = 3600
factor day = 86400
factor week = 604800
factor _ = 1

abbrev pub by_unit : DurationUnit → ℕ → Duration
by_unit nanosecond bits = parts bits 1000000000 1
by_unit microsecond bits = parts bits 1000000 1000
by_unit millisecond bits = parts bits 1000 1000000
by_unit second bits = whole bits
by_unit minute bits = whole (bits * 60)
by_unit hour bits = whole (bits * 3600)
by_unit day bits = whole (bits * 3600 * 24)
by_unit week bits = whole (bits * 3600 * 24 * 7)

pub All-Mem : (P : List ℕ → Type 0) (w : List ℕ) (ws : List (List ℕ)) → All P ws → Memᴰ w ws → P w
All-Mem P w [] h m = elim m [ ]
All-Mem P w (v ∷ ws) h (Memᴰ.head e) = subst P (sym e) h.0
All-Mem P w (v ∷ ws) h (Memᴰ.tail m) = All-Mem P w ws h.1 m

pub with_unit-names :
    (bits : ℕ) (u : DurationUnit) → All (λ w. with_unit bits w ≡ by_unit u bits) (names u)
unfolding with_unit
with_unit-names bits nanosecond = (refl, (refl, (refl, tt)))
with_unit-names bits microsecond = (refl, (refl, (refl, tt)))
with_unit-names bits millisecond = (refl, (refl, (refl, tt)))
with_unit-names bits second = (refl, (refl, (refl, (refl, (refl, tt)))))
with_unit-names bits minute = (refl, (refl, (refl, tt)))
with_unit-names bits hour = (refl, (refl, (refl, tt)))
with_unit-names bits day = (refl, (refl, (refl, tt)))
with_unit-names bits week = (refl, (refl, (refl, tt)))

-- A duration is a number of nanoseconds, with a sign: both fields have that sign, and the second is
-- less than a second.
pub record IsMeant (minus : Bool) (total : ℕ) (d : Duration) : Type 0 where
  pub whole_seconds : ℕ
  pub rest : ℕ
  pub seconds_signed : d.seconds ≡ signed minus whole_seconds
  pub nanos_signed : d.nanos ≡ signed minus rest
  pub rest_small : rest < 1000000000
  pub adds_up : whole_seconds * 1000000000 + rest ≡ total

-- the bits of a number with a sign
abbrev pub bits_of : Bool → ℕ → ℕ
bits_of false n = n
bits_of true n = (2 ^ 64 - n) % 2 ^ 64

pub from_low64-bits_of :
    (minus : Bool) (n : ℕ) → n < 2 ^ 63 → from_low64 (bits_of minus n) ≡ signed minus n
from_low64-bits_of false n h = ground (arith, h)
from_low64-bits_of true zero h = refl
from_low64-bits_of true (suc n) h = ap from_low64 low ∙ ground (arith, h)
  where
    low : bits_of true (suc n) ≡ 2 ^ 64 - suc n
    low = omega (arith, h)

quotient-signed : (minus : Bool) (n k : ℕ) → quotient (signed minus n) k ≡ signed minus (n / k)
quotient-signed false n k = refl
quotient-signed true zero k = ap pos z ∙ ap negated (sym z)
  where
    z : 0 / k ≡ 0
    z = omega arith
quotient-signed true (suc n) k = refl

remainder-signed : (minus : Bool) (n k : ℕ) → remainder (signed minus n) k ≡ signed minus (n % k)
remainder-signed false n k = refl
remainder-signed true zero k = ap pos z ∙ ap negated (sym z)
  where
    z : 0 % k ≡ 0
    z = omega arith
remainder-signed true (suc n) k = refl

scaled-signed : (minus : Bool) (n k : ℕ) → scaled (signed minus n) k ≡ signed minus (n * k)
scaled-signed false n k = refl
scaled-signed true zero k = ap pos z ∙ ap negated (sym z)
  where
    z : 0 * k ≡ 0
    z = omega arith
scaled-signed true (suc n) k = refl

to_int32-signed :
    (minus : Bool) (n : ℕ) → n < 1000000000 → to_int32 (signed minus n) ≡ signed minus n
to_int32-signed false n h = ground (arith, h)
to_int32-signed true zero h = refl
to_int32-signed true (suc n) h = ground (arith, h)

parts-IsMeant :
    (minus : Bool) (n k each : ℕ)
    → n < 2 ^ 63
    → (n % k) * each < 1000000000
    → (n / k) * 1000000000 + (n % k) * each ≡ n * each
    → IsMeant minus (n * each) (parts (bits_of minus n) k each)
parts-IsMeant minus n k each h small sum =
    let bits = from_low64-bits_of minus n h in
    record {
      whole_seconds = n / k;
      rest = (n % k) * each;
      seconds_signed = ap (λ v. quotient v k) bits ∙ quotient-signed minus n k;
      nanos_signed =
          ap (λ v. to_int32 (scaled (remainder v k) each)) bits
          ∙ ap (λ v. to_int32 (scaled v each)) (remainder-signed minus n k)
          ∙ ap to_int32 (scaled-signed minus (n % k) each)
          ∙ to_int32-signed minus ((n % k) * each) small;
      rest_small = small;
      adds_up = sum;
    }

whole-IsMeant :
    (minus : Bool) (n bits : ℕ)
    → n < 2 ^ 63
    → bits % 2 ^ 64 ≡ bits_of minus n
    → IsMeant minus (n * 1000000000) (whole bits)
whole-IsMeant minus n bits h e = record {
  whole_seconds = n;
  rest = 0;
  seconds_signed = ap from_low64 e ∙ from_low64-bits_of minus n h;
  nanos_signed = zero_signed minus;
  rest_small = omega arith;
  adds_up = omega arith;
}
  where
    zero_signed : (b : Bool) → pos 0 ≡ signed b 0
    zero_signed true = refl
    zero_signed false = refl

small_bits : (minus : Bool) (n : ℕ) → n < 2 ^ 63 → bits_of minus n % 2 ^ 64 ≡ bits_of minus n
small_bits false n h = omega (arith, h)
small_bits true n h = omega arith

-- the multiplication wraps around where the product does not fit
times :
    (minus : Bool) (n k : ℕ)
    → n < 2 ^ 63
    → n * k < 2 ^ 63
    → bits_of minus n * k % 2 ^ 64 ≡ bits_of minus (n * k)
times false n k low h = omega (arith, h)
times true zero k low h = omega arith
times true (suc n) k low h =
    let both : 2 ^ 64 - suc n + suc n ≡ 2 ^ 64 = omega (arith, low) in
    let all = sym (add-mul (2 ^ 64 - suc n) (suc n) k) ∙ ap (λ x. x * k) both in
    let bits : bits_of true (suc n) ≡ 2 ^ 64 - suc n = omega (arith, low) in
    ap (λ b. b * k % 2 ^ 64) bits ∙ omega (arith, all, h)

times-IsMeant :
    (minus : Bool) (n k total : ℕ)
    → n < 2 ^ 63
    → n * k < 2 ^ 63
    → n * k * 1000000000 ≡ total
    → IsMeant minus total (whole (bits_of minus n * k))
times-IsMeant minus n k total low h e =
    subst (λ t. IsMeant minus t (whole (bits_of minus n * k))) e
      (whole-IsMeant minus (n * k) (bits_of minus n * k) h (times minus n k low h))

pub by_unit-IsMeant :
    (minus : Bool) (u : DurationUnit) (n : ℕ)
    → n * factor u < 2 ^ 63
    → IsMeant minus (n * size u) (by_unit u (bits_of minus n))
by_unit-IsMeant minus nanosecond n h =
    parts-IsMeant minus n 1000000000 1 (omega (arith, h)) (omega arith) (omega arith)
by_unit-IsMeant minus microsecond n h =
    parts-IsMeant minus n 1000000 1000 (omega (arith, h)) (omega arith) (omega arith)
by_unit-IsMeant minus millisecond n h =
    parts-IsMeant minus n 1000 1000000 (omega (arith, h)) (omega arith) (omega arith)
by_unit-IsMeant minus second n h =
    whole-IsMeant minus n (bits_of minus n) (omega (arith, h))
      (small_bits minus n (omega (arith, h)))
by_unit-IsMeant minus minute n h =
    times-IsMeant minus n 60 (n * 60000000000) (omega (arith, h)) h (omega arith)
by_unit-IsMeant minus hour n h =
    times-IsMeant minus n 3600 (n * 3600000000000) (omega (arith, h)) h (omega arith)
by_unit-IsMeant minus day n h =
    subst (λ b. IsMeant minus (n * 86400000000000) (whole b)) (omega arith)
      (times-IsMeant minus n 86400 (n * 86400000000000) (omega (arith, h)) h (omega arith))
by_unit-IsMeant minus week n h =
    subst (λ b. IsMeant minus (n * 604800000000000) (whole b)) (omega arith)
      (times-IsMeant minus n 604800 (n * 604800000000000) (omega (arith, h)) h (omega arith))
