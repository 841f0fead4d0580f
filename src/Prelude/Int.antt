-- ===== src/Prelude/Int.antt =====
-- Signed integers over the native numbers: the values of int64_t and int32_t.
use Prim.Native.Nat.{ℕ, zero, suc, ◌-◌, ◌*◌, ◌/◌, ◌%◌, ◌^◌}
use mathlib.Core.Bool.{Bool, true, false}
use libatapp.Prelude.Tests.{leb, ltb, if◌then◌else◌}

-- `negsuc n` is -(n + 1)
pub data ℤ : Type 0 where
  pos : ℕ → ℤ
  negsuc : ℕ → ℤ

abbrev pub pos_part : ℤ → ℕ
pos_part (pos n) = n
pos_part (negsuc n) = 0

abbrev pub neg_part : ℤ → ℕ
neg_part (pos n) = 0
neg_part (negsuc n) = suc n

-- a - b, as an integer
abbrev pub sub_ℕ : ℕ → ℕ → ℤ
sub_ℕ a b = if leb b a then pos (a - b) else negsuc (b - a - 1)

-- static_cast<int32_t>: the residue modulo 2^32 that lies from -2^31 to 2^31 - 1
abbrev pub from_low32 : ℕ → ℤ
from_low32 m = if ltb m (2 ^ 31) then pos m else negsuc (2 ^ 32 - m - 1)

abbrev pub to_int32 : ℤ → ℤ
to_int32 (pos n) = from_low32 (n % 2 ^ 32)
to_int32 (negsuc n) = from_low32 (2 ^ 32 - 1 - n % 2 ^ 32)

-- `if (x <= 0) x = fallback`
abbrev pub positive_or : ℤ → ℕ → ℕ
positive_or x fallback = if leb (pos_part x) 0 then fallback else pos_part x

-- the value of an int64_t from its 64 bits
abbrev pub from_low64 : ℕ → ℤ
from_low64 m = if ltb m (2 ^ 63) then pos m else negsuc (2 ^ 64 - m - 1)

-- n with a sign
abbrev pub negated : ℕ → ℤ
negated zero = pos 0
negated (suc n) = negsuc n

abbrev pub signed : Bool → ℕ → ℤ
signed false n = pos n
signed true n = negated n

-- `/` and `%` by a positive number, which round to 0
abbrev pub quotient : ℤ → ℕ → ℤ
quotient (pos n) k = pos (n / k)
quotient (negsuc n) k = negated (suc n / k)

abbrev pub remainder : ℤ → ℕ → ℤ
remainder (pos n) k = pos (n % k)
remainder (negsuc n) k = negated (suc n % k)

abbrev pub scaled : ℤ → ℕ → ℤ
scaled (pos n) k = pos (n * k)
scaled (negsuc n) k = negated (suc n * k)
