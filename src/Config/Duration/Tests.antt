-- ===== src/Config/Duration/Tests.antt =====
-- Durations at concrete inputs.
use mathlib.Core.List.{Memᴰ}
use libatapp.Prelude.{ℕ, ◌+◌, ◌≡◌, refl, Bool, true, ◌&&◌, [], ◌∷◌, ◌==◌, leb, arith, if◌then◌else◌}
use libatapp.Prelude.Int.{pos}
use libatapp.Config.Duration.{bytes_of, pick_number, skip_space, with_unit, pick_const_data}
use libatapp.Config.Duration.Units.{millisecond, IsMeant}
use libatapp.Config.Duration.Numbers.{IsAscii}
use libatapp.Config.Duration.Meaning.{pick_const_data-IsMeant}

abbrev blank : ℕ → Bool
blank c = c == b' '

abbrev small : ℕ → ℕ
small c = if leb b'A' c && leb c b'Z' then c + 32 else c

blank-IsAscii : IsAscii blank small
blank-IsAscii = record {
  space_low = λ c e. ground (arith, e);
  lower_same = λ c h. ground (arith, h);
}

-- a number without a unit, one with a unit that nobody knows, and a hexadecimal one
seconds : pick_const_data blank small (bytes_of " 90") ≡ record { seconds = pos 90; nanos = pos 0 }
unfolding pick_const_data pick_number skip_space with_unit
seconds = refl

unknown :
    pick_const_data blank small (bytes_of "5 apples") ≡ record { seconds = pos 5; nanos = pos 0 }
unfolding pick_const_data pick_number skip_space with_unit
unknown = refl

hours :
    pick_const_data blank small (bytes_of "0x10H") ≡ record { seconds = pos 57600; nanos = pos 0 }
unfolding pick_const_data pick_number skip_space with_unit
hours = refl

pick_const_data-IsMeant_example :
    IsMeant true 1500000000 (pick_const_data blank small (bytes_of " -1500 Ms"))
pick_const_data-IsMeant_example =
    pick_const_data-IsMeant blank small blank-IsAscii millisecond true 1 (5 ∷ 0 ∷ 0 ∷ [])
      (b' ' ∷ []) (b' ' ∷ []) (bytes_of "Ms")
      (omega arith, (omega arith, (omega arith, (omega arith, tt)))) (refl, tt) (refl, tt)
      (Memᴰ.head refl) (omega arith)
