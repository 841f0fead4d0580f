-- ===== src/App/Tick/Tests.antt =====
-- The compensation of ticks at concrete inputs.
use libatapp.Prelude.{◌+◌, ◌*◌, ◌≤◌, ◌<◌, ◌⊎◌, ◌≡◌, refl, [], ◌∷◌}
use libatapp.Prelude.Int.{pos, negsuc}
use libatapp.App.Tick.{
  TimerConf, apply_reserve, produce_tick_timer_compensation, consume_tick_timer_compensation,
}
use libatapp.App.Tick.Account.{
  tick_once, ticks, produced_all, ticks-le, consume_tick_timer_compensation-le,
}

-- a tick each 8 milliseconds, and the settings left out
abbrev standard : TimerConf
unfolding apply_reserve
standard = apply_reserve 8000000 (pos 0) 0 0

standard_reserve : standard ≡ record {
  reserve_permille = pos 10;
  reserve_interval_tick = 9900000;
  reserve_interval_min = 100000;
  reserve_interval_max = 1000000000;
}
unfolding standard apply_reserve
standard_reserve = refl

-- a negative number of permille is as good as none
negative_reserve : apply_reserve 8000000 (negsuc 4) 0 0 ≡ standard
unfolding standard apply_reserve
negative_reserve = refl

-- two ticks of 2 seconds, on a clock of 10 milliseconds
two_ticks : ticks standard 10000000 (2000000000 ∷ 2000000000 ∷ []) (0, 0) ≡ (40, 204040)
unfolding standard apply_reserve ticks tick_once produce_tick_timer_compensation
    consume_tick_timer_compensation
two_ticks = refl

consume_tick_timer_compensation-le_example :
    let (ms, left) = consume_tick_timer_compensation standard 10000000 20202020 in
    (ms * 1000000 ≤ 1000000000) × ((left ≤ 10000000) ⊎ (left < 1000000))
unfolding standard apply_reserve
consume_tick_timer_compensation-le_example =
    consume_tick_timer_compensation-le standard 10000000 20202020

ticks-le_example :
    (ticks standard 10000000 (2000000000 ∷ 2000000000 ∷ []) (0, 0)).0 * 1000000
      + (ticks standard 10000000 (2000000000 ∷ 2000000000 ∷ []) (0, 0)).1
    ≤ 0 + produced_all standard 10000000 (2000000000 ∷ 2000000000 ∷ [])
ticks-le_example = ticks-le standard 10000000 (2000000000 ∷ 2000000000 ∷ []) (0, 0)
