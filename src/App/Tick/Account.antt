-- ===== src/App/Tick/Account.antt =====
-- What is waited for in all, and what is left.
use libatapp.Prelude.{ℕ, ◌+◌, ◌*◌, ◌≤◌, ◌<◌, List, [], ◌∷◌, ltb, if-cases, arith, ◌⊎◌, inl, inr}
use libatapp.App.Tick.{
  TimerConf, produced, produce_tick_timer_compensation, consume_tick_timer_compensation,
}

-- the milliseconds that are waited for in all, and the compensation that is left
abbrev pub Account : Type 0
Account = ℕ × ℕ

module _ (conf : TimerConf) (granularity : ℕ) where
  -- one tick: its cost is paid in, and as much as can be is waited for
  unfoldable pub tick_once : ℕ → Account → Account
  unfolding produce_tick_timer_compensation consume_tick_timer_compensation
  tick_once cost (waited, left) =
      let (ms, rest) =
        consume_tick_timer_compensation conf granularity
          (produce_tick_timer_compensation conf cost left) in
      (waited + ms, rest)

  unfoldable pub ticks : List ℕ → Account → Account
  unfolding tick_once
  ticks [] a = a
  ticks (cost ∷ costs) a = ticks costs (tick_once cost a)

  abbrev pub produced_all : List ℕ → ℕ
  produced_all [] = 0
  produced_all (cost ∷ costs) = produced conf cost + produced_all costs

  consume_below :
      (compensation : ℕ)
      → let (ms, left) = consume_tick_timer_compensation conf granularity compensation in
        ms * 1000000 + left ≤ compensation
  unfolding consume_tick_timer_compensation
  consume_below compensation =
      let P = λ (p : ℕ × ℕ). p.0 * 1000000 + p.1 ≤ compensation in
      if-cases P (ltb granularity compensation) _ _
        (λ g.
          if-cases P (ltb conf.reserve_interval_max compensation) _ _ (λ m. ground (arith, m))
            (λ m. omega arith))
        (λ g. omega arith)

  tick_once-le :
      (cost : ℕ) (a : Account)
      → (tick_once cost a).0 * 1000000 + (tick_once cost a).1
        ≤ a.0 * 1000000 + a.1 + produced conf cost
  unfolding tick_once produce_tick_timer_compensation
  tick_once-le cost (waited, left) =
      omega (arith, consume_below (produce_tick_timer_compensation conf cost left))

  -- In every run of ticks, the time that is waited for, with what is left, is no more than what the
  -- ticks produced and what was there at first.
  pub ticks-le :
      (costs : List ℕ) (a : Account)
      → (ticks costs a).0 * 1000000 + (ticks costs a).1 ≤ a.0 * 1000000 + a.1 + produced_all costs
  unfolding ticks
  ticks-le [] a = omega arith
  ticks-le (cost ∷ costs) a = omega (arith, tick_once-le cost a, ticks-le costs (tick_once cost a))

  -- A wait is no longer than the longest reserve, and what is left of the compensation is below a
  -- millisecond, or not above the granularity of the clock.
  pub consume_tick_timer_compensation-le :
      (compensation : ℕ)
      → let (ms, left) = consume_tick_timer_compensation conf granularity compensation in
        (ms * 1000000 ≤ conf.reserve_interval_max) × ((left ≤ granularity) ⊎ (left < 1000000))
  unfolding consume_tick_timer_compensation
  consume_tick_timer_compensation-le compensation =
      let P = λ (p : ℕ × ℕ).
        (p.0 * 1000000 ≤ conf.reserve_interval_max) × ((p.1 ≤ granularity) ⊎ (p.1 < 1000000)) in
      if-cases P (ltb granularity compensation) _ _
        (λ g.
          if-cases P (ltb conf.reserve_interval_max compensation) _ _
            (λ m. (omega arith, inr (omega arith))) (λ m. (ground (arith, m), inr (omega arith))))
        (λ g. (omega arith, inl (ground (arith, g))))
