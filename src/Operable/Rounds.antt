-- ===== src/Operable/Rounds.antt =====
-- src/operable.cc, `operate_on`: the loop ends, after exactly the cycles that are due.
use cscore_sstelem.Prelude.{
  ℕ, zero, suc, ◌+◌, ◌*◌, ◌≤◌, ◌<◌, ◌≡◌, ◌⊎◌, refl, ap, ◌∙◌, some, true, false, ltb, ltb→lt,
  Bool-cases, inl, inr, arith,
}
use cscore_sstelem.Operable.{Operable, operate_once, operate_loop, operate_on, tick}

enough_rounds : (t p n now : ℕ) → now ≤ t + p + n * p → now ≤ t + suc n * p
enough_rounds t p n now h = omega (arith, h)

due : (t p : ℕ) → 1 ≤ p → ltb t (t + p) ≡ true
due t p h = ground (arith, h)

not_due : (t : ℕ) → ltb t t ≡ false
not_due t = ground arith

fewest_rounds :
    (t p n now : ℕ) → t < now → (n ≡ 0) ⊎ (t + p + n * p < now + p) → t + suc n * p < now + p
fewest_rounds t p n now lo (inl e) = rw e (omega (arith, lo))
fewest_rounds t p n now lo (inr h) = omega (arith, h)

module _ {S : Type 0} (step : ℕ → S → S × ℕ) where
  -- `n` cycles, with the progress so far.
  unfoldable pub rounds : ℕ → Operable S → ℕ → Operable S × ℕ
  rounds zero o progress = (o, progress)
  rounds (suc n) o progress = let (o', made) = operate_once step o in rounds n o' (progress + made)

  operate_loop-rounds :
      (fuel now : ℕ) (o : Operable S) (progress : ℕ)
      → 1 ≤ o.clock_period
      → now ≤ o.current_time + fuel
      → (n : ℕ) × (operate_loop step fuel now o progress ≡ some (rounds n o progress))
        × (now ≤ o.current_time + n * o.clock_period)
        × ((n ≡ 0) ⊎ (o.current_time + n * o.clock_period < now + o.clock_period))
  unfolding operate_loop operate_once rounds
  operate_loop-rounds zero now o progress p f = (0, ground (arith, f), omega (arith, f), inl refl)
  operate_loop-rounds (suc fuel) now o progress p f = elim (Bool-cases (ltb o.current_time now)) [
    | inl due ↦
        let (o', made) = operate_once step o in
        let (n, same, enough, fewest) =
          operate_loop-rounds fuel now o' (progress + made) p (omega (arith, f, p)) in
        (
          suc n,
          rw due same,
          enough_rounds o.current_time o.clock_period n now enough,
          inr (
              fewest_rounds o.current_time o.clock_period n now (ltb→lt o.current_time now due)
                fewest),
        )
    | inr done ↦ (0, rw done refl, ground (arith, done), inl refl)
  ]

  -- With a period of at least one picosecond, and fuel for the picoseconds that are left, the loop ends.
  -- It has made the fewest cycles that bring the component to the clock or past it: none, or so many that
  -- it is less than a period past.
  pub operate_on-rounds :
      (fuel now : ℕ) (o : Operable S)
      → 1 ≤ o.clock_period
      → now ≤ o.current_time + fuel
      → (n : ℕ) × (operate_on step fuel now o ≡ some (rounds n o 0))
        × (now ≤ o.current_time + n * o.clock_period)
        × ((n ≡ 0) ⊎ (o.current_time + n * o.clock_period < now + o.clock_period))
  unfolding operate_on
  operate_on-rounds fuel now o p f = operate_loop-rounds fuel now o 0 p f

  caught_up :
      (fuel : ℕ) (o : Operable S) (progress : ℕ)
      → operate_loop step fuel o.current_time o progress ≡ some (o, progress)
  unfolding operate_loop
  caught_up zero o progress = rw (not_due o.current_time) refl
  caught_up (suc fuel) o progress = rw (not_due o.current_time) refl

  -- A component that is in step with the clock and whose period is the amount of the tick makes exactly
  -- one cycle after a tick.
  pub tick_one_round :
      (fuel : ℕ) (o : Operable S)
      → 1 ≤ o.clock_period
      → o.clock_period ≤ fuel
      → operate_on step fuel (tick o.current_time o.clock_period) o ≡ some (operate_once step o)
  unfolding operate_on operate_loop tick
  tick_one_round zero o p f = ground (arith, p, f)
  tick_one_round (suc fuel) o p f =
      let (o', made) = operate_once step o in
      rw (due o.current_time o.clock_period p)
        (caught_up fuel o' (0 + made) ∙ ap (λ (k : ℕ). some (o', k)) (omega arith))
