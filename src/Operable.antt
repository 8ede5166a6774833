-- ===== src/Operable.antt =====
-- src/operable.cc, inc/operable.h and src/chrono.cc: a component that works in cycles of its own, until it
-- has caught up with the clock. Times are numbers of picoseconds. `operate` is the parameter `step`, which
-- gets the time of its cycle and gives the component after it and its progress. A period of 0 would not
-- end; the loop is on fuel, and `Operable.Rounds` shows how much is enough.
pub mod Rounds
mod Tests
use cscore_sstelem.Prelude.{ℕ, zero, suc, ◌+◌, ◌/◌, Option, none, some, ltb, if◌then◌else◌}

-- `clock::tick`
unfoldable pub tick : ℕ → ℕ → ℕ
tick now amount = now + amount

pub record Operable (S : Type 0) : Type 0 where
  pub clock_period : ℕ
  pub current_time : ℕ
  pub state : S

module _ {S : Type 0} (step : ℕ → S → S × ℕ) where
  -- `_operate`: the component and the progress.
  unfoldable pub operate_once : Operable S → Operable S × ℕ
  operate_once o =
      let time = o.current_time + o.clock_period in
      let (state, progress) = step time o.state in
      (record o { current_time = time; state = state }, progress)

  -- The loop of `operate_on`, with the progress so far.
  unfoldable pub operate_loop : ℕ → ℕ → Operable S → ℕ → Option (Operable S × ℕ)
  unfolding operate_once
  operate_loop zero now o progress = if ltb o.current_time now then none else some (o, progress)
  operate_loop (suc fuel) now o progress =
      let (o', made) = operate_once o in
      let later = operate_loop fuel now o' (progress + made) in
      if ltb o.current_time now then later else some (o, progress)

  unfoldable pub operate_on : ℕ → ℕ → Operable S → Option (Operable S × ℕ)
  unfolding operate_loop
  operate_on fuel now o = operate_loop fuel now o 0

-- `current_cycle`
unfoldable pub current_cycle : {S : Type 0} → Operable S → ℕ
current_cycle o = o.current_time / o.clock_period
