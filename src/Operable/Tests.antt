-- ===== src/Operable/Tests.antt =====
-- A component that counts its cycles, with a period of 10, at time 20.
use cscore_sstelem.Prelude.{ℕ, ◌+◌, ◌*◌, ◌≤◌, ◌<◌, ◌≡◌, ◌⊎◌, refl, some, arith}
use cscore_sstelem.Operable.{Operable, operate_on}
use cscore_sstelem.Operable.Rounds.{rounds, operate_on-rounds}

abbrev count : ℕ → ℕ → ℕ × ℕ
count time n = (n + 1, 1)

abbrev counter : Operable ℕ
counter = record { clock_period = 10; current_time = 20; state = 0 }

-- Two cycles bring it from 20 to 40.
two_cycles :
    operate_on count 15 35 counter
    ≡ some (record { clock_period = 10; current_time = 40; state = 2 }, 2)
unfolding operate_on
two_cycles = refl

operate_on-rounds_example :
    (n : ℕ) × (operate_on count 15 35 counter ≡ some (rounds count n counter 0))
    × (35 ≤ 20 + n * 10)
    × ((n ≡ 0) ⊎ (20 + n * 10 < 35 + 10))
operate_on-rounds_example = operate_on-rounds count 15 35 counter (omega arith) (omega arith)
