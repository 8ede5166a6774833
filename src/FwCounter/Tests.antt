-- ===== src/FwCounter/Tests.antt =====
-- A counter of ten bits at 1022, one step below its largest value.
use cscore_sstelem.Prelude.{◌≡◌, refl, arith}
use cscore_sstelem.Prelude.Int.{pos}
use cscore_sstelem.FwCounter.{FwCounter, fwcounter}
use cscore_sstelem.FwCounter.Range.{IsInRange}

abbrev near_full : FwCounter
near_full = record { value = pos 1022; maximum = pos 1023; minimum = pos 0 }

near_full_lem : fwcounter 10 (pos 1022) ≡ near_full
unfolding fwcounter
near_full_lem = refl

near_full-IsInRange : IsInRange near_full
near_full-IsInRange = (omega arith, omega arith)
