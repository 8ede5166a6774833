-- ===== src/LatBwQueue/Tests.antt =====
-- A queue of whole bytes, 64 per cycle, with a latency of two cycles and room for two packets.
use cscore_sstelem.Prelude.{ℕ, ◌≡◌, refl, List, [], ◌∷◌, ◌++◌, Perm, true, false, some, arith, inr}
use cscore_sstelem.Prelude.Int.{pos}
use cscore_sstelem.Double.{nat_double}
use cscore_sstelem.LatBwQueue.{LatBwQueue, make_queue, add_packet, on_tick, occupancy, is_full}
use cscore_sstelem.LatBwQueue.Timing.{IsTimed, due, on_tick-due}
use cscore_sstelem.LatBwQueue.Conservation.{pending, in_flight, Moved, on_tick-Moved}
use cscore_sstelem.LatBwQueue.Capacity.{IsWithinLimit, on_tick_progress}

empty : LatBwQueue ℕ ℕ
unfolding make_queue
empty = make_queue 64 (λ _. pos 2) (some (λ n. n)) (pos 2)

-- The packets 40 and 100: the first is sent in one cycle with 24 bytes of the second.
two : LatBwQueue ℕ ℕ
unfolding empty add_packet
two = (add_packet (add_packet empty 40).0 100).0

one_tick : LatBwQueue ℕ ℕ
unfolding two on_tick
one_tick = (on_tick two).0

two-is_full : is_full two ≡ true
unfolding two is_full
two-is_full = refl

third_refused : (add_packet two 7).1 ≡ false
unfolding two add_packet is_full
third_refused = refl

-- 40 bytes are charged for the packet 40: the clock is 1, so it completes at 3.
returned_at_three : (on_tick (on_tick one_tick).0).1 ≡ 40 ∷ []
unfolding one_tick on_tick
returned_at_three = refl

one_tick-IsTimed : IsTimed one_tick
unfolding one_tick
one_tick-IsTimed = omega arith

on_tick-due_example :
    ((on_tick one_tick).1 ≡ due 2 one_tick.active_queue)
    × ((on_tick one_tick).0.internal_clock ≡ 2)
    × IsTimed (on_tick one_tick).0
unfolding one_tick
on_tick-due_example = on_tick-due one_tick one_tick-IsTimed

two-IsWithinLimit : IsWithinLimit two
unfolding two occupancy
two-IsWithinLimit = inr (omega arith)

on_tick-Moved_example : Moved two (on_tick two).0 (on_tick two).1
on_tick-Moved_example = on_tick-Moved two

-- 40 of the 64 bytes of a cycle are the first packet's.
on_tick_progress_example :
    let (q', returned) = on_tick two in
    (more : List ℕ) × (pending two ≡ (40 ∷ more) ++ pending q')
    × Perm (returned ++ in_flight q') ((40 ∷ more) ++ in_flight two)
unfolding two
on_tick_progress_example =
    on_tick_progress two (record { payload = 40; remaining_bytes = 40 })
      (record { payload = 100; remaining_bytes = 100 } ∷ []) refl refl refl refl refl refl
