-- ===== src/Lru/Tests.antt =====
-- Two sets of two ways. The first way of the second set was used last but one, the second before it.
use cscore_sstelem.Prelude.{◌+◌, ◌*◌, ◌<◌, ◌≤◌, ◌≡◌, refl, [], ◌∷◌, some, get_elem?, arith}
use cscore_sstelem.Lru.{make_lru, mark_used, find_victim, min_element, min_position}
use cscore_sstelem.Lru.History.{History, last_access, replay, replay-last_access, find_victim_least}

abbrev accesses : History
accesses = (0, 1) ∷ (1, 0) ∷ (1, 1) ∷ (0, 0) ∷ []

second_way : find_victim (replay 2 2 accesses) 1 ≡ 1
unfolding replay make_lru mark_used find_victim min_element min_position
second_way = refl

held : get_elem? (replay 2 2 accesses).last_used_cycles 3 ≡ some 1
unfolding replay make_lru mark_used
held = refl

replay-last_access_example : 1 ≡ last_access 2 accesses 3
replay-last_access_example = replay-last_access 2 2 accesses 3 1 held

find_victim_least_example :
    let victim = find_victim (replay 2 2 accesses) 1 in
    (victim < 2) × (last_access 2 accesses (1 * 2 + victim) ≤ last_access 2 accesses (1 * 2 + 0))
find_victim_least_example =
    find_victim_least 2 2 accesses 1 0 (omega arith) (omega arith) (omega arith)
