-- ===== src/Lru.antt =====
-- replacement/lru/lru.cc and lru.h: the least recently used way of a set, by the number of the access that
-- used each way last. The count of accesses does not overflow `uint64_t`.
pub mod History
mod Tests
use cscore_sstelem.Prelude.{
  ℕ, zero, suc, ◌+◌, ◌*◌, List, [], ◌∷◌, Bool, ◌&&◌, not, set, take, drop, replicate, ltb, ◌==◌,
  if◌then◌else◌,
}
use cscore_sstelem.Packet.{write_type}
use cscore_sstelem.Cache.{Replacement}

pub record Lru : Type 0 where
  pub num_way : ℕ
  pub last_used_cycles : List ℕ
  pub cycle : ℕ

unfoldable pub make_lru : ℕ → ℕ → Lru
make_lru sets ways = record {
  num_way = ways;
  last_used_cycles = replicate (sets * ways) 0;
  cycle = 0;
}

-- `std::min_element`, as the distance from the first: `best` at `at` is the least before the list, which
-- starts at `i`.
unfoldable pub min_position : ℕ → ℕ → ℕ → List ℕ → ℕ
min_position best at i [] = at
min_position best at i (x ∷ xs) =
    if ltb x best then min_position x i (suc i) xs else min_position best at (suc i) xs

unfoldable pub min_element : List ℕ → ℕ
unfolding min_position
min_element [] = 0
min_element (x ∷ xs) = min_position x 0 1 xs

unfoldable pub find_victim : Lru → ℕ → ℕ
unfolding min_element
find_victim l set_idx = min_element (take l.num_way (drop (set_idx * l.num_way) l.last_used_cycles))

-- `last_used_cycles.at(...) = cycle++`
unfoldable pub mark_used : Lru → ℕ → ℕ → Lru
mark_used l set_idx way = record l {
  last_used_cycles = set l.last_used_cycles (set_idx * l.num_way + way) l.cycle;
  cycle = l.cycle + 1;
}

unfoldable pub replacement_cache_fill : Lru → ℕ → ℕ → Lru
unfolding mark_used
replacement_cache_fill l set_idx way = mark_used l set_idx way

unfoldable pub update_replacement_state : Lru → ℕ → ℕ → ℕ → Bool → Lru
unfolding mark_used
update_replacement_state l set_idx way type hit =
    if hit && not (type == write_type) then mark_used l set_idx way else l

-- The policy, as a cache calls it.
instance abbrev pub lru_replacement : Replacement Lru
lru_replacement = record {
  find_victim = λ l cpu instr_id set_idx blocks ip addr type. (l, find_victim l set_idx);
  update_replacement_state =
      λ l cpu set_idx way addr ip victim type hit. update_replacement_state l set_idx way type hit;
  replacement_cache_fill =
      λ l cpu set_idx way addr ip victim type. replacement_cache_fill l set_idx way;
}
