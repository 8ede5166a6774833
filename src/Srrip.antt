-- ===== src/Srrip.antt =====
-- replacement/srrip/srrip.cc and srrip.h, and how a cache calls a policy, `replacement_module_model` of
-- inc/cache.h. The re-reference values are never negative, and never above the greatest, so that the
-- difference to it is one of natural numbers. A set or way out of range, at which `at` throws, changes
-- nothing.
pub mod Ages
mod Tests
use cscore_sstelem.Prelude.{
  ℕ, zero, suc, ◌+◌, ◌-◌, List, [], ◌∷◌, Bool, true, false, ◌||◌, Option, none, some, map, set,
  get_elem?, replicate, ltb, if◌then◌else◌,
}
use cscore_sstelem.Cache.{Replacement}

-- A policy's methods. It may have no `replacement_cache_fill`.
pub record Policy (R : Type 0) : Type 0 where
  -- set
  pub find_victim : R → ℕ → R × ℕ
  -- set, way, hit
  pub update_state : R → ℕ → ℕ → Bool → R
  -- set, way
  pub cache_fill : Option (R → ℕ → ℕ → R)

module _ {R : Type 0} (p : Policy R) where
  -- `has_cache_fill`
  unfoldable pub has_cache_fill : Bool
  has_cache_fill = elim p.cache_fill [ none ↦ false | some fill ↦ true ]

  unfoldable pub impl_update_replacement_state : R → ℕ → ℕ → Bool → R
  unfolding has_cache_fill
  impl_update_replacement_state r set_idx way hit =
      if hit || has_cache_fill then p.update_state r set_idx way hit else r

  unfoldable pub impl_replacement_cache_fill : R → ℕ → ℕ → R
  unfolding impl_update_replacement_state
  impl_replacement_cache_fill r set_idx way = elim p.cache_fill [
    | some fill ↦ fill r set_idx way
    | none ↦ impl_update_replacement_state r set_idx way false
  ]

  -- The policy, as a cache calls it.
  abbrev pub replacement_module_model : Replacement R
  replacement_module_model = record {
    find_victim = λ r cpu instr_id set_idx blocks ip addr type. p.find_victim r set_idx;
    update_replacement_state = λ r cpu set_idx way addr ip victim type hit.
        impl_update_replacement_state r set_idx way hit;
    replacement_cache_fill =
        λ r cpu set_idx way addr ip victim type. impl_replacement_cache_fill r set_idx way;
  }

-- `maxRRPV`
abbrev pub max_rrpv : ℕ
max_rrpv = 3

-- `srrip`: the values of each set, `srrip_set_helper`.
pub record Srrip : Type 0 where
  pub sets : List (List ℕ)

unfoldable pub make_srrip : ℕ → ℕ → Srrip
make_srrip sets ways = record { sets = replicate sets (replicate ways max_rrpv) }

-- `std::max_element`, as the distance from the first and the value: `best` at `at` is the greatest before
-- the list, which starts at `i`.
unfoldable pub max_element : ℕ → ℕ → ℕ → List ℕ → ℕ × ℕ
max_element best at i [] = (at, best)
max_element best at i (x ∷ xs) =
    if ltb best x then max_element x i (suc i) xs else max_element best at (suc i) xs

unfoldable pub victim : List ℕ → List ℕ × ℕ
unfolding max_element
victim [] = ([], 0)
victim (x ∷ xs) =
    let (at, most) = max_element x 0 1 xs in
    (map (λ (value : ℕ). value + (max_rrpv - most)) (x ∷ xs), at)

-- `srrip_set_helper::update`
unfoldable pub update_set : List ℕ → ℕ → Bool → List ℕ
update_set values way hit = set values way (if hit then 0 else max_rrpv - 1)

unfoldable pub find_victim : Srrip → ℕ → Srrip × ℕ
unfolding victim
find_victim s set_idx = elim (get_elem? s.sets set_idx) [
  | none ↦ (s, 0)
  | some values ↦
      let (values', way) = victim values in (record s { sets = set s.sets set_idx values' }, way)
]

unfoldable pub update_replacement_state : Srrip → ℕ → ℕ → Bool → Srrip
unfolding update_set
update_replacement_state s set_idx way hit = elim (get_elem? s.sets set_idx) [
  | none ↦ s
  | some values ↦ record s { sets = set s.sets set_idx (update_set values way hit) }
]

abbrev pub srrip_policy : Policy Srrip
srrip_policy = record {
  find_victim = find_victim;
  update_state = update_replacement_state;
  cache_fill = none;
}
