-- ===== src/Srrip/Tests.antt =====
-- Two sets of three ways, in the first of which one way has been hit and one has been filled.
use mathlib.Core.Option.{some-injective}
use cscore_sstelem.Prelude.{
  ℕ, zero, suc, ◌+◌, ◌≡◌, refl, List, [], ◌∷◌, some, map, get_elem?, arith,
}
use cscore_sstelem.Srrip.{
  Srrip, srrip_policy, max_rrpv, victim, max_element, find_victim, impl_replacement_cache_fill,
}
use cscore_sstelem.Srrip.Ages.{AtMost, victim-AtMost, find_victim-filled}

abbrev values : List ℕ
values = 0 ∷ 2 ∷ 1 ∷ []

abbrev policy : Srrip
policy = record { sets = values ∷ (3 ∷ 3 ∷ 3 ∷ []) ∷ [] }

values-AtMost : AtMost max_rrpv values
values-AtMost zero x e = omega (arith, some-injective 0 x e)
values-AtMost (suc zero) x e = omega (arith, some-injective 2 x e)
values-AtMost (suc (suc zero)) x e = omega (arith, some-injective 1 x e)
values-AtMost (suc (suc (suc j))) x e = cc

victim-AtMost_example :
    let (after, way) = victim values in
    (d : ℕ) × (after ≡ map (λ (value : ℕ). value + d) values)
    × AtMost max_rrpv after
    × (get_elem? after way ≡ some max_rrpv)
victim-AtMost_example = victim-AtMost values (omega arith) values-AtMost

find_victim-filled_example :
    let (policy', way) = find_victim policy 0 in
    find_victim (impl_replacement_cache_fill srrip_policy policy' 0 way) 0 ≡ (policy', way)
find_victim-filled_example = find_victim-filled policy 0 values refl values-AtMost

-- The second way was chosen, and is again.
second_way : (find_victim policy 0).1 ≡ 1
unfolding find_victim victim max_element
second_way = refl
