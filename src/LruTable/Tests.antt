-- ===== src/LruTable/Tests.antt =====
-- A set of two ways, both in use: 8 was used last, and 6 before it.
use cscore_sstelem.Prelude.{
  ℕ, zero, suc, ◌/◌, ◌≡◌, ◌≢◌, refl, ap, sym, [], ◌∷◌, some, none, get_elem?, arith,
}
use mathlib.Core.Option.{some-injective}
use cscore_sstelem.LruTable.{LruTable, Block, get_set_span, check_hit, fill}
use cscore_sstelem.LruTable.Hits.{OneEach, fill-check_hit}

-- The set of a value, and its tag.
abbrev set_of : ℕ → ℕ
set_of n = 0

abbrev tag_of : ℕ → ℕ
tag_of n = n / 2

abbrev two_ways : LruTable ℕ
two_ways = record {
  num_set = 1;
  num_way = 2;
  access_count = 5;
  block = record { last_used = 5; value = 8 } ∷ record { last_used = 4; value = 6 } ∷ [];
}

tags_differ :
    (b c : Block ℕ)
    → get_elem? two_ways.block 0 ≡ some b
    → get_elem? two_ways.block 1 ≡ some c
    → tag_of b.value ≢ tag_of c.value
tags_differ b c p q e =
    let first : 8 ≡ b.value = ap (λ (x : Block ℕ). x.value) (some-injective _ b p) in
    let second : 6 ≡ c.value = ap (λ (x : Block ℕ). x.value) (some-injective _ c q) in
    omega (arith, first, second, e)

two_ways-OneEach : OneEach tag_of (get_set_span set_of tag_of two_ways 3)
two_ways-OneEach zero zero b c p q u v e = refl
two_ways-OneEach zero (suc zero) b c p q u v e = absurd (tags_differ b c p q e)
two_ways-OneEach (suc zero) zero b c p q u v e = absurd (tags_differ c b q p (sym e))
two_ways-OneEach (suc zero) (suc zero) b c p q u v e = refl
two_ways-OneEach zero (suc (suc j)) b c p q u v e = absurd cc
two_ways-OneEach (suc zero) (suc (suc j)) b c p q u v e = absurd cc
two_ways-OneEach (suc (suc i)) j b c p q u v e = absurd cc

fill-check_hit_example :
    let t = fill set_of tag_of two_ways 3 in
    OneEach tag_of (get_set_span set_of tag_of t 3) × ((check_hit set_of tag_of t 3).1 ≡ some 3)
fill-check_hit_example =
    fill-check_hit set_of tag_of two_ways 3 (omega arith) (omega arith) two_ways-OneEach

oldest_replaced : (check_hit set_of tag_of (fill set_of tag_of two_ways 3) 6).1 ≡ none
unfolding fill check_hit
oldest_replaced = refl
