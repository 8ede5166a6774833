-- ===== src/LruTable.antt =====
-- inc/msl/lru_table.h: a table of sets, each of which holds the values that were used last. The two
-- projections are parameters. On ways that hold nothing the comparison of `fill` is no order; the least
-- and the greatest are those of a scan from the front. The count of accesses does not overflow, and
-- the index of a set is not negative. The constructor's tests of its arguments are not modelled.
pub mod Ways
pub mod Hits
mod Tests
use cscore_sstelem.Prelude.{
  ℕ, zero, suc, ◌+◌, ◌*◌, ◌%◌, List, [], ◌∷◌, Bool, true, false, not, ◌&&◌, ◌||◌, Option, none,
  some, set, take, drop, replicate, ltb, ◌==◌, if◌then◌else◌,
}

-- `block_t`
pub record Block (T : Type 0) : Type 0 where
  pub last_used : ℕ
  pub value : T

pub record LruTable (T : Type 0) : Type 0 where
  pub num_set : ℕ
  pub num_way : ℕ
  pub access_count : ℕ
  pub block : List (Block T)

-- `empty` is the value type's default.
unfoldable pub make_table : {T : Type 0} → T → ℕ → ℕ → LruTable T
make_table empty sets ways = record {
  num_set = sets;
  num_way = ways;
  access_count = 0;
  block = replicate (sets * ways) (record { last_used = 0; value = empty });
}

module _ {T : Type 0} where
  abbrev pub is_used : Block T → Bool
  is_used b = ltb 0 b.last_used

  module _ (tag_of : T → ℕ) (tag : ℕ) where
    -- `match_func`
    abbrev pub matches : Block T → Bool
    matches b = is_used b && tag_of b.value == tag

    -- `match_and_check`
    abbrev pub is_before : Block T → Block T → Bool
    is_before x y =
        let x_match = tag_of x.value == tag in
        let y_match = tag_of y.value == tag in
        not (is_used x)
        || (is_used y
            && ((not x_match && y_match)
                || ((x_match && y_match || not x_match && not y_match)
                    && ltb x.last_used y.last_used)))

    -- The first way that matches: its place among the ways from `i` on.
    unfoldable pub find_match : ℕ → List (Block T) → Option (ℕ × Block T)
    find_match i [] = none
    find_match i (b ∷ bs) =
        let rest = find_match (suc i) bs in if matches b then some (i, b) else rest

    -- `std::minmax_element`: the first of the least, `x` at `at` so far, and the last of the greatest.
    unfoldable pub min_way : Block T → ℕ → ℕ → List (Block T) → ℕ
    min_way x at i [] = at
    min_way x at i (b ∷ bs) =
        let less = min_way b i (suc i) bs in
        let same = min_way x at (suc i) bs in if is_before b x then less else same

    unfoldable pub max_way : Block T → ℕ → ℕ → List (Block T) → ℕ × Block T
    max_way x at i [] = (at, x)
    max_way x at i (b ∷ bs) =
        let more = max_way b i (suc i) bs in
        let same = max_way x at (suc i) bs in if is_before b x then same else more

  module _ (set_of tag_of : T → ℕ) where
    -- The start of the span of `get_set_span`.
    abbrev pub span_begin : LruTable T → T → ℕ
    span_begin t elem = set_of elem % t.num_set * t.num_way

    abbrev pub get_set_span : LruTable T → T → List (Block T)
    get_set_span t elem = take t.num_way (drop (span_begin t elem) t.block)

    unfoldable pub check_hit : LruTable T → T → LruTable T × Option T
    unfolding find_match
    check_hit t elem = elim (find_match tag_of (tag_of elem) 0 (get_set_span t elem)) [
      | none ↦ (t, none)
      | some (way, b) ↦
          let count = t.access_count + 1 in
          (
            record t {
              access_count = count;
              block = set t.block (span_begin t elem + way) (record b { last_used = count });
            },
            some b.value,
          )
    ]

    -- The way of a set that `fill` writes.
    unfoldable pub fill_way : T → List (Block T) → Option ℕ
    unfolding min_way max_way
    fill_way elem [] = none
    fill_way elem (b ∷ bs) =
        let tag = tag_of elem in
        let miss = min_way tag_of tag b 0 1 bs in
        let (hit, found) = max_way tag_of tag b 0 1 bs in
        some (if tag_of found.value == tag then hit else miss)

    unfoldable pub fill : LruTable T → T → LruTable T
    unfolding fill_way
    fill t elem = elim (fill_way elem (get_set_span t elem)) [
      | none ↦ t
      | some way ↦
          let count = t.access_count + 1 in
          record t {
            access_count = count;
            block =
                set t.block (span_begin t elem + way) (record { last_used = count; value = elem });
          }
    ]

    unfoldable pub invalidate : T → LruTable T → T → LruTable T × Option T
    unfolding find_match
    invalidate empty t elem = elim (find_match tag_of (tag_of elem) 0 (get_set_span t elem)) [
      | none ↦ (t, none)
      | some (way, b) ↦ (
        record t {
          block = set t.block (span_begin t elem + way) (record { last_used = 0; value = empty });
        },
        some b.value,
      )
    ]
