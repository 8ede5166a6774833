-- ===== src/LruTable/Hits.antt =====
-- inc/msl/lru_table.h, `fill` and `check_hit`: what is filled in is found, and a set holds each tag once.
use cscore_sstelem.Prelude.{
  ℕ, zero, suc, ◌+◌, ◌≤◌, ◌<◌, ◌≡◌, refl, ap, subst, sym, ◌∙◌, List, [], ◌∷◌, true, Option, some,
  length, get_elem?, set, take, drop, ◌==◌, if_cases, option_cases, arith, drop-set, take-set,
  lt_length, length-take, length-drop, get_elem?-set_self, get_elem?-set_ne, ℕ_discrete, ◌≢◌,
}
use mathlib.Core.Option.{some-injective}
use cscore_sstelem.LruTable.{
  Block, LruTable, is_used, matches, find_match, min_way, max_way, span_begin, get_set_span,
  check_hit, fill_way, fill,
}
use cscore_sstelem.LruTable.Ways.{
  find_match-Finds, min_way-lt, max_way-found, max_way-kept, max_way-matches,
}

module _ {T : Type 0} (tag_of : T → ℕ) where
  -- No two ways of a set that are in use hold the same tag.
  abbrev pub OneEach : List (Block T) → Type 0
  OneEach bs =
      (i j : ℕ) (b c : Block T)
      → get_elem? bs i ≡ some b
      → get_elem? bs j ≡ some c
      → is_used b ≡ true
      → is_used c ≡ true
      → tag_of b.value ≡ tag_of c.value
      → i ≡ j

  matches-split :
      (tag : ℕ) (b : Block T)
      → matches tag_of tag b ≡ true
      → (is_used b ≡ true) × (tag_of b.value ≡ tag)
  matches-split tag b m = (ground (arith, m), ground (arith, m))

  greatest-matches :
      (tag : ℕ) (b : Block T) (bs : List (Block T)) (j : ℕ) (c : Block T)
      → get_elem? (b ∷ bs) j ≡ some c
      → matches tag_of tag c ≡ true
      → matches tag_of tag (max_way tag_of tag b 0 1 bs).1 ≡ true
  greatest-matches tag b bs zero c e m =
      max_way-kept tag_of tag b 0 1 bs
        (subst (λ (a : Block T). matches tag_of tag a ≡ true) (sym (some-injective b c e)) m)
  greatest-matches tag b bs (suc j) c e m = max_way-matches tag_of tag b 0 1 bs j c e m

  -- The way that `fill` writes is one of the set, and the one that holds the tag, if there is one.
  abbrev Writes : T → List (Block T) → Option ℕ → Type 0
  Writes elem bs r =
      (w : ℕ) × (r ≡ some w)
      × (w < length bs)
      × ((j : ℕ) (c : Block T)
          → get_elem? bs j ≡ some c
          → matches tag_of (tag_of elem) c ≡ true
          → w ≡ j)

  fill_way-Writes :
      (set_of : T → ℕ) (elem : T) (bs : List (Block T))
      → 0 < length bs
      → OneEach bs
      → Writes elem bs (fill_way set_of tag_of elem bs)
  unfolding fill_way
  fill_way-Writes set_of elem [] h one = absurd (omega arith)
  fill_way-Writes set_of elem (b ∷ bs) h one =
      let tag = tag_of elem in
      let miss = min_way tag_of tag b 0 1 bs in
      let (hit, found) = max_way tag_of tag b 0 1 bs in
      let stands : get_elem? (b ∷ bs) hit ≡ some found =
        max_way-found tag_of tag b 0 1 bs (b ∷ bs) refl
          (λ k. ap (get_elem? (b ∷ bs)) {y = suc k} (omega arith)) in
      if_cases (λ (w : ℕ). Writes elem (b ∷ bs) (some w)) (tag_of found.value == tag)
        (λ _. (
          hit,
          refl,
          lt_length (b ∷ bs) hit found stands,
          λ j c e m.
              let (used, same) = matches-split tag found (greatest-matches tag b bs j c e m) in
              let (used', same') = matches-split tag c m in
              one hit j found c stands e used used' (same ∙ sym same'),
        ))
        (λ other. (
          miss,
          refl,
          min_way-lt tag_of tag b 0 1 bs (suc (length bs)) (omega arith) (omega arith),
          λ j c e m.
              let (_, same) = matches-split tag found (greatest-matches tag b bs j c e m) in
              absurd (ground (arith, same, other)),
        ))

  -- A set that holds each tag once still does when one of its ways, the only one that may hold the tag,
  -- is written.
  OneEach-set :
      (elem : T) (bs : List (Block T)) (w : ℕ) (new : Block T)
      → OneEach bs
      → w < length bs
      → ((j : ℕ) (c : Block T)
          → get_elem? bs j ≡ some c
          → matches tag_of (tag_of elem) c ≡ true
          → w ≡ j)
      → new.value ≡ elem
      → OneEach (set bs w new)
  OneEach-set elem bs w new one lt only e i j b c p q used used' same = elim (ℕ_discrete w i) [
    | yes wi ↦ elim (ℕ_discrete w j) [
      | yes wj ↦ sym wi ∙ wj
      | no away ↦ sym wi ∙ written i j b c p q used' same wi away
    ]
    | no away ↦ elim (ℕ_discrete w j) [
      | yes wj ↦ sym (sym wj ∙ written j i c b q p used (sym same) wj away)
      | no away' ↦
          one i j b c (sym (get_elem?-set_ne bs new away) ∙ p)
            (sym (get_elem?-set_ne bs new away') ∙ q) used used' same
    ]
  ]
    where
      written :
          (i j : ℕ) (b c : Block T)
          → get_elem? (set bs w new) i ≡ some b
          → get_elem? (set bs w new) j ≡ some c
          → is_used c ≡ true
          → tag_of b.value ≡ tag_of c.value
          → w ≡ i
          → w ≢ j
          → w ≡ j
      written i j b c p q used same wi away =
          let here : get_elem? (set bs w new) i ≡ some new =
            subst (λ k. get_elem? (set bs w new) k ≡ some new) wi
              (get_elem?-set_self bs w new lt) in
          let is_new : new ≡ b = some-injective new b (sym here ∙ p) in
          let tag : tag_of c.value ≡ tag_of elem =
            sym same ∙ ap (λ (x : Block T). tag_of x.value) (sym is_new) ∙ ap tag_of e in
          only j c (sym (get_elem?-set_ne bs new away) ∙ q) (ground (arith, used, tag))

module _ {T : Type 0} (set_of tag_of : T → ℕ) (t : LruTable T) (elem : T) where
  -- A set of the table after a write to one of its ways.
  span-set :
      (w : ℕ) (new : Block T) (count : ℕ)
      → get_set_span set_of tag_of
          (record t {
            access_count = count;
            block = set t.block (span_begin set_of tag_of t elem + w) new;
          })
          elem
        ≡ set (get_set_span set_of tag_of t elem) w new
  span-set w new count =
      let begin = span_begin set_of tag_of t elem in
      ap (take t.num_way) (drop-set begin w t.block new)
      ∙ take-set t.num_way w (drop begin t.block) new

  hit_of_written :
      (t' : LruTable T) (bs : List (Block T)) (w : ℕ) (new : Block T)
      → OneEach tag_of (set bs w new)
      → get_set_span set_of tag_of t' elem ≡ set bs w new
      → w < length bs
      → new.value ≡ elem
      → is_used new ≡ true
      → (check_hit set_of tag_of t' elem).1 ≡ some elem
  unfolding check_hit
  hit_of_written t' bs w new one span lt same used =
      let tag = tag_of elem in
      let here = get_elem?-set_self bs w new lt in
      let held : tag_of new.value ≡ tag = ap tag_of same in
      let (n, j, c, found, stands, m) =
        find_match-Finds tag_of tag 0 (set bs w new) w new here (ground (arith, used, held)) in
      let (used', same') = matches-split tag_of tag c m in
      let at = one w j new c here stands used used' (held ∙ sym same') in
      let is_new : c ≡ new =
        some-injective c new
          (sym stands ∙ subst (λ k. get_elem? (set bs w new) k ≡ some new) at here) in
      let whole = ap (find_match tag_of tag 0) span ∙ found in
      option_cases (λ (r : LruTable T × Option T). r.1 ≡ some elem)
        (find_match tag_of tag 0 (get_set_span set_of tag_of t' elem)) _ _ (λ e. absurd cc)
        (λ a e.
          ap (λ (p : ℕ × Block T). some (p.1).value) (some-injective a (n, c) (sym e ∙ whole))
          ∙ ap (λ (x : Block T). some x.value) is_new
          ∙ ap some same)

  -- The table with a value at a way of the set.
  abbrev filled_at : ℕ → LruTable T
  filled_at w = record t {
    access_count = t.access_count + 1;
    block =
        set t.block (span_begin set_of tag_of t elem + w)
          (record { last_used = t.access_count + 1; value = elem });
  }

  filled :
      (w : ℕ)
      → fill_way set_of tag_of elem (get_set_span set_of tag_of t elem) ≡ some w
      → filled_at w ≡ fill set_of tag_of t elem
  unfolding fill
  filled w e =
      option_cases (λ (t' : LruTable T). filled_at w ≡ t')
        (fill_way set_of tag_of elem (get_set_span set_of tag_of t elem)) _ _ (λ e'. absurd cc)
        (λ way e'. ap filled_at (some-injective w way (sym e ∙ e')))

  -- In a table whose ways are more than none, for a value whose set is inside the table and holds each
  -- tag at most once: after the value is filled in, its set still holds each tag at most once, and a
  -- lookup finds the value.
  pub fill-check_hit :
      0 < t.num_way
      → span_begin set_of tag_of t elem + t.num_way ≤ length t.block
      → OneEach tag_of (get_set_span set_of tag_of t elem)
      → let t' = fill set_of tag_of t elem in
        OneEach tag_of (get_set_span set_of tag_of t' elem)
        × ((check_hit set_of tag_of t' elem).1 ≡ some elem)
  fill-check_hit ways within one =
      let bs = get_set_span set_of tag_of t elem in
      let begin = span_begin set_of tag_of t elem in
      let size : 0 < length bs = omega (
        arith,
        ways,
        within,
        length-take t.num_way (drop begin t.block),
        length-drop begin t.block,
      ) in
      let (w, found, lt, only) = fill_way-Writes tag_of set_of elem bs size one in
      let count = t.access_count + 1 in
      let new : Block T = record { last_used = count; value = elem } in
      let span = span-set w new count in
      let each = OneEach-set tag_of elem bs w new one lt only refl in
      let Holds : LruTable T → Type 0 = λ t'.
        OneEach tag_of (get_set_span set_of tag_of t' elem)
        × ((check_hit set_of tag_of t' elem).1 ≡ some elem) in
      subst Holds (filled w found) (
        subst (OneEach tag_of) (sym span) each,
        hit_of_written (filled_at w) bs w new each span lt refl (ground arith),
      )
