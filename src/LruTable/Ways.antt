-- ===== src/LruTable/Ways.antt =====
-- inc/msl/lru_table.h, `match_func` and `match_and_check`: the ways of a set that the scans find.
use cscore_sstelem.Prelude.{
  ℕ, zero, suc, ◌+◌, ◌≤◌, ◌<◌, ◌≡◌, refl, subst, sym, List, [], ◌∷◌, true, Option, some, length,
  get_elem?, if_cases, arith,
}
use mathlib.Core.Option.{some-injective}
use cscore_sstelem.LruTable.{Block, matches, is_before, find_match, min_way, max_way}

module _ {T : Type 0} (tag_of : T → ℕ) (tag : ℕ) where
  abbrev pub Finds : List (Block T) → Option (ℕ × Block T) → Type 0
  Finds bs r =
      (n : ℕ) × (j : ℕ) × (b : Block T) × (r ≡ some (n, b))
      × (get_elem? bs j ≡ some b)
      × (matches tag_of tag b ≡ true)

  -- A way that matches is found, if there is one.
  pub find_match-Finds :
      (i : ℕ) (bs : List (Block T)) (w : ℕ) (b : Block T)
      → get_elem? bs w ≡ some b
      → matches tag_of tag b ≡ true
      → Finds bs (find_match tag_of tag i bs)
  unfolding find_match
  find_match-Finds i [] w b e h = absurd cc
  find_match-Finds i (x ∷ xs) zero b e h =
      let first =
        subst (λ (c : Block T). matches tag_of tag c ≡ true) (sym (some-injective x b e)) h in
      if_cases (Finds (x ∷ xs)) (matches tag_of tag x) (λ _. (i, 0, x, refl, refl, first))
        (λ other. absurd cc)
  find_match-Finds i (x ∷ xs) (suc w) b e h =
      if_cases (Finds (x ∷ xs)) (matches tag_of tag x) (λ first. (i, 0, x, refl, refl, first))
        (λ _.
          let (n, j, c, found, stands, same) = find_match-Finds (suc i) xs w b e h in
          (n, suc j, c, found, stands, same))

  pub min_way-lt :
      (x : Block T) (at i : ℕ) (bs : List (Block T)) (n : ℕ)
      → at < n
      → i + length bs ≤ n
      → min_way tag_of tag x at i bs < n
  unfolding min_way
  min_way-lt x at i [] n h k = h
  min_way-lt x at i (b ∷ bs) n h k =
      if_cases (λ (m : ℕ). m < n) (is_before tag_of tag b x)
        (λ _. min_way-lt b i (suc i) bs n (omega (arith, k)) (omega (arith, k)))
        (λ _. min_way-lt x at (suc i) bs n h (omega (arith, k)))

  -- What the scan for the greatest finds stands where it says.
  pub max_way-found :
      (x : Block T) (at i : ℕ) (bs all : List (Block T))
      → get_elem? all at ≡ some x
      → ((k : ℕ) → get_elem? all (i + k) ≡ get_elem? bs k)
      → let (m, b) = max_way tag_of tag x at i bs in get_elem? all m ≡ some b
  unfolding max_way
  max_way-found x at i [] all h k = h
  max_way-found x at i (b ∷ bs) all h k =
      let P = λ (r : ℕ × Block T). get_elem? all r.0 ≡ some r.1 in
      let next : (j : ℕ) → get_elem? all (suc i + j) ≡ get_elem? bs j =
        λ j. subst (λ n. get_elem? all n ≡ get_elem? bs j) (omega arith) (k (suc j)) in
      if_cases P (is_before tag_of tag b x) (λ _. max_way-found x at (suc i) bs all h next)
        (λ _.
          max_way-found b i (suc i) bs all
            (subst (λ n. get_elem? all n ≡ some b) (omega arith) (k 0)) next)

  -- A way that matches is passed over for another that matches only.
  pub max_way-kept :
      (x : Block T) (at i : ℕ) (bs : List (Block T))
      → matches tag_of tag x ≡ true
      → matches tag_of tag (max_way tag_of tag x at i bs).1 ≡ true
  unfolding max_way
  max_way-kept x at i [] h = h
  max_way-kept x at i (b ∷ bs) h =
      if_cases (λ (r : ℕ × Block T). matches tag_of tag r.1 ≡ true) (is_before tag_of tag b x)
        (λ _. max_way-kept x at (suc i) bs h)
        (λ e. max_way-kept b i (suc i) bs (ground (arith, e, h)))

  pub max_way-matches :
      (x : Block T) (at i : ℕ) (bs : List (Block T)) (k : ℕ) (c : Block T)
      → get_elem? bs k ≡ some c
      → matches tag_of tag c ≡ true
      → matches tag_of tag (max_way tag_of tag x at i bs).1 ≡ true
  unfolding max_way
  max_way-matches x at i [] k c e h = absurd cc
  max_way-matches x at i (b ∷ bs) zero c e h =
      let first =
        subst (λ (a : Block T). matches tag_of tag a ≡ true) (sym (some-injective b c e)) h in
      if_cases (λ (r : ℕ × Block T). matches tag_of tag r.1 ≡ true) (is_before tag_of tag b x)
        (λ before. max_way-kept x at (suc i) bs (ground (arith, before, first)))
        (λ _. max_way-kept b i (suc i) bs first)
  max_way-matches x at i (b ∷ bs) (suc k) c e h =
      if_cases (λ (r : ℕ × Block T). matches tag_of tag r.1 ≡ true) (is_before tag_of tag b x)
        (λ _. max_way-matches x at (suc i) bs k c e h) (λ _. max_way-matches b i (suc i) bs k c e h)
