-- ===== src/Srrip/Ages.antt =====
-- replacement/srrip/srrip.cc: what the choice of a victim does to the values of a set, and what a fill
-- does to them.
use mathlib.Core.Option.{some-injective}
use cscore_sstelem.Prelude.{
  Bool, true, false, ℕ, zero, suc, ◌+◌, ◌-◌, ◌≤◌, ◌≡◌, refl, subst, ap, ap₂, sym, ◌∙◌, List, Option,
  none, [], ◌∷◌, some, map, set, get_elem?, length, ltb, if◌then◌else◌, if_cases, arith,
}
use cscore_sstelem.Srrip.{
  Srrip, srrip_policy, max_rrpv, max_element, victim, find_victim, impl_replacement_cache_fill,
  impl_update_replacement_state, has_cache_fill,
}

-- No value of a set is above the bound.
abbrev pub AtMost : ℕ → List ℕ → Type 0
AtMost bound values = (j x : ℕ) → get_elem? values j ≡ some x → x ≤ bound

max_element-get_elem? :
    (ys : List ℕ) (best at i : ℕ) (xs : List ℕ)
    → get_elem? ys at ≡ some best
    → ((j : ℕ) → get_elem? ys (i + j) ≡ get_elem? xs j)
    → let (k, most) = max_element best at i xs in get_elem? ys k ≡ some most
unfolding max_element
max_element-get_elem? ys best at i [] here rest = here
max_element-get_elem? ys best at i (x ∷ xs) here rest =
    let place : get_elem? ys i ≡ some x = ap (get_elem? ys) (omega arith) ∙ rest 0 in
    let later : (j : ℕ) → get_elem? ys (suc i + j) ≡ get_elem? xs j =
      λ j. ap (get_elem? ys) (omega arith) ∙ rest (suc j) in
    if_cases (λ (r : ℕ × ℕ). get_elem? ys r.0 ≡ some r.1) (ltb best x)
      (λ _. max_element-get_elem? ys x i (suc i) xs place later)
      (λ _. max_element-get_elem? ys best at (suc i) xs here later)

max_of :
    (x : ℕ) (xs : List ℕ) → let (k, most) = max_element x 0 1 xs in get_elem? (x ∷ xs) k ≡ some most
max_of x xs =
    let next : (j : ℕ) → 1 + j ≡ suc j = λ j. omega arith in
    max_element-get_elem? (x ∷ xs) x 0 1 xs refl (λ j. ap (get_elem? (x ∷ xs)) (next j))

AtMost-cons : (bound x : ℕ) (xs : List ℕ) → x ≤ bound → AtMost bound xs → AtMost bound (x ∷ xs)
AtMost-cons bound x xs first rest zero y e = omega (arith, first, some-injective x y e)
AtMost-cons bound x xs first rest (suc j) y e = rest j y e

max_element-AtMost :
    (best at i : ℕ) (xs : List ℕ)
    → let (k, most) = max_element best at i xs in (best ≤ most) × AtMost most xs
unfolding max_element
max_element-AtMost best at i [] = (omega arith, λ j x e. cc)
max_element-AtMost best at i (x ∷ xs) =
    if_cases (λ (r : ℕ × ℕ). (best ≤ r.1) × AtMost r.1 (x ∷ xs)) (ltb best x)
      (λ less.
        let (first, rest) = max_element-AtMost x i (suc i) xs in
        (ground (arith, less, first), AtMost-cons _ x xs first rest))
      (λ more.
        let (first, rest) = max_element-AtMost best at (suc i) xs in
        (first, AtMost-cons _ x xs (ground (arith, more, first)) rest))

ltb_add : (m n d : ℕ) → ltb (m + d) (n + d) ≡ ltb m n
ltb_add m n d = ground arith

-- A position and a value, which is raised by `d`.
abbrev raise : ℕ → ℕ × ℕ → ℕ × ℕ
raise d r = (r.0, r.1 + d)

if-raise :
    (d : ℕ) (b : Bool) (p q p' q' : ℕ × ℕ)
    → p' ≡ raise d p
    → q' ≡ raise d q
    → (if b then p' else q') ≡ raise d (if b then p else q)
if-raise d true p q p' q' e f = e
if-raise d false p q p' q' e f = f

max_element-map :
    (d best at i : ℕ) (xs : List ℕ)
    → max_element (best + d) at i (map (λ (value : ℕ). value + d) xs)
      ≡ raise d (max_element best at i xs)
unfolding max_element
max_element-map d best at i [] = refl
max_element-map d best at i (x ∷ xs) = rw (ltb_add best x d) (
    if-raise d (ltb best x) _ _ _ _ (max_element-map d x i (suc i) xs)
      (max_element-map d best at (suc i) xs))

map-zero : (xs : List ℕ) → map (λ (value : ℕ). value + 0) xs ≡ xs
map-zero [] = refl
map-zero (x ∷ xs) = ap₂ ◌∷◌ (omega arith) (map-zero xs)

get_elem?-map :
    (f : ℕ → ℕ) (xs : List ℕ) (j y : ℕ)
    → get_elem? (map f xs) j ≡ some y
    → (x : ℕ) × (get_elem? xs j ≡ some x) × (y ≡ f x)
get_elem?-map f [] j y e = cc
get_elem?-map f (x ∷ xs) zero y e = (x, refl, sym (some-injective (f x) y e))
get_elem?-map f (x ∷ xs) (suc j) y e = get_elem?-map f xs j y e

map-get_elem? :
    (f : ℕ → ℕ) (xs : List ℕ) (j x : ℕ)
    → get_elem? xs j ≡ some x
    → get_elem? (map f xs) j ≡ some (f x)
map-get_elem? f [] j x e = cc
map-get_elem? f (y ∷ xs) zero x e = ap some (ap f (some-injective y x e))
map-get_elem? f (y ∷ xs) (suc j) x e = map-get_elem? f xs j x e

-- The choice of a victim in a set with ways and no value above the greatest raises all values by the same
-- amount. None is above the greatest then, and the victim's reaches it.
pub victim-AtMost :
    (values : List ℕ)
    → 1 ≤ length values
    → AtMost max_rrpv values
    → let (after, way) = victim values in
      (d : ℕ) × (after ≡ map (λ (value : ℕ). value + d) values)
      × AtMost max_rrpv after
      × (get_elem? after way ≡ some max_rrpv)
unfolding victim
victim-AtMost [] n h = ground (arith, n)
victim-AtMost (x ∷ xs) n h =
    let values = x ∷ xs in
    let r = max_element x 0 1 xs in
    let d = max_rrpv - r.1 in
    let at : get_elem? values r.0 ≡ some r.1 = max_of x xs in
    let (first, rest) = max_element-AtMost x 0 1 xs in
    let most : r.1 ≤ max_rrpv = h r.0 r.1 at in
    (
      d,
      refl,
      (λ j y e.
          let (old, place, value) = get_elem?-map (λ (value : ℕ). value + d) values j y e in
          omega (arith, value, most, AtMost-cons r.1 x xs first rest j old place)),
      map-get_elem? (λ (value : ℕ). value + d) values r.0 r.1 at ∙ ap some (omega (arith, most)),
    )

-- A victim that has been chosen is chosen again.
victim-again : (values : List ℕ) → AtMost max_rrpv values → victim (victim values).0 ≡ victim values
unfolding victim
victim-again [] h = refl
victim-again (x ∷ xs) h =
    let r = max_element x 0 1 xs in
    let d = max_rrpv - r.1 in
    let after = map (λ (value : ℕ). value + d) (x ∷ xs) in
    let at = max_of x xs in
    let most : r.1 ≤ max_rrpv = h r.0 r.1 at in
    let none_left : max_rrpv - (r.1 + d) ≡ 0 = omega (arith, most) in
    ap (λ (p : ℕ × ℕ). (map (λ (value : ℕ). value + (max_rrpv - p.1)) after, p.0))
      (max_element-map d x 0 1 xs)
    ∙ ap (λ (k : ℕ). (map (λ (value : ℕ). value + k) after, r.0)) none_left
    ∙ ap (λ (values : List ℕ). (values, r.0)) (map-zero after)

set-set : {A : Type 0} (xs : List A) (i : ℕ) (v w : A) → set (set xs i v) i w ≡ set xs i w
set-set [] i v w = refl
set-set (x ∷ xs) zero v w = refl
set-set (x ∷ xs) (suc i) v w = ap (λ ys. x ∷ ys) (set-set xs i v w)

set-there :
    {A : Type 0} (xs : List A) (i : ℕ) (v old : A)
    → get_elem? xs i ≡ some old
    → get_elem? (set xs i v) i ≡ some v
set-there [] i v old e = cc
set-there (x ∷ xs) zero v old e = refl
set-there (x ∷ xs) (suc i) v old e = set-there xs i v old e

found :
    (s : Srrip) (set_idx : ℕ) (values : List ℕ)
    → get_elem? s.sets set_idx ≡ some values
    → find_victim s set_idx
      ≡ (record s { sets = set s.sets set_idx (victim values).0 }, (victim values).1)
unfolding find_victim
found s set_idx values e =
    let outcome : List ℕ → Srrip × ℕ =
      λ vs. (record s { sets = set s.sets set_idx (victim vs).0 }, (victim vs).1) in
    subst
      (λ (place : Option (List ℕ)).
        elim place [ none ↦ (s, 0) | some vs ↦ outcome vs ] ≡ outcome values)
      (sym e) refl

-- A fill does not reach the values: `impl_update_replacement_state` lets it through only for a policy
-- with a `replacement_cache_fill`, which this one has not. So the way that has been chosen and filled is
-- chosen for the next fill of the set, and the state is the same after that, unless there is a hit. The
-- set is one of the policy's, with no value above the greatest.
pub find_victim-filled :
    (s : Srrip) (set_idx : ℕ) (values : List ℕ)
    → get_elem? s.sets set_idx ≡ some values
    → AtMost max_rrpv values
    → let (s', way) = find_victim s set_idx in
      find_victim (impl_replacement_cache_fill srrip_policy s' set_idx way) set_idx ≡ (s', way)
unfolding impl_replacement_cache_fill impl_update_replacement_state has_cache_fill
find_victim-filled s set_idx values e h =
    let after = (victim values).0 in
    let with_sets : List (List ℕ) → Srrip = λ sets. record { sets = sets } in
    let s' = with_sets (set s.sets set_idx after) in
    subst (λ (r : Srrip × ℕ). find_victim (r.0) set_idx ≡ r) (sym (found s set_idx values e))
      (found s' set_idx after (set-there s.sets set_idx after values e)
        ∙ ap (λ (r : List ℕ × ℕ). (with_sets (set (set s.sets set_idx after) set_idx r.0), r.1))
            (victim-again values h)
        ∙ ap (λ (sets : List (List ℕ)). (with_sets sets, (victim values).1))
            (set-set s.sets set_idx after after))
