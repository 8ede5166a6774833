-- ===== src/Lru/History.antt =====
-- replacement/lru/lru.cc: the state of the policy is the history of the accesses, and its victim is the
-- way whose last access is the longest ago.
use mathlib.Core.Option.{some-injective}
use cscore_sstelem.Prelude.{
  ℕ, zero, suc, ◌+◌, ◌*◌, ◌≤◌, ◌<◌, ◌≡◌, refl, ap, subst, length-take, length-drop, ◌∙◌, sym, List,
  [], ◌∷◌, some, get_elem?, set, take, drop, replicate, length, length-set, length-replicate, ltb,
  ◌==◌, if◌then◌else◌, if_cases, ℕ_discrete, arith,
}
use cscore_sstelem.Lru.{Lru, make_lru, min_position, min_element, find_victim, mark_used}

-- The accesses so far, the last one first: each of a set and a way.
abbrev pub History : Type 0
History = List (ℕ × ℕ)

-- The number of the last access of a place among all ways, counted from 0, and 0 where there is none.
unfoldable pub last_access : ℕ → History → ℕ → ℕ
last_access ways [] place = 0
last_access ways ((s, w) ∷ h) place =
    if s * ways + w == place then length h else last_access ways h place

-- The policy after the accesses.
unfoldable pub replay : ℕ → ℕ → History → Lru
replay sets ways [] = make_lru sets ways
replay sets ways ((s, w) ∷ h) = mark_used (replay sets ways h) s w

replay-sizes :
    (sets ways : ℕ) (h : History)
    → let l = replay sets ways h in
      (l.num_way ≡ ways) × (l.cycle ≡ length h) × (length l.last_used_cycles ≡ sets * ways)
unfolding replay make_lru mark_used
replay-sizes sets ways [] = (refl, refl, length-replicate (sets * ways) 0)
replay-sizes sets ways ((s, w) ∷ h) =
    let (way, count, size) = replay-sizes sets ways h in
    (way, omega (arith, count), length-set (replay sets ways h).last_used_cycles _ _ ∙ size)

get_elem?-replicate : (n i x : ℕ) → get_elem? (replicate n 0) i ≡ some x → x ≡ 0
get_elem?-replicate zero i x e = cc
get_elem?-replicate (suc n) zero x e = sym (some-injective 0 x e)
get_elem?-replicate (suc n) (suc i) x e = get_elem?-replicate n i x e

get_elem?-set :
    (xs : List ℕ) (i v j x : ℕ)
    → get_elem? (set xs i v) j ≡ some x
    → (old : ℕ) × (get_elem? xs j ≡ some old) × (x ≡ (if i == j then v else old))
get_elem?-set [] i v j x e = cc
get_elem?-set (y ∷ xs) zero v zero x e = (y, refl, sym (some-injective v x e))
get_elem?-set (y ∷ xs) zero v (suc j) x e = (x, e, ground arith)
get_elem?-set (y ∷ xs) (suc i) v zero x e = (y, refl, ground (arith, some-injective y x e))
get_elem?-set (y ∷ xs) (suc i) v (suc j) x e =
    let (old, place, value) = get_elem?-set xs i v j x e in (old, place, ground (arith, value))

-- The state is the history: each way holds the number of its last access.
pub replay-last_access :
    (sets ways : ℕ) (h : History) (place x : ℕ)
    → get_elem? (replay sets ways h).last_used_cycles place ≡ some x
    → x ≡ last_access ways h place
unfolding replay last_access make_lru mark_used
replay-last_access sets ways [] place x e = get_elem?-replicate (sets * ways) place x e
replay-last_access sets ways ((s, w) ∷ h) place x e =
    let l = replay sets ways h in
    let (way, count, size) = replay-sizes sets ways h in
    let (old, there, value) =
      get_elem?-set l.last_used_cycles (s * l.num_way + w) l.cycle place x e in
    let before = replay-last_access sets ways h place old there in
    let here : s * l.num_way + w ≡ s * ways + w = ap (λ (n : ℕ). s * n + w) way in
    value ∙ ap (λ (p : ℕ). if p == place then l.cycle else old) here ∙ ground (arith, count, before)

abbrev Agrees : (ℕ → ℕ) → ℕ → List ℕ → Type 0
Agrees f i xs = (j x : ℕ) → get_elem? xs j ≡ some x → x ≡ f (i + j)

zero_least : (f : ℕ → ℕ) (j : ℕ) → j < 1 → f 0 ≤ f j
zero_least f zero h = omega arith
zero_least f (suc j) h = absurd (omega (arith, h))

new_least :
    (f : ℕ → ℕ) (at i j : ℕ) → f i ≤ f at → ((j : ℕ) → j < i → f at ≤ f j) → j < suc i → f i ≤ f j
new_least f at i j less least h = elim (ℕ_discrete j i) [
  | yes e ↦ rw e (omega arith)
  | no ne ↦ omega (arith, less, least j (omega (arith, h, ne)))
]

old_least :
    (f : ℕ → ℕ) (at i j : ℕ) → f at ≤ f i → ((j : ℕ) → j < i → f at ≤ f j) → j < suc i → f at ≤ f j
old_least f at i j less least h = elim (ℕ_discrete j i) [
  | yes e ↦ rw e less
  | no ne ↦ least j (omega (arith, h, ne))
]

-- `min_position` finds a place that holds the least value.
min_position_least :
    (f : ℕ → ℕ) (xs : List ℕ) (best at i : ℕ)
    → Agrees f i xs
    → best ≡ f at
    → at < i
    → ((j : ℕ) → j < i → f at ≤ f j)
    → let k = min_position best at i xs in
      (k < i + length xs) × ((j : ℕ) → j < i + length xs → f k ≤ f j)
unfolding min_position
min_position_least f [] best at i a b lo least =
    (omega (arith, lo), λ j h. least j (omega (arith, h)))
min_position_least f (x ∷ xs) best at i a b lo least =
    let first : x ≡ f i = a 0 x refl ∙ ap f (omega arith) in
    let rest : Agrees f (suc i) xs =
      λ (j y : ℕ) (e : get_elem? xs j ≡ some y). a (suc j) y e ∙ ap f (omega arith) in
    let P =
      λ (k : ℕ). (k < i + suc (length xs)) × ((j : ℕ) → j < i + suc (length xs) → f k ≤ f j) in
    if_cases P (ltb x best)
      (λ less.
        let (bound, all) =
          min_position_least f xs x i (suc i) rest first (omega arith)
            (λ j h. new_least f at i j (ground (arith, first, b, less)) least h) in
        (omega (arith, bound), λ j h. all j (omega (arith, h))))
      (λ more.
        let (bound, all) =
          min_position_least f xs best at (suc i) rest b (omega (arith, lo))
            (λ j h. old_least f at i j (ground (arith, first, b, more)) least h) in
        (omega (arith, bound), λ j h. all j (omega (arith, h))))

min_element_least :
    (f : ℕ → ℕ) (xs : List ℕ)
    → Agrees f 0 xs
    → 1 ≤ length xs
    → (min_element xs < length xs) × ((j : ℕ) → j < length xs → f (min_element xs) ≤ f j)
unfolding min_element
min_element_least f [] a n = ground (arith, n)
min_element_least f (x ∷ xs) a n =
    let (bound, all) =
      min_position_least f xs x 0 1
        (λ (j y : ℕ) (e : get_elem? xs j ≡ some y). a (suc j) y e ∙ ap f (omega arith))
        (a 0 x refl ∙ ap f (omega arith)) (omega arith) (λ j h. zero_least f j h) in
    (omega (arith, bound), λ j h. all j (omega (arith, h)))

set_inside : (sets ways set_idx : ℕ) → set_idx < sets → set_idx * ways + ways ≤ sets * ways
set_inside sets ways set_idx s = grind arith

get_elem?-take :
    (n : ℕ) (xs : List ℕ) (j x : ℕ) → get_elem? (take n xs) j ≡ some x → get_elem? xs j ≡ some x
get_elem?-take zero xs j x e = cc
get_elem?-take (suc n) [] j x e = e
get_elem?-take (suc n) (y ∷ xs) zero x e = e
get_elem?-take (suc n) (y ∷ xs) (suc j) x e = get_elem?-take n xs j x e

get_elem?-drop : (k : ℕ) (xs : List ℕ) (j : ℕ) → get_elem? (drop k xs) j ≡ get_elem? xs (k + j)
get_elem?-drop zero xs j = ap (get_elem? xs) (omega arith)
get_elem?-drop (suc k) [] j = refl
get_elem?-drop (suc k) (y ∷ xs) j =
    let next : suc (k + j) ≡ suc k + j = omega arith in
    get_elem?-drop k xs j ∙ ap (get_elem? (y ∷ xs)) next

get_elem?-span :
    (n k : ℕ) (xs : List ℕ) (j x : ℕ)
    → get_elem? (take n (drop k xs)) j ≡ some x
    → get_elem? xs (k + j) ≡ some x
get_elem?-span n k xs j x e = sym (get_elem?-drop k xs j) ∙ get_elem?-take n (drop k xs) j x e

-- The victim of a set is one of its ways, and none of its ways was last used before it: a way that was
-- never used counts as used at the start.
pub find_victim_least :
    (sets ways : ℕ) (h : History) (set_idx way : ℕ)
    → 1 ≤ ways
    → set_idx < sets
    → way < ways
    → let victim = find_victim (replay sets ways h) set_idx in
      (victim < ways)
      × (last_access ways h (set_idx * ways + victim) ≤ last_access ways h (set_idx * ways + way))
unfolding find_victim
find_victim_least sets ways h set_idx way n s w =
    let l = replay sets ways h in
    let (num_way, count, size) = replay-sizes sets ways h in
    let base = set_idx * ways in
    let xs = take ways (drop base l.last_used_cycles) in
    let f : ℕ → ℕ = λ (j : ℕ). last_access ways h (base + j) in
    let long : length xs ≡ ways = omega (
      arith,
      length-take ways (drop base l.last_used_cycles),
      length-drop base l.last_used_cycles,
      size,
      set_inside sets ways set_idx s,
    ) in
    let least =
      min_element_least f xs
        (λ (j x : ℕ) (e : get_elem? xs j ≡ some x).
          replay-last_access sets ways h (base + j) x
            (get_elem?-span ways base l.last_used_cycles j x e)
          ∙ ap f (omega arith))
        (omega (arith, long, n)) in
    subst
      (λ (k : ℕ).
        let victim = min_element (take k (drop (set_idx * k) l.last_used_cycles)) in
        (victim < ways) × (f victim ≤ f way))
      (sym num_way) (omega (arith, least.0, long), least.1 way (omega (arith, long, w)))
