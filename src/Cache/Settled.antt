-- ===== src/Cache/Settled.antt =====
-- src/cache.cc: the answers that come back keep the entries one for each block, and those that are
-- answered before those that are not, which is the order in which `operate` fills them.
use mathlib.Core.Option.{some-injective}
use cscore_sstelem.Prelude.{
  ℕ, zero, suc, ◌+◌, ◌≤◌, ◌≡◌, refl, ap, ◌∙◌, sym, List, [], ◌∷◌, ◌++◌, Bool, true, false, some,
  get_elem?, set, if◌then◌else◌, Bool-cases, inl, inr, arith,
}
use cscore_sstelem.Cache.{Mshr, has_unknown_readiness}
use cscore_sstelem.Cache.Mshrs.{first_unreturned, remove_at}
use cscore_sstelem.Cache.Entries.{find_mshr_found}
use cscore_sstelem.Cache.Unique.{Entered, unchanged, merged, appended}

abbrev pub unanswered : Mshr → Bool
unanswered m = has_unknown_readiness m.data_promise

-- How many entries at the front are answered, and how many of all are.
unfoldable pub answered_front : List Mshr → ℕ
answered_front [] = 0
answered_front (m ∷ ms) = if unanswered m then 0 else suc (answered_front ms)

unfoldable pub answered_all : List Mshr → ℕ
answered_all [] = 0
answered_all (m ∷ ms) = (if unanswered m then 0 else 1) + answered_all ms

-- The answered entries are the first ones.
unfoldable pub IsSettled : List Mshr → Type 0
IsSettled ms = answered_front ms ≡ answered_all ms

pub front_at_most : (ms : List Mshr) → answered_front ms ≤ answered_all ms
unfolding answered_front answered_all
front_at_most [] = omega arith
front_at_most (m ∷ ms) = ground (arith, front_at_most ms)

pub IsSettled-tail : (m : Mshr) (ms : List Mshr) → IsSettled (m ∷ ms) → IsSettled ms
unfolding IsSettled answered_front answered_all
IsSettled-tail m ms h = ground (arith, front_at_most ms)

-- A new entry at the end, with no answer.
answered-append :
    (ms : List Mshr) (new : Mshr)
    → unanswered new ≡ true
    → (answered_front (ms ++ (new ∷ [])) ≡ answered_front ms)
      × (answered_all (ms ++ (new ∷ [])) ≡ answered_all ms)
unfolding answered_front answered_all
answered-append [] new u = ground arith
answered-append (m ∷ ms) new u = ground (arith, answered-append ms new u)

-- An entry in the place of one that is answered alike.
answered-set :
    (ms : List Mshr) (i : ℕ) (old new : Mshr)
    → get_elem? ms i ≡ some old
    → new.data_promise ≡ old.data_promise
    → (answered_front (set ms i new) ≡ answered_front ms)
      × (answered_all (set ms i new) ≡ answered_all ms)
unfolding answered_front answered_all
answered-set [] i old new at e = cc
answered-set (m ∷ ms) zero old new at e =
    let same : old ≡ m = sym (some-injective m old at) in rw (e, same) (refl, refl)
answered-set (m ∷ ms) (suc i) old new at e = ground (arith, answered-set ms i old new at e)

pub Entered-IsSettled :
    (bits addr size : ℕ) (before after : List Mshr)
    → Entered bits addr size before after
    → IsSettled before
    → IsSettled after
unfolding IsSettled
Entered-IsSettled bits addr size before after (unchanged e) h = rw e h
Entered-IsSettled bits addr size before after (merged i entry new f block promise e) h =
    let (front, all) =
      answered-set before i entry new (find_mshr_found bits addr before i entry f).0 promise in
    rw (e, front, all) h
Entered-IsSettled bits addr size before after (appended new n room a u e) h =
    let (front, all) = answered-append before new u in rw (e, front, all) h

-- A write of any entry over another.
pub answered_all-set :
    (ms : List Mshr) (i : ℕ) (old new : Mshr)
    → get_elem? ms i ≡ some old
    → answered_all (set ms i new) + answered_all (old ∷ [])
      ≡ answered_all ms + answered_all (new ∷ [])
unfolding answered_all
answered_all-set [] i old new at = cc
answered_all-set (m ∷ ms) zero old new at =
    let same : old ≡ m = sym (some-injective m old at) in rw same (omega arith)
answered_all-set (m ∷ ms) (suc i) old new at = omega (arith, answered_all-set ms i old new at)

fewer_answered : (ms : List Mshr) (i : ℕ) → answered_all (remove_at i ms) ≤ answered_all ms
unfolding remove_at answered_all
fewer_answered [] i = omega arith
fewer_answered (m ∷ ms) zero = ground arith
fewer_answered (m ∷ ms) (suc i) = omega (arith, fewer_answered ms i)

-- If an entry has no answer, there is a first such entry, behind the answered ones at the front.
pub first_unreturned_exists :
    (ms : List Mshr) (i : ℕ) (entry : Mshr)
    → get_elem? ms i ≡ some entry
    → unanswered entry ≡ true
    → (other : Mshr) × (first_unreturned ms ≡ some (answered_front ms, other))
      × (get_elem? ms (answered_front ms) ≡ some other)
      × (unanswered other ≡ true)
unfolding first_unreturned answered_front
first_unreturned_exists [] i entry at u = cc
first_unreturned_exists (m ∷ ms) zero entry at u =
    let here : unanswered m ≡ true = ap unanswered (some-injective m entry at) ∙ u in
    rw here (m, refl, refl, here)
first_unreturned_exists (m ∷ ms) (suc i) entry at u = elim (Bool-cases (unanswered m)) [
  | inl e ↦ rw e (m, refl, refl, e)
  | inr e ↦
      let (other, found, place, w) = first_unreturned_exists ms i entry at u in
      rw e (other, rw found refl, place, w)
]

swap_first :
    (m : Mshr) (ms : List Mshr) (i : ℕ) (other new : Mshr)
    → unanswered new ≡ false
    → 1 ≤ answered_front (set (set (m ∷ ms) i other) 0 new)
unfolding answered_front
swap_first m ms zero other new k = rw k (omega arith)
swap_first m ms (suc i) other new k = rw k (omega arith)

-- After the swap one more of the first entries is answered.
pub swap-front :
    (ms : List Mshr) (i : ℕ) (entry other new : Mshr)
    → get_elem? ms i ≡ some entry
    → unanswered entry ≡ true
    → unanswered new ≡ false
    → 1 + answered_front ms ≤ answered_front (set (set ms i other) (answered_front ms) new)
unfolding answered_front
swap-front [] i entry other new at u k = cc
swap-front (m ∷ ms) zero entry other new at u k =
    let here : unanswered m ≡ true = ap unanswered (some-injective m entry at) ∙ u in
    rw here (swap_first m ms zero other new k)
swap-front (m ∷ ms) (suc i) entry other new at u k = elim (Bool-cases (unanswered m)) [
  | inl e ↦ rw e (swap_first m ms (suc i) other new k)
  | inr e ↦ let later = swap-front ms i entry other new at u k in rw e (rw e (omega (arith, later)))
]

pub remove_at-IsSettled : (ms : List Mshr) (i : ℕ) → IsSettled ms → IsSettled (remove_at i ms)
unfolding IsSettled remove_at answered_front answered_all
remove_at-IsSettled [] i h = refl
remove_at-IsSettled (m ∷ ms) zero h = ground (arith, front_at_most ms)
remove_at-IsSettled (m ∷ ms) (suc i) h = elim (Bool-cases (unanswered m)) [
  | inl e ↦ ground (arith, e, fewer_answered ms i)
  | inr e ↦ ground (arith, e, remove_at-IsSettled ms i)
]
