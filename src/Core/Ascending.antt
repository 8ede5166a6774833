-- ===== src/Core/Ascending.antt =====
-- Lists of instruction ids in program order, and how they merge.
use cscore_sstelem.Prelude.{
  ℕ, ◌≤◌, ◌<◌, ◌≡◌, refl, ap, subst, dec_lt, sym, ◌∙◌, List, [], ◌∷◌, ◌++◌, ltb, arith,
  if◌then◌else◌,
}

-- A number is below all of a list.
abbrev pub Above : ℕ → List ℕ → Type 0
Above x [] = Unit
Above x (y ∷ ys) = (x < y) × Above x ys

abbrev pub AllBelow : List ℕ → List ℕ → Type 0
AllBelow [] ys = Unit
AllBelow (x ∷ xs) ys = Above x ys × AllBelow xs ys

abbrev pub Ascending : List ℕ → Type 0
Ascending [] = Unit
Ascending (x ∷ xs) = Above x xs × Ascending xs

-- The merge of two lists: of two equal ids, the first list's comes first.
unfoldable pub merge_right : ℕ → (List ℕ → List ℕ) → List ℕ → List ℕ
merge_right x rest [] = x ∷ rest []
merge_right x rest (y ∷ ys) = if ltb y x then y ∷ merge_right x rest ys else x ∷ rest (y ∷ ys)

unfoldable pub merge_ids : List ℕ → List ℕ → List ℕ
unfolding merge_right
merge_ids [] ys = ys
merge_ids (x ∷ xs) ys = merge_right x (merge_ids xs) ys

pub Above-append : (x : ℕ) (xs ys : List ℕ) → Above x xs → Above x ys → Above x (xs ++ ys)
Above-append x [] ys h k = k
Above-append x (y ∷ xs) ys h k = (h.0, Above-append x xs ys h.1 k)

pub Above-split : (x : ℕ) (xs ys : List ℕ) → Above x (xs ++ ys) → Above x xs × Above x ys
Above-split x [] ys h = (tt, h)
Above-split x (y ∷ xs) ys h = let (a, b) = Above-split x xs ys h.1 in ((h.0, a), b)

pub Ascending-split :
    (xs ys : List ℕ) → Ascending (xs ++ ys) → Ascending xs × Ascending ys × AllBelow xs ys
Ascending-split [] ys h = (tt, h, tt)
Ascending-split (x ∷ xs) ys h =
    let (a, b, c) = Ascending-split xs ys h.1 in
    let (d, e) = Above-split x xs ys h.0 in ((d, a), b, (e, c))

pub AllBelow-split : (xs ys zs : List ℕ) → AllBelow xs (ys ++ zs) → AllBelow xs ys × AllBelow xs zs
AllBelow-split [] ys zs h = (tt, tt)
AllBelow-split (x ∷ xs) ys zs h =
    let (a, b) = AllBelow-split xs ys zs h.1 in
    let (d, e) = Above-split x ys zs h.0 in ((d, a), (e, b))

pub merge_ids-nil : (xs : List ℕ) → merge_ids xs [] ≡ xs
unfolding merge_ids
merge_ids-nil [] = refl
merge_ids-nil (x ∷ xs) = ap (λ l. x ∷ l) (merge_ids-nil xs)

-- The two ways to take the front of a merge.
pub merge_ids-left :
    (x : ℕ) (xs ys : List ℕ) → Above x ys → merge_ids (x ∷ xs) ys ≡ x ∷ merge_ids xs ys
unfolding merge_ids
merge_ids-left x xs [] h = refl
merge_ids-left x xs (y ∷ ys) h = ground arith

pub merge_ids-front_left :
    (x y : ℕ) (xs ys : List ℕ) → x ≤ y → merge_ids (x ∷ xs) (y ∷ ys) ≡ x ∷ merge_ids xs (y ∷ ys)
unfolding merge_ids
merge_ids-front_left x y xs ys h = ground arith

pub merge_ids-front_right :
    (x y : ℕ) (xs ys : List ℕ) → y < x → merge_ids (x ∷ xs) (y ∷ ys) ≡ y ∷ merge_ids (x ∷ xs) ys
unfolding merge_ids
merge_ids-front_right x y xs ys h = ground arith

pub merge_ids-right :
    (xs : List ℕ) (y : ℕ) (ys : List ℕ) → Above y xs → merge_ids xs (y ∷ ys) ≡ y ∷ merge_ids xs ys
unfolding merge_ids
merge_ids-right [] y ys h = refl
merge_ids-right (x ∷ xs) y ys h = merge_ids-front_right x y xs ys h.0

-- Lists of which one is below the other merge to the one and then the other.
pub merge_ids-append : (xs ys : List ℕ) → AllBelow xs ys → merge_ids xs ys ≡ xs ++ ys
unfolding merge_ids
merge_ids-append [] ys h = refl
merge_ids-append (x ∷ xs) ys h =
    merge_ids-left x xs ys h.0 ∙ ap (λ l. x ∷ l) (merge_ids-append xs ys h.1)

-- How the fronts of two lists merge.
pub fronts :
    (P : List ℕ → Type 0) (x y : ℕ) (xs ys : List ℕ)
    → (y < x → P (y ∷ merge_ids (x ∷ xs) ys))
    → (x ≤ y → P (x ∷ merge_ids xs (y ∷ ys)))
    → P (merge_ids (x ∷ xs) (y ∷ ys))
fronts P x y xs ys right left = elim (dec_lt y x) [
  | yes less ↦ subst P (sym (merge_ids-front_right x y xs ys less)) (right less)
  | no more ↦
      let le : x ≤ y = omega (arith, more) in
      subst P (sym (merge_ids-front_left x y xs ys le)) (left le)
]

-- What is below a merge is below both lists.
pub merge-Above : (z : ℕ) (xs ys : List ℕ) → Above z (merge_ids xs ys) → Above z xs × Above z ys
unfolding merge_ids
merge-Above z [] ys h = (tt, h)
merge-Above z (x ∷ xs) [] h = (subst (Above z) (ap (λ l. x ∷ l) (merge_ids-nil xs)) h, tt)
merge-Above z (x ∷ xs) (y ∷ ys) h =
    fronts (λ l. Above z l → Above z (x ∷ xs) × Above z (y ∷ ys)) x y xs ys
      (λ less k. let (a, b) = merge-Above z (x ∷ xs) ys k.1 in (a, (k.0, b)))
      (λ more k. let (a, b) = merge-Above z xs (y ∷ ys) k.1 in ((k.0, a), b)) h

pub Above-merge : (z : ℕ) (xs ys : List ℕ) → Above z xs → Above z ys → Above z (merge_ids xs ys)
unfolding merge_ids
Above-merge z [] ys h k = k
Above-merge z (x ∷ xs) [] h k = subst (Above z) (sym (ap (λ l. x ∷ l) (merge_ids-nil xs))) h
Above-merge z (x ∷ xs) (y ∷ ys) h k =
    fronts (Above z) x y xs ys (λ less. (k.0, Above-merge z (x ∷ xs) ys h k.1))
      (λ more. (h.0, Above-merge z xs (y ∷ ys) h.1 k))

-- If a merge is below a list, both lists are.
pub merge-AllBelow :
    (xs ys zs : List ℕ) → AllBelow (merge_ids xs ys) zs → AllBelow xs zs × AllBelow ys zs
unfolding merge_ids
merge-AllBelow [] ys zs h = (tt, h)
merge-AllBelow (x ∷ xs) [] zs h =
    (subst (λ l. AllBelow l zs) (ap (λ l. x ∷ l) (merge_ids-nil xs)) h, tt)
merge-AllBelow (x ∷ xs) (y ∷ ys) zs h =
    fronts (λ l. AllBelow l zs → AllBelow (x ∷ xs) zs × AllBelow (y ∷ ys) zs) x y xs ys
      (λ less k. let (a, b) = merge-AllBelow (x ∷ xs) ys zs k.1 in (a, (k.0, b)))
      (λ more k. let (a, b) = merge-AllBelow xs (y ∷ ys) zs k.1 in ((k.0, a), b)) h

-- The lists of an ascending merge are ascending, and have no number in common.
pub merge-Ascending :
    (x y : ℕ) (xs ys : List ℕ)
    → Ascending (merge_ids (x ∷ xs) (y ∷ ys))
    → (y < x → Ascending (merge_ids (x ∷ xs) ys))
      × (x ≤ y → (x < y) × Ascending (merge_ids xs (y ∷ ys)))
merge-Ascending x y xs ys h = (
  (λ less. (subst Ascending (merge_ids-front_right x y xs ys less) h).1),
  (λ more.
      let (above, rest) = subst Ascending (merge_ids-front_left x y xs ys more) h in
      ((merge-Above x xs (y ∷ ys) above).1.0, rest)),
)

-- Later numbers merge behind the earlier ones.
pub merge_ids-later :
    (xs ys us vs : List ℕ)
    → AllBelow xs us
    → AllBelow xs vs
    → AllBelow ys us
    → AllBelow ys vs
    → merge_ids (xs ++ us) (ys ++ vs) ≡ merge_ids xs ys ++ merge_ids us vs
unfolding merge_ids
merge_ids-later [] [] us vs a b c d = refl
merge_ids-later [] (y ∷ ys) us vs a b c d =
    merge_ids-right us y (ys ++ vs) c.0
    ∙ ap (λ l. y ∷ l) (merge_ids-later [] ys us vs tt tt c.1 d.1)
merge_ids-later (x ∷ xs) [] us vs a b c d =
    merge_ids-left x (xs ++ us) vs b.0 ∙ ap (λ l. x ∷ l) (merge_ids-later xs [] us vs a.1 b.1 tt tt)
merge_ids-later (x ∷ xs) (y ∷ ys) us vs a b c d = elim (dec_lt y x) [
  | yes less ↦
      merge_ids-front_right x y (xs ++ us) (ys ++ vs) less
      ∙ ap (λ l. y ∷ l) (merge_ids-later (x ∷ xs) ys us vs a b c.1 d.1)
      ∙ ap (λ l. l ++ merge_ids us vs) (sym (merge_ids-front_right x y xs ys less))
  | no more ↦
      let le : x ≤ y = omega (arith, more) in
      merge_ids-front_left x y (xs ++ us) (ys ++ vs) le
      ∙ ap (λ l. x ∷ l) (merge_ids-later xs (y ∷ ys) us vs a.1 b.1 c d)
      ∙ ap (λ l. l ++ merge_ids us vs) (sym (merge_ids-front_left x y xs ys le))
]

pub AllBelow-merge :
    (xs ys zs : List ℕ) → AllBelow xs (merge_ids ys zs) → AllBelow xs ys × AllBelow xs zs
AllBelow-merge [] ys zs h = (tt, tt)
AllBelow-merge (x ∷ xs) ys zs h =
    let (a, b) = merge-Above x ys zs h.0 in
    let (c, d) = AllBelow-merge xs ys zs h.1 in ((a, c), (b, d))
