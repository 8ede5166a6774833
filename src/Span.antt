-- ===== src/Span.antt =====
-- inc/util/span.h: the part of a queue that a cycle may take.
use cscore_sstelem.Prelude.{
  ℕ, zero, suc, ◌≤◌, ◌≡◌, refl, ap, List, [], ◌∷◌, ◌++◌, length, Bool, if◌then◌else◌, if_cases,
  arith,
}

-- `get_span_p` and `find_if_not`: the longest run at the front of at most `n` elements that pass, and the
-- rest.
unfoldable pub span_while : {A : Type 0} → (A → Bool) → ℕ → List A → List A × List A
span_while test n [] = ([], [])
span_while test zero (x ∷ xs) = ([], x ∷ xs)
span_while test (suc n) (x ∷ xs) =
    let (run, rest) = span_while test n xs in if test x then (x ∷ run, rest) else ([], x ∷ xs)

pub span_while-append :
    {A : Type 0} (test : A → Bool) (n : ℕ) (xs : List A)
    → let (run, rest) = span_while test n xs in run ++ rest ≡ xs
unfolding span_while
span_while-append test n [] = refl
span_while-append test zero (x ∷ xs) = refl
span_while-append {A} test (suc n) (x ∷ xs) =
    if_cases (λ (r : List A × List A). r.0 ++ r.1 ≡ x ∷ xs) (test x)
      (λ _. ap (λ l. x ∷ l) (span_while-append test n xs)) (λ _. refl)

pub length-span_while :
    {A : Type 0} (test : A → Bool) (n : ℕ) (xs : List A) → length (span_while test n xs).0 ≤ n
unfolding span_while
length-span_while test n [] = omega arith
length-span_while test zero (x ∷ xs) = omega arith
length-span_while {A} test (suc n) (x ∷ xs) =
    if_cases (λ (r : List A × List A). length r.0 ≤ suc n) (test x)
      (λ _. omega (arith, length-span_while test n xs)) (λ _. omega arith)

pub length-span_left :
    {A : Type 0} (test : A → Bool) (n : ℕ) (xs : List A)
    → length (span_while test n xs).1 ≤ length xs
unfolding span_while
length-span_left test n [] = omega arith
length-span_left test zero (x ∷ xs) = omega arith
length-span_left {A} test (suc n) (x ∷ xs) =
    if_cases (λ (r : List A × List A). length r.1 ≤ suc (length xs)) (test x)
      (λ _. omega (arith, length-span_left test n xs)) (λ _. omega arith)
