-- ===== src/FwCounter/Range.antt =====
-- inc/msl/fwcounter.h: the range of a counter, and what many increments come to.
use cscore_sstelem.Prelude.{
  ℕ, zero, suc, ◌≡◌, refl, ap, ◌∙◌, sym, not, true, Bool-cases, inl, inr, arith,
}
use cscore_sstelem.Prelude.Int.{ℤ, pos, ◌+ℤ◌, ◌-ℤ◌, ◌≤ℤ◌, ltb_ℤ, eqb_ℤ, +ℤ_parts, eq_of_parts}
use cscore_sstelem.FwCounter.{
  FwCounter, clamp_value, assign, add_assign, sub_assign, increment, decrement, less, equal,
  greater, greater_equal, less_equal, not_equal,
}

-- The value of a counter lies between its limits, and these are not empty.
abbrev pub IsInRange : FwCounter → Type 0
IsInRange c = (c.minimum ≤ℤ c.value) × (c.value ≤ℤ c.maximum)

clamp_value-bounds :
    (c : FwCounter) (val : ℤ)
    → c.minimum ≤ℤ c.maximum
    → (c.minimum ≤ℤ clamp_value c val) × (clamp_value c val ≤ℤ c.maximum)
unfolding clamp_value
clamp_value-bounds c val h = ground arith

-- Whatever is assigned to a counter, added to it or taken from it, and however it is incremented or
-- decremented, its value lies between its limits, if the smallest is not above the largest.
pub operators-IsInRange :
    (c : FwCounter) (rhs : ℤ)
    → c.minimum ≤ℤ c.maximum
    → IsInRange (assign c rhs)
      × IsInRange (add_assign c rhs)
      × IsInRange (sub_assign c rhs)
      × IsInRange (increment c)
      × IsInRange (decrement c)
unfolding assign add_assign sub_assign increment decrement
operators-IsInRange c rhs h = (
  clamp_value-bounds c rhs h,
  clamp_value-bounds c (c.value +ℤ rhs) h,
  clamp_value-bounds c (c.value -ℤ rhs) h,
  clamp_value-bounds c (c.value +ℤ pos 1) h,
  clamp_value-bounds c (c.value +ℤ pos 1) h,
)

-- `n` increments.
unfoldable pub increments : ℕ → FwCounter → FwCounter
increments zero c = c
increments (suc n) c = increment (increments n c)

clamp_value_inside : (c : FwCounter) (v : ℤ) → c.minimum ≤ℤ v → v ≤ℤ c.maximum → clamp_value c v ≡ v
unfolding clamp_value
clamp_value_inside c v lo hi = ground arith

clamp_value_above :
    (c : FwCounter) (v : ℤ) → c.minimum ≤ℤ c.maximum → c.maximum ≤ℤ v → clamp_value c v ≡ c.maximum
unfolding clamp_value
clamp_value_above c v h above = ground (arith, eq_of_parts v c.maximum)

-- A clamp before one more does not show.
clamp_value-next :
    (c : FwCounter) (x : ℤ)
    → c.minimum ≤ℤ c.maximum
    → c.minimum ≤ℤ x
    → clamp_value c (clamp_value c x +ℤ pos 1) ≡ clamp_value c (x +ℤ pos 1)
clamp_value-next c x h lo = elim (Bool-cases (ltb_ℤ x c.maximum)) [
  | inl below ↦ ap (λ v. clamp_value c (v +ℤ pos 1)) (clamp_value_inside c x lo (ground arith))
  | inr above ↦
      ap (λ v. clamp_value c (v +ℤ pos 1)) (clamp_value_above c x h (ground arith))
      ∙ clamp_value_above c (c.maximum +ℤ pos 1) h (omega (arith, +ℤ_parts c.maximum (pos 1)))
      ∙ sym (clamp_value_above c (x +ℤ pos 1) h (ground (arith, +ℤ_parts x (pos 1))))
]

+ℤ-pos-suc : (a : ℤ) (n : ℕ) → a +ℤ pos n +ℤ pos 1 ≡ a +ℤ pos (suc n)
+ℤ-pos-suc a n =
    eq_of_parts _ _
      (omega (arith, +ℤ_parts (a +ℤ pos n) (pos 1), +ℤ_parts a (pos n), +ℤ_parts a (pos (suc n))))

+ℤ-pos-zero : (a : ℤ) → a +ℤ pos 0 ≡ a
+ℤ-pos-zero a = eq_of_parts _ _ (omega (arith, +ℤ_parts a (pos 0)))

-- To increment a counter in range `n` times is to add `n` to it once.
pub increments_lem : (c : FwCounter) (n : ℕ) → IsInRange c → increments n c ≡ add_assign c (pos n)
unfolding increments increment add_assign
increments_lem c zero h =
    ap (λ v. record c { value = v })
      (sym (ap (clamp_value c) (+ℤ-pos-zero c.value) ∙ clamp_value_inside c c.value h.0 h.1))
increments_lem c (suc n) h =
    ap increment (increments_lem c n h)
    ∙ ap (λ v. record c { value = v })
        (clamp_value-next c (c.value +ℤ pos n) (omega (arith, h.0, h.1))
            (omega (arith, h.0, +ℤ_parts c.value (pos n)))
          ∙ ap (clamp_value c) (+ℤ-pos-suc c.value n))

-- The decrement does what the increment does: on a counter below its largest value it raises the value
-- by one.
pub decrement_lem :
    (c : FwCounter)
    → IsInRange c
    → ltb_ℤ c.value c.maximum ≡ true
    → (decrement c ≡ increment c) × ((decrement c).value ≡ c.value +ℤ pos 1)
unfolding decrement increment add_assign
decrement_lem c h below = (
  refl,
  clamp_value_inside c (c.value +ℤ pos 1) (omega (arith, h.0, +ℤ_parts c.value (pos 1)))
      (ground (arith, +ℤ_parts c.value (pos 1))),
)

-- The comparators with a number agree with the order of the integers, and each is the negation of
-- its opposite.
pub comparators_lem :
    (c : FwCounter) (rhs : ℤ)
    → (greater c rhs ≡ ltb_ℤ rhs c.value)
      × (greater_equal c rhs ≡ not (ltb_ℤ c.value rhs))
      × (less_equal c rhs ≡ not (ltb_ℤ rhs c.value))
      × (not_equal c rhs ≡ not (eqb_ℤ c.value rhs))
unfolding greater greater_equal less_equal not_equal less equal
comparators_lem c rhs = ground arith
