-- ===== src/FwCounter.antt =====
-- inc/msl/fwcounter.h: counters that stay between a smallest and a largest value.
-- The two template values are the fields `maximum` and `minimum`, and a sum does not overflow the value
-- type. Products and quotients are not modelled.
pub mod Range
mod Tests
use cscore_sstelem.Prelude.{ℕ, zero, suc, ◌-◌, ◌^◌, Bool, not, ◌||◌, if◌then◌else◌}
use cscore_sstelem.Prelude.Int.{ℤ, pos, negsuc, ◌+ℤ◌, ◌-ℤ◌, ltb_ℤ, eqb_ℤ}

-- `base_fwcounter`
pub record FwCounter : Type 0 where
  pub value : ℤ
  pub maximum : ℤ
  pub minimum : ℤ

-- `std::clamp(val, MINVAL, MAXVAL)`
unfoldable pub clamp_value : FwCounter → ℤ → ℤ
clamp_value c val =
    if ltb_ℤ val c.minimum then c.minimum else if ltb_ℤ c.maximum val then c.maximum else val

-- `fwcounter<WIDTH>{v}`: from 0 to 2 ^ WIDTH - 1.
unfoldable pub fwcounter : ℕ → ℤ → FwCounter
fwcounter width v = record { value = v; maximum = pos (2 ^ width - 1); minimum = pos 0 }

-- `sfwcounter<WIDTH>{v}`: from - 2 ^ (WIDTH - 1) to 2 ^ (WIDTH - 1) - 1.
unfoldable pub sfwcounter : ℕ → ℤ → FwCounter
sfwcounter width v = record {
  value = v;
  maximum = pos (2 ^ (width - 1) - 1);
  minimum = negsuc (2 ^ (width - 1) - 1);
}

-- `operator=`
unfoldable pub assign : FwCounter → ℤ → FwCounter
unfolding clamp_value
assign c rhs = record c { value = clamp_value c rhs }

-- `operator+=`
unfoldable pub add_assign : FwCounter → ℤ → FwCounter
unfolding clamp_value
add_assign c rhs = record c { value = clamp_value c (c.value +ℤ rhs) }

-- `operator-=`
unfoldable pub sub_assign : FwCounter → ℤ → FwCounter
unfolding clamp_value
sub_assign c rhs = record c { value = clamp_value c (c.value -ℤ rhs) }

-- `operator++()`
unfoldable pub increment : FwCounter → FwCounter
unfolding add_assign
increment c = add_assign c (pos 1)

-- `operator--()`, which the code writes with `+=`.
unfoldable pub decrement : FwCounter → FwCounter
unfolding add_assign
decrement c = add_assign c (pos 1)

-- `operator++(int)`: the counter after it, and the one that it returns.
unfoldable pub post_increment : FwCounter → FwCounter × FwCounter
unfolding increment
post_increment c = (increment c, c)

-- `operator--(int)`
unfoldable pub post_decrement : FwCounter → FwCounter × FwCounter
unfolding decrement
post_decrement c = (decrement c, c)

unfoldable pub is_max : FwCounter → Bool
is_max c = eqb_ℤ c.value c.maximum

unfoldable pub is_min : FwCounter → Bool
is_min c = eqb_ℤ c.value c.minimum

-- `operator+` and `operator-`, which work on a copy.
unfoldable pub add : FwCounter → ℤ → FwCounter
unfolding add_assign
add lhs rhs = add_assign lhs rhs

unfoldable pub sub : FwCounter → ℤ → FwCounter
unfolding sub_assign
sub lhs rhs = sub_assign lhs rhs

-- The two base comparators, and those that forward to them.
unfoldable pub less : FwCounter → ℤ → Bool
less lhs rhs = ltb_ℤ lhs.value rhs

unfoldable pub equal : FwCounter → ℤ → Bool
equal lhs rhs = eqb_ℤ lhs.value rhs

unfoldable pub greater : FwCounter → ℤ → Bool
unfolding less equal
greater lhs rhs = not (equal lhs rhs || less lhs rhs)

unfoldable pub greater_equal : FwCounter → ℤ → Bool
unfolding less
greater_equal lhs rhs = not (less lhs rhs)

unfoldable pub less_equal : FwCounter → ℤ → Bool
unfolding greater
less_equal lhs rhs = not (greater lhs rhs)

unfoldable pub not_equal : FwCounter → ℤ → Bool
unfolding equal
not_equal lhs rhs = not (equal lhs rhs)

-- Between two counters the operators forward to those on the value of the right one.
unfoldable pub add_counter : FwCounter → FwCounter → FwCounter
unfolding add
add_counter lhs rhs = add lhs rhs.value

unfoldable pub sub_counter : FwCounter → FwCounter → FwCounter
unfolding sub
sub_counter lhs rhs = sub lhs rhs.value

unfoldable pub less_counter : FwCounter → FwCounter → Bool
unfolding less
less_counter lhs rhs = less lhs rhs.value

unfoldable pub greater_counter : FwCounter → FwCounter → Bool
unfolding greater
greater_counter lhs rhs = greater lhs rhs.value
