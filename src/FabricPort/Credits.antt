-- ===== src/FabricPort/Credits.antt =====
-- src/fabric_port.cc: what credits pay for.
use cscore_sstelem.Prelude.{
  ℕ, ◌+◌, ◌-◌, ◌≤◌, ◌<◌, ◌^◌, ◌≡◌, refl, ◌∙◌, Perm, if◌then◌else◌, List, [], ◌∷◌, ◌++◌, true, false,
  arith, ap,
}
use native.Mathlib.Decide.{dec_le}
use native.Mathlib.Nat.{ℕ_set}
use mathlib.Core.Logic.{∥∥₁_elim}
use mathlib.Core.List.{Permᴰ}
use cscore_sstelem.Prelude.Int.{ℤ, pos}
use cscore_sstelem.Packet.{CsEvent}
use cscore_sstelem.Packet.Control.{make_credit_event}
use cscore_sstelem.FabricPort.{
  credit_bytes, add_credit, try_consume_credit, drain, is_credit_event, credit_value,
}

-- A finite credit: less than the value that stands for no limit, which is below 2 ^ 61.
abbrev pub IsFinite : ℕ → Type 0
IsFinite c = c < 2 ^ 61 - 1

-- What the events of a list cost, and what its credits are worth.
unfoldable pub total_bytes : List CsEvent → ℕ
total_bytes [] = 0
total_bytes (ev ∷ evs) = credit_bytes ev + total_bytes evs

-- No event of the list costs as much as 2 ^ 63.
abbrev pub IsCheap : List CsEvent → Type 0
IsCheap [] = Unit {0}
IsCheap (ev ∷ evs) = (credit_bytes ev < 2 ^ 63) × IsCheap evs

pub total_bytes-append :
    (xs ys : List CsEvent) → total_bytes (xs ++ ys) ≡ total_bytes xs + total_bytes ys
unfolding total_bytes
total_bytes-append [] ys = omega arith
total_bytes-append (x ∷ xs) ys = omega (arith, total_bytes-append xs ys)

pub IsCheap-append : (xs ys : List CsEvent) → IsCheap xs → IsCheap ys → IsCheap (xs ++ ys)
IsCheap-append [] ys h k = k
IsCheap-append (x ∷ xs) ys h k = (h.0, IsCheap-append xs ys h.1 k)

pub IsCheap-right : (xs ys : List CsEvent) → IsCheap (xs ++ ys) → IsCheap ys
IsCheap-right [] ys h = h
IsCheap-right (x ∷ xs) ys h = IsCheap-right xs ys h.1

-- With finite credits, an event that costs no more than them is paid for.
pub try_consume_credit-paid :
    (c bytes : ℕ)
    → IsFinite c
    → bytes ≤ c
    → try_consume_credit (pos c) bytes ≡ (pos (c - bytes), true)
unfolding try_consume_credit
try_consume_credit-paid c bytes f h = ground arith

-- One that costs more is not, and the credits stay.
pub try_consume_credit-refused :
    (c bytes : ℕ)
    → IsFinite c
    → bytes < 2 ^ 63
    → c < bytes
    → try_consume_credit (pos c) bytes ≡ (pos c, false)
unfolding try_consume_credit
try_consume_credit-refused c bytes f h k = ground arith

-- A credit that does not lift the credits over the capacity is added in full.
pub add_credit_lem :
    (c capacity bytes : ℕ)
    → IsFinite capacity
    → c + bytes ≤ capacity
    → add_credit (pos c) (pos capacity) bytes ≡ pos (c + bytes)
unfolding add_credit
add_credit_lem c capacity bytes f h = ground arith

pub record Drained (c : ℕ) (queue : List CsEvent) (r : ℤ × List CsEvent × List CsEvent)
    : Type 0 where
  pub left : ℕ
  pub left_eq : r.0 ≡ pos left
  pub split : queue ≡ r.1 ++ r.2
  pub paid : left + total_bytes r.1 ≡ c
  -- Nothing that the credits could pay for stays at the front.
  pub stuck : (ev : CsEvent) (evs : List CsEvent) → r.2 ≡ ev ∷ evs → left < credit_bytes ev

-- Credits that are below the mark for no limit are drained in order: the events sent are a first part
-- of the queue, the credits left and the bytes sent make up the credits at the start, and what is
-- left cannot pay for the event that is then at the front.
pub drain-Drained :
    (c : ℕ) (queue : List CsEvent)
    → IsFinite c
    → IsCheap queue
    → Drained c queue (drain (pos c) queue)
unfolding drain total_bytes
drain-Drained c [] f h = record {
  left = c;
  left_eq = refl;
  split = refl;
  paid = omega arith;
  stuck = λ ev evs e. cc;
}
drain-Drained c (x ∷ xs) f h = elim (dec_le (credit_bytes x) c) [
  | yes p ↦
      let rest = drain-Drained (c - credit_bytes x) xs (omega arith) h.1 in
      rw (try_consume_credit-paid c (credit_bytes x) f p, drain)
        (record {
          left = rest.left;
          left_eq = rest.left_eq;
          split = ap (◌∷◌ x) rest.split;
          paid = omega (arith, rest.paid);
          stuck = rest.stuck;
        })
  | no p ↦
      rw (try_consume_credit-refused c (credit_bytes x) f h.0 (omega arith), drain)
        (record {
          left = c;
          left_eq = refl;
          split = refl;
          paid = omega arith;
          stuck = λ ev evs e. ground arith;
        })
]

-- What an event is worth as a credit, and the events of a list together.
abbrev pub credit_worth : CsEvent → ℕ
credit_worth ev = if is_credit_event ev then credit_value ev else 0

unfoldable pub total_credit : List CsEvent → ℕ
total_credit [] = 0
total_credit (ev ∷ evs) = credit_worth ev + total_credit evs

pub total_credit-append :
    (xs ys : List CsEvent) → total_credit (xs ++ ys) ≡ total_credit xs + total_credit ys
unfolding total_credit
total_credit-append [] ys = omega arith
total_credit-append (x ∷ xs) ys = omega (arith, total_credit-append xs ys)

-- None of the events is a credit.
abbrev pub IsPlain : List CsEvent → Type 0
IsPlain [] = Unit {0}
IsPlain (ev ∷ evs) = (is_credit_event ev ≡ false) × IsPlain evs

pub IsPlain-append : (xs ys : List CsEvent) → IsPlain xs → IsPlain ys → IsPlain (xs ++ ys)
IsPlain-append [] ys h k = k
IsPlain-append (x ∷ xs) ys h k = (h.0, IsPlain-append xs ys h.1 k)

-- Whatever the credits are, what is sent is the front of the queue, which holds no credits.
pub drain-IsPlain :
    (c : ℤ) (queue : List CsEvent)
    → IsPlain queue
    → let (_, out, stay) = drain c queue in (total_credit out ≡ 0) × IsPlain stay
unfolding drain total_credit
drain-IsPlain c [] h = (refl, tt)
drain-IsPlain c (x ∷ xs) h =
    ground (arith, drain-IsPlain (try_consume_credit c (credit_bytes x)).0 xs h.1)

-- A credit costs nothing.
pub credit_bytes-credit : (ev : CsEvent) → is_credit_event ev ≡ true → credit_bytes ev ≡ 0
unfolding credit_bytes is_credit_event
credit_bytes-credit ev h = ground arith

-- The event that gives `n` bytes back is a credit of `n` bytes.
pub make_credit_event_lem :
    (src dst n : ℕ)
    → let ev = make_credit_event src dst n in
      (is_credit_event ev ≡ true) × (credit_value ev ≡ n) × (credit_bytes ev ≡ 0)
unfolding make_credit_event is_credit_event credit_value credit_bytes
make_credit_event_lem src dst n = (refl, refl, refl)

Permᴰ-total_bytes : {xs ys : List CsEvent} → Permᴰ xs ys → total_bytes xs ≡ total_bytes ys
unfolding total_bytes
Permᴰ-total_bytes Permᴰ.nil = refl
Permᴰ-total_bytes (Permᴰ.cons e p) = omega (arith, ap credit_bytes e, Permᴰ-total_bytes p)
Permᴰ-total_bytes (Permᴰ.swap e f) = omega (arith, ap credit_bytes e, ap credit_bytes f)
Permᴰ-total_bytes (Permᴰ.trans p q) = Permᴰ-total_bytes p ∙ Permᴰ-total_bytes q

pub Perm-total_bytes : {xs ys : List CsEvent} → Perm xs ys → total_bytes xs ≡ total_bytes ys
Perm-total_bytes p = ∥∥₁_elim p (ℕ_set _ _) Permᴰ-total_bytes
