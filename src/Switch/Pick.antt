-- ===== src/Switch/Pick.antt =====
-- switch.cc, `pick_pool_index`: round robin finds the first port, from its index on, that can send.
use cscore_sstelem.Prelude.{
  ℕ, zero, suc, ◌+◌, ◌-◌, ◌%◌, ◌≤◌, ◌<◌, ◌≡◌, ◌⊎◌, inl, inr, refl, List, true, false, Option, none,
  some, length, Bool-cases, ℕ_discrete, dec_lt, subst, sym, ap, ◌∙◌, arith,
}
use native.Mathlib.Nat.{mod-lt, mod-eq_of_lt, mod-add-mod, add-mod_right}
use cscore_sstelem.Double.{Double}
use cscore_sstelem.FabricPort.{FabricPort}
use cscore_sstelem.Switch.{
  Switch, round_robin, can_send_at, pick_loop, pick_round_robin, pick_pool_index,
}

-- What holds from `offset + 1` on and at `offset` holds from `offset` on.
extend_down :
    (P : ℕ → Type 0) (offset b : ℕ)
    → P offset
    → ((k : ℕ) → offset + 1 ≤ k → k < b → P k)
    → (k : ℕ) → offset ≤ k
    → k < b
    → P k
extend_down P offset b here above k h h' = elim (ℕ_discrete offset k) [
  | yes e ↦ subst P e here
  | no ne ↦ above k (omega arith) h'
]

-- Every port has an offset from the round-robin index.
offset_of : (rr i total : ℕ) → i < total → (k : ℕ) × (k < total) × ((rr + k) % total ≡ i)
offset_of rr i total h =
    let r_lt : rr % total < total = mod-lt rr (omega arith) in
    elim (dec_lt i (rr % total)) [
      | yes p ↦ (
        i + total - rr % total,
        omega arith,
        sym (mod-add-mod rr total (i + total - rr % total))
            ∙ ap (λ n. n % total)
                (let e : rr % total + (i + total - rr % total) ≡ i + total = omega arith in e)
            ∙ add-mod_right i total
            ∙ mod-eq_of_lt h,
      )
      | no p ↦ (
        i - rr % total,
        omega arith,
        sym (mod-add-mod rr total (i - rr % total))
            ∙ ap (λ n. n % total) (let e : rr % total + (i - rr % total) ≡ i = omega arith in e)
            ∙ mod-eq_of_lt h,
      )
    ]

module _ {D : Type 0} ⦃d : Double D⦄ where
  -- What the loop finds: the offset `k` of the first port that can send, if any.
  pub data Found (ports : List (FabricPort D)) (rr offset : ℕ) : ℕ → Option ℕ → Type 0 where
    nowhere :
        {n : ℕ}
        → ((k : ℕ)
            → offset ≤ k
            → k < offset + n
            → can_send_at ports ((rr + k) % length ports) ≡ false)
        → Found ports rr offset n none
    at :
        {n : ℕ} (k : ℕ)
        → offset ≤ k
        → k < offset + n
        → can_send_at ports ((rr + k) % length ports) ≡ true
        → ((j : ℕ) → offset ≤ j → j < k → can_send_at ports ((rr + j) % length ports) ≡ false)
        → Found ports rr offset n (some ((rr + k) % length ports))

  widen :
      (ports : List (FabricPort D)) (rr offset n : ℕ) {r : Option ℕ}
      → can_send_at ports ((rr + offset) % length ports) ≡ false
      → Found ports rr (offset + 1) n r
      → Found ports rr offset (suc n) r
  widen ports rr offset n blocked (nowhere all) = nowhere (λ k h h'.
      extend_down (λ j. can_send_at ports ((rr + j) % length ports) ≡ false) offset (offset + 1 + n)
        blocked all k h (omega arith))
  widen ports rr offset n blocked (at k h h' can before) = at k (omega arith) (omega arith) can (
      extend_down (λ j. can_send_at ports ((rr + j) % length ports) ≡ false) offset k blocked
        before)

  pub pick_loop-Found :
      (ports : List (FabricPort D)) (rr n offset : ℕ)
      → Found ports rr offset n (pick_loop ports rr n offset)
  unfolding pick_loop
  pick_loop-Found ports rr zero offset = nowhere (λ k h h'. absurd (omega arith))
  pick_loop-Found ports rr (suc n) offset =
      elim (Bool-cases (can_send_at ports ((rr + offset) % length ports))) [
        | inl can ↦
            rw can (at offset (omega arith) (omega arith) can (λ j h h'. absurd (omega arith)))
        | inr blocked ↦
            rw blocked (widen ports rr offset n blocked (pick_loop-Found ports rr n (offset + 1)))
      ]

  -- Round robin picks, going round from its index, the first port that can send, and moves its index
  -- to the port after that one. Where no port can send it picks none and keeps its index.
  pub record Picked (sw : Switch D) (r : Switch D × ℕ) : Type 0 where
    pub others : r.0 ≡ record sw { rr_pool_idx = r.0.rr_pool_idx }
    pub chosen :
        ((r.1 < length sw.pool_ports)
          × (can_send_at sw.pool_ports r.1 ≡ true)
          × (r.0.rr_pool_idx ≡ (r.1 + 1) % length sw.pool_ports)
          × ((k : ℕ) × (r.1 ≡ (sw.rr_pool_idx + k) % length sw.pool_ports)
              × ((j : ℕ)
                  → j < k
                  → can_send_at sw.pool_ports ((sw.rr_pool_idx + j) % length sw.pool_ports)
                    ≡ false)))
        ⊎ ((r.1 ≡ length sw.pool_ports)
            × (r.0.rr_pool_idx ≡ sw.rr_pool_idx)
            × ((i : ℕ) → i < length sw.pool_ports → can_send_at sw.pool_ports i ≡ false))

  Found-Picked :
      (sw : Switch D) (o : Option ℕ)
      → Found sw.pool_ports sw.rr_pool_idx 0 (length sw.pool_ports) o
      → 0 < length sw.pool_ports
      → Picked sw (elim o [
        | none ↦ (sw, length sw.pool_ports)
        | some idx ↦ (record sw { rr_pool_idx = (idx + 1) % length sw.pool_ports }, idx)
      ])
  Found-Picked sw _ (nowhere all) some_port = record {
    others = refl;
    chosen = inr (
      refl,
      refl,
      λ i h.
          let (k, k_lt, e) = offset_of sw.rr_pool_idx i (length sw.pool_ports) h in
          subst (λ j. can_send_at sw.pool_ports j ≡ false) e (all k (omega arith) (omega arith)),
    );
  }
  Found-Picked sw _ (at k h h' can before) some_port = record {
    others = refl;
    chosen = inl (
      mod-lt (sw.rr_pool_idx + k) some_port,
      can,
      refl,
      (k, refl, λ j lt. before j (omega arith) lt),
    );
  }

  pick-eq-round_robin :
      (sw : Switch D)
      → sw.pool_select_policy ≡ round_robin
      → 0 < length sw.pool_ports
      → pick_round_robin sw ≡ pick_pool_index sw
  unfolding pick_pool_index
  pick-eq-round_robin sw policy some_port = ground arith

  -- With the round-robin policy and at least one pool port, `pick_pool_index` picks the first port, going
  -- round from its index, that can send, and moves the index to the port after it; where none can send
  -- it returns the number of ports and changes nothing.
  pub pick_pool_index-Picked :
      (sw : Switch D)
      → sw.pool_select_policy ≡ round_robin
      → 0 < length sw.pool_ports
      → Picked sw (pick_pool_index sw)
  unfolding pick_round_robin
  pick_pool_index-Picked sw policy some_port =
      let found = pick_loop-Found sw.pool_ports sw.rr_pool_idx (length sw.pool_ports) 0 in
      let h : Picked sw (pick_round_robin sw) = Found-Picked sw _ found some_port in
      subst (Picked sw) (pick-eq-round_robin sw policy some_port) h
