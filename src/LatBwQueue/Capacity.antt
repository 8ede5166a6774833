-- ===== src/LatBwQueue/Capacity.antt =====
-- src/lat_bw_queue.cc: how many packets the queue holds, and that it serves them.
use cscore_sstelem.Prelude.{
  ◌+◌, ◌≤◌, ◌<◌, ◌≡◌, ◌⊎◌, refl, length-map, ◌++◌, Perm, List-cases, inl, inr, subst, ◌∙◌, List,
  map, [], ◌∷◌, true, false, if_cases, length, length-append, arith, ap,
}
use cscore_sstelem.Prelude.Int.{pos, ◌≤ℤ◌}
use cscore_sstelem.Double.{Double, nought, min_double}
use cscore_sstelem.LatBwQueue.{
  PendingEntry, Entry, LatBwQueue, push_active, pop_completed, activate, serve, service_bandwidth,
  update_history, on_tick, add_packet, occupancy, is_full,
}
use cscore_sstelem.LatBwQueue.Conservation.{
  pending, in_flight, on_tick-Moved, serve-Served, occupancy-on_tick, add_packet_lem,
}

-- A queue with a positive limit holds no more packets than the limit.
abbrev pub IsWithinLimit : {D T : Type 0} ⦃d : Double D⦄ → LatBwQueue D T → Type 0
IsWithinLimit q = (q.max_pending ≤ℤ pos 0) ⊎ (pos (occupancy q) ≤ℤ q.max_pending)

module _ {D T : Type 0} ⦃d : Double D⦄ where
  pub max_pending-add_packet :
      (q : LatBwQueue D T) (p : T) → (add_packet q p).0.max_pending ≡ q.max_pending
  unfolding add_packet
  max_pending-add_packet q p = ground arith

  not_full-room :
      (q : LatBwQueue D T)
      → is_full q ≡ false
      → (q.max_pending ≤ℤ pos 0) ⊎ (pos (occupancy q + 1) ≤ℤ q.max_pending)
  unfolding is_full
  not_full-room q f = ground arith

  -- Adding a packet keeps the queue within its limit.
  pub add_packet-IsWithinLimit :
      (q : LatBwQueue D T) (p : T) → IsWithinLimit q → IsWithinLimit (add_packet q p).0
  add_packet-IsWithinLimit q p w =
      rw max_pending-add_packet (ground (arith, add_packet_lem q p, not_full-room q))

  max_pending-serve :
      (q : LatBwQueue D T) (l : List (PendingEntry D T)) (avail used : D) (active : List (Entry T))
      → (serve q l avail used active).max_pending ≡ q.max_pending
  unfolding serve
  max_pending-serve q [] avail used active = refl
  max_pending-serve q (front ∷ rest) avail used active = ground (
    arith,
    max_pending-serve q rest (d.sub avail (min_double avail front.remaining_bytes))
        (d.add used (min_double avail front.remaining_bytes))
        (push_active (activate q front.payload) active),
  )

  pub max_pending-on_tick : (q : LatBwQueue D T) → (on_tick q).0.max_pending ≡ q.max_pending
  unfolding on_tick update_history service_bandwidth
  max_pending-on_tick q =
      let popped = pop_completed (q.internal_clock + 1) q.active_queue in
      let q' : LatBwQueue D T = record q {
        internal_clock = q.internal_clock + 1;
        active_queue = popped.1;
      } in
      if_cases (λ (r : LatBwQueue D T). r.max_pending ≡ q.max_pending)
        (d.le q.peak_bw_per_cycle nought) (λ _. refl)
        (λ _. max_pending-serve q' q.blocked_queue q.peak_bw_per_cycle nought popped.1)

  -- A tick keeps the queue within its limit.
  pub on_tick-IsWithinLimit : (q : LatBwQueue D T) → IsWithinLimit q → IsWithinLimit (on_tick q).0
  on_tick-IsWithinLimit q w = rw max_pending-on_tick (ground (arith, occupancy-on_tick q))

  length-pending-serve :
      (q : LatBwQueue D T) (l : List (PendingEntry D T)) (avail used : D) (active : List (Entry T))
      → length (pending (serve q l avail used active))
        ≤ length (map (λ (e : PendingEntry D T). e.payload) l)
  length-pending-serve q l avail used active =
      let s = serve-Served q l avail used active in
      omega (
        arith,
        ap length s.from_front,
        length-append s.taken (pending (serve q l avail used active)),
      )

  serve_progress :
      (q : LatBwQueue D T) (front : PendingEntry D T) (rest : List (PendingEntry D T))
      (avail used : D) (active : List (Entry T))
      → d.lt nought avail ≡ true
      → d.lt front.remaining_bytes avail ≡ true
      → d.sub front.remaining_bytes front.remaining_bytes ≡ nought
      → d.le nought nought ≡ true
      → length (pending (serve q (front ∷ rest) avail used active)) ≤ length rest
  unfolding serve
  serve_progress q front rest avail used active some_left fits sub_self le_refl =
      rw (some_left, fits, sub_self, le_refl)
        (omega (
          arith,
          length-pending-serve q rest _ _ _,
          length-map rest (λ (e : PendingEntry D T). e.payload),
        ))

  on_tick_fewer :
      (q : LatBwQueue D T) (front : PendingEntry D T) (rest : List (PendingEntry D T))
      → q.blocked_queue ≡ front ∷ rest
      → d.le q.peak_bw_per_cycle nought ≡ false
      → d.lt nought q.peak_bw_per_cycle ≡ true
      → d.lt front.remaining_bytes q.peak_bw_per_cycle ≡ true
      → d.sub front.remaining_bytes front.remaining_bytes ≡ nought
      → d.le nought nought ≡ true
      → length (pending (on_tick q).0) < length (pending q)
  unfolding on_tick
  on_tick_fewer q front rest e peak pos_peak fits sub_self le_refl =
      let q' : LatBwQueue D T = record q {
        internal_clock = q.internal_clock + 1;
        active_queue = (pop_completed (q.internal_clock + 1) q.active_queue).1;
        blocked_queue = front ∷ rest;
      } in
      let h =
        serve_progress q' front rest q.peak_bw_per_cycle nought q'.active_queue pos_peak fits
          sub_self le_refl in
      rw (peak, e) (omega (arith, h, length-map rest (λ (e : PendingEntry D T). e.payload)))

  -- If fewer bytes of the first packet that waits are left than the peak bandwidth, given that 0 < peak,
  -- that x - x is 0 for these bytes, and that 0 <= 0: a tick takes this packet, and perhaps more, off the
  -- front of those that wait, and what it returns and what is in flight after it are what it took and
  -- what was in flight before.
  pub on_tick_progress :
      (q : LatBwQueue D T) (front : PendingEntry D T) (rest : List (PendingEntry D T))
      → q.blocked_queue ≡ front ∷ rest
      → d.le q.peak_bw_per_cycle nought ≡ false
      → d.lt nought q.peak_bw_per_cycle ≡ true
      → d.lt front.remaining_bytes q.peak_bw_per_cycle ≡ true
      → d.sub front.remaining_bytes front.remaining_bytes ≡ nought
      → d.le nought nought ≡ true
      → let (q', returned) = on_tick q in
        (more : List T) × (pending q ≡ (front.payload ∷ more) ++ pending q')
        × Perm (returned ++ in_flight q') ((front.payload ∷ more) ++ in_flight q)
  on_tick_progress q front rest e peak pos_peak fits sub_self le_refl =
      let (q', returned) = on_tick q in
      let m = on_tick-Moved q in
      let fewer = on_tick_fewer q front rest e peak pos_peak fits sub_self le_refl in
      elim (List-cases m.taken) [
        | inl n ↦ absurd (
            omega
              (arith, fewer, ap length (subst (λ l. pending q ≡ l ++ pending q') n m.from_front)))
        | inr (p, more, e') ↦
            let first : p ≡ front.payload = cc (
              ap (map (λ (b : PendingEntry D T). b.payload)) e,
              subst (λ l. pending q ≡ l ++ pending q') e' m.from_front,
            ) in
            let taken : m.taken ≡ front.payload ∷ more = e' ∙ ap (λ x. x ∷ more) first in
            (
              more,
              subst (λ l. pending q ≡ l ++ pending q') taken m.from_front,
              subst (λ l. Perm (returned ++ in_flight q') (l ++ in_flight q)) taken m.kept,
            )
      ]
