-- ===== src/LatBwQueue/Timing.antt =====
-- src/lat_bw_queue.cc: when a packet in flight comes out.
use cscore_sstelem.Prelude.{
  ℕ, Option, ◌+◌, ◌≤◌, ◌≡◌, refl, List, [], ◌∷◌, Bool, inl, inr, Bool-cases, if_cases, ◌==◌, arith,
  if◌then◌else◌,
}
use cscore_sstelem.Prelude.Int.{ℤ}
use cscore_sstelem.Double.{Double, nought, min_double}
use cscore_sstelem.LatBwQueue.{
  PendingEntry, Entry, LatBwQueue, leaves_before, push_active, pop_completed, make_queue, is_full,
  get_utilization, activate, serve, service_bandwidth, update_history, on_tick, add_packet,
  at_least_one,
}

module _ {T : Type 0} where
  -- The completion times do not fall along the queue, from `t` on.
  abbrev pub Rising : ℕ → List (Entry T) → Type 0
  Rising t [] = Unit {0}
  Rising t (e ∷ es) = (t ≤ e.completion_time) × Rising e.completion_time es

  -- The packets that are to complete at `now`.
  pub due : ℕ → List (Entry T) → List T
  due now [] = []
  due now (e ∷ es) = if e.completion_time == now then e.payload ∷ due now es else due now es

  Rising-weaken : (s t : ℕ) (es : List (Entry T)) → s ≤ t → Rising t es → Rising s es
  Rising-weaken s t [] h r = tt
  Rising-weaken s t (e ∷ es) h r = (omega arith, r.1)

  push_active-Rising :
      (t : ℕ) (e : Entry T) (es : List (Entry T))
      → t ≤ e.completion_time
      → Rising t es
      → Rising t (push_active e es)
  unfolding push_active
  push_active-Rising t e [] h r = (h, tt)
  push_active-Rising t e (x ∷ es) h r = elim (Bool-cases (leaves_before e x)) [
    | inl first ↦ rw first (h, (ground arith, r.1))
    | inr later ↦ rw later (r.0, push_active-Rising x.completion_time e es (ground arith) r.1)
  ]

  due_above : (now t : ℕ) (es : List (Entry T)) → now + 1 ≤ t → Rising t es → due now es ≡ []
  unfolding due
  due_above now t [] h r = refl
  due_above now t (e ∷ es) h r =
      ground (arith, due_above now e.completion_time es (omega arith) r.1)

  pop_completed-due :
      (now : ℕ) (es : List (Entry T))
      → Rising now es
      → let (done, rest) = pop_completed now es in (done ≡ due now es) × Rising (now + 1) rest
  unfolding pop_completed due
  pop_completed-due now [] r = (refl, tt)
  pop_completed-due now (e ∷ es) r = ground (
    arith,
    pop_completed-due now es (Rising-weaken now e.completion_time es r.0 r.1),
    due_above now e.completion_time es,
  )

-- No packet in flight is overdue, and they leave in the order of their completion times.
abbrev pub IsTimed : {D T : Type 0} → LatBwQueue D T → Type 0
IsTimed q = Rising (q.internal_clock + 1) q.active_queue

module _ {D T : Type 0} ⦃d : Double D⦄ where
  activate_later :
      (q : LatBwQueue D T) (p : T) → q.internal_clock + 1 ≤ (activate q p).completion_time
  unfolding activate
  activate_later q p = ground arith

  serve-Rising :
      (q : LatBwQueue D T) (l : List (PendingEntry D T)) (avail used : D) (active : List (Entry T))
      → Rising (q.internal_clock + 1) active
      → let q' = serve q l avail used active in IsTimed q' × (q'.internal_clock ≡ q.internal_clock)
  unfolding serve
  serve-Rising q [] avail used active r = (r, refl)
  serve-Rising q (front ∷ rest) avail used active r =
      let sent = min_double avail front.remaining_bytes in
      let goal = λ (q' : LatBwQueue D T). IsTimed q' × (q'.internal_clock ≡ q.internal_clock) in
      if_cases goal (d.lt nought avail)
        (λ _.
          if_cases goal (d.le (d.sub front.remaining_bytes sent) nought)
            (λ _. serve-Rising q rest _ _ _ (
              push_active-Rising _ (activate q front.payload) active
                (activate_later q front.payload) r))
            (λ _. (r, refl)))
        (λ _. (r, refl))

  service_bandwidth-IsTimed :
      (q : LatBwQueue D T)
      → IsTimed q
      → let q' = service_bandwidth q in IsTimed q' × (q'.internal_clock ≡ q.internal_clock)
  unfolding service_bandwidth
  service_bandwidth-IsTimed q r =
      if_cases (λ (q' : LatBwQueue D T). IsTimed q' × (q'.internal_clock ≡ q.internal_clock))
        (d.le q.peak_bw_per_cycle nought) (λ _. (r, refl))
        (λ _. serve-Rising q q.blocked_queue _ _ q.active_queue r)

  -- A tick returns exactly the packets in flight whose completion time is the new clock, and leaves
  -- none overdue.
  pub on_tick-due :
      (q : LatBwQueue D T)
      → IsTimed q
      → let (q', returned) = on_tick q in
        (returned ≡ due (q.internal_clock + 1) q.active_queue)
        × (q'.internal_clock ≡ q.internal_clock + 1)
        × IsTimed q'
  unfolding on_tick update_history
  on_tick-due q r =
      let now = q.internal_clock + 1 in
      let popped = pop_completed now q.active_queue in
      let h = pop_completed-due now q.active_queue r in
      let s =
        service_bandwidth-IsTimed (record q { internal_clock = now; active_queue = popped.1 })
          h.1 in
      (h.0, s.1, s.0)

  pub make_queue-IsTimed :
      (peak : D) (latency : D → ℤ) (cost : Option (T → D)) (pending : ℤ)
      → IsTimed (make_queue peak latency cost pending)
  unfolding make_queue
  make_queue-IsTimed peak latency cost pending = tt

  pub add_packet-IsTimed : (q : LatBwQueue D T) (p : T) → IsTimed q → IsTimed (add_packet q p).0
  unfolding add_packet
  add_packet-IsTimed q p r =
      if_cases (λ (r' : LatBwQueue D T × Bool). IsTimed r'.0) (is_full q) (λ _. r) (λ _. r)

  -- The packet of an entry whose last byte is sent at the clock's present value is in flight for its
  -- latency, or for one tick where the latency is less.
  pub activate_lem :
      (q : LatBwQueue D T) (p : T)
      → let e = activate q p in
        (e.payload ≡ p)
        × (e.completion_time
            ≡ q.internal_clock + at_least_one (q.latency_function (get_utilization q)))
  unfolding activate
  activate_lem q p = (refl, refl)
