-- ===== src/LatBwQueue/Conservation.antt =====
-- src/lat_bw_queue.cc: where the packets are. None is lost, made up or overtaken while it waits for
-- bandwidth.
use mathlib.Core.List.Perm
use mathlib.Core.List.{perm_middle, map-append}
use cscore_sstelem.Prelude.{
  ℕ, ◌+◌, ◌≡◌, refl, ◌∙◌, ap, List, [], ◌∷◌, ◌++◌, map, Perm, perm_shift, Perm-length, true, false,
  if_cases, not, inl, inr, Bool-cases, length, length-append, length-map, arith, if◌then◌else◌,
}
use cscore_sstelem.Double.{Double, nought, min_double}
use cscore_sstelem.LatBwQueue.{
  PendingEntry, Entry, LatBwQueue, leaves_before, push_active, pop_completed, activate, serve,
  service_bandwidth, update_history, on_tick, add_packet, packet_bytes, occupancy, is_full,
}

-- The packets that wait for bandwidth, and those that wait for their latency, in order.
abbrev pub pending : {D T : Type 0} → LatBwQueue D T → List T
pending {D} {T} q = map (λ (e : PendingEntry D T). e.payload) q.blocked_queue

abbrev pub entry_payloads : {T : Type 0} → List (Entry T) → List T
entry_payloads {T} = map (λ (e : Entry T). e.payload)

abbrev pub in_flight : {D T : Type 0} → LatBwQueue D T → List T
in_flight q = entry_payloads q.active_queue

module _ {T : Type 0} where
  pub push_active-perm :
      (e : Entry T) (xs : List (Entry T))
      → Perm (entry_payloads (push_active e xs)) (e.payload ∷ entry_payloads xs)
  unfolding push_active
  push_active-perm e [] = Perm.rfl
  push_active-perm e (x ∷ xs) = elim (Bool-cases (leaves_before e x)) [
    | inl first ↦ rw first Perm.rfl
    | inr later ↦
        rw later (
          Perm.trans (Perm.cons x.payload (push_active-perm e xs))
            (Perm.swap e.payload x.payload _))
  ]

  pub pop_completed-append :
      (now : ℕ) (es : List (Entry T))
      → let (done, rest) = pop_completed now es in done ++ entry_payloads rest ≡ entry_payloads es
  unfolding pop_completed
  pop_completed-append now [] = refl
  pop_completed-append now (e ∷ es) = ground (arith, pop_completed-append now es)

-- What `serve` did: the packets it took off the front of `waiting` joined `active`.
pub record Served {D T : Type 0} (waiting active : List T) (q : LatBwQueue D T) : Type 0 where
  pub taken : List T
  pub from_front : waiting ≡ taken ++ pending q
  pub joined : Perm (in_flight q) (taken ++ active)

module _ {D T : Type 0} ⦃d : Double D⦄ where
  Served-cons :
      {q' : LatBwQueue D T} (e : Entry T) (waiting : List T) (active : List (Entry T))
      → Served waiting (entry_payloads (push_active e active)) q'
      → Served (e.payload ∷ waiting) (entry_payloads active) q'
  Served-cons e waiting active s = record {
    taken = e.payload ∷ s.taken;
    from_front = ap (◌∷◌ e.payload) s.from_front;
    joined = Perm.trans s.joined (
        Perm.trans (Perm.append_left s.taken (push_active-perm e active))
          (perm_middle s.taken (entry_payloads active)));
  }

  Served-none : (q : LatBwQueue D T) → Served (pending q) (in_flight q) q
  Served-none q = record { taken = []; from_front = refl; joined = Perm.rfl }

  pub serve-Served :
      (q : LatBwQueue D T) (l : List (PendingEntry D T)) (avail used : D) (active : List (Entry T))
      → Served
          (map (λ (e : PendingEntry D T). e.payload) l)
          (entry_payloads active)
          (serve q l avail used active)
  unfolding serve activate
  serve-Served q [] avail used active = Served-none _
  serve-Served q (front ∷ rest) avail used active =
      let sent = min_double avail front.remaining_bytes in
      let later =
        serve-Served q rest (d.sub avail sent) (d.add used sent)
          (push_active (activate q front.payload) active) in
      if_cases (Served _ (entry_payloads active)) (d.lt nought avail)
        (λ _.
          if_cases (Served _ (entry_payloads active))
            (d.le (d.sub front.remaining_bytes sent) nought)
            (λ _. Served-cons (activate q front.payload) _ active later) (λ _. Served-none _))
        (λ _. Served-none _)

  pub service_bandwidth-Served :
      (q : LatBwQueue D T) → Served (pending q) (in_flight q) (service_bandwidth q)
  unfolding service_bandwidth
  service_bandwidth-Served q =
      if_cases (Served (pending q) (in_flight q)) (d.le q.peak_bw_per_cycle nought)
        (λ _. Served-none _)
        (λ _. serve-Served q q.blocked_queue q.peak_bw_per_cycle nought q.active_queue)

-- One tick loses no packet and makes none up: the packets that it takes off the front of the
-- pending ones, in order, join those in flight, and the ones that it returns leave those in flight.
pub record Moved {D T : Type 0} (q q' : LatBwQueue D T) (returned : List T) : Type 0 where
  pub taken : List T
  pub from_front : pending q ≡ taken ++ pending q'
  pub kept : Perm (returned ++ in_flight q') (taken ++ in_flight q)

module _ {D T : Type 0} ⦃d : Double D⦄ where
  -- Every tick moves packets as `Moved` says: those it serves leave the front of the pending ones in
  -- order and join those in flight, and those it returns come out of those in flight.
  pub on_tick-Moved : (q : LatBwQueue D T) → let (q', returned) = on_tick q in Moved q q' returned
  unfolding on_tick update_history
  on_tick-Moved q =
      let popped = pop_completed (q.internal_clock + 1) q.active_queue in
      let s =
        service_bandwidth-Served
          (record q { internal_clock = q.internal_clock + 1; active_queue = popped.1 }) in
      record {
        taken = s.taken;
        from_front = s.from_front;
        kept = Perm.trans (Perm.append_left popped.0 s.joined) (
            rw (← pop_completed-append (q.internal_clock + 1) q.active_queue)
              (perm_shift popped.0 s.taken (entry_payloads popped.1)));
      }

  -- A packet that is accepted waits behind all the others, and one that is refused changes nothing.
  -- It is refused exactly when the queue is full.
  pub add_packet_lem :
      (q : LatBwQueue D T) (packet : T)
      → let (q', accepted) = add_packet q packet in
        (accepted ≡ not (is_full q))
        × (pending q' ≡ (if accepted then pending q ++ (packet ∷ []) else pending q))
        × (in_flight q' ≡ in_flight q)
        × (occupancy q' ≡ (if accepted then occupancy q + 1 else occupancy q))
  unfolding add_packet occupancy
  add_packet_lem q packet = elim (Bool-cases (is_full q)) [
    | inl e ↦ rw (e, add_packet) (refl, refl, refl, refl)
    | inr e ↦
        rw (e, add_packet)
          (
            refl,
            map-append _ q.blocked_queue _,
            refl,
            omega (arith, length-append q.blocked_queue (entry ∷ [])),
          )
  ]
    where
      entry : PendingEntry D T
      entry = record { payload = packet; remaining_bytes = packet_bytes q packet }

  pub add_packet_accepted :
      (q : LatBwQueue D T) (packet : T)
      → is_full q ≡ false
      → let (q', accepted) = add_packet q packet in
        (accepted ≡ true) × (pending q' ≡ pending q ++ (packet ∷ [])) × (in_flight q' ≡ in_flight q)
  add_packet_accepted q packet e =
      let h = add_packet_lem q packet in
      let yes_it_is : (add_packet q packet).1 ≡ true = h.0 ∙ ap not e in
      (yes_it_is, rw yes_it_is at (h.1), h.2)

  length-pending : (q : LatBwQueue D T) → length (pending q) ≡ length q.blocked_queue
  length-pending q = length-map q.blocked_queue _

  length-in_flight : (q : LatBwQueue D T) → length (in_flight q) ≡ length q.active_queue
  length-in_flight q = length-map q.active_queue _

  -- A tick takes as many packets off the occupancy as it returns.
  pub occupancy-on_tick :
      (q : LatBwQueue D T)
      → let (q', returned) = on_tick q in occupancy q' + length returned ≡ occupancy q
  unfolding occupancy
  occupancy-on_tick q =
      let (q', returned) = on_tick q in
      let m = on_tick-Moved q in
      omega (
        arith,
        length-pending q,
        length-pending q',
        length-in_flight q,
        length-in_flight q',
        ap length m.from_front,
        Perm-length m.kept,
        length-append m.taken (pending q'),
        length-append returned (in_flight q'),
        length-append m.taken (in_flight q),
      )
