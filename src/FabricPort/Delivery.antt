-- ===== src/FabricPort/Delivery.antt =====
-- src/fabric_port.cc: what one cycle of a port does, however often its methods are called in it, and
-- how many events wait to be sent.
use cscore_sstelem.Prelude.{
  ℕ, ◌+◌, ◌∙◌, Bool, ◌≤◌, ◌≡◌, refl, sym, List, [], ◌∷◌, ◌++◌, true, false, Option, none, some,
  Bool-cases, ◌⊎◌, append-nil, inl, inr, arith, ◌==◌, length, length-append,
}
use cscore_sstelem.Prelude.Int.{ℤ}
use cscore_sstelem.Double.{Double}
use cscore_sstelem.Prelude.Result.{ok, OnOk, OnOk-elim}
use cscore_sstelem.LatBwQueue
use cscore_sstelem.Packet.{CsEvent}
use cscore_sstelem.FabricPort.Accounts.{receive_cases}
use cscore_sstelem.FabricPort.Offers.{Handler, offer, sends, sends_frame, offer_cases}
use cscore_sstelem.FabricPort.{
  FabricPort, drain, tick, send, can_send, receive, can_receive, accept, send_credit, credit_bytes,
  try_consume_credit, handle_event, reset_ingress_utilization, reset_on_demand, enqueue_ingress,
  is_credit_event,
}

unfoldable pub count_some : Option CsEvent → ℕ
count_some none = 0
count_some (some _) = 1

unfoldable pub count_true : Bool → ℕ
count_true false = 0
count_true true = 1

module _ {D : Type 0} ⦃d : Double D⦄ where
  last_tick-tick : (p : FabricPort D) (cycle : ℕ) → (tick p cycle).last_tick_cycle ≡ cycle
  unfolding tick
  last_tick-tick p cycle = ground arith

  last_deliver-tick :
      (p : FabricPort D) (cycle : ℕ) → (tick p cycle).last_deliver_cycle ≡ p.last_deliver_cycle
  unfolding tick
  last_deliver-tick p cycle = ground arith

  tick_same_cycle : (p : FabricPort D) (cycle : ℕ) → p.last_tick_cycle ≡ cycle → tick p cycle ≡ p
  unfolding tick
  tick_same_cycle p cycle e = ground arith

  -- A second tick in a cycle changes nothing.
  pub tick-tick : (p : FabricPort D) (cycle : ℕ) → tick (tick p cycle) cycle ≡ tick p cycle
  tick-tick p cycle = tick_same_cycle (tick p cycle) cycle (last_tick-tick p cycle)

  last_deliver-accept :
      (p : FabricPort D) (cycle : ℕ) (item : CsEvent) (rest : List CsEvent)
      → (accept p cycle item rest).last_deliver_cycle ≡ cycle
  unfolding accept send_credit
  last_deliver-accept p cycle item rest = ground arith

  can_receive-delivered :
      (p : FabricPort D) (cycle : ℕ)
      → p.last_deliver_cycle ≡ cycle
      → (can_receive p cycle).1 ≡ false
  unfolding can_receive
  can_receive-delivered p cycle e = ground (arith, last_deliver-tick p cycle)

  send-last_deliver :
      (p : FabricPort D) (ev : CsEvent) → (send p ev).0.last_deliver_cycle ≡ p.last_deliver_cycle
  unfolding sends
  send-last_deliver p ev = (sends_frame p (ev ∷ [])).1

  reset_on_demand-last_deliver :
      (p : FabricPort D) (ev : CsEvent)
      → (reset_on_demand p ev).last_deliver_cycle ≡ p.last_deliver_cycle
  unfolding reset_on_demand reset_ingress_utilization
  reset_on_demand-last_deliver p ev = ground arith

  enqueue_ingress-last_deliver :
      (p : FabricPort D) (ev : CsEvent) (n : ℕ)
      → p.last_deliver_cycle ≡ n
      → OnOk (λ (q : FabricPort D). q.last_deliver_cycle ≡ n) (enqueue_ingress p ev)
  unfolding enqueue_ingress
  enqueue_ingress-last_deliver p ev n e = elim (Bool-cases (LatBwQueue.add_packet p.ingress ev).1) [
    | inl added ↦ rw (added, enqueue_ingress) e
    | inr full ↦ rw (full, enqueue_ingress) tt
  ]

  handle_event-last_deliver :
      (p : FabricPort D) (ev : Option CsEvent)
      → OnOk (λ (q : FabricPort D). q.last_deliver_cycle ≡ p.last_deliver_cycle) (handle_event p ev)
  unfolding handle_event
  handle_event-last_deliver p none = refl
  handle_event-last_deliver p (some ev) = elim (Bool-cases (is_credit_event ev)) [
    | inl credit ↦ rw (credit, handle_event) refl
    | inr other ↦
        rw (other, handle_event)
          (enqueue_ingress-last_deliver (reset_on_demand p ev) ev p.last_deliver_cycle
            (reset_on_demand-last_deliver p ev))
  ]

  -- From `p` to `q` some events were given out, none where one was given out in this cycle already.
  abbrev GivesOut : ℕ → FabricPort D → ℕ → FabricPort D → Type 0
  GivesOut cycle p n q =
      ((n ≡ 0) × (q.last_deliver_cycle ≡ p.last_deliver_cycle))
      ⊎ ((n ≡ 1) × (q.last_deliver_cycle ≡ cycle) × (p.last_deliver_cycle ≡ cycle → ⊥))

  not_yet :
      (p : FabricPort D) (cycle : ℕ)
      → (can_receive p cycle).1 ≡ true
      → p.last_deliver_cycle ≡ cycle
      → ⊥
  not_yet p cycle can e = ground (arith, can, can_receive-delivered p cycle e)

  receive-GivesOut :
      (p : FabricPort D) (cycle : ℕ)
      → let (q, given) = receive p cycle in GivesOut cycle p (count_some given) q
  unfolding count_some
  receive-GivesOut p cycle =
      receive_cases (λ (r : FabricPort D × Option CsEvent). GivesOut cycle p (count_some r.1) r.0) p
        cycle (inl (refl, last_deliver-tick p cycle))
        (λ item rest can _.
          inr (refl, last_deliver-accept (tick p cycle) cycle item rest, not_yet p cycle can))

  offer-GivesOut :
      (f : Handler D) (p : FabricPort D) (cycle : ℕ) (r : FabricPort D × Bool)
      → offer f p cycle ≡ ok r
      → GivesOut cycle p (count_true r.1) r.0
  unfolding count_true
  offer-GivesOut f p cycle r e =
      OnOk-elim (λ (x : FabricPort D × Bool). GivesOut cycle p (count_true x.1) x.0)
        (offer f p cycle) r e
        (offer_cases (OnOk (λ (x : FabricPort D × Bool). GivesOut cycle p (count_true x.1) x.0)) f p
          cycle (inl (refl, last_deliver-tick p cycle))
          (λ item rest can _. inr (
            refl,
            last_deliver-accept (sends (tick p cycle) _) cycle item rest,
            not_yet p cycle can,
          ))
          (λ item. inl (
            refl,
            (sends_frame (tick p cycle) (f (tick p cycle) item).0).1 ∙ last_deliver-tick p cycle,
          )))

  -- Any calls on a port in one cycle, and arrivals between them, with the number of events that the port
  -- gave out: what `receive` returned, and what a handler of `try_receive` took.
  pub data Run (cycle : ℕ) (p : FabricPort D) : ℕ → FabricPort D → Type 0 where
    begin : Run cycle p 0 p
    sending :
        {n : ℕ} {q : FabricPort D} → Run cycle p n q → (ev : CsEvent) → Run cycle p n (send q ev).0
    ticking : {n : ℕ} {q : FabricPort D} → Run cycle p n q → Run cycle p n (tick q cycle)
    arriving :
        {n : ℕ} {q : FabricPort D}
        → Run cycle p n q
        → (ev : Option CsEvent) (q' : FabricPort D) → handle_event q ev ≡ ok q'
        → Run cycle p n q'
    resetting :
        {n : ℕ} {q : FabricPort D} → Run cycle p n q → Run cycle p n (reset_ingress_utilization q)
    receiving :
        {n : ℕ} {q : FabricPort D}
        → Run cycle p n q
        → Run cycle p (n + count_some (receive q cycle).1) (receive q cycle).0
    offering :
        {n : ℕ} {q : FabricPort D}
        → Run cycle p n q
        → (f : Handler D) (r : FabricPort D × Bool) → offer f q cycle ≡ ok r
        → Run cycle p (n + count_true r.1) r.0

  -- The events given out so far, and what the port knows of them.
  abbrev Gave : ℕ → ℕ → FabricPort D → Type 0
  Gave cycle n q = (n ≡ 0) ⊎ ((n ≡ 1) × (q.last_deliver_cycle ≡ cycle))

  Gave-same :
      (cycle n : ℕ) (q q' : FabricPort D)
      → q'.last_deliver_cycle ≡ q.last_deliver_cycle
      → Gave cycle n q
      → Gave cycle n q'
  Gave-same cycle n q q' e (inl z) = inl z
  Gave-same cycle n q q' e (inr (one, l)) = inr (one, e ∙ l)

  Gave-more :
      (cycle n m : ℕ) (q q' : FabricPort D)
      → GivesOut cycle q m q'
      → Gave cycle n q
      → Gave cycle (n + m) q'
  Gave-more cycle n m q q' (inl (z, e)) (inl z') = inl (omega arith)
  Gave-more cycle n m q q' (inl (z, e)) (inr (one, l)) = inr (omega arith, e ∙ l)
  Gave-more cycle n m q q' (inr (one, l, new)) (inl z') = inr (omega arith, l)
  Gave-more cycle n m q q' (inr (one, l, new)) (inr (one', l')) = absurd (new l')

  Run-Gave :
      {cycle : ℕ} {p : FabricPort D} {n : ℕ} {q : FabricPort D} → Run cycle p n q → Gave cycle n q
  unfolding reset_ingress_utilization
  Run-Gave begin = inl refl
  Run-Gave {cycle} (sending {n} {q} r ev) =
      Gave-same cycle n q (send q ev).0 (send-last_deliver q ev) (Run-Gave r)
  Run-Gave {cycle} (ticking {n} {q} r) =
      Gave-same cycle n q (tick q cycle) (last_deliver-tick q cycle) (Run-Gave r)
  Run-Gave {cycle} (arriving {n} {q} r ev q' e) =
      Gave-same cycle n q q'
        (OnOk-elim (λ (x : FabricPort D). x.last_deliver_cycle ≡ q.last_deliver_cycle)
          (handle_event q ev) q' e (handle_event-last_deliver q ev))
        (Run-Gave r)
  Run-Gave {cycle} (resetting {n} {q} r) =
      Gave-same cycle n q (reset_ingress_utilization q) refl (Run-Gave r)
  Run-Gave {cycle} (receiving {n} {q} r) =
      Gave-more cycle n (count_some (receive q cycle).1) q (receive q cycle).0
        (receive-GivesOut q cycle) (Run-Gave r)
  Run-Gave {cycle} (offering {n} {q} r f x e) =
      Gave-more cycle n (count_true x.1) q x.0 (offer-GivesOut f q cycle x e) (Run-Gave r)

  -- However often the methods of a port are called in one cycle, in whatever order, with arrivals
  -- between the calls, and whatever the handlers of try_receive send and take: receive and try_receive
  -- give out at most one event together.
  pub delivered_once :
      {cycle : ℕ} {p : FabricPort D} {n : ℕ} {q : FabricPort D} → Run cycle p n q → n ≤ 1
  delivered_once r = elim (Run-Gave r) [ inl z ↦ omega arith | inr (one, _) ↦ omega arith ]

  -- No more events wait to be sent than the port's limit, where it has one.
  abbrev pub IsWithinMax : FabricPort D → Type 0
  IsWithinMax p = (p.egress_queue_max ≡ 0) ⊎ (length p.egress_queue ≤ p.egress_queue_max)

  -- `send` keeps the events that wait within the limit: it takes the event, as the last one, or
  -- changes nothing.
  pub send-IsWithinMax :
      (p : FabricPort D) (ev : CsEvent)
      → IsWithinMax p
      → let (q, taken) = send p ev in
        IsWithinMax q
        × (((taken ≡ true) × (q.egress_queue ≡ p.egress_queue ++ (ev ∷ [])))
            ⊎ ((taken ≡ false) × (q ≡ p)))
  unfolding send can_send
  send-IsWithinMax p ev h = ground (arith, length-append p.egress_queue (ev ∷ []))

drain-append :
    (c : ℤ) (queue : List CsEvent) → let (_, out, stay) = drain c queue in queue ≡ out ++ stay
unfolding drain
drain-append c [] = refl
drain-append c (x ∷ xs) = ground (arith, drain-append (try_consume_credit c (credit_bytes x)).0 xs)

module _ {D : Type 0} ⦃d : Double D⦄ where
  -- A tick sends events off the front of the queue, in order, and keeps the rest.
  pub tick_sends_front :
      (p : FabricPort D) (cycle : ℕ)
      → let q = tick p cycle in
        (out : List CsEvent) × (q.sent ≡ p.sent ++ out) × (p.egress_queue ≡ out ++ q.egress_queue)
  unfolding tick
  tick_sends_front p cycle = elim (Bool-cases (p.last_tick_cycle == cycle)) [
    | inl old ↦ rw (old, tick) ([], sym (append-nil p.sent), refl)
    | inr new ↦
        rw (new, tick)
          (
            (drain p.egress_credits p.egress_queue).1,
            refl,
            drain-append p.egress_credits p.egress_queue,
          )
  ]
