-- ===== src/FabricPort/Accounts.antt =====
-- src/fabric_port.cc: the books of one port. A sender pays for what it sends; a receiver holds bytes, and
-- sends their credits when it gives them out.
use cscore_sstelem.Prelude.{
  ℕ, ◌+◌, ◌<◌, ◌^◌, ◌≡◌, refl, ap, ◌∙◌, List, [], ◌∷◌, Bool, true, false, Option, none, some,
  Bool-cases, inl, inr, if_cases, arith, ◌==◌, subst, List-cases,
}
use cscore_sstelem.Prelude.Int.{pos}
use cscore_sstelem.Double.{Double}
use cscore_sstelem.LatBwQueue
use cscore_sstelem.LatBwQueue.{LatBwQueue}
use cscore_sstelem.LatBwQueue.Conservation.{pending, in_flight, on_tick-Moved}
use cscore_sstelem.LatBwQueue.Capacity.{max_pending-on_tick}
use cscore_sstelem.Packet.{CsEvent}
use cscore_sstelem.Packet.Control.{make_credit_event}
use cscore_sstelem.FabricPort.{
  FabricPort, credit_bytes, is_credit_event, drain, tick, drain_egress, send, can_send, receive,
  can_receive, accept, send_credit, event_credit_dst,
}
use cscore_sstelem.FabricPort.Credits.{
  IsFinite, IsCheap, IsPlain, total_bytes, total_credit, total_bytes-append, total_credit-append,
  IsCheap-append, IsCheap-right, IsPlain-append, drain-Drained, drain-IsPlain,
  make_credit_event_lem, Perm-total_bytes,
}

module _ {D : Type 0} ⦃d : Double D⦄ where
  -- The bytes of the events that a port has been handed and has not given out.
  unfoldable pub held : FabricPort D → ℕ
  held p = total_bytes (pending p.ingress) + total_bytes (in_flight p.ingress) + total_bytes p.ready

  -- A port as a sender with `c` credits left.
  pub record IsSender (p : FabricPort D) (c capacity : ℕ) : Type 0 where
    pub credits : p.egress_credits ≡ pos c
    pub capacity_eq : p.egress_credit_cap ≡ pos capacity
    pub cheap : IsCheap p.egress_queue

  -- A port as a receiver: its own events are no credits, and its ingress has no limit.
  pub record IsReceiver (p : FabricPort D) : Type 0 where
    pub plain : IsPlain p.egress_queue
    pub no_limit : p.ingress.max_pending ≡ pos 0

  on_tick-held :
      (q : LatBwQueue D CsEvent)
      → let (q', out) = LatBwQueue.on_tick q in
        total_bytes (pending q') + total_bytes (in_flight q') + total_bytes out
        ≡ total_bytes (pending q) + total_bytes (in_flight q)
  on_tick-held q =
      let (q', out) = LatBwQueue.on_tick q in
      let m = on_tick-Moved q in
      omega (
        arith,
        ap total_bytes m.from_front,
        Perm-total_bytes m.kept,
        total_bytes-append m.taken (pending q'),
        total_bytes-append out (in_flight q'),
        total_bytes-append m.taken (in_flight q),
      )

  drain_egress-IsSender :
      (p : FabricPort D) (c capacity : ℕ)
      → IsFinite c
      → IsSender p c capacity
      → (c' : ℕ) × IsSender (drain_egress p) c' capacity
        × (c' + total_bytes (drain_egress p).sent ≡ c + total_bytes p.sent)
  unfolding drain_egress
  drain_egress-IsSender p c capacity f s =
      let dr = drain-Drained c p.egress_queue f s.cheap in
      rw s.credits (
        dr.left,
        record {
          credits = dr.left_eq;
          capacity_eq = s.capacity_eq;
          cheap = IsCheap-right _ _ (subst IsCheap dr.split s.cheap);
        },
        omega (arith, dr.paid, total_bytes-append p.sent (drain (pos c) p.egress_queue).1),
      )

  -- A tick of the sender pays for what it sends.
  pub tick-IsSender :
      (p : FabricPort D) (cycle c capacity : ℕ)
      → IsFinite c
      → IsSender p c capacity
      → (c' : ℕ) × IsSender (tick p cycle) c' capacity
        × (c' + total_bytes (tick p cycle).sent ≡ c + total_bytes p.sent)
  unfolding tick
  tick-IsSender p cycle c capacity f s = elim (Bool-cases (p.last_tick_cycle == cycle)) [
    | inl old ↦ rw (old, tick) (c, s, refl)
    | inr new ↦
        rw (new, tick)
          (drain_egress-IsSender _ c capacity f
            (record { credits = s.credits; capacity_eq = s.capacity_eq; cheap = s.cheap }))
  ]

  -- A tick of the receiver moves what it holds, and sends no credit.
  pub tick-IsReceiver :
      (p : FabricPort D) (cycle : ℕ)
      → IsReceiver p
      → let p' = tick p cycle in
        IsReceiver p' × (held p' ≡ held p) × (total_credit p'.sent ≡ total_credit p.sent)
  unfolding tick held
  tick-IsReceiver p cycle r = elim (Bool-cases (p.last_tick_cycle == cycle)) [
    | inl old ↦ rw (old, tick) (r, refl, refl)
    | inr new ↦
        let h = drain-IsPlain p.egress_credits p.egress_queue r.plain in
        let (_, out, _) = drain p.egress_credits p.egress_queue in
        let (_, done) = LatBwQueue.on_tick p.ingress in
        rw (new, tick)
          (
            record { plain = h.1; no_limit = max_pending-on_tick p.ingress ∙ r.no_limit },
            omega (arith, on_tick-held p.ingress, total_bytes-append p.ready done),
            omega (arith, total_credit-append p.sent out, h.0),
          )
  ]

  -- What `receive` does: a tick, and then it may accept the first ready event.
  pub receive_cases {ℓ} :
      (P : FabricPort D × Option CsEvent → Type ℓ) (p : FabricPort D) (cycle : ℕ)
      → P (tick p cycle, none)
      → ((item : CsEvent) (rest : List CsEvent)
          → (can_receive p cycle).1 ≡ true
          → (tick p cycle).ready ≡ item ∷ rest
          → P (accept (tick p cycle) cycle item rest, some item))
      → P (receive p cycle)
  unfolding receive
  receive_cases P p cycle ticked taken = elim (Bool-cases (can_receive p cycle).1) [
    | inl can ↦ elim (List-cases (tick p cycle).ready) [
      | inl e ↦ rw (can, e, receive) ticked
      | inr (item, rest, e) ↦ rw (can, e, receive) (taken item rest can e)
    ]
    | inr not_yet ↦ rw (not_yet, receive) ticked
  ]

  -- What a receiver owes: the bytes that it holds, and the credits that it has sent.
  unfoldable pub owed : FabricPort D → ℕ
  unfolding held
  owed p = held p + total_credit p.sent

  -- A credit goes out with the bytes that it is for, unless there are none; it costs nothing.
  send_credit_lem :
      (p : FabricPort D) (dst n : ℕ)
      → let p' = send_credit p dst n in
        (total_credit p'.sent ≡ total_credit p.sent + n)
        × (total_bytes p'.sent ≡ total_bytes p.sent)
  unfolding send_credit total_credit total_bytes
  send_credit_lem p dst n =
      let credit = make_credit_event p.self_id dst n in
      ground (
        arith,
        make_credit_event_lem p.self_id dst n,
        total_credit-append p.sent (credit ∷ []),
        total_bytes-append p.sent (credit ∷ []),
      )

  send_credit_frame :
      (p : FabricPort D) (dst n : ℕ)
      → let p' = send_credit p dst n in
        (p'.ingress ≡ p.ingress)
        × (p'.ready ≡ p.ready)
        × (p'.egress_queue ≡ p.egress_queue)
        × (p'.egress_credits ≡ p.egress_credits)
        × (p'.egress_credit_cap ≡ p.egress_credit_cap)
  unfolding send_credit
  send_credit_frame p dst n = ground arith

  -- A receiver that accepts the first ready event owes as much as before: its bytes are now a credit.
  pub accept-owed :
      (p : FabricPort D) (cycle : ℕ) (item : CsEvent) (rest : List CsEvent)
      → p.ready ≡ item ∷ rest
      → owed (accept p cycle item rest) ≡ owed p
  unfolding owed accept total_bytes
  accept-owed p cycle item rest e =
      let p' : FabricPort D = record p { ready = rest; last_deliver_cycle = cycle } in
      let f = send_credit_frame p' (event_credit_dst item) (credit_bytes item) in
      rw (f.0, f.1, ap total_bytes e)
        (omega (arith, send_credit_lem p' (event_credit_dst item) (credit_bytes item)))

  pub accept-IsSender :
      (p : FabricPort D) (cycle c capacity : ℕ) (item : CsEvent) (rest : List CsEvent)
      → IsSender p c capacity
      → let p' = accept p cycle item rest in
        IsSender p' c capacity × (total_bytes p'.sent ≡ total_bytes p.sent)
  unfolding accept
  accept-IsSender p cycle c capacity item rest s =
      let p' : FabricPort D = record p { ready = rest; last_deliver_cycle = cycle } in
      let f = send_credit_frame p' (event_credit_dst item) (credit_bytes item) in
      (
        record {
          credits = f.3 ∙ s.credits;
          capacity_eq = f.4 ∙ s.capacity_eq;
          cheap = rw f.2 s.cheap;
        },
        (send_credit_lem p' (event_credit_dst item) (credit_bytes item)).1,
      )

  pub accept-IsReceiver :
      (p : FabricPort D) (cycle : ℕ) (item : CsEvent) (rest : List CsEvent)
      → IsReceiver p
      → IsReceiver (accept p cycle item rest)
  unfolding accept
  accept-IsReceiver p cycle item rest r =
      let p' : FabricPort D = record p { ready = rest; last_deliver_cycle = cycle } in
      let f = send_credit_frame p' (event_credit_dst item) (credit_bytes item) in
      record { plain = rw f.2 r.plain; no_limit = rw f.0 r.no_limit }

  -- From `p` to `q` a sender's credits and the cost of what it has sent keep their sum.
  abbrev pub SenderKeeps : FabricPort D → FabricPort D → Type 0
  SenderKeeps p q =
      (c capacity : ℕ)
      → IsFinite c
      → IsSender p c capacity
      → (c' : ℕ) × IsSender q c' capacity × (c' + total_bytes q.sent ≡ c + total_bytes p.sent)

  -- From `p` to `q` a receiver owes the same.
  abbrev pub ReceiverKeeps : FabricPort D → FabricPort D → Type 0
  ReceiverKeeps p q = IsReceiver p → IsReceiver q × (owed q ≡ owed p)

  pub tick-ReceiverKeeps : (p : FabricPort D) (cycle : ℕ) → ReceiverKeeps p (tick p cycle)
  unfolding owed
  tick-ReceiverKeeps p cycle r = let h = tick-IsReceiver p cycle r in (h.0, omega (arith, h.1, h.2))

  -- `receive` keeps the sum of a sender's credits and the cost of what it has sent.
  pub receive-SenderKeeps : (p : FabricPort D) (cycle : ℕ) → SenderKeeps p (receive p cycle).0
  receive-SenderKeeps p cycle c capacity f s =
      let (c', s', e) = tick-IsSender p cycle c capacity f s in
      receive_cases
        (λ r.
          (l : ℕ) × IsSender r.0 l capacity × (l + total_bytes r.0.sent ≡ c + total_bytes p.sent))
        p cycle (c', s', e)
        (λ item rest _ _.
          let h = accept-IsSender (tick p cycle) cycle c' capacity item rest s' in
          (c', h.0, ap (λ n. c' + n) h.1 ∙ e))

  -- `receive` turns the bytes that it gives out into a credit, and keeps what a receiver owes.
  pub receive-ReceiverKeeps : (p : FabricPort D) (cycle : ℕ) → ReceiverKeeps p (receive p cycle).0
  receive-ReceiverKeeps p cycle r =
      let h = tick-ReceiverKeeps p cycle r in
      receive_cases (λ q. IsReceiver q.0 × (owed q.0 ≡ owed p)) p cycle h
        (λ item rest _ e. (
          accept-IsReceiver (tick p cycle) cycle item rest h.0,
          accept-owed (tick p cycle) cycle item rest e ∙ h.1,
        ))

  pub send-SenderKeeps :
      (p : FabricPort D) (ev : CsEvent) → credit_bytes ev < 2 ^ 63 → SenderKeeps p (send p ev).0
  unfolding send
  send-SenderKeeps p ev h c capacity f s =
      if_cases
        (λ (r : FabricPort D × Bool).
          (l : ℕ) × IsSender r.0 l capacity × (l + total_bytes r.0.sent ≡ c + total_bytes p.sent))
        (can_send p)
        (λ _. (
          c,
          record {
            credits = s.credits;
            capacity_eq = s.capacity_eq;
            cheap = IsCheap-append p.egress_queue (ev ∷ []) s.cheap (h, tt);
          },
          refl,
        ))
        (λ _. (c, s, refl))

  pub send-ReceiverKeeps :
      (p : FabricPort D) (ev : CsEvent) → is_credit_event ev ≡ false → ReceiverKeeps p (send p ev).0
  unfolding send owed held
  send-ReceiverKeeps p ev h r =
      if_cases (λ (r : FabricPort D × Bool). IsReceiver r.0 × (owed r.0 ≡ owed p)) (can_send p)
        (λ _. (
          record {
            plain = IsPlain-append p.egress_queue (ev ∷ []) r.plain (h, tt);
            no_limit = r.no_limit;
          },
          refl,
        ))
        (λ _. (r, refl))
