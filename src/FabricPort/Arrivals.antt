-- ===== src/FabricPort/Arrivals.antt =====
-- src/fabric_port.cc, `handle_event`: what an event that comes in over the link does to the books of
-- a port.
use cscore_sstelem.Prelude.{
  ℕ, ◌+◌, ◌≤◌, ◌≡◌, refl, ap, ap₂, sym, ◌∙◌, [], ◌∷◌, true, false, some, Bool-cases, inl, inr,
  if_cases, arith, ◌==◌, ◌&&◌, subst,
}
use native.Mathlib.Nat.{add-zero}
use cscore_sstelem.Prelude.Int.{ℤ, pos}
use cscore_sstelem.Prelude.Result.{ok, ok-injective}
use cscore_sstelem.Double.{Double}
use cscore_sstelem.LatBwQueue
use cscore_sstelem.LatBwQueue.{LatBwQueue}
use cscore_sstelem.LatBwQueue.Conservation.{pending, in_flight, add_packet_accepted}
use cscore_sstelem.LatBwQueue.Capacity.{max_pending-add_packet}
use cscore_sstelem.Packet.{CsEvent, word}
use cscore_sstelem.Packet.Control.{is_control_event, control_reset_util}
use cscore_sstelem.FabricPort.{
  FabricPort, credit_bytes, is_credit_event, credit_value, handle_event, add_credit,
  reset_ingress_utilization, reset_on_demand, enqueue_ingress,
}
use cscore_sstelem.FabricPort.Credits.{
  IsFinite, total_bytes, total_bytes-append, credit_bytes-credit, add_credit_lem, credit_worth,
}
use cscore_sstelem.FabricPort.Accounts.{
  held, owed, IsSender, IsReceiver, SenderKeeps, ReceiverKeeps,
}

module _ {D : Type 0} ⦃d : Double D⦄ where
  no_limit-not_full :
      (q : LatBwQueue D CsEvent) → q.max_pending ≡ pos 0 → LatBwQueue.is_full q ≡ false
  unfolding LatBwQueue.is_full
  no_limit-not_full q e = rw e

  -- A queue without a limit takes every packet.
  add_packet-no_limit :
      (q : LatBwQueue D CsEvent) (ev : CsEvent)
      → q.max_pending ≡ pos 0
      → let (q', added) = LatBwQueue.add_packet q ev in
        (added ≡ true)
        × (q'.max_pending ≡ pos 0)
        × (total_bytes (pending q') + total_bytes (in_flight q')
            ≡ total_bytes (pending q) + total_bytes (in_flight q) + credit_bytes ev)
  unfolding total_bytes
  add_packet-no_limit q ev e =
      let h = add_packet_accepted q ev (no_limit-not_full q e) in
      (
        h.0,
        max_pending-add_packet q ev ∙ e,
        rw (h.1, h.2) (omega (arith, total_bytes-append (pending q) (ev ∷ []))),
      )

  -- A reset changes nothing that the books count.
  pub reset-ReceiverKeeps : (p : FabricPort D) → ReceiverKeeps p (reset_ingress_utilization p)
  unfolding reset_ingress_utilization owed held LatBwQueue.reset_utilization
  reset-ReceiverKeeps p r = (record { plain = r.plain; no_limit = r.no_limit }, refl)

  reset_on_demand-ReceiverKeeps :
      (p : FabricPort D) (ev : CsEvent) → ReceiverKeeps p (reset_on_demand p ev)
  unfolding reset_on_demand
  reset_on_demand-ReceiverKeeps p ev r =
      if_cases (λ (q : FabricPort D). IsReceiver q × (owed q ≡ owed p))
        (is_control_event ev && word ev 2 == control_reset_util) (λ _. reset-ReceiverKeeps p r)
        (λ _. (r, refl))

  enqueue_ingress-IsReceiver :
      (p : FabricPort D) (ev : CsEvent)
      → IsReceiver p
      → (q : FabricPort D) × (enqueue_ingress p ev ≡ ok q)
        × IsReceiver q
        × (owed q ≡ owed p + credit_bytes ev)
  unfolding enqueue_ingress owed held
  enqueue_ingress-IsReceiver p ev r =
      let (ingress', _) = LatBwQueue.add_packet p.ingress ev in
      let h = add_packet-no_limit p.ingress ev r.no_limit in
      (
        record p { ingress = ingress' },
        rw h.0,
        record { plain = r.plain; no_limit = h.1 },
        omega (arith, h.2),
      )

  -- A receiver takes every event, with no error: a credit as such, and any other into its ingress,
  -- whose bytes it then owes.
  pub handle_event-IsReceiver :
      (p : FabricPort D) (ev : CsEvent)
      → IsReceiver p
      → (q : FabricPort D) × (handle_event p (some ev) ≡ ok q)
        × IsReceiver q
        × (owed q ≡ owed p + credit_bytes ev)
  unfolding handle_event owed held
  handle_event-IsReceiver p ev r = elim (Bool-cases (is_credit_event ev)) [
    | inl credit ↦ (
      record p {
        egress_credits = add_credit p.egress_credits p.egress_credit_cap (credit_value ev);
      },
      rw credit,
      record { plain = r.plain; no_limit = r.no_limit },
      omega (arith, credit_bytes-credit ev credit),
    )
    | inr other ↦
        let h = reset_on_demand-ReceiverKeeps p ev r in
        let (q, e, r', o) = enqueue_ingress-IsReceiver (reset_on_demand p ev) ev h.0 in
        (q, rw other e, r', o ∙ ap (λ n. n + credit_bytes ev) h.1)
  ]

  enqueue_ingress-IsSender :
      (p q : FabricPort D) (ev : CsEvent)
      → enqueue_ingress p ev ≡ ok q
      → (q.egress_credits ≡ p.egress_credits)
        × (q.egress_credit_cap ≡ p.egress_credit_cap)
        × (q.egress_queue ≡ p.egress_queue)
        × (q.sent ≡ p.sent)
  unfolding enqueue_ingress
  enqueue_ingress-IsSender p q ev e = ground arith

  reset_on_demand-IsSender :
      (p : FabricPort D) (ev : CsEvent)
      → let q = reset_on_demand p ev in
        (q.egress_credits ≡ p.egress_credits)
        × (q.egress_credit_cap ≡ p.egress_credit_cap)
        × (q.egress_queue ≡ p.egress_queue)
        × (q.sent ≡ p.sent)
  unfolding reset_on_demand reset_ingress_utilization
  reset_on_demand-IsSender p ev = ground arith

  -- The fields of `q` that make it a sender are those of `p`, with `credits` for its credits.
  abbrev SenderFields : FabricPort D → FabricPort D → ℤ → Type 0
  SenderFields p q credits =
      (q.egress_credits ≡ credits)
      × (q.egress_credit_cap ≡ p.egress_credit_cap)
      × (q.egress_queue ≡ p.egress_queue)
      × (q.sent ≡ p.sent)

  SenderFields-IsSender :
      (p q : FabricPort D) (c c' capacity : ℕ)
      → SenderFields p q (pos c')
      → IsSender p c capacity
      → IsSender q c' capacity × (q.sent ≡ p.sent)
  SenderFields-IsSender p q c c' capacity f s =
      (record { credits = f.0; capacity_eq = f.1 ∙ s.capacity_eq; cheap = rw f.2 s.cheap }, f.3)

  handle_event-credit :
      (p q : FabricPort D) (ev : CsEvent)
      → is_credit_event ev ≡ true
      → handle_event p (some ev) ≡ ok q
      → SenderFields p q (add_credit p.egress_credits p.egress_credit_cap (credit_value ev))
  unfolding handle_event
  handle_event-credit p q ev credit e = ground arith

  handle_event-other :
      (p q : FabricPort D) (ev : CsEvent)
      → is_credit_event ev ≡ false
      → handle_event p (some ev) ≡ ok q
      → SenderFields p q p.egress_credits
  unfolding handle_event
  handle_event-other p q ev other e =
      let e' : enqueue_ingress (reset_on_demand p ev) ev ≡ ok q = rw other at e in
      let f = enqueue_ingress-IsSender (reset_on_demand p ev) q ev e' in
      let g = reset_on_demand-IsSender p ev in (f.0 ∙ g.0, f.1 ∙ g.1, f.2 ∙ g.2, f.3 ∙ g.3)

  -- A sender that has room for it adds an incoming credit in full, and an event of any other kind
  -- leaves its credits as they are.
  pub handle_event-IsSender :
      (p q : FabricPort D) (ev : CsEvent) (c capacity : ℕ)
      → IsFinite capacity
      → IsSender p c capacity
      → c + credit_worth ev ≤ capacity
      → handle_event p (some ev) ≡ ok q
      → IsSender q (c + credit_worth ev) capacity × (q.sent ≡ p.sent)
  handle_event-IsSender p q ev c capacity f s room e = elim (Bool-cases (is_credit_event ev)) [
    | inl credit ↦
        let g = handle_event-credit p q ev credit e in
        let r : c + credit_value ev ≤ capacity = rw credit at room in
        let paid : q.egress_credits ≡ pos (c + credit_value ev) =
          g.0
          ∙ ap₂ (λ a b. add_credit a b (credit_value ev)) s.credits s.capacity_eq
          ∙ add_credit_lem c capacity (credit_value ev) f r in
        rw credit (SenderFields-IsSender p q c _ capacity (paid, g.1, g.2, g.3) s)
    | inr other ↦
        let g = handle_event-other p q ev other e in
        rw (other, add-zero)
          (SenderFields-IsSender p q c c capacity (g.0 ∙ s.credits, g.1, g.2, g.3) s)
  ]

  pub reset-SenderKeeps : (p : FabricPort D) → SenderKeeps p (reset_ingress_utilization p)
  unfolding reset_ingress_utilization
  reset-SenderKeeps p c capacity f s =
      (c, record { credits = s.credits; capacity_eq = s.capacity_eq; cheap = s.cheap }, refl)

  pub handle_event-owed :
      (p q : FabricPort D) (ev : CsEvent)
      → IsReceiver p
      → handle_event p (some ev) ≡ ok q
      → IsReceiver q × (owed q ≡ owed p + credit_bytes ev)
  handle_event-owed p q ev r e =
      let (q', e', r', o) = handle_event-IsReceiver p ev r in
      let same : q' ≡ q = ok-injective q' q (sym e' ∙ e) in
      subst (λ (t : FabricPort D). IsReceiver t × (owed t ≡ owed p + credit_bytes ev)) same (r', o)
