-- ===== src/FabricPort/Offers.antt =====
-- src/fabric_port.cc, `try_receive`, with a handler that may send events on the same port before it says
-- whether it has taken the one that it was offered.
use cscore_sstelem.Prelude.{
  ℕ, ◌+◌, ◌<◌, ◌^◌, ◌≡◌, refl, ap, ◌∙◌, List, [], ◌∷◌, Bool, true, false, inl, inr, Bool-cases,
  List-cases,
}
use cscore_sstelem.Prelude.Result.{Result, ok, OnOk, OnOk-elim}
use cscore_sstelem.Double.{Double}
use cscore_sstelem.Packet.{CsEvent}
use cscore_sstelem.FabricPort.{
  FabricPort, PortError, tick, send, can_send, can_receive, accept, try_receive, credit_bytes,
}
use cscore_sstelem.FabricPort.Credits.{IsCheap, IsCheap-append, IsPlain, total_bytes}
use cscore_sstelem.FabricPort.Accounts.{
  IsSender, IsReceiver, SenderKeeps, ReceiverKeeps, owed, tick-IsSender, tick-ReceiverKeeps,
  send-ReceiverKeeps, accept-IsSender, accept-IsReceiver, accept-owed,
}

-- The events that a handler sends for an event that it is offered, and whether it takes it.
abbrev pub Handler : Type 0 → Type 0
Handler D = FabricPort D → CsEvent → List CsEvent × Bool

module _ {D : Type 0} ⦃d : Double D⦄ where
  unfoldable pub sends : FabricPort D → List CsEvent → FabricPort D
  sends p [] = p
  sends p (ev ∷ evs) = sends (send p ev).0 evs

  unfoldable pub handling :
      Handler D → FabricPort D → CsEvent → Result PortError (FabricPort D × Bool)
  unfolding sends
  handling f p ev = ok (sends p (f p ev).0, (f p ev).1)

  unfoldable pub offer : Handler D → FabricPort D → ℕ → Result PortError (FabricPort D × Bool)
  unfolding try_receive handling
  offer f = try_receive (λ p. p) (λ _ p. p) (handling f)

  send_frame :
      (p : FabricPort D) (ev : CsEvent)
      → let p' = (send p ev).0 in
        (p'.ready ≡ p.ready) × (p'.last_deliver_cycle ≡ p.last_deliver_cycle)
  unfolding send
  send_frame p ev = elim (Bool-cases (can_send p)) [
    | inl room ↦ rw (room, send) (refl, refl)
    | inr full ↦ rw (full, send) (refl, refl)
  ]

  pub sends_frame :
      (p : FabricPort D) (evs : List CsEvent)
      → let p' = sends p evs in
        (p'.ready ≡ p.ready) × (p'.last_deliver_cycle ≡ p.last_deliver_cycle)
  unfolding sends
  sends_frame p [] = (refl, refl)
  sends_frame p (ev ∷ evs) =
      let (r, l) = send_frame p ev in
      let (r', l') = sends_frame (send p ev).0 evs in (r' ∙ r, l' ∙ l)

  -- What `try_receive` does: a tick; then the handler may act on the first ready event; and if it takes
  -- it, the port accepts it.
  pub offer_cases {ℓ} :
      (P : Result PortError (FabricPort D × Bool) → Type ℓ) (f : Handler D) (p : FabricPort D)
      (cycle : ℕ)
      → let p' = tick p cycle in
        P (ok (p', false))
        → ((item : CsEvent) (rest : List CsEvent)
            → (can_receive p cycle).1 ≡ true
            → (sends p' (f p' item).0).ready ≡ item ∷ rest
            → P (ok (accept (sends p' (f p' item).0) cycle item rest, true)))
        → ((item : CsEvent) → P (ok (sends p' (f p' item).0, false)))
        → P (offer f p cycle)
  unfolding offer
  offer_cases P f p cycle ticked taken left =
      let p' = tick p cycle in
      elim (Bool-cases (can_receive p cycle).1) [
        | inl can ↦ elim (List-cases p'.ready) [
          | inl e ↦ rw (can, e, offer) ticked
          | inr (item, rest, e) ↦
              let e' = (sends_frame p' (f p' item).0).0 ∙ e in
              elim (Bool-cases (f p' item).1) [
                | inl yes_it ↦ rw (can, e, yes_it, e', offer) (taken item rest can e')
                | inr no_it ↦ rw (can, e, no_it, offer) (left item)
              ]
        ]
        | inr not_yet ↦ rw (not_yet, offer) ticked
      ]

  send-IsSender :
      (p : FabricPort D) (ev : CsEvent) (c capacity : ℕ)
      → credit_bytes ev < 2 ^ 63
      → IsSender p c capacity
      → let p' = (send p ev).0 in IsSender p' c capacity × (p'.sent ≡ p.sent)
  unfolding send
  send-IsSender p ev c capacity h s = elim (Bool-cases (can_send p)) [
    | inl room ↦
        rw (room, send)
          (
            record {
              credits = s.credits;
              capacity_eq = s.capacity_eq;
              cheap = IsCheap-append p.egress_queue (ev ∷ []) s.cheap (h, tt);
            },
            refl,
          )
    | inr full ↦ rw (full, send) (s, refl)
  ]

  sends-IsSender :
      (p : FabricPort D) (evs : List CsEvent) (c capacity : ℕ)
      → IsCheap evs
      → IsSender p c capacity
      → let p' = sends p evs in IsSender p' c capacity × (p'.sent ≡ p.sent)
  unfolding sends
  sends-IsSender p [] c capacity h s = (s, refl)
  sends-IsSender p (ev ∷ evs) c capacity h s =
      let (s', e) = send-IsSender p ev c capacity h.0 s in
      let (s'', e') = sends-IsSender (send p ev).0 evs c capacity h.1 s' in (s'', e' ∙ e)

  sends-ReceiverKeeps :
      (p : FabricPort D) (evs : List CsEvent) → IsPlain evs → ReceiverKeeps p (sends p evs)
  unfolding sends
  sends-ReceiverKeeps p [] h r = (r, refl)
  sends-ReceiverKeeps p (ev ∷ evs) h r =
      let (r', e) = send-ReceiverKeeps p ev h.0 r in
      let (r'', e') = sends-ReceiverKeeps (send p ev).0 evs h.1 r' in (r'', e' ∙ e)

  -- `try_receive` keeps the sum of a sender's credits and the cost of what it has sent, whatever the
  -- handler sends.
  pub offer-SenderKeeps :
      (f : Handler D) (p : FabricPort D) (cycle : ℕ) (r : FabricPort D × Bool)
      → ((q : FabricPort D) (ev : CsEvent) → IsCheap (f q ev).0)
      → offer f p cycle ≡ ok r
      → SenderKeeps p r.0
  offer-SenderKeeps f p cycle r cheap e c capacity fin s =
      let (c', s', kept) = tick-IsSender p cycle c capacity fin s in
      let after = λ (item : CsEvent).
        sends-IsSender (tick p cycle) (f (tick p cycle) item).0 c' capacity
          (cheap (tick p cycle) item) s' in
      OnOk-elim
        (λ (x : FabricPort D × Bool).
          (l : ℕ) × IsSender x.0 l capacity × (l + total_bytes x.0.sent ≡ c + total_bytes p.sent))
        (offer f p cycle) r e
        (offer_cases
          (OnOk (λ (x : FabricPort D × Bool).
            (l : ℕ) × IsSender x.0 l capacity
            × (l + total_bytes x.0.sent ≡ c + total_bytes p.sent)))
          f p cycle (c', s', kept)
          (λ item rest _ _.
            let a =
              accept-IsSender (sends (tick p cycle) (f (tick p cycle) item).0) cycle c' capacity
                item rest (after item).0 in
            (c', a.0, ap (λ n. c' + n) (a.1 ∙ ap total_bytes (after item).1) ∙ kept))
          (λ item. (c', (after item).0, ap (λ l. c' + total_bytes l) (after item).1 ∙ kept)))

  -- `try_receive` turns the bytes of an event that the handler takes into a credit, and keeps what a
  -- receiver owes.
  pub offer-ReceiverKeeps :
      (f : Handler D) (p : FabricPort D) (cycle : ℕ) (r : FabricPort D × Bool)
      → ((q : FabricPort D) (ev : CsEvent) → IsPlain (f q ev).0)
      → offer f p cycle ≡ ok r
      → ReceiverKeeps p r.0
  offer-ReceiverKeeps f p cycle r plain e i =
      let h = tick-ReceiverKeeps p cycle i in
      let after = λ (item : CsEvent).
        sends-ReceiverKeeps (tick p cycle) (f (tick p cycle) item).0 (plain (tick p cycle) item)
          h.0 in
      OnOk-elim (λ (x : FabricPort D × Bool). IsReceiver x.0 × (owed x.0 ≡ owed p))
        (offer f p cycle) r e
        (offer_cases (OnOk (λ (x : FabricPort D × Bool). IsReceiver x.0 × (owed x.0 ≡ owed p))) f p
          cycle h
          (λ item rest _ ready.
            let q = sends (tick p cycle) (f (tick p cycle) item).0 in
            (
              accept-IsReceiver q cycle item rest (after item).0,
              accept-owed q cycle item rest ready ∙ (after item).1 ∙ h.1,
            ))
          (λ item. ((after item).0, (after item).1 ∙ h.1)))
