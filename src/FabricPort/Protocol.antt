-- ===== src/FabricPort/Protocol.antt =====
-- src/fabric_port.cc, two ports joined by a link. What a port has given to `link_->send` reaches the
-- other in order, at any later time. The steps are the calls of the port's methods on either port, in
-- any order, `try_receive` with any handler that may send on the same port, and the arrival of the
-- oldest event on either way.
use cscore_sstelem.Prelude.{ℕ, ◌+◌, ◌≤◌, ◌<◌, ◌^◌, ◌≡◌, ap, List, ◌∷◌, Bool, false, some, arith}
use cscore_sstelem.Prelude.Result.{ok}
use cscore_sstelem.Double.{Double}
use cscore_sstelem.Packet.{CsEvent}
use cscore_sstelem.FabricPort.{
  FabricPort, credit_bytes, is_credit_event, tick, send, receive, handle_event,
  reset_ingress_utilization,
}
use cscore_sstelem.FabricPort.Credits.{
  IsFinite, IsCheap, IsPlain, total_bytes, total_credit, credit_worth,
}
use cscore_sstelem.FabricPort.Accounts.{
  held, owed, IsSender, IsReceiver, SenderKeeps, ReceiverKeeps, tick-IsSender, tick-ReceiverKeeps,
  receive-SenderKeeps, receive-ReceiverKeeps, send-SenderKeeps, send-ReceiverKeeps,
}
use cscore_sstelem.FabricPort.Offers.{Handler, offer, offer-SenderKeeps, offer-ReceiverKeeps}
use cscore_sstelem.FabricPort.Arrivals.{
  handle_event-IsReceiver, handle_event-owed, handle_event-IsSender, reset-ReceiverKeeps,
  reset-SenderKeeps,
}

pub record Pair (D : Type 0) : Type 0 where
  pub near : FabricPort D
  pub far : FabricPort D

module _ {D : Type 0} ⦃d : Double D⦄ where
  -- The far component sends no credits of its own, and the near one no event of 2 ^ 63 bytes or more,
  -- and neither do their handlers.
  pub data Step : Pair D → Pair D → Type 0 where
    near_send :
        (s : Pair D) (ev : CsEvent)
        → credit_bytes ev < 2 ^ 63
        → Step s (record s { near = (send s.near ev).0 })
    far_send :
        (s : Pair D) (ev : CsEvent)
        → is_credit_event ev ≡ false
        → Step s (record s { far = (send s.far ev).0 })
    near_tick : (s : Pair D) (cycle : ℕ) → Step s (record s { near = tick s.near cycle })
    far_tick : (s : Pair D) (cycle : ℕ) → Step s (record s { far = tick s.far cycle })
    near_receive : (s : Pair D) (cycle : ℕ) → Step s (record s { near = (receive s.near cycle).0 })
    far_receive : (s : Pair D) (cycle : ℕ) → Step s (record s { far = (receive s.far cycle).0 })
    near_try_receive :
        (s : Pair D) (f : Handler D) (cycle : ℕ) (r : FabricPort D × Bool)
        → ((p : FabricPort D) (ev : CsEvent) → IsCheap (f p ev).0)
        → offer f s.near cycle ≡ ok r
        → Step s (record s { near = r.0 })
    far_try_receive :
        (s : Pair D) (f : Handler D) (cycle : ℕ) (r : FabricPort D × Bool)
        → ((p : FabricPort D) (ev : CsEvent) → IsPlain (f p ev).0)
        → offer f s.far cycle ≡ ok r
        → Step s (record s { far = r.0 })
    near_reset : (s : Pair D) → Step s (record s { near = reset_ingress_utilization s.near })
    far_reset : (s : Pair D) → Step s (record s { far = reset_ingress_utilization s.far })
    reaches_far :
        (s : Pair D) (ev : CsEvent) (rest : List CsEvent) (far' : FabricPort D)
        → s.near.sent ≡ ev ∷ rest
        → handle_event s.far (some ev) ≡ ok far'
        → Step s (record { near = record (s.near) { sent = rest }; far = far' })
    reaches_near :
        (s : Pair D) (ev : CsEvent) (rest : List CsEvent) (near' : FabricPort D)
        → s.far.sent ≡ ev ∷ rest
        → handle_event s.near (some ev) ≡ ok near'
        → Step s (record { near = near'; far = record (s.far) { sent = rest } })

  pub data Reach (s : Pair D) : Pair D → Type 0 where
    here : Reach s s
    next : {t u : Pair D} → Reach s t → Step t u → Reach s u

  -- The near port's credits, the bytes on the way to the far port, the bytes that it holds and the
  -- credits on their way back make up the capacity.
  pub record IsBalanced (s : Pair D) (capacity : ℕ) : Type 0 where
    pub credits : ℕ
    pub sender : IsSender s.near credits capacity
    pub receiver : IsReceiver s.far
    pub finite : IsFinite capacity
    pub balance : credits + total_bytes s.near.sent + owed s.far ≡ capacity

  sender_step :
      (s : Pair D) (near' : FabricPort D) (capacity : ℕ)
      → SenderKeeps s.near near'
      → IsBalanced s capacity
      → IsBalanced (record s { near = near' }) capacity
  sender_step s near' capacity keeps b =
      let (c', sender', e) =
        keeps b.credits capacity (omega (arith, b.balance, b.finite)) b.sender in
      record {
        credits = c';
        sender = sender';
        receiver = b.receiver;
        finite = b.finite;
        balance = omega (arith, e, b.balance);
      }

  receiver_step :
      (s : Pair D) (far' : FabricPort D) (capacity : ℕ)
      → ReceiverKeeps s.far far'
      → IsBalanced s capacity
      → IsBalanced (record s { far = far' }) capacity
  receiver_step s far' capacity keeps b =
      let (receiver', e) = keeps b.receiver in
      record {
        credits = b.credits;
        sender = b.sender;
        receiver = receiver';
        finite = b.finite;
        balance = omega (arith, e, b.balance);
      }

  reaches_far-IsBalanced :
      (s : Pair D) (ev : CsEvent) (rest : List CsEvent) (far' : FabricPort D) (capacity : ℕ)
      → s.near.sent ≡ ev ∷ rest
      → handle_event s.far (some ev) ≡ ok far'
      → IsBalanced s capacity
      → IsBalanced (record { near = record (s.near) { sent = rest }; far = far' }) capacity
  unfolding total_bytes
  reaches_far-IsBalanced s ev rest far' capacity e h b =
      let (receiver', o) = handle_event-owed s.far far' ev b.receiver h in
      record {
        credits = b.credits;
        sender = record {
          credits = b.sender.credits;
          capacity_eq = b.sender.capacity_eq;
          cheap = b.sender.cheap;
        };
        receiver = receiver';
        finite = b.finite;
        balance = omega (arith, o, b.balance, ap total_bytes e);
      }

  reaches_near-IsBalanced :
      (s : Pair D) (ev : CsEvent) (rest : List CsEvent) (near' : FabricPort D) (capacity : ℕ)
      → s.far.sent ≡ ev ∷ rest
      → handle_event s.near (some ev) ≡ ok near'
      → IsBalanced s capacity
      → IsBalanced (record { near = near'; far = record (s.far) { sent = rest } }) capacity
  unfolding owed total_credit
  reaches_near-IsBalanced s ev rest near' capacity e h b =
      let worth = ap total_credit e in
      let (sender', same) =
        handle_event-IsSender s.near near' ev b.credits capacity b.finite b.sender
          (omega (arith, b.balance, worth)) h in
      record {
        credits = b.credits + credit_worth ev;
        sender = sender';
        receiver = record { plain = b.receiver.plain; no_limit = b.receiver.no_limit };
        finite = b.finite;
        balance = omega (arith, ap total_bytes same, b.balance, worth);
      }

  -- Every step keeps the books balanced.
  pub Step-IsBalanced :
      (capacity : ℕ) {s t : Pair D} → Step s t → IsBalanced s capacity → IsBalanced t capacity
  Step-IsBalanced capacity (near_send s ev h) b =
      sender_step s _ capacity (send-SenderKeeps s.near ev h) b
  Step-IsBalanced capacity (far_send s ev h) b =
      receiver_step s _ capacity (send-ReceiverKeeps s.far ev h) b
  Step-IsBalanced capacity (near_tick s cycle) b =
      sender_step s _ capacity (tick-IsSender s.near cycle) b
  Step-IsBalanced capacity (far_tick s cycle) b =
      receiver_step s _ capacity (tick-ReceiverKeeps s.far cycle) b
  Step-IsBalanced capacity (near_receive s cycle) b =
      sender_step s _ capacity (receive-SenderKeeps s.near cycle) b
  Step-IsBalanced capacity (far_receive s cycle) b =
      receiver_step s _ capacity (receive-ReceiverKeeps s.far cycle) b
  Step-IsBalanced capacity (near_try_receive s f cycle r cheap e) b =
      sender_step s r.0 capacity (offer-SenderKeeps f s.near cycle r cheap e) b
  Step-IsBalanced capacity (far_try_receive s f cycle r plain e) b =
      receiver_step s r.0 capacity (offer-ReceiverKeeps f s.far cycle r plain e) b
  Step-IsBalanced capacity (near_reset s) b = sender_step s _ capacity (reset-SenderKeeps s.near) b
  Step-IsBalanced capacity (far_reset s) b =
      receiver_step s _ capacity (reset-ReceiverKeeps s.far) b
  Step-IsBalanced capacity (reaches_far s ev rest far' e h) b =
      reaches_far-IsBalanced s ev rest far' capacity e h b
  Step-IsBalanced capacity (reaches_near s ev rest near' e h) b =
      reaches_near-IsBalanced s ev rest near' capacity e h b

  -- From two ports in balance, every sequence of calls of send, tick, receive, try_receive and
  -- reset_ingress_utilization on either port and of arrivals in order leads to two ports in balance:
  -- the near port's credits, the bytes on their way to the far port, the bytes that this holds and the
  -- credits on their way back always make up the capacity. A handler of try_receive may send any
  -- events on its port and take the event or not. The near port is given no event of 2 ^ 63 bytes or
  -- more, and the far port no credits to send, by its handler neither.
  pub Reach-IsBalanced :
      (capacity : ℕ) {s t : Pair D} → Reach s t → IsBalanced s capacity → IsBalanced t capacity
  Reach-IsBalanced capacity here b = b
  Reach-IsBalanced capacity (next r st) b =
      Step-IsBalanced capacity st (Reach-IsBalanced capacity r b)

  -- From two ports in balance, after every sequence of calls of send, tick, receive, try_receive and
  -- reset_ingress_utilization on either port and of arrivals in order, the far port holds no more bytes
  -- than the near port's capacity, and it takes any next event with no error. As above, the near port
  -- is given no event of 2 ^ 63 bytes or more, and the far port no credits to send.
  pub held_bounded :
      (capacity : ℕ) {s t : Pair D} (ev : CsEvent)
      → Reach s t
      → IsBalanced s capacity
      → (held t.far ≤ capacity) × ((far' : FabricPort D) × (handle_event t.far (some ev) ≡ ok far'))
  unfolding owed
  held_bounded capacity {s} {t} ev r b =
      let b' = Reach-IsBalanced capacity r b in
      let (far', e, _, _) = handle_event-IsReceiver t.far ev b'.receiver in
      (omega (arith, b'.balance), (far', e))
