-- ===== src/FabricPort/Tests.antt =====
-- Two ports of whole bytes, with room for two packets each, and a packet of 64 bytes between them.
use cscore_sstelem.Prelude.{ℕ, ◌≤◌, ◌≡◌, inr, refl, [], ◌∷◌, true, some, arith}
use cscore_sstelem.Prelude.Int.{pos}
use cscore_sstelem.Prelude.Result.{ok}
use cscore_sstelem.Double.{nat_double}
use cscore_sstelem.Packet.{CsEvent, event_of}
use cscore_sstelem.LatBwQueue
use cscore_sstelem.FabricPort.{
  FabricPort, credit_bytes, configure, configured_port, msg_bytes, try_consume_credit, tick, send,
  receive, handle_event, send, accept, is_credit_event, event_credit_dst,
}
use cscore_sstelem.FabricPort.Accounts.{held, IsSender, IsReceiver}
use cscore_sstelem.FabricPort.Protocol.{
  Pair, Reach, here, next, near_send, near_tick, far_tick, far_try_receive, reaches_far, IsBalanced,
  Reach-IsBalanced, held_bounded,
}
use cscore_sstelem.FabricPort.Setup.{configure-IsBalanced}
use cscore_sstelem.FabricPort.Delivery.{
  count_some, count_true, Run, begin, receiving, offering, delivered_once, IsWithinMax,
}
use cscore_sstelem.FabricPort.Offers.{Handler, offer}
use cscore_sstelem.FabricPort.Credits.{IsPlain}

abbrev packet : CsEvent
packet = event_of (0 ∷ 1 ∷ 4096 ∷ 0 ∷ 0 ∷ [])

abbrev credit : CsEvent
credit = event_of (1 ∷ 0 ∷ 2 ∷ 64 ∷ [])

unfoldable near : FabricPort ℕ
unfolding configured_port
near = configured_port 0 4 1 (pos 2)

unfoldable far : FabricPort ℕ
unfolding configured_port
far = configured_port 1 1 1 (pos 2)

near-configure : configure true 0 (pos 4) (pos 1) (pos 2) ≡ ok near
unfolding near configure
near-configure = refl

far-configure : configure true 1 (pos 1) (pos 1) (pos 2) ≡ ok far
unfolding far configure
far-configure = refl

abbrev start : Pair ℕ
start = record { near = near; far = far }

start-IsBalanced : IsBalanced start 128
start-IsBalanced =
    configure-IsBalanced near far 0 1 2 (pos 4) (pos 1) (pos 1) (pos 1) (pos 2) (omega arith)
      (omega arith) near-configure far-configure

unfoldable queued : FabricPort ℕ
unfolding near send
queued = (send near packet).0

unfoldable paid : FabricPort ℕ
unfolding queued tick
paid = tick queued 1

paid-sent : paid.sent ≡ packet ∷ []
unfolding paid try_consume_credit credit_bytes msg_bytes
paid-sent = refl

-- The far port, once the packet has arrived.
unfoldable holding : FabricPort ℕ
unfolding far
holding = record far {
  ingress = record (far.ingress) {
    blocked_queue = record { payload = packet; remaining_bytes = 64 } ∷ [];
  };
}

far-takes : handle_event far (some packet) ≡ ok holding
unfolding holding far handle_event LatBwQueue.add_packet msg_bytes
far-takes = refl

abbrev moved : Pair ℕ
moved = record { near = record paid { sent = [] }; far = holding }

-- A handler that takes whatever it is offered, and sends an answer.
abbrev answering : Handler ℕ
answering _ _ = (packet ∷ [], true)

answering-IsPlain : (p : FabricPort ℕ) (ev : CsEvent) → IsPlain (answering p ev).0
unfolding is_credit_event
answering-IsPlain p ev = (refl, tt)

unfoldable served : FabricPort ℕ
unfolding holding tick
served = tick holding 6

-- The far port, once it has given the packet to the handler.
unfoldable answered : FabricPort ℕ
unfolding served tick send accept
answered = accept (send (tick served 7) packet).0 7 packet []

served-offer : offer answering served 7 ≡ ok (answered, true)
unfolding answered offer LatBwQueue.on_tick credit_bytes msg_bytes event_credit_dst
served-offer = refl

-- It has sent 64 bytes of credit, and the answer waits.
answered-sent : answered.sent ≡ credit ∷ []
unfolding answered credit_bytes msg_bytes LatBwQueue.on_tick event_credit_dst
answered-sent = refl

abbrev finish : Pair ℕ
finish = record { near = record paid { sent = [] }; far = answered }

start-finish : Reach start finish
unfolding paid queued served try_consume_credit credit_bytes msg_bytes
start-finish =
    let carried : Reach start moved =
      next
        (next (next here (near_send start packet (omega arith)))
          (near_tick (record { near = queued; far = far }) 1))
        (reaches_far (record { near = paid; far = far }) packet [] holding refl far-takes) in
    next (next carried (far_tick moved 6)) (
      far_try_receive (record moved { far = served }) answering 7 (answered, true) answering-IsPlain
        served-offer)

Reach-IsBalanced_example : IsBalanced finish 128
Reach-IsBalanced_example = Reach-IsBalanced 128 start-finish start-IsBalanced

held_bounded_example :
    (held answered ≤ 128)
    × ((far' : FabricPort ℕ) × (handle_event answered (some packet) ≡ ok far'))
held_bounded_example = held_bounded 128 packet start-finish start-IsBalanced

far-IsReceiver : IsReceiver far
unfolding far
far-IsReceiver = record { plain = tt; no_limit = refl }

abbrev spent : FabricPort ℕ
spent = record paid { sent = [] }

spent-IsSender : IsSender spent 64 128
unfolding paid try_consume_credit credit_bytes msg_bytes
spent-IsSender = record { credits = refl; capacity_eq = refl; cheap = tt }

abbrev repaid : FabricPort ℕ
repaid = record spent { egress_credits = pos 128 }

spent-takes : handle_event spent (some credit) ≡ ok repaid
unfolding paid handle_event try_consume_credit credit_bytes msg_bytes
spent-takes = refl

-- In cycle 7 the far port gives out the packet, and then nothing more, though another one is ready.
abbrev ready_twice : FabricPort ℕ
ready_twice = record far { ready = packet ∷ packet ∷ [] }

unfoldable gave_one : FabricPort ℕ
unfolding far accept tick send
gave_one = accept (send (tick ready_twice 7) packet).0 7 packet (packet ∷ [])

ready_twice-offer : offer answering ready_twice 7 ≡ ok (gave_one, true)
unfolding gave_one offer LatBwQueue.on_tick credit_bytes msg_bytes event_credit_dst
ready_twice-offer = refl

a_cycle : Run 7 ready_twice 1 (receive gave_one 7).0
unfolding count_some count_true receive gave_one LatBwQueue.on_tick credit_bytes msg_bytes
a_cycle = receiving (offering begin answering (gave_one, true) ready_twice-offer)

delivered_once_example : 1 ≤ 1
delivered_once_example = delivered_once a_cycle

near-IsWithinMax : IsWithinMax near
unfolding near
near-IsWithinMax = inr (omega arith)
