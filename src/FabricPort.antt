-- ===== src/FabricPort.antt =====
-- src/fabric_port.cc and inc/fabric_port.h: one end of a link, with latency and bandwidth on the way
-- in and credits on the way out.
-- `sent` is what `link_->send` was given and the other end has not been handed yet. The pointers in
-- the queues are not null, and a sum of credits does not overflow `int64_t`.
pub mod Credits
pub mod Accounts
pub mod Arrivals
pub mod Offers
pub mod Delivery
pub mod Protocol
pub mod Setup
mod Tests
use cscore_sstelem.Prelude.{
  ℕ, ◌+◌, ◌-◌, ◌*◌, ◌^◌, max, List, [], ◌∷◌, ◌++◌, Bool, true, false, not, ◌&&◌, ◌||◌, Option, none,
  some, length, drop, ltb, leb, ◌==◌, if◌then◌else◌,
}
use cscore_sstelem.Prelude.Int.{
  eqb_ℤ, ℤ, pos, negsuc, ◌+ℤ◌, ◌-ℤ◌, ltb_ℤ, pos_part, neg_part, to_int64,
}
use cscore_sstelem.Prelude.Result.{Result, ok, err, ◌>>=◌, ◌>>◌, throw_if}
use cscore_sstelem.Double.{Double}
use cscore_sstelem.LatBwQueue
use cscore_sstelem.LatBwQueue.{LatBwQueue}
use cscore_sstelem.Packet.{CsEvent, word, max_u64}
use cscore_sstelem.Packet.Control.{
  control_broadcast, control_credit, control_reset_util, is_control_event, make_credit_event,
}

-- `kDefaultMsgBytes`
abbrev pub default_msg_bytes : ℕ
default_msg_bytes = 64

-- `kInfiniteCredits`, a quarter of the largest `int64_t`.
abbrev pub infinite_credits : ℤ
infinite_credits = pos (2 ^ 61 - 1)

unfoldable pub msg_bytes : CsEvent → ℕ
msg_bytes ev =
    if ltb 16 (length ev.payload)
    then max (word ev 16) 1
    else if ltb 8 (length ev.payload)
    then max (word ev 8) 1
    else default_msg_bytes

unfoldable pub credit_bytes : CsEvent → ℕ
unfolding is_control_event
credit_bytes ev = if is_control_event ev then 0 else msg_bytes ev

unfoldable pub credit_capacity_bytes : ℤ → ℤ
credit_capacity_bytes queue_size_packets =
    if ltb_ℤ (pos 0) queue_size_packets
    then pos (pos_part queue_size_packets * default_msg_bytes)
    else infinite_credits

unfoldable pub add_credit : ℤ → ℤ → ℕ → ℤ
unfolding ◌+ℤ◌ to_int64
add_credit credits capacity bytes =
    let sum = credits +ℤ to_int64 bytes in
    if eqb_ℤ credits infinite_credits || bytes == 0
    then credits
    else if ltb_ℤ capacity sum
    then capacity
    else sum

unfoldable pub try_consume_credit : ℤ → ℕ → ℤ × Bool
unfolding ◌-ℤ◌ to_int64
try_consume_credit credits bytes =
    if bytes == 0
    then (credits, true)
    else if eqb_ℤ credits infinite_credits
    then (credits, true)
    else if ltb_ℤ credits (to_int64 bytes)
    then (credits, false)
    else (credits -ℤ to_int64 bytes, true)

unfoldable pub event_credit_dst : CsEvent → ℕ
event_credit_dst ev = elim ev.payload [ [] ↦ control_broadcast | src ∷ _ ↦ src ]

-- An event whose payload makes it a credit.
unfoldable pub is_credit_event : CsEvent → Bool
unfolding is_control_event
is_credit_event ev = is_control_event ev && word ev 2 == control_credit

-- `payload[3]` of a credit, or 0 where there is none.
unfoldable pub credit_value : CsEvent → ℕ
credit_value ev = if ltb 3 (length ev.payload) then word ev 3 else 0

pub data PortError : Type 0 where
  negative_configuration null_link ingress_full : PortError

pub record FabricPort (D : Type 0) : Type 0 where
  pub self_id : ℕ
  pub ingress : LatBwQueue D CsEvent
  pub egress_credits : ℤ
  pub egress_credit_cap : ℤ
  pub egress_queue_max : ℕ
  pub egress_queue : List CsEvent
  pub ready : List CsEvent
  pub last_tick_cycle : ℕ
  pub last_deliver_cycle : ℕ
  pub sent : List CsEvent

-- The loop of `drain_egress`: the credits left, the events sent, and those that stay.
unfoldable pub drain : ℤ → List CsEvent → ℤ × List CsEvent × List CsEvent
drain credits [] = (credits, [], [])
drain credits (ev ∷ evs) =
    let (credits', paid) = try_consume_credit credits (credit_bytes ev) in
    let (left, out, stay) = drain credits' evs in
    if paid then (left, ev ∷ out, stay) else (credits', [], ev ∷ evs)

module _ {D : Type 0} ⦃d : Double D⦄ where
  -- The port that `configure` leaves, from checked values.
  unfoldable pub configured_port : ℕ → ℕ → ℕ → ℤ → FabricPort D
  unfolding credit_capacity_bytes LatBwQueue.make_queue
  configured_port self_id bw_cycles lat_cycles queue_size_packets =
      let bw = max bw_cycles 1 in
      let lat = max lat_cycles 1 in
      record {
        self_id = self_id;
        ingress =
            LatBwQueue.make_queue (d.div (d.of_nat 64) (d.of_nat bw)) (λ _. pos lat)
              (some (λ ev. d.of_nat (msg_bytes ev))) (pos 0);
        egress_credits = credit_capacity_bytes queue_size_packets;
        egress_credit_cap = credit_capacity_bytes queue_size_packets;
        egress_queue_max = pos_part queue_size_packets;
        egress_queue = [];
        ready = [];
        last_tick_cycle = max_u64;
        last_deliver_cycle = max_u64;
        sent = [];
      }

  -- `configure` on a port that the constructor has made; `linked` is false for a null link.
  unfoldable pub configure : Bool → ℕ → ℤ → ℤ → ℤ → Result PortError (FabricPort D)
  unfolding configured_port
  configure linked self_id bw_cycles lat_cycles queue_size_packets = do
    throw_if
        (ltb_ℤ bw_cycles (pos 0) || ltb_ℤ lat_cycles (pos 0) || ltb_ℤ queue_size_packets (pos 0))
        negative_configuration
    throw_if (not linked) null_link
    ok (configured_port self_id (pos_part bw_cycles) (pos_part lat_cycles) queue_size_packets)

  unfoldable pub egress_queue_full : FabricPort D → Bool
  egress_queue_full p = ltb 0 p.egress_queue_max && leb p.egress_queue_max (length p.egress_queue)

  unfoldable pub can_send : FabricPort D → Bool
  unfolding egress_queue_full
  can_send p = not (egress_queue_full p)

  unfoldable pub send : FabricPort D → CsEvent → FabricPort D × Bool
  unfolding can_send
  send p item =
      if can_send p
      then (record p { egress_queue = p.egress_queue ++ (item ∷ []) }, true)
      else (p, false)

  unfoldable pub tick_ingress : FabricPort D → FabricPort D
  tick_ingress p =
      let (ingress', done) = LatBwQueue.on_tick p.ingress in
      record p { ingress = ingress'; ready = p.ready ++ done }

  unfoldable pub drain_egress : FabricPort D → FabricPort D
  unfolding drain
  drain_egress p =
      let (left, out, stay) = drain p.egress_credits p.egress_queue in
      record p { egress_credits = left; egress_queue = stay; sent = p.sent ++ out }

  unfoldable pub tick : FabricPort D → ℕ → FabricPort D
  unfolding tick_ingress drain_egress
  tick p cycle =
      if p.last_tick_cycle == cycle
      then p
      else drain_egress (tick_ingress (record p { last_tick_cycle = cycle }))

  unfoldable pub send_credit : FabricPort D → ℕ → ℕ → FabricPort D
  unfolding make_credit_event
  send_credit p dst bytes =
      if bytes == 0
      then p
      else record p { sent = p.sent ++ (make_credit_event p.self_id dst bytes ∷ []) }

  unfoldable pub can_receive : FabricPort D → ℕ → FabricPort D × Bool
  unfolding tick
  can_receive p cycle =
      let p' = tick p cycle in
      (p', if p'.last_deliver_cycle == cycle then false else ltb 0 (length p'.ready))

  -- The end of `receive` and of `try_receive`: the front of `ready` is gone, and its bytes go back to
  -- the sender as a credit.
  unfoldable pub accept : FabricPort D → ℕ → CsEvent → List CsEvent → FabricPort D
  unfolding send_credit
  accept p cycle item rest =
      send_credit (record p { ready = rest; last_deliver_cycle = cycle }) (event_credit_dst item)
        (credit_bytes item)

  unfoldable pub receive : FabricPort D → ℕ → FabricPort D × Option CsEvent
  unfolding can_receive accept
  receive p cycle =
      let (p', can) = can_receive p cycle in
      if can
      then elim p'.ready [ [] ↦ (p', none) | item ∷ rest ↦ (accept p' cycle item rest, some item) ]
      else (p', none)

  unfoldable pub reset_ingress_utilization : FabricPort D → FabricPort D
  reset_ingress_utilization p = record p { ingress = LatBwQueue.reset_utilization p.ingress }

  -- A reset event resets the ingress, and then goes on as any other event does.
  unfoldable pub reset_on_demand : FabricPort D → CsEvent → FabricPort D
  unfolding is_control_event reset_ingress_utilization
  reset_on_demand p ev =
      if is_control_event ev && word ev 2 == control_reset_util
      then reset_ingress_utilization p
      else p

  unfoldable pub enqueue_ingress : FabricPort D → CsEvent → Result PortError (FabricPort D)
  enqueue_ingress p ev =
      let (ingress', added) = LatBwQueue.add_packet p.ingress ev in
      if added then ok (record p { ingress = ingress' }) else err ingress_full

  -- `none` is an event of another class, which is dropped.
  unfoldable pub handle_event : FabricPort D → Option CsEvent → Result PortError (FabricPort D)
  unfolding is_credit_event credit_value add_credit reset_on_demand enqueue_ingress
  handle_event p none = ok p
  handle_event p (some ev) =
      if is_credit_event ev
      then ok (record p {
        egress_credits = add_credit p.egress_credits p.egress_credit_cap (credit_value ev);
      })
      else enqueue_ingress (reset_on_demand p ev) ev

-- `try_receive`, for a port that is a part of the state `S` on which the handler acts. The handler
-- says whether it has taken the event; if not, the event stays at the front of `ready`.
module _ {D S E : Type 0} ⦃d : Double D⦄ (port : S → FabricPort D)
    (with_port : S → FabricPort D → S) where
  unfoldable pub try_receive : (S → CsEvent → Result E (S × Bool)) → S → ℕ → Result E (S × Bool)
  unfolding can_receive accept
  try_receive handle s cycle =
      let (p', can) = can_receive (port s) cycle in
      let s' = with_port s p' in
      if can
      then elim p'.ready [
        | [] ↦ ok (s', false)
        | item ∷ rest ↦ handle s' item >>= λ r. ok (
            if r.1
            then (with_port r.0 (accept (port r.0) cycle item (drop 1 (port r.0).ready)), true)
            else (r.0, false))
      ]
      else ok (s', false)
