-- ===== src/Switch.antt =====
-- switch.cc and switch.h: the switch between the nodes and the CXL pools. It has a port to each node
-- and each pool; an event that a port gives out goes to the port of its destination.
-- The parameters are read (`params.find`) and the links looked up (`configureLink`) by SST: they are
-- the arguments of `make_switch`.
pub mod Routing
pub mod Pick
pub mod Replication
pub mod Clock
mod Tests
use cscore_sstelem.Prelude.{
  ℕ, zero, suc, ◌+◌, ◌-◌, ◌%◌, ◌^◌, List, [], ◌∷◌, ◌++◌, map, Bool, true, false, not, ◌&&◌, Option,
  none, some, length, set, get_elem?, get_or, ltb, leb, ◌==◌, if◌then◌else◌,
}
use cscore_sstelem.Prelude.Int.{ℤ, pos, ltb_ℤ, pos_part}
use cscore_sstelem.Prelude.Result.{Result, ok, err, ◌>>=◌, ◌>>◌, throw_if}
use cscore_sstelem.Double.{Double}
use cscore_sstelem.Packet.{CsEvent, word}
use cscore_sstelem.Packet.Control.{
  control_broadcast, is_reset_event, is_write_request, make_reset_util_event,
}
use cscore_sstelem.FabricPort
use cscore_sstelem.FabricPort.{FabricPort, PortError}

pub data PoolSelectPolicy : Type 0 where
  fixed0 round_robin : PoolSelectPolicy

pub data SwitchError : Type 0 where
  no_nodes no_pools overlapping_ids missing_link not_an_event malformed_event : SwitchError
  src_out_of_range dst_out_of_range unknown_src unknown_dst : SwitchError
  port_error : PortError → SwitchError

pub record Switch (D : Type 0) : Type 0 where
  pub num_nodes : ℕ
  pub num_pools : ℕ
  pub pool_node_id_base : ℕ
  pub replicate_writes : Bool
  pub pool_select_policy : PoolSelectPolicy
  pub rr_pool_idx : ℕ
  pub node_ports : List (FabricPort D)
  pub pool_ports : List (FabricPort D)
  pub replicated_count : ℕ
  pub current_cycle : ℕ

abbrev pub from_port {ℓ} : {A : Type ℓ} → Result PortError A → Result SwitchError A
from_port (ok a) = ok a
from_port (err e) = err (port_error e)

-- `clone_event_with_dst`; also the assignment `ev->payload[1] = dst`.
unfoldable pub clone_event_with_dst : CsEvent → ℕ → CsEvent
clone_event_with_dst ev dst = record ev { payload = set ev.payload 1 dst }

-- `base + p` in 64 bits.
abbrev pub port_id : ℕ → ℕ → ℕ
port_id base p = (base + p) % 2 ^ 64

module _ {D : Type 0} ⦃d : Double D⦄ where
  unfoldable pub can_send_at : List (FabricPort D) → ℕ → Bool
  can_send_at ports i = elim (get_elem? ports i) [ none ↦ false | some p ↦ FabricPort.can_send p ]

  -- `ports[i].port.send(ev)`; an event that the port refuses is deleted.
  unfoldable pub send_at : List (FabricPort D) → ℕ → CsEvent → List (FabricPort D)
  send_at [] i ev = []
  send_at (p ∷ ps) zero ev = (FabricPort.send p ev).0 ∷ ps
  send_at (p ∷ ps) (suc i) ev = p ∷ send_at ps i ev

  unfoldable pub all_can_send : List (FabricPort D) → Bool
  all_can_send [] = true
  all_can_send (p ∷ ps) = FabricPort.can_send p && all_can_send ps

  -- The loops of the constructor, over the ports from number `i` on: `linked` says which links there
  -- are.
  unfoldable pub make_ports :
      (ℕ → Bool) → ℕ → ℕ → ℕ → ℤ → ℤ → ℤ → Result SwitchError (List (FabricPort D))
  make_ports linked base i zero bw lat size = ok []
  make_ports linked base i (suc n) bw lat size = do
    throw_if (not (linked i)) missing_link
    p ← from_port (FabricPort.configure true (port_id base i) bw lat size)
    ps ← make_ports linked base (i + 1) n bw lat size
    ok (p ∷ ps)

  unfoldable pub make_switch :
      ℤ
      → ℤ
      → ℕ
      → Bool
      → PoolSelectPolicy
      → (ℕ → Bool)
      → (ℕ → Bool)
      → ℤ
      → ℤ
      → ℤ
      → Result SwitchError (Switch D)
  unfolding make_ports
  make_switch nodes pools base replicate policy node_link pool_link bw lat size = do
    throw_if (not (ltb_ℤ (pos 0) nodes)) no_nodes
    throw_if (not (ltb_ℤ (pos 0) pools)) no_pools
    throw_if (ltb base (pos_part nodes)) overlapping_ids
    node_ports ← make_ports node_link 0 0 (pos_part nodes) bw lat size
    pool_ports ← make_ports pool_link base 0 (pos_part pools) bw lat size
    ok (record {
      num_nodes = pos_part nodes;
      num_pools = pos_part pools;
      pool_node_id_base = base;
      replicate_writes = replicate;
      pool_select_policy = policy;
      rr_pool_idx = 0;
      node_ports = node_ports;
      pool_ports = pool_ports;
      replicated_count = 0;
      current_cycle = 0;
    })

  -- The loop of `pick_pool_index`, over the offsets from `offset` on: `none` where no port can send.
  unfoldable pub pick_loop : List (FabricPort D) → ℕ → ℕ → ℕ → Option ℕ
  unfolding can_send_at
  pick_loop ports rr zero offset = none
  pick_loop ports rr (suc k) offset =
      let rest = pick_loop ports rr k (offset + 1) in
      let idx = (rr + offset) % length ports in if can_send_at ports idx then some idx else rest

  -- The round-robin part of `pick_pool_index(true)`.
  unfoldable pub pick_round_robin : Switch D → Switch D × ℕ
  unfolding pick_loop
  pick_round_robin sw =
      let total = length sw.pool_ports in
      elim (pick_loop sw.pool_ports sw.rr_pool_idx total 0) [
        | none ↦ (sw, total)
        | some idx ↦ (record sw { rr_pool_idx = (idx + 1) % total }, idx)
      ]

  -- `pick_pool_index(true)`: the index, which is the number of ports where none is picked.
  unfoldable pub pick_pool_index : Switch D → Switch D × ℕ
  unfolding pick_round_robin
  pick_pool_index sw =
      let total = length sw.pool_ports in
      if total == 0
      then (sw, total)
      else elim sw.pool_select_policy [ fixed0 ↦ (sw, 0) | round_robin ↦ pick_round_robin sw ]

  -- One event to each pool port, in order from number `i` on: what `event i` makes.
  unfoldable pub send_each : (ℕ → CsEvent) → ℕ → List (FabricPort D) → List (FabricPort D)
  send_each event i [] = []
  send_each event i (p ∷ ps) = (FabricPort.send p (event i)).0 ∷ send_each event (i + 1) ps

  unfoldable pub reset_stats_and_broadcast : Switch D → Switch D
  unfolding send_each
  reset_stats_and_broadcast sw =
      let reset_all = map (λ (p : FabricPort D). FabricPort.reset_ingress_utilization p) in
      record sw {
        node_ports = reset_all sw.node_ports;
        pool_ports =
            send_each
              (λ i. make_reset_util_event control_broadcast (port_id sw.pool_node_id_base i)) 0
              (reset_all sw.pool_ports);
      }

  -- The write that goes to every pool.
  unfoldable pub replicate_write : Switch D → CsEvent → Switch D
  unfolding send_each clone_event_with_dst
  replicate_write sw ev = record sw {
    pool_ports =
        send_each (λ i. clone_event_with_dst ev (port_id sw.pool_node_id_base i)) 0 sw.pool_ports;
    replicated_count = sw.replicated_count + length sw.pool_ports;
  }

  -- The event that goes to one pool, which the policy picks.
  unfoldable pub route_to_picked : Switch D → CsEvent → Switch D × Bool
  unfolding clone_event_with_dst
  route_to_picked sw ev =
      let (sw', pick) = pick_pool_index sw in
      if leb (length sw.pool_ports) pick
      then (sw', false)
      else if can_send_at sw.pool_ports pick
      then (
        record sw' {
          pool_ports =
              send_at sw'.pool_ports pick
                (clone_event_with_dst ev (port_id sw.pool_node_id_base pick));
        },
        true,
      )
      else (sw', false)

  unfoldable pub route_to_pool : Switch D → CsEvent → Switch D × Bool
  unfolding all_can_send replicate_write route_to_picked
  route_to_pool sw ev =
      if sw.replicate_writes && is_write_request ev
      then (if all_can_send sw.pool_ports then (replicate_write sw ev, true) else (sw, false))
      else route_to_picked sw ev

  unfoldable pub route_to_node : Switch D → ℕ → CsEvent → Switch D × Bool
  route_to_node sw idx ev =
      if can_send_at sw.node_ports idx
      then (record sw { node_ports = send_at sw.node_ports idx ev }, true)
      else (sw, false)

  -- `try_route_event`: whether the event has been taken, or the error.
  unfoldable pub try_route_event : Switch D → CsEvent → Result SwitchError (Switch D × Bool)
  unfolding route_to_node route_to_pool reset_stats_and_broadcast all_can_send
  try_route_event sw ev =
      let dst = word ev 1 in
      let pool = dst - sw.pool_node_id_base in
      if ltb (length ev.payload) 2
      then err malformed_event
      else if is_reset_event ev
      then ok
          (if all_can_send sw.pool_ports then (reset_stats_and_broadcast sw, true) else (sw, false))
      else if ltb dst sw.num_nodes
      then (if leb (length sw.node_ports) dst
          then err dst_out_of_range
          else ok (route_to_node sw dst ev))
      else if leb sw.pool_node_id_base dst
      then (if leb (length sw.pool_ports) pool
          then err dst_out_of_range
          else ok (route_to_pool sw ev))
      else err unknown_dst

  -- `handle_event`: the event that came over a link goes to the port that its source names.
  unfoldable pub handle_at :
      List (FabricPort D) → ℕ → CsEvent → Result SwitchError (List (FabricPort D))
  handle_at [] i ev = err src_out_of_range
  handle_at (p ∷ ps) zero ev = from_port (FabricPort.handle_event p (some ev)) >>= λ q. ok (q ∷ ps)
  handle_at (p ∷ ps) (suc i) ev = handle_at ps i ev >>= λ qs. ok (p ∷ qs)

  unfoldable pub handle_event : Switch D → Option CsEvent → Result SwitchError (Switch D)
  unfolding handle_at
  handle_event sw none = err not_an_event
  handle_event sw (some ev) =
      let src = word ev 0 in
      if ltb (length ev.payload) 2
      then err malformed_event
      else if ltb src sw.num_nodes
      then (handle_at sw.node_ports src ev >>= λ ps. ok (record sw { node_ports = ps }))
      else if leb sw.pool_node_id_base src
      then (handle_at sw.pool_ports (src - sw.pool_node_id_base) ev >>= λ ps.
          ok (record sw { pool_ports = ps }))
      else err unknown_src
