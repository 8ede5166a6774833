-- ===== src/Switch/Clock.antt =====
-- switch.cc, `clock_tick`: in each cycle every port ticks, and may give out one event, which is routed.
use cscore_sstelem.Prelude.{
  ℕ, zero, suc, ◌+◌, List, [], ◌∷◌, ◌++◌, Option, none, some, length, set, get_elem?, get_or,
}
use cscore_sstelem.Prelude.Result.{Result, ok, ◌>>=◌}
use cscore_sstelem.Double.{Double}
use cscore_sstelem.FabricPort
use cscore_sstelem.FabricPort.{FabricPort}
use cscore_sstelem.Switch.{Switch, SwitchError, try_route_event}

-- A port of the switch.
pub data PortRef : Type 0 where
  node_port pool_port : ℕ → PortRef

-- The port references from number `i` on.
unfoldable pub refs_from : (ℕ → PortRef) → ℕ → ℕ → List PortRef
refs_from kind i zero = []
refs_from kind i (suc n) = kind i ∷ refs_from kind (i + 1) n

module _ {D : Type 0} ⦃d : Double D⦄ where
  unfoldable pub port_at : Switch D → PortRef → Option (FabricPort D)
  port_at sw (node_port i) = get_elem? sw.node_ports i
  port_at sw (pool_port i) = get_elem? sw.pool_ports i

  -- The same where the port is known to be there; `p` otherwise.
  unfoldable pub port_or : PortRef → FabricPort D → Switch D → FabricPort D
  port_or (node_port i) p sw = get_or sw.node_ports i p
  port_or (pool_port i) p sw = get_or sw.pool_ports i p

  unfoldable pub set_port : PortRef → Switch D → FabricPort D → Switch D
  set_port (node_port i) sw p = record sw { node_ports = set sw.node_ports i p }
  set_port (pool_port i) sw p = record sw { pool_ports = set sw.pool_ports i p }

  -- The body of the loop: the port ticks, and then `try_receive_and_route`.
  unfoldable pub visit : Switch D → PortRef → ℕ → Result SwitchError (Switch D)
  unfolding port_at port_or set_port
  visit sw ref cycle = elim (port_at sw ref) [
    | none ↦ ok sw
    | some p ↦
        FabricPort.try_receive (port_or ref p) (set_port ref) try_route_event
          (set_port ref sw (FabricPort.tick p cycle)) cycle
        >>= λ r. ok r.0
  ]

  unfoldable pub visit_all : Switch D → List PortRef → ℕ → Result SwitchError (Switch D)
  unfolding visit
  visit_all sw [] cycle = ok sw
  visit_all sw (ref ∷ refs) cycle = visit sw ref cycle >>= λ sw'. visit_all sw' refs cycle

  -- `for_each_port` goes over the node ports and then over the pool ports.
  unfoldable pub port_refs : Switch D → List PortRef
  unfolding refs_from
  port_refs sw =
      refs_from node_port 0 (length sw.node_ports) ++ refs_from pool_port 0 (length sw.pool_ports)

  unfoldable pub clock_tick : Switch D → ℕ → Result SwitchError (Switch D)
  unfolding visit_all port_refs
  clock_tick sw cycle = visit_all (record sw { current_cycle = cycle }) (port_refs sw) cycle
