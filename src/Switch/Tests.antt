-- ===== src/Switch/Tests.antt =====
-- A switch of two nodes and two pools, the pools numbered from 100 on, and a write to the first pool.
use mathlib.Core.Option
use cscore_sstelem.Prelude.{ℕ, ◌+◌, ◌≡◌, refl, [], ◌∷◌, true, false, length, get_elem?, arith}
use cscore_sstelem.Prelude.Int.{pos}
use cscore_sstelem.Prelude.Result.{ok}
use cscore_sstelem.Double.{nat_double}
use cscore_sstelem.Packet.{CsEvent, default_request}
use cscore_sstelem.Packet.Control.{is_write_request, is_reset_event}
use cscore_sstelem.Packet.Convert.{convert_request_to_event, request_dst}
use cscore_sstelem.FabricPort
use cscore_sstelem.FabricPort.{FabricPort}
use cscore_sstelem.Switch.{
  Switch, round_robin, make_switch, can_send_at, all_can_send, clone_event_with_dst, port_id,
  pick_pool_index, route_to_pool, route_to_picked, try_route_event,
}
use cscore_sstelem.Switch.Pick.{Picked, pick_pool_index-Picked}
use cscore_sstelem.Switch.Routing.{IsWellFormed, try_route_event-refused}
use cscore_sstelem.Switch.Replication.{enqueued, replicated_to_all}

-- A port with room for one event.
unfoldable port : ℕ → FabricPort ℕ
unfolding FabricPort.configured_port
port id = FabricPort.configured_port id 4 1 (pos 1)

unfoldable two_by_two : Switch ℕ
two_by_two = record {
  num_nodes = 2;
  num_pools = 2;
  pool_node_id_base = 100;
  replicate_writes = true;
  pool_select_policy = round_robin;
  rr_pool_idx = 0;
  node_ports = port 0 ∷ port 1 ∷ [];
  pool_ports = port 100 ∷ port 101 ∷ [];
  replicated_count = 0;
  current_cycle = 0;
}

made :
    make_switch (pos 2) (pos 2) 100 true round_robin (λ _. true) (λ _. true) (pos 4) (pos 1) (pos 1)
    ≡ ok two_by_two
unfolding two_by_two port make_switch FabricPort.configure
made = refl

unfoldable a_write : CsEvent
unfolding convert_request_to_event
a_write =
    convert_request_to_event (record default_request { src_node = 1; dst_node = 100; type = 3 })

unfoldable a_read : CsEvent
unfolding convert_request_to_event
a_read = convert_request_to_event (record default_request { src_node = 1; dst_node = 100 })

two_by_two-IsWellFormed : IsWellFormed two_by_two
unfolding two_by_two
two_by_two-IsWellFormed = record { nodes = refl; pools = refl }

pick_pool_index-Picked_example : Picked two_by_two (pick_pool_index two_by_two)
unfolding two_by_two
pick_pool_index-Picked_example = pick_pool_index-Picked two_by_two refl (omega arith)

a_write-is_write : is_write_request a_write ≡ true
unfolding a_write is_write_request
a_write-is_write = refl

two_by_two-room : all_can_send two_by_two.pool_ports ≡ true
unfolding two_by_two port all_can_send FabricPort.can_send
two_by_two-room = refl

replicated_to_all_example :
    let (sw', taken) = route_to_pool two_by_two a_write in
    (taken ≡ true)
    × (sw'.replicated_count ≡ two_by_two.replicated_count + length two_by_two.pool_ports)
    × (sw'.node_ports ≡ two_by_two.node_ports)
    × (get_elem? sw'.pool_ports 1
        ≡ Option.map
            (λ p.
              enqueued p (clone_event_with_dst a_write (port_id two_by_two.pool_node_id_base 1)))
            (get_elem? two_by_two.pool_ports 1))
unfolding two_by_two
replicated_to_all_example =
    replicated_to_all two_by_two a_write 1 refl a_write-is_write two_by_two-room

node_room : can_send_at two_by_two.node_ports 1 ≡ true
unfolding two_by_two port can_send_at FabricPort.can_send
node_room = refl

read_taken : (route_to_picked two_by_two a_read).1 ≡ true
unfolding two_by_two port a_read route_to_picked can_send_at FabricPort.can_send pick_pool_index
read_taken = refl

-- The switch once both pool ports are full, which refuses the next write.
unfoldable full : Switch ℕ
unfolding two_by_two route_to_pool
full = (route_to_pool two_by_two a_write).0

full-refuses : try_route_event full a_write ≡ ok (full, false)
unfolding full two_by_two port a_write try_route_event is_write_request is_reset_event
    FabricPort.send request_dst
full-refuses = refl

try_route_event-refused_example : full ≡ full
try_route_event-refused_example = try_route_event-refused full full a_write full-refuses
