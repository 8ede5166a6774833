-- ===== src/MemoryPool/Tests.antt =====
-- A pool behind a switch that owes a response to node 3, for the request with tag 5.
use cscore_sstelem.Prelude.{
  ℕ, ◌≡◌, refl, [], ◌∷◌, true, false, none, some, arith, ◌==◌, if◌then◌else◌,
}
use cscore_sstelem.Prelude.Int.{pos, to_int64}
use cscore_sstelem.Prelude.Result.{ok}
use cscore_sstelem.Double.{nat_double}
use cscore_sstelem.Packet.{word}
use cscore_sstelem.Channel.{Response, make_channel}
use cscore_sstelem.MemoryController.{make_controller_queue}
use cscore_sstelem.FabricPort
use cscore_sstelem.FabricPort.{FabricPort}
use cscore_sstelem.MemoryPool.{
  MemoryPool, OutstandingRequest, switch_link, set_port, resolve_mem_bw,
}
use cscore_sstelem.MemoryPool.Service.{
  find_pending, response_event, select_egress_port, try_send_response,
}
use cscore_sstelem.MemoryPool.Tags.{try_send_response-routed}

-- A port with room for one event.
unfoldable port : FabricPort ℕ
unfolding FabricPort.configured_port
port = FabricPort.configured_port 100 4 1 (pos 1)

abbrev route : OutstandingRequest
route = record { cpu = 3; sst_cpu = 3; src_node = 3; dst_node = 100 }

unfoldable pool : MemoryPool ℕ
unfolding make_channel make_controller_queue
pool = record {
  pool_node_id = 100;
  switch_port = some port;
  core_ports = [];
  mem_channel = make_channel 8 8 8 0 false;
  mem_queue = make_controller_queue (pos 1) (λ _. pos 2);
  next_tag = 6;
  pending = (5, route) ∷ [];
  tick_count = 0;
  total_enqueued = 5;
  total_completed = 4;
}

abbrev response : Response
response = record {
  address = 4096;
  v_address = 4096;
  data_word = 7;
  pf_metadata = 0;
  instr_depend_on_me = 5 ∷ [];
}

bandwidth_of_bytes : resolve_mem_bw 16 0 0 ≡ pos 4
unfolding resolve_mem_bw to_int64
bandwidth_of_bytes = refl

pool-find_pending : find_pending pool.pending 5 ≡ some route
unfolding pool find_pending
pool-find_pending = refl

pool-select : select_egress_port pool 3 ≡ ok (switch_link, port)
unfolding pool select_egress_port
pool-select = refl

port-room : FabricPort.can_send port ≡ true
unfolding port FabricPort.can_send
port-room = refl

try_send_response-routed_example :
    let ev = response_event 100 route response in
    (pool' : MemoryPool ℕ) × (try_send_response pool response ≡ ok (pool', true))
    × (pool' ≡ record (set_port switch_link pool (FabricPort.send port ev).0) {
      pending = pool'.pending;
    })
    × (find_pending pool'.pending 5 ≡ (if 5 == 5 then none else find_pending pool.pending 5))
    × (word ev 0 ≡ 100)
    × (word ev 1 ≡ 3)
unfolding pool
try_send_response-routed_example =
    try_send_response-routed pool response 5 5 [] route switch_link port refl pool-find_pending
      pool-select port-room (omega arith) (omega arith)

-- The pool once its port is full.
unfoldable busy : MemoryPool ℕ
unfolding pool port
busy = record pool {
  switch_port = some (record port { egress_queue = response_event 100 route response ∷ [] });
}

busy-refuses : try_send_response busy response ≡ ok (busy, false)
unfolding busy pool port try_send_response FabricPort.can_send
busy-refuses = refl
