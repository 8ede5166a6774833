-- ===== src/MemoryPool/Service.antt =====
-- cxl_mempool.cc: a cycle of the pool, from the requests that arrive to the responses that leave.
use cscore_sstelem.Prelude.{
  ℕ, ◌+◌, ◌%◌, ◌^◌, List, [], ◌∷◌, ◌++◌, Bool, true, false, Option, none, some, length, leb, ltb,
  ◌==◌, if◌then◌else◌,
}
use cscore_sstelem.Prelude.Result.{Result, ok, err, ◌>>=◌}
use cscore_sstelem.Double.{Double}
use cscore_sstelem.Packet.{CsEvent, SstRequest, make_response, max_u32}
use cscore_sstelem.Packet.Control.{is_reset_event}
use cscore_sstelem.Packet.Convert.{convert_event_to_request, convert_response_to_event}
use cscore_sstelem.Channel.{Request, Response}
use cscore_sstelem.MemoryController.{operate_channel}
use cscore_sstelem.FabricPort
use cscore_sstelem.FabricPort.{FabricPort}
use cscore_sstelem.MemoryPool.{
  MemoryPool, OutstandingRequest, PoolError, unconnected_port, port_out_of_range, PoolPort,
  switch_link, core_link, active_ports, port_at, port_or, set_port, reset_stats, max_cxl_ports,
}

-- `pending_.find(tag)`
unfoldable pub find_pending : List (ℕ × OutstandingRequest) → ℕ → Option OutstandingRequest
find_pending [] tag = none
find_pending ((t, r) ∷ rs) tag = if t == tag then some r else find_pending rs tag

-- `pending_.erase`
unfoldable pub erase_pending : List (ℕ × OutstandingRequest) → ℕ → List (ℕ × OutstandingRequest)
erase_pending [] tag = []
erase_pending ((t, r) ∷ rs) tag =
    let rest = erase_pending rs tag in if t == tag then rest else (t, r) ∷ rest

-- The channel's request for a request of the fabric, with its tag.
unfoldable pub channel_request : SstRequest → ℕ → Request
channel_request request tag = record {
  forward_checked = request.forward_checked;
  is_translated = request.is_translated;
  response_requested = request.response_requested;
  asid0 = request.asid0;
  asid1 = request.asid1;
  type = request.type;
  pf_metadata = request.pf_metadata;
  cpu = request.cpu;
  address = request.address;
  v_address = request.v_address;
  data_word = request.data_word;
  instr_id = request.instr_id;
  ip = request.ip;
  instr_depend_on_me = tag ∷ [];
}

-- Where the response to a request goes.
unfoldable pub route_of : SstRequest → OutstandingRequest
route_of request = record {
  cpu = request.cpu;
  sst_cpu = request.sst_cpu;
  src_node = request.src_node;
  dst_node = request.dst_node;
}

-- The event for a response that goes back on a route.
unfoldable pub response_event : ℕ → OutstandingRequest → Response → CsEvent
unfolding make_response convert_response_to_event
response_event pool_node_id route response =
    convert_response_to_event
      (record (make_response response.address response.v_address response.data_word
        response.pf_metadata route.cpu route.sst_cpu) {
          msg_bytes = 64;
          src_node = pool_node_id;
          dst_node = (if route.src_node == max_u32 then route.sst_cpu else route.src_node);
        })

module _ {D : Type 0} ⦃d : Double D⦄ where
  unfoldable pub enqueue_mem_request : MemoryPool D → SstRequest → MemoryPool D
  unfolding channel_request route_of
  enqueue_mem_request pool request =
      let tag = pool.next_tag in
      let ch = pool.mem_channel in
      record pool {
        next_tag = (tag + 1) % 2 ^ 64;
        pending =
            (if request.response_requested
              then (tag, route_of request) ∷ pool.pending
              else pool.pending);
        mem_channel = record ch { pq = ch.pq ++ (channel_request request tag ∷ []) };
        total_enqueued = pool.total_enqueued + 1;
      }

  -- The handler of `poll_ports`: whether the event has been taken.
  unfoldable pub handle_request : MemoryPool D → CsEvent → Result PoolError (MemoryPool D × Bool)
  unfolding enqueue_mem_request reset_stats
  handle_request pool ev = ok (
      if is_reset_event ev
      then (reset_stats pool, true)
      else if leb pool.mem_channel.pq_size (length pool.mem_channel.pq)
      then (pool, false)
      else (enqueue_mem_request pool (convert_event_to_request ev), true))

  unfoldable pub poll_port : MemoryPool D → PoolPort → ℕ → Result PoolError (MemoryPool D)
  unfolding handle_request port_at port_or set_port
  poll_port pool ref cycle = elim (port_at pool ref) [
    | none ↦ ok pool
    | some p ↦
        FabricPort.try_receive (port_or ref p) (set_port ref) handle_request
          (set_port ref pool (FabricPort.tick p cycle)) cycle
        >>= λ r. ok r.0
  ]

  unfoldable pub poll_each : MemoryPool D → List PoolPort → ℕ → Result PoolError (MemoryPool D)
  unfolding poll_port
  poll_each pool [] cycle = ok pool
  poll_each pool (ref ∷ refs) cycle = poll_port pool ref cycle >>= λ p. poll_each p refs cycle

  unfoldable pub poll_ports : MemoryPool D → ℕ → Result PoolError (MemoryPool D)
  unfolding poll_each active_ports
  poll_ports pool cycle = poll_each pool (active_ports pool) cycle

  -- `select_egress_port`; `static_cast<int>` makes no difference, as it leaves numbers below 64 alone
  -- and makes all others negative or 64 and more.
  unfoldable pub select_egress_port : MemoryPool D → ℕ → Result PoolError (PoolPort × FabricPort D)
  unfolding port_at
  select_egress_port pool sst_cpu = elim pool.switch_port [
    | some p ↦ ok (switch_link, p)
    | none ↦
        if ltb sst_cpu max_cxl_ports
        then elim (port_at pool (core_link sst_cpu)) [
          | some p ↦ ok (core_link sst_cpu, p)
          | none ↦ err unconnected_port
        ]
        else err port_out_of_range
  ]

  -- The end of `try_send_response`, once the port is known.
  unfoldable pub send_on :
      MemoryPool D
      → ℕ
      → OutstandingRequest
      → Response
      → PoolPort
      → FabricPort D
      → MemoryPool D × Bool
  unfolding response_event set_port erase_pending
  send_on pool tag route response ref port =
      if FabricPort.can_send port
      then (
        record (set_port ref pool
            (FabricPort.send port (response_event pool.pool_node_id route response)).0) {
              pending = erase_pending pool.pending tag;
            },
        true,
      )
      else (pool, false)

  unfoldable pub try_send_response :
      MemoryPool D → Response → Result PoolError (MemoryPool D × Bool)
  unfolding select_egress_port send_on find_pending
  try_send_response pool response = elim response.instr_depend_on_me [
    | [] ↦ ok (pool, true)
    | tag ∷ _ ↦ elim (find_pending pool.pending tag) [
      | none ↦ ok (pool, true)
      | some route ↦ select_egress_port pool route.sst_cpu >>= λ s.
          ok (send_on pool tag route response s.0 s.1)
    ]
  ]

  -- The loop of `clock_tick` over the responses that have come back.
  unfoldable pub send_responses : MemoryPool D → List Response → Result PoolError (MemoryPool D)
  unfolding try_send_response
  send_responses pool [] =
      ok (record pool { mem_channel = record (pool.mem_channel) { returned = [] } })
  send_responses pool (response ∷ rest) = try_send_response pool response >>= λ r.
      let later =
        send_responses (record (r.0) { total_completed = r.0.total_completed + 1 }) rest in
      if r.1
      then later
      else ok
          (record (r.0) { mem_channel = record (r.0.mem_channel) { returned = response ∷ rest } })

  unfoldable pub clock_tick : MemoryPool D → Result PoolError (MemoryPool D)
  unfolding poll_ports operate_channel send_responses
  clock_tick pool =
      let cycle = pool.tick_count + 1 in
      poll_ports (record pool { tick_count = cycle }) cycle >>= λ polled.
      let (ch, q, _) = operate_channel polled.mem_channel polled.mem_queue in
      send_responses (record polled { mem_channel = ch; mem_queue = q }) ch.returned
