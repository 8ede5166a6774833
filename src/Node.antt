-- ===== src/Node.antt =====
-- cscore.cc and cscore.h: a node of the system, the part of it that is no core, cache or memory of its
-- own: its settings, the requests that it sends to the fabric, the filling of the core's input queue
-- and the ends of the phases of a run.
-- A node has one core and one trace. What the calls of a tick do to the cores, the caches and the DRAM
-- at the ends of the phases is the list `calls`. The trace is the list of the instructions that its
-- reader has still to give. `linkHandler_cxl->send` appends to `sent`.
pub mod Settings
pub mod Requests
pub mod Runs
pub mod Phases
pub mod LastLevel
mod Tests
use cscore_sstelem.Prelude.{
  ℕ, zero, suc, ◌+◌, ◌-◌, ◌/◌, ◌%◌, ◌^◌, max, List, [], ◌∷◌, ◌++◌, map, Bool, true, false, ◌&&◌,
  ◌||◌, not, Option, none, some, length, ltb, leb, ◌==◌, if◌then◌else◌,
}
use cscore_sstelem.Prelude.Int.{ℤ, pos, ltb_ℤ, to_int64}
use cscore_sstelem.Double.{Double, max_double}
use cscore_sstelem.Packet.{CsEvent, SstRequest, SstResponse}
use cscore_sstelem.Packet.Control.{
  control_broadcast, control_reset_util, make_control_event, is_control_event,
}
use cscore_sstelem.Packet.Convert.{convert_request_to_event, convert_event_to_response}
use cscore_sstelem.LatBwQueue
use cscore_sstelem.LatBwQueue.{LatBwQueue, make_queue, at_least_one}

-- `BLOCK_SIZE`, `DEFAULT_BW` and `DEFAULT_DRAM_SIZE_BYTES`
abbrev pub block_size : ℕ
block_size = 64

abbrev pub default_bw : ℕ
default_bw = 96

unfoldable pub cycles_per_request_from_bw_bytes : ℕ → ℤ
cycles_per_request_from_bw_bytes bytes_per_cycle =
    if bytes_per_cycle == 0
    then pos default_bw
    else to_int64 (max ((block_size + bytes_per_cycle + 2 ^ 64 - 1) % 2 ^ 64 / bytes_per_cycle) 1)

unfoldable pub resolve_dram_bw_cycles : ℕ → ℕ → ℤ
unfolding cycles_per_request_from_bw_bytes
resolve_dram_bw_cycles cycles_per_req bytes_per_cycle =
    if not (cycles_per_req == 0)
    then to_int64 (max cycles_per_req 1)
    else cycles_per_request_from_bw_bytes bytes_per_cycle

-- The constructor's two tests on the parameter `pool_pa_base`.
unfoldable pub resolve_pool_pa_base : ℕ → ℕ → ℕ
resolve_pool_pa_base pool_pa_base dram_size_bytes =
    let base = if pool_pa_base == 0 then dram_size_bytes else pool_pa_base in
    if ltb base dram_size_bytes then dram_size_bytes else base

-- The calls on the cores, the caches, the DRAM and the simulator that end a phase.
pub data Call : Type 0 where
  begin_phase reset_dram_utilization end_phase print_stats ok_to_end_sim : Call

pub record Node (D I : Type 0) : Type 0 where
  pub node_id : ℕ
  pub warmup_insts : ℕ
  pub sim_insts : ℕ
  pub warmup_done : Bool
  pub final_stats_printed : Bool
  pub fetched_insts : ℕ
  pub trace : List I
  pub has_link : Bool
  pub remote_outbox : List SstRequest
  pub remote_link_queue : Option (LatBwQueue D SstRequest)
  pub sent : List CsEvent
  pub calls : List Call

-- What a tick reads of the core: the instructions retired, its input queue, and whether all its other
-- buffers are empty.
pub record CoreView (I : Type 0) : Type 0 where
  pub num_retired : ℕ
  pub in_queue_size : ℕ
  pub input_queue : List I
  pub rob_empty : Bool
  pub ifetch_buffer_empty : Bool
  pub decode_buffer_empty : Bool
  pub dispatch_buffer_empty : Bool
  pub dib_hit_buffer_empty : Bool
  pub lq_empty : Bool
  pub sq_empty : Bool

abbrev pub is_empty : {A : Type 0} → List A → Bool
is_empty [] = true
is_empty (x ∷ xs) = false

-- The loop that fills the input queue: `pkt_count` instructions at most, while the trace has more. The
-- trace, the queue and the count of the instructions fetched.
unfoldable pub fill_input_queue : {I : Type 0} → ℕ → List I → List I → ℕ → List I × List I × ℕ
fill_input_queue zero trace queue fetched = (trace, queue, fetched)
fill_input_queue (suc pkt_count) [] queue fetched = ([], queue, fetched)
fill_input_queue (suc pkt_count) (i ∷ trace) queue fetched =
    fill_input_queue pkt_count trace (queue ++ (i ∷ [])) (fetched + 1)

-- The instructions for the core's input queue.
unfoldable pub fetch : {D I : Type 0} → Node D I → CoreView I → Node D I × CoreView I
unfolding fill_input_queue
fetch node cpu =
    let (trace, queue, fetched) =
      fill_input_queue (cpu.in_queue_size - length cpu.input_queue) node.trace cpu.input_queue
        node.fetched_insts in
    (record node { trace = trace; fetched_insts = fetched }, record cpu { input_queue = queue })

-- No buffer of the core holds an instruction.
unfoldable pub drained : {I : Type 0} → CoreView I → Bool
drained cpu =
    is_empty cpu.input_queue
    && cpu.rob_empty
    && cpu.ifetch_buffer_empty
    && cpu.decode_buffer_empty
    && cpu.dispatch_buffer_empty
    && cpu.dib_hit_buffer_empty
    && cpu.lq_empty
    && cpu.sq_empty

-- The loop over the outbox, from its front.
unfoldable pub send_all : List SstRequest → List CsEvent → List CsEvent
send_all [] sent = sent
send_all (req ∷ reqs) sent = send_all reqs (sent ++ (convert_request_to_event req ∷ []))

module _ {D : Type 0} ⦃d : Double D⦄ where
  -- `bw_cost_fn` of the constructor.
  unfoldable pub remote_link_cost : SstRequest → D
  remote_link_cost req =
      max_double (if req.msg_bytes == 0 then d.of_nat 64 else d.of_nat req.msg_bytes) (d.of_nat 1)

  -- The queue to the remote link, if any of its three parameters asks for one.
  unfoldable pub make_remote_link_queue : ℤ → ℤ → ℤ → Option (LatBwQueue D SstRequest)
  unfolding make_queue
  make_remote_link_queue bw_cycles latency_cycles queue_size =
      if ltb_ℤ (pos 0) bw_cycles || ltb_ℤ (pos 0) latency_cycles || ltb_ℤ (pos 0) queue_size
      then some (
          make_queue (d.div (d.of_nat 64) (d.of_nat (at_least_one bw_cycles)))
            (λ _. pos (at_least_one latency_cycles)) (some remote_link_cost) queue_size)
      else none

module _ {D I : Type 0} ⦃d : Double D⦄ where
  unfoldable pub enqueue_remote_request : Node D I → SstRequest → Node D I × Bool
  enqueue_remote_request node req = elim node.remote_link_queue [
    | none ↦ (record node { remote_outbox = node.remote_outbox ++ (req ∷ []) }, true)
    | some queue ↦
        let (queue', accepted) = LatBwQueue.add_packet queue req in
        (record node { remote_link_queue = some queue' }, accepted)
  ]

  unfoldable pub advance_remote_requests : Node D I → Node D I
  unfolding send_all
  advance_remote_requests node = if not node.has_link then node else elim node.remote_link_queue [
    | none ↦ record node { sent = send_all node.remote_outbox node.sent; remote_outbox = [] }
    | some queue ↦
        let (queue', ready) = LatBwQueue.on_tick queue in
        record node { remote_link_queue = some queue'; sent = send_all ready node.sent }
  ]

  -- The end of the warm-up, in a tick after which the core has retired `retired` instructions.
  unfoldable pub end_warmup : Node D I → ℕ → Node D I
  end_warmup node retired =
      if not node.warmup_done && ltb 0 node.warmup_insts && leb node.warmup_insts retired
      then record node {
        calls = node.calls ++ (begin_phase ∷ reset_dram_utilization ∷ []);
        remote_link_queue = elim node.remote_link_queue [
          | none ↦ none
          | some queue ↦ some (LatBwQueue.reset_utilization queue)
        ];
        sent =
            (if node.has_link
              then node.sent
                ++ (make_control_event node.node_id control_broadcast control_reset_util ∷ [])
              else node.sent);
        warmup_done = true;
      }
      else node

  unfoldable pub print_final_stats : Node D I → Node D I
  print_final_stats node =
      if node.final_stats_printed
      then node
      else record node { final_stats_printed = true; calls = node.calls ++ (print_stats ∷ []) }

  -- What both ends of a run do.
  unfoldable pub end_run : Node D I → Node D I
  unfolding print_final_stats
  end_run node =
      let printed = print_final_stats (record node { calls = node.calls ++ (end_phase ∷ []) }) in
      record printed { calls = printed.calls ++ (ok_to_end_sim ∷ []) }

  -- The end of a tick; the flag is what `champsim_tick` returns, true at the end of the run.
  unfoldable pub finish_tick : Node D I → CoreView I → Node D I × Bool
  unfolding end_warmup end_run drained
  finish_tick node cpu =
      if ltb 0 node.sim_insts
      then (let warm = end_warmup node cpu.num_retired in
          if leb ((node.warmup_insts + node.sim_insts) % 2 ^ 64) cpu.num_retired
          then (end_run warm, true)
          else (warm, false))
      else if is_empty node.trace && drained cpu
      then (end_run node, true)
      else (node, false)

  -- The part of `champsim_tick` from `advance_remote_requests` on, after the memory, the walker and the
  -- caches have run; `cpu` is the core after its own step.
  unfoldable pub champsim_tick : Node D I → CoreView I → Node D I × CoreView I × Bool
  unfolding advance_remote_requests fetch finish_tick
  champsim_tick node cpu =
      let (fed, cpu') = fetch (advance_remote_requests node) cpu in
      let (node', over) = finish_tick fed cpu' in (node', cpu', over)

-- `handleEvent_CXL`, as far as the node: the response for the last-level cache, unless the event is a
-- control event.
unfoldable pub received_response : CsEvent → Option SstResponse
received_response ev = if is_control_event ev then none else some (convert_event_to_response ev)
