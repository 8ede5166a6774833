-- ===== src/MemoryPool.antt =====
-- cxl_mempool.cc and cxl_mempool.h: the memory pool takes requests from its ports, puts them through its
-- memory controller and sends the responses back to where the requests came from.
-- The parameters (`params.find`) and links (`configureLink`) come from SST and are the arguments of
-- `make_pool`. A port with no link is `none`. The `unordered_map` of pending requests is a list of pairs.
pub mod Service
pub mod Tags
mod Tests
use mathlib.Core.Option
use cscore_sstelem.Prelude.{
  ℕ, zero, suc, ◌+◌, ◌-◌, ◌/◌, ◌%◌, ◌^◌, max, List, [], ◌∷◌, ◌++◌, map, Bool, true, false, not,
  ◌&&◌, Option, none, some, length, set, get_elem?, leb, ltb, ◌==◌, if◌then◌else◌,
}
use cscore_sstelem.Prelude.Int.{ℤ, pos, to_int64}
use cscore_sstelem.Prelude.Result.{Result, ok, err, ◌>>=◌, ◌>>◌, throw_if}
use cscore_sstelem.Double.{Double}
use cscore_sstelem.LatBwQueue
use cscore_sstelem.LatBwQueue.{LatBwQueue}
use cscore_sstelem.Packet.{SstRequest, max_u32, max_u64}
use cscore_sstelem.Channel.{Channel, Request, make_channel}
use cscore_sstelem.MemoryController.{make_controller_queue}
use cscore_sstelem.FabricPort
use cscore_sstelem.FabricPort.{FabricPort, PortError}

-- `MAX_CXL_PORTS`
abbrev pub max_cxl_ports : ℕ
max_cxl_ports = 64

-- The cycles per request, as `int64_t`; 96 is `DEFAULT_BW`, and 64 is `BLOCK_SIZE`.
unfoldable pub resolve_mem_bw : ℕ → ℕ → ℕ → ℤ
resolve_mem_bw mem_bw dev_bw bw_cycles =
    let chosen = if mem_bw == 0 then dev_bw else mem_bw in
    if not (bw_cycles == 0)
    then to_int64 (max bw_cycles 1)
    else if chosen == 0
    then pos 96
    else to_int64 (max ((64 + chosen + 2 ^ 64 - 1) % 2 ^ 64 / chosen) 1)

pub record OutstandingRequest : Type 0 where
  pub cpu : ℕ
  pub sst_cpu : ℕ
  pub src_node : ℕ
  pub dst_node : ℕ

pub data PoolError : Type 0 where
  both_topologies no_links unconnected_port port_out_of_range : PoolError
  port_error : PortError → PoolError

pub record MemoryPool (D : Type 0) : Type 0 where
  pub pool_node_id : ℕ
  pub switch_port : Option (FabricPort D)
  pub core_ports : List (Option (FabricPort D))
  pub mem_channel : Channel
  pub mem_queue : LatBwQueue D Request
  pub next_tag : ℕ
  pub pending : List (ℕ × OutstandingRequest)
  pub tick_count : ℕ
  pub total_enqueued : ℕ
  pub total_completed : ℕ

-- An entry of `active_ports_`.
pub data PoolPort : Type 0 where
  switch_link : PoolPort
  core_link : ℕ → PoolPort

abbrev from_port {ℓ} : {A : Type ℓ} → Result PortError A → Result PoolError A
from_port (ok a) = ok a
from_port (err e) = err (port_error e)

module _ {D : Type 0} ⦃d : Double D⦄ where
  -- The ports of the linked ones among `n` names, from number `i` on.
  unfoldable pub make_core_ports :
      (ℕ → Bool) → ℕ → ℕ → ℕ → ℤ → ℤ → ℤ → Result PoolError (List (Option (FabricPort D)))
  make_core_ports linked id i zero bw lat size = ok []
  make_core_ports linked id i (suc n) bw lat size = do
    p ←
        (if linked i
          then (from_port (FabricPort.configure true id bw lat size) >>= λ (q : FabricPort D).
              ok (some q))
          else ok none)
    ps ← make_core_ports linked id (i + 1) n bw lat size
    ok (p ∷ ps)

  unfoldable pub is_some : Option (FabricPort D) → Bool
  is_some none = false
  is_some (some p) = true

  unfoldable pub any_connected : List (Option (FabricPort D)) → Bool
  any_connected [] = false
  any_connected (p ∷ ps) = if is_some p then true else any_connected ps

  -- The constructor. `mem_channel_{}` has no limit on its queues.
  unfoldable pub make_pool :
      Bool → (ℕ → Bool) → ℕ → ℤ → ℤ → ℤ → ℤ → (D → ℤ) → Result PoolError (MemoryPool D)
  unfolding make_core_ports any_connected make_channel make_controller_queue
  make_pool switch_linked core_linked id bw lat size mem_bw latency = do
    switch_port ←
        (if switch_linked
          then (from_port (FabricPort.configure true id bw lat size) >>= λ (q : FabricPort D).
              ok (some q))
          else ok none)
    core_ports ← make_core_ports core_linked id 0 max_cxl_ports bw lat size
    throw_if (switch_linked && any_connected core_ports) both_topologies
    throw_if (not switch_linked && not (any_connected core_ports)) no_links
    ok (record {
      pool_node_id = id;
      switch_port = switch_port;
      core_ports = core_ports;
      mem_channel = make_channel max_u64 max_u64 max_u64 0 false;
      mem_queue = make_controller_queue mem_bw latency;
      next_tag = 1;
      pending = [];
      tick_count = 0;
      total_enqueued = 0;
      total_completed = 0;
    })

  -- The numbers of the connected core ports, from `i` on.
  unfoldable pub connected_cores : ℕ → List (Option (FabricPort D)) → List PoolPort
  connected_cores i [] = []
  connected_cores i (p ∷ ps) =
      let rest = connected_cores (i + 1) ps in if is_some p then core_link i ∷ rest else rest

  unfoldable pub active_ports : MemoryPool D → List PoolPort
  unfolding connected_cores
  active_ports pool =
      if is_some pool.switch_port then switch_link ∷ [] else connected_cores 0 pool.core_ports

  unfoldable pub port_at : MemoryPool D → PoolPort → Option (FabricPort D)
  port_at pool switch_link = pool.switch_port
  port_at pool (core_link i) = elim (get_elem? pool.core_ports i) [ none ↦ none | some p ↦ p ]

  unfoldable pub port_or : PoolPort → FabricPort D → MemoryPool D → FabricPort D
  unfolding port_at
  port_or ref p pool = elim (port_at pool ref) [ none ↦ p | some q ↦ q ]

  unfoldable pub set_port : PoolPort → MemoryPool D → FabricPort D → MemoryPool D
  set_port switch_link pool p = record pool { switch_port = some p }
  set_port (core_link i) pool p = record pool { core_ports = set pool.core_ports i (some p) }

  abbrev pub reset_port : Option (FabricPort D) → Option (FabricPort D)
  reset_port p = Option.map (λ (q : FabricPort D). FabricPort.reset_ingress_utilization q) p

  -- The controller and the active ports are reset.
  unfoldable pub reset_stats : MemoryPool D → MemoryPool D
  reset_stats pool =
      let pool' : MemoryPool D = record pool {
        mem_queue = LatBwQueue.reset_utilization pool.mem_queue;
      } in
      if is_some pool.switch_port
      then record pool' { switch_port = reset_port pool.switch_port }
      else record pool' { core_ports = map reset_port pool.core_ports }
