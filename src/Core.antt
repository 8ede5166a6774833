-- ===== src/Core.antt =====
-- src/ooo_cpu.cc, inc/ooo_cpu.h and inc/instruction.h: the state of an out-of-order core.
-- A time that is the greatest of its type, and a producer's id that is, is `none`. The branch predictor
-- and the branch target buffer are a record of operations on a state. The prefetcher of the instruction
-- cache is `no`, which does nothing on a branch. The heartbeat and the printing are not modelled. A
-- failed assertion, and an access out of range, is an error.
pub mod Fetch
pub mod Decode
pub mod Dispatch
pub mod Execute
pub mod Memory
pub mod Returns
pub mod Cycle
pub mod Ascending
pub mod Reorder
pub mod Ids
pub mod Order
pub mod Pipeline
pub mod Sizes
mod Tests
use cscore_sstelem.Prelude.{
  ℕ, zero, suc, ◌+◌, ◌-◌, ◌/◌, ◌^◌, List, [], ◌∷◌, Bool, true, false, not, ◌&&◌, ◌||◌, Option, none,
  some, length, leb, ltb, ◌==◌, if◌then◌else◌,
}
use cscore_sstelem.Channel
use cscore_sstelem.Channel.{Request, Channel}
use cscore_sstelem.Packet.{write_type}
use cscore_sstelem.Cache.{load_type}
use cscore_sstelem.LruTable.{LruTable}
use cscore_sstelem.RegisterAllocator.{RegisterAllocator, AllocatorError}

-- `branch_type`
abbrev pub direct_jump : ℕ
direct_jump = 0

abbrev pub indirect_jump : ℕ
indirect_jump = 1

abbrev pub conditional : ℕ
conditional = 2

abbrev pub direct_call : ℕ
direct_call = 3

abbrev pub indirect_call : ℕ
indirect_call = 4

abbrev pub return_branch : ℕ
return_branch = 5

abbrev pub other_branch : ℕ
other_branch = 6

abbrev pub not_branch : ℕ
not_branch = 7

-- `ooo_model_instr`
pub record Instruction : Type 0 where
  pub instr_id : ℕ
  pub ip : ℕ
  pub ready_time : ℕ
  pub is_branch : Bool
  pub branch_taken : Bool
  pub branch_prediction : Bool
  pub branch_mispredicted : Bool
  pub asid0 : ℕ
  pub asid1 : ℕ
  pub branch : ℕ
  pub branch_target : ℕ
  pub dib_checked : Bool
  pub fetch_issued : Bool
  pub fetch_completed : Bool
  pub decoded : Bool
  pub scheduled : Bool
  pub executed : Bool
  pub completed : Bool
  pub completed_mem_ops : ℕ
  pub destination_registers : List ℕ
  pub source_registers : List ℕ
  pub destination_memory : List ℕ
  pub source_memory : List ℕ

unfoldable pub num_mem_ops : Instruction → ℕ
num_mem_ops i = length i.destination_memory + length i.source_memory

-- `program_order`
abbrev pub program_order : Instruction → Instruction → Bool
program_order lhs rhs = ltb lhs.instr_id rhs.instr_id

-- `LSQ_ENTRY`. The loads that wait for a store are the numbers of their slots in the load queue.
pub record LsqEntry : Type 0 where
  pub instr_id : ℕ
  pub virtual_address : ℕ
  pub ip : ℕ
  pub ready_time : Option ℕ
  pub asid0 : ℕ
  pub asid1 : ℕ
  pub fetch_issued : Bool
  pub producer_id : Option ℕ
  pub lq_depend_on_me : List ℕ

unfoldable pub make_entry : ℕ → Instruction → LsqEntry
make_entry addr i = record {
  instr_id = i.instr_id;
  virtual_address = addr;
  ip = i.ip;
  ready_time = none;
  asid0 = i.asid0;
  asid1 = i.asid1;
  fetch_issued = false;
  producer_id = none;
  lq_depend_on_me = [];
}

-- What stops a core.
pub data CoreFault : Type 0 where
  registers : AllocatorError → CoreFault
  load_queue_full no_rob_entry wrong_rob_entry too_many_mem_ops store_not_prior lost_load :
      CoreFault

-- `cpu_stats`. The counters are by branch type.
pub record CpuStats : Type 0 where
  pub begin_instrs : ℕ
  pub begin_cycles : ℕ
  pub end_instrs : ℕ
  pub end_cycles : ℕ
  pub total_rob_occupancy_at_branch_mispredict : ℕ
  pub total_branch_types : List (ℕ × ℕ)
  pub branch_type_misses : List (ℕ × ℕ)

-- `event_counter::increment`, at a branch type.
unfoldable pub increment_type : List (ℕ × ℕ) → ℕ → List (ℕ × ℕ)
increment_type [] key = (key, 1) ∷ []
increment_type ((k, n) ∷ counts) key =
    let rest = increment_type counts key in
    if k == key
    then (k, n + 1) ∷ counts
    else if ltb key k
    then (key, 1) ∷ (k, n) ∷ counts
    else (k, n) ∷ rest

-- The branch predictor and the branch target buffer, on their state `B`.
pub record Predictors (B : Type 0) : Type 0 where
  -- ip, branch type: the target, and whether it is always taken
  pub btb_prediction : B → ℕ → ℕ → B × ℕ × Bool
  -- ip, predicted target, always taken, branch type
  pub predict_branch : B → ℕ → ℕ → Bool → ℕ → B × Bool
  -- ip, target, taken, branch type
  pub update_btb : B → ℕ → ℕ → Bool → ℕ → B
  pub last_branch_result : B → ℕ → ℕ → Bool → ℕ → B

-- `O3_CPU`
pub record Core (B : Type 0) : Type 0 where
  pub cpu : ℕ
  pub current_time : ℕ
  pub clock_period : ℕ
  pub warmup : Bool
  pub begin_phase_time : ℕ
  pub begin_phase_instr : ℕ
  pub finish_phase_time : ℕ
  pub finish_phase_instr : ℕ
  pub num_retired : ℕ
  pub roi_stats : CpuStats
  pub sim_stats : CpuStats
  pub dib_shamt : ℕ
  pub dib : LruTable ℕ
  pub ifetch_buffer : List Instruction
  pub dispatch_buffer : List Instruction
  pub decode_buffer : List Instruction
  pub rob : List Instruction
  pub dib_hit_buffer : List Instruction
  pub lq : List (Option LsqEntry)
  pub sq : List LsqEntry
  pub ifetch_buffer_size : ℕ
  pub dispatch_buffer_size : ℕ
  pub decode_buffer_size : ℕ
  pub rob_size : ℕ
  pub sq_size : ℕ
  pub dib_hit_buffer_size : ℕ
  pub fetch_width : ℕ
  pub decode_width : ℕ
  pub dispatch_width : ℕ
  pub scheduler_size : ℕ
  pub exec_width : ℕ
  pub dib_inorder_width : ℕ
  pub lq_width : ℕ
  pub sq_width : ℕ
  pub retire_width : ℕ
  pub branch_mispredict_penalty : ℕ
  pub dispatch_latency : ℕ
  pub decode_latency : ℕ
  pub scheduling_latency : ℕ
  pub exec_latency : ℕ
  pub dib_hit_latency : ℕ
  pub l1i_bandwidth : ℕ
  pub l1d_bandwidth : ℕ
  pub reg_allocator : RegisterAllocator
  pub fetch_resume_time : Option ℕ
  pub in_queue_size : ℕ
  pub input_queue : List Instruction
  pub l1i_bus : Channel
  pub l1d_bus : Channel
  pub predictors : B

-- `current_time + (warmup ? 0 : latency)`
abbrev pub after_latency : {B : Type 0} → Core B → ℕ → ℕ
after_latency c latency = c.current_time + (if c.warmup then 0 else latency)

-- The block of an address, 64 bytes.
abbrev pub block_number : ℕ → ℕ
block_number addr = addr / 2 ^ 6

-- The packet of a fetch, a load or a store, before the bus has it.
abbrev pub bus_packet : ℕ → ℕ → ℕ → List ℕ → Request
bus_packet v_address instr_id ip instr_depend_on_me = record {
  forward_checked = false;
  is_translated = true;
  response_requested = true;
  asid0 = 255;
  asid1 = 255;
  type = load_type;
  pf_metadata = 0;
  cpu = 2 ^ 32 - 1;
  address = 0;
  v_address = v_address;
  data_word = 0;
  instr_id = instr_id;
  ip = ip;
  instr_depend_on_me = instr_depend_on_me;
}

-- `CacheBus`, whose channel is `bus`.
unfoldable pub issue_read : Channel → ℕ → Request → Channel × Bool
issue_read bus cpu packet = Channel.add_rq bus (record packet {
  address = packet.v_address;
  is_translated = false;
  cpu = cpu;
  type = load_type;
})

unfoldable pub issue_write : Channel → ℕ → Request → Channel × Bool
issue_write bus cpu packet = Channel.add_wq bus (record packet {
  address = packet.v_address;
  is_translated = false;
  cpu = cpu;
  type = write_type;
  response_requested = false;
})
