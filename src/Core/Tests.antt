-- ===== src/Core/Tests.antt =====
-- A core whose reorder buffer holds a completed load, 4, and one that waits, 5. Behind it are 6 to dispatch,
-- 7 from the DIB and 8 to decode, 9 fetched, and 10 and 11, a taken branch, in the input queue.
use cscore_sstelem.Prelude.{ℕ, ◌+◌, ◌*◌, ◌≡◌, refl, [], ◌∷◌, true, false, none, some, arith}
use cscore_sstelem.Prelude.Result.{ok, err}
use cscore_sstelem.Channel.{make_channel}
use cscore_sstelem.LruTable.{make_table}
use cscore_sstelem.RegisterAllocator.{make_allocator, count_free_registers}
use cscore_sstelem.Core.{Instruction, Core, CpuStats, Predictors, not_branch, direct_jump}
use cscore_sstelem.Core.Ascending.{merge_ids, Ascending}
use cscore_sstelem.Core.Reorder.{ids}
use cscore_sstelem.Core.Reorder.Decoding.{pick-Picks, Picks}
use cscore_sstelem.Core.Fetch.{initialize_instruction, check_dib, fetch_instruction}
use cscore_sstelem.Core.Dispatch.{dispatch_instruction}
use cscore_sstelem.Core.Execute.{
  schedule_instruction, execute_instruction, complete_inflight_instruction, retire_rob,
}
use cscore_sstelem.Core.Memory.{operate_lsq}
use cscore_sstelem.Core.Returns.{handle_memory_return}
use cscore_sstelem.Core.Decode.{pick, promote_to_decode, decode_instruction}
use cscore_sstelem.Core.Cycle.{operate}
use cscore_sstelem.Core.Order.{in_flight, IsPiped}
use cscore_sstelem.Core.Sizes.{IsSized}
use cscore_sstelem.Core.Sizes.Cycle.{operate-IsSized}
use cscore_sstelem.Core.Pipeline.{Cycles, operate-Cycles}

-- A predictor that takes every branch, to a target of its own.
abbrev always_taken : Predictors ℕ
always_taken = record {
  btb_prediction = λ b ip branch. (b, 512, true);
  predict_branch = λ b ip target always branch. (b + 1, true);
  update_btb = λ b ip target taken branch. b;
  last_branch_result = λ b ip target taken branch. b;
}

abbrev fetched : ℕ → Instruction
fetched id = record {
  instr_id = id;
  ip = 256 + 4 * id;
  ready_time = 0;
  is_branch = false;
  branch_taken = false;
  branch_prediction = false;
  branch_mispredicted = false;
  asid0 = 0;
  asid1 = 0;
  branch = not_branch;
  branch_target = 0;
  dib_checked = true;
  fetch_issued = true;
  fetch_completed = true;
  decoded = false;
  scheduled = false;
  executed = false;
  completed = false;
  completed_mem_ops = 0;
  destination_registers = [];
  source_registers = [];
  destination_memory = [];
  source_memory = [];
}

abbrev retiring : Instruction
retiring = record (fetched 4) { scheduled = true; executed = true; completed = true }

abbrev unfetched : ℕ → Instruction
unfetched id = record (fetched id) {
  dib_checked = false;
  fetch_issued = false;
  fetch_completed = false;
}

abbrev jump : Instruction
jump = record (unfetched 11) {
  is_branch = true;
  branch_taken = true;
  branch = direct_jump;
  branch_target = 640;
}

abbrev no_stats : CpuStats
no_stats = record {
  total_rob_occupancy_at_branch_mispredict = 0;
  begin_instrs = 0;
  begin_cycles = 0;
  end_instrs = 0;
  end_cycles = 0;
  total_branch_types = [];
  branch_type_misses = [];
}

unfoldable core : Core ℕ
unfolding make_table make_channel make_allocator
core = record {
  cpu = 0;
  current_time = 100;
  clock_period = 1;
  warmup = false;
  begin_phase_time = 0;
  begin_phase_instr = 0;
  finish_phase_time = 0;
  finish_phase_instr = 0;
  num_retired = 3;
  roi_stats = no_stats;
  sim_stats = no_stats;
  dib_shamt = 4;
  dib = make_table 0 2 1;
  ifetch_buffer = fetched 9 ∷ [];
  dispatch_buffer = record (fetched 6) { source_memory = 4096 ∷ [] } ∷ [];
  decode_buffer = fetched 8 ∷ [];
  rob = retiring ∷ fetched 5 ∷ [];
  dib_hit_buffer = record (fetched 7) { decoded = true } ∷ [];
  lq = none ∷ none ∷ [];
  sq = [];
  ifetch_buffer_size = 4;
  dispatch_buffer_size = 4;
  decode_buffer_size = 4;
  rob_size = 4;
  sq_size = 2;
  dib_hit_buffer_size = 2;
  fetch_width = 2;
  decode_width = 2;
  dispatch_width = 2;
  scheduler_size = 4;
  exec_width = 2;
  dib_inorder_width = 2;
  lq_width = 2;
  sq_width = 2;
  retire_width = 2;
  branch_mispredict_penalty = 1;
  dispatch_latency = 1;
  decode_latency = 1;
  scheduling_latency = 1;
  exec_latency = 1;
  dib_hit_latency = 1;
  l1i_bandwidth = 1;
  l1d_bandwidth = 1;
  reg_allocator = make_allocator 4;
  fetch_resume_time = some 0;
  in_queue_size = 4;
  input_queue = unfetched 10 ∷ jump ∷ [];
  l1i_bus = make_channel 2 2 2 6 false;
  l1d_bus = make_channel 2 2 2 6 false;
  predictors = 0;
}

core-IsPiped : IsPiped core
unfolding core merge_ids
core-IsPiped = record { ordered = ground arith; within = omega arith }

unfoldable core_after : Core ℕ
unfolding core operate retire_rob complete_inflight_instruction execute_instruction
    schedule_instruction count_free_registers handle_memory_return operate_lsq dispatch_instruction
    initialize_instruction check_dib fetch_instruction promote_to_decode decode_instruction
core_after = elim (operate always_taken core) [ ok r ↦ r.0 | err e ↦ core ]

retires_one : core_after.num_retired ≡ 4
unfolding core_after
retires_one = refl

keeps_the_rest : in_flight core_after ≡ 5 ∷ 6 ∷ 7 ∷ 8 ∷ 9 ∷ 10 ∷ 11 ∷ []
unfolding core_after merge_ids
keeps_the_rest = refl

no_error : operate always_taken core ≡ ok (core_after, 6)
unfolding core_after
no_error = refl

operate-Cycles_example : Cycles core core_after
operate-Cycles_example = operate-Cycles always_taken core core_after 6 core-IsPiped no_error

two_buffered : Ascending (merge_ids (3 ∷ 7 ∷ []) (4 ∷ 5 ∷ []))
unfolding merge_ids
two_buffered = ground arith

pick-Picks_example :
    Picks
      (3 ∷ 7 ∷ [])
      (4 ∷ 5 ∷ [])
      (pick 100 3 1 (fetched 3 ∷ fetched 7 ∷ []) (fetched 4 ∷ fetched 5 ∷ []))
pick-Picks_example =
    pick-Picks 100 3 1 (fetched 3 ∷ fetched 7 ∷ []) (fetched 4 ∷ fetched 5 ∷ []) two_buffered

two_of_four :
    let p = pick 100 3 1 (fetched 3 ∷ fetched 7 ∷ []) (fetched 4 ∷ fetched 5 ∷ []) in
    (ids p.dib_taken ≡ 3 ∷ []) × (ids p.decode_left ≡ 5 ∷ [])
unfolding pick
two_of_four = (refl, refl)

core-IsSized : IsSized core
unfolding core
core-IsSized = (omega arith, omega arith, omega arith, omega arith, omega arith)

operate-IsSized_example : IsSized core_after
operate-IsSized_example = operate-IsSized always_taken core core_after 6 core-IsSized no_error
