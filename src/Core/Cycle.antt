-- ===== src/Core/Cycle.antt =====
-- src/ooo_cpu.cc, `operate`: a cycle of the core, from the back of the pipeline to its front, and the
-- ends of a phase. The heartbeat only prints.
use cscore_sstelem.Prelude.{ℕ, ◌+◌, ◌/◌, [], ◌==◌, if◌then◌else◌}
use cscore_sstelem.Prelude.Result.{Result, ok, ◌>>=◌}
use cscore_sstelem.Core.{Core, CoreFault, CpuStats, Predictors}
use cscore_sstelem.Core.Fetch.{initialize_instruction, check_dib, fetch_instruction}
use cscore_sstelem.Core.Decode.{promote_to_decode, decode_instruction}
use cscore_sstelem.Core.Dispatch.{dispatch_instruction}
use cscore_sstelem.Core.Execute.{
  schedule_instruction, execute_instruction, complete_inflight_instruction, retire_rob,
}
use cscore_sstelem.Core.Memory.{operate_lsq}
use cscore_sstelem.Core.Returns.{handle_memory_return}

module _ {B : Type 0} where
  -- The steps at the back of the pipeline, which can raise an error: the core and the progress.
  unfoldable pub operate_back : Core B → Result CoreFault (Core B × ℕ)
  operate_back c = do
    (c₁, retired) ← retire_rob c
    (c₂, completed) ← complete_inflight_instruction c₁
    (c₃, executed) ← execute_instruction c₂
    (c₄, scheduled) ← schedule_instruction c₃
    (c₅, returned) ← handle_memory_return c₄
    (c₆, issued) ← operate_lsq c₅
    (c₇, dispatched) ← dispatch_instruction c₆
    ok (c₇, retired + completed + executed + scheduled + returned + issued + dispatched)

  -- The steps at the front.
  unfoldable pub operate_front : Predictors B → Core B → Core B × ℕ
  operate_front p c =
      let (c₁, decoded) = decode_instruction c in
      let (c₂, promoted) = promote_to_decode c₁ in
      let (c₃, fetched) = fetch_instruction c₂ in
      let (c₄, checked) = check_dib c₃ in
      (initialize_instruction p c₄, decoded + promoted + fetched + checked)

  unfoldable pub operate : Predictors B → Core B → Result CoreFault (Core B × ℕ)
  unfolding operate_back operate_front
  operate p c = do
    (back, done) ← operate_back c
    let (front, more) = operate_front p back
    ok (front, done + more)

  unfoldable pub begin_phase : Core B → Core B
  begin_phase c = record c {
    begin_phase_instr = c.num_retired;
    begin_phase_time = c.current_time;
    sim_stats = record {
      begin_instrs = c.num_retired;
      begin_cycles = c.current_time / c.clock_period;
      end_instrs = 0;
      end_cycles = 0;
      total_rob_occupancy_at_branch_mispredict = 0;
      total_branch_types = [];
      branch_type_misses = [];
    };
  }

  unfoldable pub end_phase : Core B → ℕ → Core B
  end_phase c finished_cpu =
      let stats : CpuStats = record (c.sim_stats) {
        end_instrs = c.num_retired;
        end_cycles = c.current_time / c.clock_period;
      } in
      if finished_cpu == c.cpu
      then record c {
        sim_stats = stats;
        finish_phase_instr = c.num_retired;
        finish_phase_time = c.current_time;
        roi_stats = stats;
      }
      else record c { sim_stats = stats }
