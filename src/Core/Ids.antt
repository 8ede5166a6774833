-- ===== src/Core/Ids.antt =====
-- src/ooo_cpu.cc: scheduling, execution and completion keep the instructions of the reorder buffer, in
-- their order, and dispatch keeps the id of an instruction.
pub mod Memory
pub mod Fetch
use cscore_sstelem.Prelude.{
  ℕ, zero, suc, ◌≡◌, refl, ap, ap₂, sym, ◌∙◌, List, [], ◌∷◌, ◌++◌, map, Bool, true, false, not,
  ◌&&◌, ltb, leb, ◌==◌, Option, none, some, set, get_or, list_cases, option_cases, if◌then◌else◌,
  if_cases, arith,
}
use cscore_sstelem.Prelude.Result.{ok, OnOk, OnOk-bind, OnOk-any, OnOk-imp}
use cscore_sstelem.Channel.{Channel, Response}
use cscore_sstelem.LruTable.{LruTable}
use cscore_sstelem.RegisterAllocator.{RegisterAllocator}
use cscore_sstelem.Core.{Instruction, LsqEntry, CoreFault, num_mem_ops, block_number}
use cscore_sstelem.Core.Reorder.{ids, ids-append, ids-map}
use cscore_sstelem.Core.Fetch.{
  do_check_dib, check_window, split_at_first, same_block_run, do_fetch_instruction, fetch_each,
  is_empty,
}
use cscore_sstelem.Core.Dispatch.{
  Scheduled, finish_mem_op, find_store, free_slot, schedule_load_at, schedule_load, schedule_loads,
  do_memory_scheduling,
}
use cscore_sstelem.Core.Execute.{
  schedule_each, is_schedulable, lacks_registers, do_scheduling, rename_sources,
  rename_destinations, execute_each, all_valid, mark_loads, mark_stores, complete_each,
  can_complete, complete_registers,
}
use cscore_sstelem.Core.Memory.{
  finish_in, waiting_load, release_loads, do_finish_store, finish_stores,
}
use cscore_sstelem.Core.Returns.{
  return_loads, return_data, mark_fetched, fetch_dependents, return_fetches,
}

-- The id of an instruction that a flag may have changed.
if-id :
    (b : Bool) (i j : Instruction)
    → i.instr_id ≡ j.instr_id
    → (if b then i else j).instr_id ≡ j.instr_id
if-id true i j e = e
if-id false i j e = refl

pub finish_mem_op-id :
    (i : Instruction) → OnOk (λ (i' : Instruction). i'.instr_id ≡ i.instr_id) (finish_mem_op i)
unfolding finish_mem_op
finish_mem_op-id i =
    if_cases (OnOk {E = CoreFault} (λ (i' : Instruction). i'.instr_id ≡ i.instr_id))
      (ltb i.completed_mem_ops (num_mem_ops i)) (λ _. refl) (λ _. tt)

abbrev pub SameIds : List Instruction → List Instruction → Type 0
SameIds is is' = ids is' ≡ ids is

pub finish_in-ids : (id : ℕ) (is : List Instruction) → OnOk (SameIds is) (finish_in id is)
unfolding finish_in
finish_in-ids id [] = tt
finish_in-ids id (i ∷ is) =
    let P = OnOk {E = CoreFault} (SameIds (i ∷ is)) in
    if_cases P (ltb i.instr_id id)
      (λ _.
        OnOk-bind (SameIds is) (SameIds (i ∷ is)) (finish_in id is) _ (finish_in-ids id is)
          (λ is' e. ap (λ l. i.instr_id ∷ l) e))
      (λ _.
        if_cases P (i.instr_id == id)
          (λ _.
            OnOk-bind (λ (i' : Instruction). i'.instr_id ≡ i.instr_id) (SameIds (i ∷ is))
              (finish_mem_op i) _ (finish_mem_op-id i) (λ i' e. ap (λ n. n ∷ ids is) e))
          (λ _. tt))

do_scheduling-id :
    (ra : RegisterAllocator) (i : Instruction)
    → OnOk
        (λ (p : RegisterAllocator × Instruction). (p.1).instr_id ≡ i.instr_id)
        (do_scheduling ra i)
unfolding do_scheduling
do_scheduling-id ra i =
    OnOk-any _ (rename_sources ra i.source_registers) _
      (λ s. OnOk-any _ (rename_destinations (s.0) i.instr_id i.destination_registers) _ (λ d. refl))

pub schedule_each-ids :
    (now bw : ℕ) (ra : RegisterAllocator) (is : List Instruction)
    → OnOk
        (λ (q : RegisterAllocator × List Instruction × ℕ). SameIds is q.1)
        (schedule_each now bw ra is)
unfolding schedule_each
schedule_each-ids now bw ra [] = refl
schedule_each-ids now zero ra (i ∷ is) = refl
schedule_each-ids now (suc bw) ra (i ∷ is) =
    let Q = λ (q : RegisterAllocator × List Instruction × ℕ). SameIds (i ∷ is) q.1 in
    let S = λ (p : RegisterAllocator × Instruction). (p.1).instr_id ≡ i.instr_id in
    if_cases (OnOk {E = CoreFault} Q) (lacks_registers ra i) (λ _. refl)
      (λ _.
        OnOk-bind S Q (if is_schedulable now i then do_scheduling ra i else ok (ra, i)) _
          (if_cases (OnOk {E = CoreFault} S) (is_schedulable now i) (λ _. do_scheduling-id ra i)
            (λ _. refl))
          (λ p e.
            OnOk-bind (λ (q : RegisterAllocator × List Instruction × ℕ). SameIds is q.1) Q
              (schedule_each now (if i.executed then suc bw else bw) (p.0) is) _
              (schedule_each-ids now (if i.executed then suc bw else bw) (p.0) is)
              (λ q f. ap₂ ◌∷◌ e f)))

pub execute_each-ids :
    (now time bw : ℕ) (ra : RegisterAllocator) (is : List Instruction) (lq : List (Option LsqEntry))
    (sq : List LsqEntry)
    → OnOk
        (λ (q : List Instruction × List (Option LsqEntry) × List LsqEntry × ℕ). SameIds is q.0)
        (execute_each now time bw ra is lq sq)
unfolding execute_each
execute_each-ids now time bw ra [] lq sq = refl
execute_each-ids now time zero ra (i ∷ is) lq sq = refl
execute_each-ids now time (suc bw) ra (i ∷ is) lq sq =
    OnOk-any _
      (if i.scheduled && not i.executed && leb i.ready_time now
        then all_valid ra i.source_registers
        else ok false)
      _
      (λ go.
        OnOk-bind
          (λ (q : List Instruction × List (Option LsqEntry) × List LsqEntry × ℕ). SameIds is q.0) _
          (execute_each now time (if go then bw else suc bw) ra is
            (if go then mark_loads i.instr_id time lq else lq)
            (if go then mark_stores i.instr_id time sq else sq))
          _
          (execute_each-ids now time (if go then bw else suc bw) ra is
            (if go then mark_loads i.instr_id time lq else lq)
            (if go then mark_stores i.instr_id time sq else sq))
          (λ q e. ap₂ ◌∷◌ (if-id go _ i refl) e))

pub complete_each-ids :
    (now bw : ℕ) (ra : RegisterAllocator) (is : List Instruction)
    → OnOk
        (λ (q : RegisterAllocator × List Instruction × Bool × ℕ). SameIds is q.1)
        (complete_each now bw ra is)
unfolding complete_each
complete_each-ids now bw ra [] = refl
complete_each-ids now zero ra (i ∷ is) = refl
complete_each-ids now (suc bw) ra (i ∷ is) =
    let go = can_complete now i in
    OnOk-any _ (if go then complete_registers ra i.destination_registers else ok ra) _ (λ ra'.
      OnOk-bind (λ (q : RegisterAllocator × List Instruction × Bool × ℕ). SameIds is q.1) _
        (complete_each now (if go then bw else suc bw) ra' is) _
        (complete_each-ids now (if go then bw else suc bw) ra' is)
        (λ q e. ap₂ ◌∷◌ (if-id go _ i refl) e))

-- A load or a store leaves the instruction's id.
schedule_load_at-id :
    (smem slot : ℕ) (s : Scheduled)
    → OnOk (λ (s' : Scheduled). s'.instr.instr_id ≡ s.instr.instr_id) (schedule_load_at smem slot s)
unfolding schedule_load_at
schedule_load_at-id smem slot s =
    option_cases (OnOk {E = CoreFault} (λ (s' : Scheduled). s'.instr.instr_id ≡ s.instr.instr_id))
      (find_store smem s.sq) _ _ (λ _. refl)
      (λ found _.
        if_cases (OnOk {E = CoreFault} (λ (s' : Scheduled). s'.instr.instr_id ≡ s.instr.instr_id))
          (found.1).fetch_issued
          (λ _.
            OnOk-bind (λ (i' : Instruction). i'.instr_id ≡ s.instr.instr_id) _
              (finish_mem_op s.instr) _ (finish_mem_op-id s.instr) (λ i' e. e))
          (λ _.
            if_cases
              (OnOk {E = CoreFault} (λ (s' : Scheduled). s'.instr.instr_id ≡ s.instr.instr_id))
              (ltb (found.1).instr_id s.instr.instr_id) (λ _. refl) (λ _. tt)))

schedule_loads-id :
    (smems : List ℕ) (s : Scheduled)
    → OnOk (λ (s' : Scheduled). s'.instr.instr_id ≡ s.instr.instr_id) (schedule_loads smems s)
unfolding schedule_loads schedule_load
schedule_loads-id [] s = refl
schedule_loads-id (smem ∷ smems) s =
    let Same = λ (s s' : Scheduled). s'.instr.instr_id ≡ s.instr.instr_id in
    OnOk-bind (Same s) (Same s) (schedule_load smem s) _
      (option_cases (OnOk {E = CoreFault} (Same s)) (free_slot s.lq) _ _ (λ _. tt)
        (λ slot _. schedule_load_at-id smem slot s))
      (λ s' e.
        OnOk-imp (Same s') (Same s) (schedule_loads smems s') (schedule_loads-id smems s')
          (λ s'' f. f ∙ e))

pub do_memory_scheduling-id :
    (s : Scheduled)
    → OnOk (λ (s' : Scheduled). s'.instr.instr_id ≡ s.instr.instr_id) (do_memory_scheduling s)
unfolding do_memory_scheduling
do_memory_scheduling-id s =
    OnOk-bind (λ (s' : Scheduled). s'.instr.instr_id ≡ s.instr.instr_id) _
      (schedule_loads s.instr.source_memory s) _ (schedule_loads-id s.instr.source_memory s)
      (λ s' e. e)
