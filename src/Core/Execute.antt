-- ===== src/Core/Execute.antt =====
-- src/ooo_cpu.cc, `schedule_instruction`, `execute_instruction`, `complete_inflight_instruction` and
-- `retire_rob`: what happens to an instruction in the reorder buffer.
use cscore_sstelem.Prelude.{
  ℕ, zero, suc, ◌+◌, List, [], ◌∷◌, Bool, true, false, not, ◌&&◌, ◌||◌, Option, none, some, length,
  leb, ltb, ◌==◌, if◌then◌else◌,
}
use cscore_sstelem.Prelude.Result.{Result, ok, err, ◌>>=◌}
use cscore_sstelem.RegisterAllocator
use cscore_sstelem.RegisterAllocator.{RegisterAllocator, AllocatorError}
use cscore_sstelem.Span.{span_while}
use cscore_sstelem.Core.{
  Instruction, LsqEntry, Core, CoreFault, registers, num_mem_ops, after_latency,
}

-- An error of the register allocator is the core's.
abbrev pub lift : {A : Type 0} → Result AllocatorError A → Result CoreFault A
lift (ok a) = ok a
lift (err e) = err (registers e)

-- The source registers that have no mapping. The code looks a register up by its number also where it
-- has been renamed; a number past the table, which is undefined there, has no mapping here.
unfoldable pub sources_to_allocate : RegisterAllocator → List ℕ → ℕ
sources_to_allocate ra [] = 0
sources_to_allocate ra (r ∷ rs) =
    sources_to_allocate ra rs + (if RegisterAllocator.is_allocated ra r then 0 else 1)

unfoldable pub rename_sources :
    RegisterAllocator → List ℕ → Result CoreFault (RegisterAllocator × List ℕ)
rename_sources ra [] = ok (ra, [])
rename_sources ra (r ∷ rs) =
    lift (RegisterAllocator.rename_src_register ra r) >>= λ (p : RegisterAllocator × ℕ).
    (rename_sources (p.0) rs >>= λ (q : RegisterAllocator × List ℕ). ok (q.0, p.1 ∷ q.1))

unfoldable pub rename_destinations :
    RegisterAllocator → ℕ → List ℕ → Result CoreFault (RegisterAllocator × List ℕ)
rename_destinations ra id [] = ok (ra, [])
rename_destinations ra id (r ∷ rs) =
    lift (RegisterAllocator.rename_dest_register ra r id) >>= λ (p : RegisterAllocator × ℕ).
    (rename_destinations (p.0) id rs >>= λ (q : RegisterAllocator × List ℕ). ok (q.0, p.1 ∷ q.1))

unfoldable pub do_scheduling :
    RegisterAllocator → Instruction → Result CoreFault (RegisterAllocator × Instruction)
unfolding rename_sources rename_destinations
do_scheduling ra i = rename_sources ra i.source_registers >>= λ (s : RegisterAllocator × List ℕ).
    (rename_destinations (s.0) i.instr_id i.destination_registers
      >>= λ (d : RegisterAllocator × List ℕ).
          ok (
            d.0,
            record i { source_registers = s.1; destination_registers = d.1; scheduled = true },
          ))

-- Too few registers are free for an instruction.
abbrev pub lacks_registers : RegisterAllocator → Instruction → Bool
lacks_registers ra i =
    ltb (RegisterAllocator.count_free_registers ra)
      (sources_to_allocate ra i.source_registers + length i.destination_registers)

abbrev pub is_schedulable : ℕ → Instruction → Bool
is_schedulable now i = not i.scheduled && leb i.ready_time now

-- The loop of `schedule_instruction`, with the search bandwidth that is left: the registers, the
-- instructions, and how many were scheduled.
unfoldable pub schedule_each :
    ℕ
    → ℕ
    → RegisterAllocator
    → List Instruction
    → Result CoreFault (RegisterAllocator × List Instruction × ℕ)
unfolding sources_to_allocate do_scheduling
schedule_each now bw ra [] = ok (ra, [], 0)
schedule_each now zero ra (i ∷ is) = ok (ra, i ∷ is, 0)
schedule_each now (suc bw) ra (i ∷ is) =
    let step = if is_schedulable now i then do_scheduling ra i else ok (ra, i) in
    let more = step >>= λ (p : RegisterAllocator × Instruction).
    (schedule_each now (if i.executed then suc bw else bw) (p.0) is
      >>= λ (q : RegisterAllocator × List Instruction × ℕ).
          ok (q.0, p.1 ∷ q.1, q.2 + (if is_schedulable now i then 1 else 0))) in
    if lacks_registers ra i then ok (ra, i ∷ is, 0) else more

-- `std::all_of` of `isValid`, up to the first that is not.
unfoldable pub all_valid : RegisterAllocator → List ℕ → Result CoreFault Bool
all_valid ra [] = ok true
all_valid ra (r ∷ rs) =
    let rest = all_valid ra rs in
    lift (RegisterAllocator.is_valid ra r) >>= λ (v : Bool). (if v then rest else ok false)

-- The entries of an instruction that executes are ready at `time`.
unfoldable pub mark_loads : ℕ → ℕ → List (Option LsqEntry) → List (Option LsqEntry)
mark_loads id time [] = []
mark_loads id time (none ∷ lq) = none ∷ mark_loads id time lq
mark_loads id time (some e ∷ lq) =
    some (if e.instr_id == id then record e { ready_time = some time } else e)
    ∷ mark_loads id time lq

unfoldable pub mark_stores : ℕ → ℕ → List LsqEntry → List LsqEntry
mark_stores id time [] = []
mark_stores id time (e ∷ sq) =
    (if e.instr_id == id then record e { ready_time = some time } else e) ∷ mark_stores id time sq

-- The loop of `execute_instruction`, with the bandwidth that is left; what executes is ready at `time`.
unfoldable pub execute_each :
    ℕ
    → ℕ
    → ℕ
    → RegisterAllocator
    → List Instruction
    → List (Option LsqEntry)
    → List LsqEntry
    → Result CoreFault (List Instruction × List (Option LsqEntry) × List LsqEntry × ℕ)
unfolding all_valid mark_loads mark_stores
execute_each now time bw ra [] lq sq = ok ([], lq, sq, 0)
execute_each now time zero ra (i ∷ is) lq sq = ok (i ∷ is, lq, sq, 0)
execute_each now time (suc bw) ra (i ∷ is) lq sq =
    (if i.scheduled && not i.executed && leb i.ready_time now
      then all_valid ra i.source_registers
      else ok false)
    >>= λ (go : Bool).
        (execute_each now time (if go then bw else suc bw) ra is
            (if go then mark_loads i.instr_id time lq else lq)
            (if go then mark_stores i.instr_id time sq else sq)
          >>= λ (q : List Instruction × List (Option LsqEntry) × List LsqEntry × ℕ). ok (
            (if go then record i { executed = true; ready_time = time } else i) ∷ q.0,
            q.1,
            q.2,
            q.3 + (if go then 1 else 0),
          ))

unfoldable pub complete_registers : RegisterAllocator → List ℕ → Result CoreFault RegisterAllocator
complete_registers ra [] = ok ra
complete_registers ra (r ∷ rs) =
    lift (RegisterAllocator.complete_dest_register ra r) >>= λ (ra' : RegisterAllocator).
    complete_registers ra' rs

abbrev pub can_complete : ℕ → Instruction → Bool
can_complete now i =
    i.executed && not i.completed && leb i.ready_time now && i.completed_mem_ops == num_mem_ops i

-- The loop of `complete_inflight_instruction`, with `do_complete_execution`. The flag says whether a
-- mispredicted branch completed, after which the fetch resumes.
unfoldable pub complete_each :
    ℕ
    → ℕ
    → RegisterAllocator
    → List Instruction
    → Result CoreFault (RegisterAllocator × List Instruction × Bool × ℕ)
unfolding complete_registers num_mem_ops
complete_each now bw ra [] = ok (ra, [], false, 0)
complete_each now zero ra (i ∷ is) = ok (ra, i ∷ is, false, 0)
complete_each now (suc bw) ra (i ∷ is) =
    let go = can_complete now i in
    (if go then complete_registers ra i.destination_registers else ok ra)
    >>= λ (ra' : RegisterAllocator).
        (complete_each now (if go then bw else suc bw) ra' is
          >>= λ (q : RegisterAllocator × List Instruction × Bool × ℕ). ok (
            q.0,
            (if go then record i { completed = true } else i) ∷ q.1,
            go && i.branch_mispredicted || q.2,
            q.3 + (if go then 1 else 0),
          ))

unfoldable pub retire_registers : RegisterAllocator → List ℕ → Result CoreFault RegisterAllocator
retire_registers ra [] = ok ra
retire_registers ra (r ∷ rs) =
    lift (RegisterAllocator.retire_dest_register ra r) >>= λ (ra' : RegisterAllocator).
    retire_registers ra' rs

unfoldable pub retire_all :
    RegisterAllocator → List Instruction → Result CoreFault RegisterAllocator
unfolding retire_registers
retire_all ra [] = ok ra
retire_all ra (i ∷ is) =
    retire_registers ra i.destination_registers >>= λ (ra' : RegisterAllocator). retire_all ra' is

module _ {B : Type 0} where
  unfoldable pub schedule_instruction : Core B → Result CoreFault (Core B × ℕ)
  unfolding schedule_each
  schedule_instruction c =
      schedule_each c.current_time c.scheduler_size c.reg_allocator c.rob
      >>= λ (q : RegisterAllocator × List Instruction × ℕ).
          ok (record c { reg_allocator = q.0; rob = q.1 }, q.2)

  unfoldable pub execute_instruction : Core B → Result CoreFault (Core B × ℕ)
  unfolding execute_each
  execute_instruction c =
      execute_each c.current_time (after_latency c c.exec_latency) c.exec_width c.reg_allocator
        c.rob c.lq c.sq
      >>= λ (q : List Instruction × List (Option LsqEntry) × List LsqEntry × ℕ).
          ok (record c { rob = q.0; lq = q.1; sq = q.2 }, q.3)

  unfoldable pub complete_inflight_instruction : Core B → Result CoreFault (Core B × ℕ)
  unfolding complete_each
  complete_inflight_instruction c =
      complete_each c.current_time c.exec_width c.reg_allocator c.rob
      >>= λ (q : RegisterAllocator × List Instruction × Bool × ℕ). ok (
        record c {
          reg_allocator = q.0;
          rob = q.1;
          fetch_resume_time =
              (if q.2
                then some (c.current_time + c.branch_mispredict_penalty)
                else c.fetch_resume_time);
        },
        q.3,
      )

  unfoldable pub retire_rob : Core B → Result CoreFault (Core B × ℕ)
  unfolding span_while retire_all
  retire_rob c =
      let (retired, left) = span_while (λ (x : Instruction). x.completed) c.retire_width c.rob in
      retire_all c.reg_allocator retired >>= λ (ra : RegisterAllocator). ok (
        record c { reg_allocator = ra; rob = left; num_retired = c.num_retired + length retired },
        length retired,
      )
