-- ===== src/Core/Fetch.antt =====
-- src/ooo_cpu.cc, from the input queue to the buffers behind the fetch: branch prediction, the buffer of
-- decoded instructions (DIB), and the requests to the instruction cache.
use cscore_sstelem.Prelude.{
  ℕ, zero, suc, ◌+◌, ◌-◌, ◌/◌, ◌^◌, List, [], ◌∷◌, ◌++◌, Bool, true, false, not, ◌&&◌, ◌||◌, Option,
  none, some, map, length, min, leb, ◌==◌, if◌then◌else◌,
}
use cscore_sstelem.Channel.{Channel}
use cscore_sstelem.LruTable.{LruTable}
use cscore_sstelem.LruTable
use cscore_sstelem.Core.{
  Instruction, Core, CpuStats, Predictors, increment_type, conditional, other_branch, block_number,
  bus_packet, issue_read,
}

-- How often a number stands in a list is more than never.
abbrev pub has_register : List ℕ → ℕ → Bool
has_register [] r = false
has_register (x ∷ xs) r = x == r || has_register xs r

-- Registers other than the stack pointer (6), the flags (25) and the instruction pointer (26).
unfoldable pub reads_other : List ℕ → Bool
reads_other [] = false
reads_other (r ∷ rs) = not (r == 6) && not (r == 25) && not (r == 26) || reads_other rs

-- `std::remove` of the stack pointer.
unfoldable pub without_stack_pointer : List ℕ → List ℕ
without_stack_pointer [] = []
without_stack_pointer (r ∷ rs) =
    if r == 6 then without_stack_pointer rs else r ∷ without_stack_pointer rs

abbrev pub is_empty : {A : Type 0} → List A → Bool
is_empty [] = true
is_empty (x ∷ xs) = false

unfoldable pub do_stack_pointer_folding : Instruction → Instruction
unfolding reads_other without_stack_pointer
do_stack_pointer_folding i =
    if has_register i.destination_registers 6
      && (i.is_branch
          || not (is_empty i.destination_memory && is_empty i.source_memory)
          || not (reads_other i.source_registers))
    then record i { destination_registers = without_stack_pointer i.destination_registers }
    else i

-- `current_time >= fetch_resume_time`
abbrev pub is_fetch_time : ℕ → Option ℕ → Bool
is_fetch_time now resume = elim resume [ none ↦ false | some time ↦ leb time now ]

module _ {B : Type 0} (p : Predictors B) where
  -- `do_predict_branch`: the core, the instruction, and whether the fetch stops.
  unfoldable pub do_predict_branch : Core B → Instruction → Core B × Instruction × Bool
  unfolding increment_type
  do_predict_branch c i =
      let stats = c.sim_stats in
      let seen : CpuStats = record stats {
        total_branch_types = increment_type stats.total_branch_types i.branch;
      } in
      let (b₁, btb_target, always_taken) = p.btb_prediction c.predictors i.ip i.branch in
      let (b₂, taken) = p.predict_branch b₁ i.ip btb_target always_taken i.branch in
      let prediction = taken || always_taken in
      let predicted_target = if prediction then btb_target else 0 in
      let guessed : Instruction = record i { branch_prediction = prediction } in
      let wrong =
        not (predicted_target == i.branch_target)
        || ((i.branch == conditional || i.branch == other_branch)
            && (i.branch_taken && not prediction || not i.branch_taken && prediction)) in
      let missed : CpuStats = record seen {
        total_rob_occupancy_at_branch_mispredict =
            seen.total_rob_occupancy_at_branch_mispredict + length c.rob;
        branch_type_misses = increment_type seen.branch_type_misses i.branch;
      } in
      let b₃ = p.update_btb b₂ i.ip i.branch_target i.branch_taken i.branch in
      let b₄ = p.last_branch_result b₃ i.ip i.branch_target i.branch_taken i.branch in
      if not i.is_branch
      then (record c { sim_stats = seen; predictors = b₂ }, guessed, false)
      else if not wrong
      then (record c { sim_stats = seen; predictors = b₄ }, guessed, i.branch_taken)
      else if c.warmup
      then (record c { sim_stats = missed; predictors = b₄ }, guessed, false)
      else (
        record c { sim_stats = missed; predictors = b₄; fetch_resume_time = none },
        record guessed { branch_mispredicted = true },
        true,
      )

  unfoldable pub do_init_instruction : Core B → Instruction → Core B × Instruction × Bool
  unfolding do_stack_pointer_folding do_predict_branch
  do_init_instruction c i = do_predict_branch c (
      do_stack_pointer_folding
        (if c.warmup then record i { source_registers = []; destination_registers = [] } else i))

  -- The loop of `initialize_instruction`, for at most `n` instructions.
  unfoldable pub initialize_each : ℕ → Core B → Core B
  unfolding do_init_instruction
  initialize_each zero c = c
  initialize_each (suc n) c = elim c.input_queue [
    | [] ↦ c
    | i ∷ rest ↦
        let (c', i', stop_fetch) = do_init_instruction c i in
        let next : Core B = record c' {
          ifetch_buffer = c.ifetch_buffer ++ (record i' { ready_time = c.current_time } ∷ []);
          input_queue = rest;
        } in
        let more = initialize_each n next in
        if not (is_fetch_time c.current_time c.fetch_resume_time)
        then c
        else if stop_fetch
        then next
        else more
  ]

  unfoldable pub initialize_instruction : Core B → Core B
  unfolding initialize_each
  initialize_instruction c =
      initialize_each (min c.fetch_width (c.ifetch_buffer_size - length c.ifetch_buffer)) c

-- `dib_shift`, the set and the tag of an address in the DIB.
abbrev pub dib_shift : ℕ → ℕ → ℕ
dib_shift shamt addr = addr / 2 ^ shamt

unfoldable pub do_check_dib : ℕ → ℕ → LruTable ℕ → Instruction → LruTable ℕ × Instruction
do_check_dib now shamt dib i =
    let (dib', hit) = LruTable.check_hit (dib_shift shamt) (dib_shift shamt) dib i.ip in
    (
      dib',
      elim hit [
        | none ↦ record i { dib_checked = true }
        | some _ ↦ record i {
          fetch_completed = true;
          decoded = true;
          ready_time = now;
          dib_checked = true;
        }
      ],
    )

-- The window of `check_dib`: at most `n` instructions.
unfoldable pub check_window :
    ℕ → ℕ → ℕ → LruTable ℕ → List Instruction → LruTable ℕ × List Instruction
unfolding do_check_dib
check_window zero now shamt dib is = (dib, is)
check_window (suc n) now shamt dib [] = (dib, [])
check_window (suc n) now shamt dib (i ∷ is) =
    let (dib₁, i') = do_check_dib now shamt dib i in
    let (dib₂, is') = check_window n now shamt dib₁ is in (dib₂, i' ∷ is')

-- The elements before the first that passes, and those from it on.
unfoldable pub split_at_first :
    (Instruction → Bool) → List Instruction → List Instruction × List Instruction
split_at_first test [] = ([], [])
split_at_first test (i ∷ is) =
    let (before, from) = split_at_first test is in
    if test i then ([], i ∷ is) else (i ∷ before, from)

-- From an instruction on, those that stand in a row and have its block.
unfoldable pub same_block_run : List Instruction → List Instruction × List Instruction
same_block_run [] = ([], [])
same_block_run (i ∷ []) = (i ∷ [], [])
same_block_run (i ∷ j ∷ is) =
    let (run, rest) = same_block_run (j ∷ is) in
    if block_number i.ip == block_number j.ip then (i ∷ run, rest) else (i ∷ [], j ∷ is)

-- The packet of `do_fetch_instruction`, for a run of instructions.
unfoldable pub do_fetch_instruction : Channel → ℕ → List Instruction → Channel × Bool
unfolding issue_read
do_fetch_instruction bus cpu [] = (bus, false)
do_fetch_instruction bus cpu (i ∷ is) =
    issue_read bus cpu
      (bus_packet i.ip i.instr_id i.ip (map (λ (x : Instruction). x.instr_id) (i ∷ is)))

-- The loop of `fetch_instruction`: the bus, the buffer, and the lines that were asked for.
unfoldable pub fetch_each : ℕ → ℕ → Channel → List Instruction → Channel × List Instruction × ℕ
unfolding split_at_first same_block_run do_fetch_instruction
fetch_each zero cpu bus is = (bus, is, 0)
fetch_each (suc n) cpu bus is =
    let (before, from) =
      split_at_first (λ (x : Instruction). x.dib_checked && not x.fetch_issued) is in
    let (run, rest) = same_block_run from in
    let (bus₁, success) = do_fetch_instruction bus cpu run in
    let issued = map (λ (x : Instruction). record x { fetch_issued = true }) run in
    let (bus₂, rest', lines) = fetch_each n cpu bus₁ rest in
    if is_empty from then (bus, is, 0) else (
      bus₂,
      before ++ ((if success then issued else run) ++ rest'),
      lines + (if success then 1 else 0),
    )

module _ {B : Type 0} where
  unfoldable pub check_dib : Core B → Core B × ℕ
  unfolding split_at_first check_window
  check_dib c =
      let (before, from) =
        split_at_first (λ (x : Instruction). not x.dib_checked) c.ifetch_buffer in
      let (dib', from') = check_window c.fetch_width c.current_time c.dib_shamt c.dib from in
      (record c { dib = dib'; ifetch_buffer = before ++ from' }, min c.fetch_width (length from))

  unfoldable pub fetch_instruction : Core B → Core B × ℕ
  unfolding fetch_each
  fetch_instruction c =
      let (bus, buffer, lines) = fetch_each c.l1i_bandwidth c.cpu c.l1i_bus c.ifetch_buffer in
      (record c { l1i_bus = bus; ifetch_buffer = buffer }, lines)
