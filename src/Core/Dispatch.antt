-- ===== src/Core/Dispatch.antt =====
-- src/ooo_cpu.cc, `dispatch_instruction`: instructions enter the reorder buffer, their loads the load
-- queue and their stores the store queue.
use cscore_sstelem.Prelude.{
  ℕ, zero, suc, ◌+◌, List, [], ◌∷◌, ◌++◌, Bool, not, ◌&&◌, ◌||◌, Option, none, some, length, set,
  leb, ltb, ◌==◌, if◌then◌else◌,
}
use cscore_sstelem.Prelude.Result.{Result, ok, err, ◌>>=◌}
use cscore_sstelem.Core.{
  Instruction, LsqEntry, Core, CoreFault, load_queue_full, too_many_mem_ops, store_not_prior,
  num_mem_ops, make_entry, after_latency,
}

-- The number of the first free slot of the load queue.
unfoldable pub free_slot : List (Option LsqEntry) → Option ℕ
free_slot [] = none
free_slot (none ∷ lq) = some 0
free_slot (some e ∷ lq) = elim (free_slot lq) [ none ↦ none | some i ↦ some (suc i) ]

unfoldable pub free_slots : List (Option LsqEntry) → ℕ
free_slots [] = 0
free_slots (none ∷ lq) = suc (free_slots lq)
free_slots (some e ∷ lq) = free_slots lq

-- `std::max_element` of the store queue: the last store in program order to the address, or some other
-- entry if there is none. `best` at `at` is the greatest before the list, which starts at `i`.
unfoldable pub forwarding_store : ℕ → LsqEntry → ℕ → ℕ → List LsqEntry → ℕ × LsqEntry
forwarding_store smem best at i [] = (at, best)
forwarding_store smem best at i (e ∷ sq) =
    let later = forwarding_store smem e i (suc i) sq in
    let same = forwarding_store smem best at (suc i) sq in
    if not (best.virtual_address == smem)
      || (e.virtual_address == smem && ltb best.instr_id e.instr_id)
    then later
    else same

unfoldable pub find_store : ℕ → List LsqEntry → Option (ℕ × LsqEntry)
unfolding forwarding_store
find_store smem [] = none
find_store smem (e ∷ sq) =
    let (at, store) = forwarding_store smem e 0 1 sq in
    if store.virtual_address == smem then some (at, store) else none

-- `LSQ_ENTRY::finish` of an instruction whose id is the entry's.
unfoldable pub finish_mem_op : Instruction → Result CoreFault Instruction
unfolding num_mem_ops
finish_mem_op i =
    if ltb i.completed_mem_ops (num_mem_ops i)
    then ok (record i { completed_mem_ops = i.completed_mem_ops + 1 })
    else err too_many_mem_ops

-- An instruction with the two queues.
pub record Scheduled : Type 0 where
  pub instr : Instruction
  pub lq : List (Option LsqEntry)
  pub sq : List LsqEntry

-- A load, in the slot `slot`.
unfoldable pub schedule_load_at : ℕ → ℕ → Scheduled → Result CoreFault Scheduled
unfolding find_store make_entry finish_mem_op
schedule_load_at smem slot s =
    let entry = make_entry smem s.instr in
    elim (find_store smem s.sq) [
      | none ↦ ok (record s { lq = set s.lq slot (some entry) })
      | some (at, store) ↦
          let waits : LsqEntry = record entry { producer_id = some store.instr_id } in
          if store.fetch_issued
          then (finish_mem_op s.instr >>= λ (i : Instruction). ok (record s { instr = i }))
          else if ltb store.instr_id s.instr.instr_id
          then ok (record s {
            lq = set s.lq slot (some waits);
            sq =
                set s.sq at
                  (record store { lq_depend_on_me = store.lq_depend_on_me ++ (slot ∷ []) });
          })
          else err store_not_prior
    ]

unfoldable pub schedule_load : ℕ → Scheduled → Result CoreFault Scheduled
unfolding free_slot schedule_load_at
schedule_load smem s = elim (free_slot s.lq) [
  | none ↦ err load_queue_full
  | some slot ↦ schedule_load_at smem slot s
]

unfoldable pub schedule_loads : List ℕ → Scheduled → Result CoreFault Scheduled
unfolding schedule_load
schedule_loads [] s = ok s
schedule_loads (smem ∷ smems) s = do s' ← schedule_load smem s; schedule_loads smems s'

unfoldable pub schedule_stores : List ℕ → Instruction → List LsqEntry → List LsqEntry
unfolding make_entry
schedule_stores [] i sq = sq
schedule_stores (dmem ∷ dmems) i sq = schedule_stores dmems i (sq ++ (make_entry dmem i ∷ []))

unfoldable pub do_memory_scheduling : Scheduled → Result CoreFault Scheduled
unfolding schedule_loads schedule_stores
do_memory_scheduling s = schedule_loads s.instr.source_memory s >>= λ (s' : Scheduled).
    ok (record s' { sq = schedule_stores s.instr.destination_memory s'.instr s'.sq })

module _ {B : Type 0} where
  -- The condition of the loop for the front of the dispatch buffer.
  unfoldable pub can_dispatch : Core B → Instruction → Bool
  unfolding free_slots
  can_dispatch c i =
      leb i.ready_time c.current_time
      && not (length c.rob == c.rob_size)
      && leb (length i.source_memory) (free_slots c.lq)
      && leb (length i.destination_memory + length c.sq) c.sq_size

  -- The instruction `i` goes from the front of the dispatch buffer, `rest` behind it, to the ROB.
  unfoldable pub dispatch_one : Core B → Instruction → List Instruction → Result CoreFault (Core B)
  unfolding do_memory_scheduling
  dispatch_one c i rest =
      do_memory_scheduling (record { instr = i; lq = c.lq; sq = c.sq }) >>= λ (s : Scheduled).
      ok (record c {
        dispatch_buffer = rest;
        rob =
            c.rob ++ (record (s.instr) { ready_time = after_latency c c.scheduling_latency } ∷ []);
        lq = s.lq;
        sq = s.sq;
      })

  -- The loop, for at most `n` instructions: the core, and how many were dispatched.
  unfoldable pub dispatch_each : ℕ → Core B → Result CoreFault (Core B × ℕ)
  unfolding can_dispatch dispatch_one
  dispatch_each zero c = ok (c, 0)
  dispatch_each (suc n) c = elim c.dispatch_buffer [
    | [] ↦ ok (c, 0)
    | i ∷ rest ↦
        let more = dispatch_one c i rest >>= λ (c' : Core B).
        (dispatch_each n c' >>= λ (r : Core B × ℕ). ok (r.0, r.1 + 1)) in
        if can_dispatch c i then more else ok (c, 0)
  ]

  unfoldable pub dispatch_instruction : Core B → Result CoreFault (Core B × ℕ)
  unfolding dispatch_each
  dispatch_instruction c = dispatch_each c.dispatch_width c
