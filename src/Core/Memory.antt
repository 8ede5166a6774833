-- ===== src/Core/Memory.antt =====
-- src/ooo_cpu.cc, `operate_lsq`: loads and stores go to the data cache, and stores finish the loads that
-- wait for them.
use cscore_sstelem.Prelude.{
  ℕ, zero, suc, ◌+◌, ◌-◌, List, [], ◌∷◌, ◌++◌, Bool, true, false, not, ◌&&◌, Option, none, some,
  map, length, set, get_or, leb, ltb, ◌==◌, if◌then◌else◌,
}
use cscore_sstelem.Prelude.Result.{Result, ok, err, ◌>>=◌}
use cscore_sstelem.Channel.{Channel}
use cscore_sstelem.Span.{span_while}
use cscore_sstelem.Core.{
  Instruction, LsqEntry, Core, CoreFault, no_rob_entry, wrong_rob_entry, lost_load, bus_packet,
  issue_read, issue_write,
}
use cscore_sstelem.Core.Dispatch.{finish_mem_op}

-- `LSQ_ENTRY::finish` on the reorder buffer, which is in program order: the entry at the partition point.
unfoldable pub finish_in : ℕ → List Instruction → Result CoreFault (List Instruction)
unfolding finish_mem_op
finish_in id [] = err no_rob_entry
finish_in id (i ∷ is) =
    let later = finish_in id is >>= λ (is' : List Instruction). ok (i ∷ is') in
    let here = finish_mem_op i >>= λ (i' : Instruction). ok (i' ∷ is) in
    if ltb i.instr_id id then later else if i.instr_id == id then here else err wrong_rob_entry

-- The load in a slot, which must still be there and wait for the store `id`.
unfoldable pub waiting_load : ℕ → Option LsqEntry → Result CoreFault LsqEntry
waiting_load id none = err lost_load
waiting_load id (some e) = elim e.producer_id [
  | none ↦ err lost_load
  | some p ↦ if p == id then ok e else err lost_load
]

-- The loads that wait for the store `id` are finished, and leave their slots.
unfoldable pub release_loads :
    ℕ
    → List ℕ
    → List Instruction
    → List (Option LsqEntry)
    → Result CoreFault (List Instruction × List (Option LsqEntry))
unfolding waiting_load finish_in
release_loads id [] rob lq = ok (rob, lq)
release_loads id (slot ∷ slots) rob lq = waiting_load id (get_or lq slot none) >>= λ (e : LsqEntry).
    (finish_in e.instr_id rob >>= λ (rob' : List Instruction).
    release_loads id slots rob' (set lq slot none))

-- `do_finish_store`
unfoldable pub do_finish_store :
    LsqEntry
    → List Instruction
    → List (Option LsqEntry)
    → Result CoreFault (List Instruction × List (Option LsqEntry))
unfolding finish_in release_loads
do_finish_store e rob lq = finish_in e.instr_id rob >>= λ (rob' : List Instruction).
    release_loads e.instr_id e.lq_depend_on_me rob' lq

unfoldable pub finish_stores :
    List LsqEntry
    → List Instruction
    → List (Option LsqEntry)
    → Result CoreFault (List Instruction × List (Option LsqEntry))
unfolding do_finish_store
finish_stores [] rob lq = ok (rob, lq)
finish_stores (e ∷ es) rob lq =
    do_finish_store e rob lq >>= λ (r : List Instruction × List (Option LsqEntry)).
    finish_stores es (r.0) (r.1)

-- `ready_time <= current_time`, which no entry that has not executed passes.
abbrev pub is_ready : ℕ → LsqEntry → Bool
is_ready now e = elim e.ready_time [ none ↦ false | some time ↦ leb time now ]

-- The stores whose fetch has been issued, which stand in front, and the others.
unfoldable pub issued_stores : List LsqEntry → List LsqEntry × List LsqEntry
issued_stores [] = ([], [])
issued_stores (e ∷ sq) =
    let (issued, others) = issued_stores sq in
    if e.fetch_issued then (e ∷ issued, others) else ([], e ∷ sq)

-- `do_complete_store`
unfoldable pub do_complete_store : Channel → ℕ → LsqEntry → Channel × Bool
unfolding issue_write
do_complete_store bus cpu e = issue_write bus cpu (bus_packet e.virtual_address e.instr_id e.ip [])

-- The id of the front of the ROB.
abbrev pub front_id : List Instruction → Option ℕ
front_id [] = none
front_id (i ∷ is) = some i.instr_id

-- Whether an entry comes before the front of the ROB, if there is one.
abbrev pub is_prior : Option ℕ → LsqEntry → Bool
is_prior front e = elim front [ none ↦ true | some id ↦ ltb e.instr_id id ]

-- The stores that leave the queue, at most `n` of them: those before the front of the ROB, or all if it
-- is empty, that are ready and that the bus takes.
unfoldable pub complete_stores :
    ℕ → ℕ → ℕ → Option ℕ → Channel → List LsqEntry → Channel × List LsqEntry × ℕ
unfolding do_complete_store
complete_stores zero now cpu front bus sq = (bus, sq, 0)
complete_stores (suc n) now cpu front bus [] = (bus, [], 0)
complete_stores (suc n) now cpu front bus (e ∷ sq) =
    let (bus', taken) = do_complete_store bus cpu e in
    let (bus'', left, k) = complete_stores n now cpu front bus' sq in
    if not (is_prior front e && is_ready now e)
    then (bus, e ∷ sq, 0)
    else if taken
    then (bus'', left, k + 1)
    else (bus', e ∷ sq, 0)

-- `execute_load`
unfoldable pub execute_load : Channel → ℕ → LsqEntry → Channel × Bool
unfolding issue_read
execute_load bus cpu e = issue_read bus cpu (bus_packet e.virtual_address e.instr_id e.ip [])

abbrev pub is_executable : ℕ → LsqEntry → Bool
is_executable now e =
    elim e.producer_id [ none ↦ true | some _ ↦ false ]
    && not e.fetch_issued
    && elim e.ready_time [ none ↦ false | some time ↦ ltb time now ]

-- The loop over the load queue, with the bandwidth that is left.
unfoldable pub issue_loads :
    ℕ → ℕ → ℕ → Channel → List (Option LsqEntry) → Channel × List (Option LsqEntry) × ℕ
unfolding execute_load
issue_loads n now cpu bus [] = (bus, [], 0)
issue_loads n now cpu bus (none ∷ lq) =
    let (bus', lq', k) = issue_loads n now cpu bus lq in (bus', none ∷ lq', k)
issue_loads zero now cpu bus (some e ∷ lq) = (bus, some e ∷ lq, 0)
issue_loads (suc n) now cpu bus (some e ∷ lq) =
    let (bus₁, success) = execute_load bus cpu e in
    let go = is_executable now e && success in
    let (bus₂, lq', k) =
      issue_loads (if go then n else suc n) now cpu (if is_executable now e then bus₁ else bus)
        lq in
    (
      bus₂,
      some (if go then record e { fetch_issued = true } else e) ∷ lq',
      k + (if go then 1 else 0),
    )

module _ {B : Type 0} where
  unfoldable pub operate_lsq : Core B → Result CoreFault (Core B × ℕ)
  unfolding issued_stores span_while finish_stores complete_stores issue_loads
  operate_lsq c =
      let now = c.current_time in
      let (issued, others) = issued_stores c.sq in
      let (fetched, waiting) =
        span_while (λ (x : LsqEntry). not x.fetch_issued && is_ready now x) c.sq_width others in
      finish_stores fetched c.rob c.lq >>= λ (r : List Instruction × List (Option LsqEntry)).
      let marked =
        map (λ (x : LsqEntry). record x { fetch_issued = true; ready_time = some now }) fetched in
      let (bus₁, sq', stores) =
        complete_stores (c.sq_width - length fetched) now c.cpu (front_id (r.0)) c.l1d_bus
          (issued ++ (marked ++ waiting)) in
      let (bus₂, lq', loads) = issue_loads c.lq_width now c.cpu bus₁ r.1 in
      ok (
        record c { rob = r.0; lq = lq'; sq = sq'; l1d_bus = bus₂ },
        length fetched + stores + loads,
      )
