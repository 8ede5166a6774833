-- ===== src/Core/Returns.antt =====
-- src/ooo_cpu.cc, `handle_memory_return`: what comes back from the caches finishes loads and fetches.
use cscore_sstelem.Prelude.{
  ℕ, zero, suc, ◌+◌, ◌-◌, List, [], ◌∷◌, Bool, true, false, ◌&&◌, Option, none, some, ◌==◌,
  if◌then◌else◌,
}
use cscore_sstelem.Prelude.Result.{Result, ok, ◌>>=◌}
use cscore_sstelem.Channel.{Response}
use cscore_sstelem.Core.{Instruction, LsqEntry, Core, CoreFault, block_number}
use cscore_sstelem.Core.Memory.{finish_in}

-- The loads of a block that has come back leave their slots; how many.
unfoldable pub return_loads :
    ℕ
    → List Instruction
    → List (Option LsqEntry)
    → Result CoreFault (List Instruction × List (Option LsqEntry) × ℕ)
unfolding finish_in
return_loads v_address rob [] = ok (rob, [], 0)
return_loads v_address rob (none ∷ lq) =
    return_loads v_address rob lq >>= λ (r : List Instruction × List (Option LsqEntry) × ℕ).
    ok (r.0, none ∷ r.1, r.2)
return_loads v_address rob (some e ∷ lq) =
    let go = e.fetch_issued && block_number e.virtual_address == block_number v_address in
    (if go then finish_in e.instr_id rob else ok rob) >>= λ (rob' : List Instruction).
    (return_loads v_address rob' lq >>= λ (r : List Instruction × List (Option LsqEntry) × ℕ).
    ok (r.0, (if go then none else some e) ∷ r.1, r.2 + (if go then 1 else 0)))

-- The loop over the answers of the data cache, at most `n`: the answers that are left, too.
unfoldable pub return_data :
    ℕ
    → List Response
    → List Instruction
    → List (Option LsqEntry)
    → Result CoreFault (List Response × List Instruction × List (Option LsqEntry) × ℕ)
unfolding return_loads
return_data zero rs rob lq = ok (rs, rob, lq, 0)
return_data (suc n) [] rob lq = ok ([], rob, lq, 0)
return_data (suc n) (r ∷ rs) rob lq =
    return_loads r.v_address rob lq >>= λ (p : List Instruction × List (Option LsqEntry) × ℕ).
    (return_data n rs (p.0) (p.1)
      >>= λ (q : List Response × List Instruction × List (Option LsqEntry) × ℕ).
          ok (q.0, q.1, q.2, q.3 + p.2 + 1))

-- The first instruction with an id is marked as fetched, if it waits for the block; whether it was.
unfoldable pub mark_fetched : ℕ → ℕ → List Instruction → List Instruction × Bool
mark_fetched id v_address [] = ([], false)
mark_fetched id v_address (i ∷ is) =
    let (is', marked) = mark_fetched id v_address is in
    if i.instr_id == id
    then (if block_number i.ip == block_number v_address && i.fetch_issued
        then (record i { fetch_completed = true } ∷ is, true)
        else (i ∷ is, false))
    else (i ∷ is', marked)

-- The inner loop over the instructions that depend on an answer: the bandwidth and the instructions that
-- are left, and the buffer.
unfoldable pub fetch_dependents : ℕ → ℕ → List ℕ → List Instruction → ℕ × List ℕ × List Instruction
unfolding mark_fetched
fetch_dependents n v_address [] is = (n, [], is)
fetch_dependents zero v_address (id ∷ ids) is = (0, id ∷ ids, is)
fetch_dependents (suc n) v_address (id ∷ ids) is =
    let (is', marked) = mark_fetched id v_address is in
    fetch_dependents (if marked then n else suc n) v_address ids is'

-- The loop over the answers of the instruction cache, at most `n`, with the bandwidth `bw` for
-- instructions: the answers left, the buffer, and the progress.
unfoldable pub return_fetches :
    ℕ → ℕ → List Response → List Instruction → List Response × List Instruction × ℕ
unfolding fetch_dependents
return_fetches zero bw rs is = (rs, is, 0)
return_fetches (suc n) zero rs is = (rs, is, 0)
return_fetches (suc n) (suc bw) [] is = ([], is, 0)
return_fetches (suc n) (suc bw) (r ∷ rs) is =
    let (bw', ids, is') = fetch_dependents (suc bw) r.v_address r.instr_depend_on_me is in
    let fetched = suc bw - bw' in
    let rest = return_fetches n bw' rs is' in
    elim ids [
      | [] ↦ (rest.0, rest.1, rest.2 + fetched + 1)
      | id ∷ more ↦ (record r { instr_depend_on_me = id ∷ more } ∷ rs, is', fetched)
    ]

module _ {B : Type 0} where
  unfoldable pub handle_memory_return : Core B → Result CoreFault (Core B × ℕ)
  unfolding return_fetches return_data
  handle_memory_return c =
      let (left, buffer, fetched) =
        return_fetches c.l1i_bandwidth c.fetch_width c.l1i_bus.returned c.ifetch_buffer in
      return_data c.l1d_bandwidth c.l1d_bus.returned c.rob c.lq
      >>= λ (q : List Response × List Instruction × List (Option LsqEntry) × ℕ). ok (
        record c {
          l1i_bus = record (c.l1i_bus) { returned = left };
          l1d_bus = record (c.l1d_bus) { returned = q.0 };
          ifetch_buffer = buffer;
          rob = q.1;
          lq = q.2;
        },
        fetched + q.3,
      )
