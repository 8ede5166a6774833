-- ===== src/Core/Ids/Memory.antt =====
-- src/ooo_cpu.cc, `operate_lsq` and `handle_memory_return`: loads and stores that finish, and fetches that
-- come back, keep the instructions of the two buffers.
use cscore_sstelem.Prelude.{
  ℕ, zero, suc, refl, ap, ◌∙◌, List, [], ◌∷◌, Bool, ◌&&◌, ◌==◌, Option, none, some, set, get_or,
  list_cases, if◌then◌else◌, if_cases,
}
use cscore_sstelem.Prelude.Result.{ok, OnOk, OnOk-bind, OnOk-any, OnOk-imp}
use cscore_sstelem.Channel.{Response}
use cscore_sstelem.Core.{Instruction, LsqEntry, CoreFault, block_number}
use cscore_sstelem.Core.Memory.{
  finish_in, waiting_load, release_loads, do_finish_store, finish_stores,
}
use cscore_sstelem.Core.Returns.{
  return_loads, return_data, mark_fetched, fetch_dependents, return_fetches,
}
use cscore_sstelem.Core.Ids.{SameIds, finish_in-ids}

abbrev RobSame : List Instruction → List Instruction × List (Option LsqEntry) → Type 0
RobSame rob r = SameIds rob r.0

release_loads-ids :
    (id : ℕ) (slots : List ℕ) (rob : List Instruction) (lq : List (Option LsqEntry))
    → OnOk (RobSame rob) (release_loads id slots rob lq)
unfolding release_loads
release_loads-ids id [] rob lq = refl
release_loads-ids id (slot ∷ slots) rob lq =
    OnOk-any (RobSame rob) (waiting_load id (get_or lq slot none)) _ (λ e.
      OnOk-bind (SameIds rob) (RobSame rob) (finish_in e.instr_id rob) _
        (finish_in-ids e.instr_id rob)
        (λ rob' f.
          OnOk-imp (RobSame rob') (RobSame rob) (release_loads id slots rob' (set lq slot none))
            (release_loads-ids id slots rob' (set lq slot none)) (λ r g. g ∙ f)))

do_finish_store-ids :
    (e : LsqEntry) (rob : List Instruction) (lq : List (Option LsqEntry))
    → OnOk (RobSame rob) (do_finish_store e rob lq)
unfolding do_finish_store
do_finish_store-ids e rob lq =
    OnOk-bind (SameIds rob) (RobSame rob) (finish_in e.instr_id rob) _
      (finish_in-ids e.instr_id rob)
      (λ rob' f.
        OnOk-imp (RobSame rob') (RobSame rob) (release_loads e.instr_id e.lq_depend_on_me rob' lq)
          (release_loads-ids e.instr_id e.lq_depend_on_me rob' lq) (λ r g. g ∙ f))

pub finish_stores-ids :
    (es : List LsqEntry) (rob : List Instruction) (lq : List (Option LsqEntry))
    → OnOk
        (λ (r : List Instruction × List (Option LsqEntry)). SameIds rob r.0)
        (finish_stores es rob lq)
unfolding finish_stores
finish_stores-ids [] rob lq = refl
finish_stores-ids (e ∷ es) rob lq =
    OnOk-bind (RobSame rob) (RobSame rob) (do_finish_store e rob lq) _
      (do_finish_store-ids e rob lq)
      (λ r f.
        OnOk-imp (RobSame (r.0)) (RobSame rob) (finish_stores es (r.0) (r.1))
          (finish_stores-ids es (r.0) (r.1)) (λ q g. g ∙ f))

return_loads-ids :
    (addr : ℕ) (rob : List Instruction) (lq : List (Option LsqEntry))
    → OnOk
        (λ (r : List Instruction × List (Option LsqEntry) × ℕ). SameIds rob r.0)
        (return_loads addr rob lq)
unfolding return_loads
return_loads-ids addr rob [] = refl
return_loads-ids addr rob (none ∷ lq) =
    OnOk-bind (λ (r : List Instruction × List (Option LsqEntry) × ℕ). SameIds rob r.0) _
      (return_loads addr rob lq) _ (return_loads-ids addr rob lq) (λ r e. e)
return_loads-ids addr rob (some e ∷ lq) =
    let go = e.fetch_issued && block_number e.virtual_address == block_number addr in
    OnOk-bind (SameIds rob) _ (if go then finish_in e.instr_id rob else ok rob) _
      (if_cases (OnOk {E = CoreFault} (SameIds rob)) go (λ _. finish_in-ids e.instr_id rob)
        (λ _. refl))
      (λ rob' f.
        OnOk-bind (λ (r : List Instruction × List (Option LsqEntry) × ℕ). SameIds rob' r.0) _
          (return_loads addr rob' lq) _ (return_loads-ids addr rob' lq) (λ r g. g ∙ f))

pub return_data-ids :
    (n : ℕ) (rs : List Response) (rob : List Instruction) (lq : List (Option LsqEntry))
    → OnOk
        (λ (q : List Response × List Instruction × List (Option LsqEntry) × ℕ). SameIds rob q.1)
        (return_data n rs rob lq)
unfolding return_data
return_data-ids zero rs rob lq = refl
return_data-ids (suc n) [] rob lq = refl
return_data-ids (suc n) (r ∷ rs) rob lq =
    OnOk-bind (λ (p : List Instruction × List (Option LsqEntry) × ℕ). SameIds rob p.0) _
      (return_loads r.v_address rob lq) _ (return_loads-ids r.v_address rob lq)
      (λ p f.
        OnOk-bind
          (λ (q : List Response × List Instruction × List (Option LsqEntry) × ℕ). SameIds (p.0) q.1)
          _ (return_data n rs (p.0) (p.1)) _ (return_data-ids n rs (p.0) (p.1)) (λ q g. g ∙ f))

mark_fetched-ids : (id addr : ℕ) (is : List Instruction) → SameIds is (mark_fetched id addr is).0
unfolding mark_fetched
mark_fetched-ids id addr [] = refl
mark_fetched-ids id addr (i ∷ is) =
    let P = λ (r : List Instruction × Bool). SameIds (i ∷ is) r.0 in
    if_cases P (i.instr_id == id)
      (λ _.
        if_cases P (block_number i.ip == block_number addr && i.fetch_issued) (λ _. refl)
          (λ _. refl))
      (λ _. ap (λ l. i.instr_id ∷ l) (mark_fetched-ids id addr is))

fetch_dependents-ids :
    (n addr : ℕ) (deps : List ℕ) (is : List Instruction)
    → SameIds is (fetch_dependents n addr deps is).2
unfolding fetch_dependents
fetch_dependents-ids n addr [] is = refl
fetch_dependents-ids zero addr (id ∷ deps) is = refl
fetch_dependents-ids (suc n) addr (id ∷ deps) is =
    let (is', marked) = mark_fetched id addr is in
    fetch_dependents-ids (if marked then n else suc n) addr deps is' ∙ mark_fetched-ids id addr is

pub return_fetches-ids :
    (n bw : ℕ) (rs : List Response) (is : List Instruction)
    → SameIds is (return_fetches n bw rs is).1
unfolding return_fetches
return_fetches-ids zero bw rs is = refl
return_fetches-ids (suc n) zero rs is = refl
return_fetches-ids (suc n) (suc bw) [] is = refl
return_fetches-ids (suc n) (suc bw) (r ∷ rs) is =
    let (bw', deps, is') = fetch_dependents (suc bw) r.v_address r.instr_depend_on_me is in
    let first = fetch_dependents-ids (suc bw) r.v_address r.instr_depend_on_me is in
    list_cases (λ (q : List Response × List Instruction × ℕ). SameIds is q.1) deps _ _
      (λ _. return_fetches-ids n bw' rs is' ∙ first) (λ id more _. first)
