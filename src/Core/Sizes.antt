-- ===== src/Core/Sizes.antt =====
-- src/ooo_cpu.cc, `operate`: the room that the code computes for the buffers of the core.
pub mod Picked
pub mod Cycle
use cscore_sstelem.Prelude.{
  ℕ, zero, suc, ◌+◌, ◌-◌, ◌≤◌, ◌≡◌, refl, ap, sym, ◌∙◌, List, [], ◌∷◌, ◌++◌, map, Bool, true, false,
  not, ◌&&◌, Option, length, min, ◌==◌, if◌then◌else◌, if_cases, list_cases, arith, length-append,
  length-map,
}
use cscore_sstelem.Prelude.Result.{Result, ok, err, ◌>>=◌, OnOk, OnOk-bind, OnOk-any, OnOk-imp}
use cscore_sstelem.Channel.{Response}
use cscore_sstelem.Span.{span_while, length-span_left}
use cscore_sstelem.RegisterAllocator.{RegisterAllocator}
use cscore_sstelem.Core.{Instruction, LsqEntry, Core, CoreFault, after_latency}
use cscore_sstelem.Core.Ids.{SameIds, schedule_each-ids, execute_each-ids, complete_each-ids}
use cscore_sstelem.Core.Ids.Memory.{finish_stores-ids, return_data-ids, return_fetches-ids}
use cscore_sstelem.Core.Dispatch.{
  Scheduled, do_memory_scheduling, can_dispatch, dispatch_one, dispatch_each, dispatch_instruction,
}
use cscore_sstelem.Core.Execute.{
  schedule_each, schedule_instruction, execute_each, execute_instruction, complete_each,
  complete_inflight_instruction, retire_all, retire_rob,
}
use cscore_sstelem.Core.Memory.{finish_stores, is_ready, issued_stores, operate_lsq}
use cscore_sstelem.Core.Returns.{return_data, return_fetches, handle_memory_return}
use cscore_sstelem.Core.Cycle.{operate_back}

pub same_length : (xs ys : List Instruction) → SameIds xs ys → length ys ≡ length xs
same_length xs ys e =
    sym (length-map ys (λ (i : Instruction). i.instr_id))
    ∙ ap length e
    ∙ length-map xs (λ (i : Instruction). i.instr_id)

module _ {B : Type 0} where
  -- No buffer between the fetch and the retirement has more instructions than its size.
  abbrev pub IsSized : Core B → Type 0
  IsSized c =
      (length c.rob ≤ c.rob_size)
      × (length c.dispatch_buffer ≤ c.dispatch_buffer_size)
      × (length c.decode_buffer ≤ c.decode_buffer_size)
      × (length c.dib_hit_buffer ≤ c.dib_hit_buffer_size)
      × (length c.ifetch_buffer ≤ c.ifetch_buffer_size)

  abbrev Fits : Core B × ℕ → Type 0
  Fits r = IsSized (r.0)

  -- Another reorder buffer and another buffer of fetches, with as many instructions.
  pub resized :
      (c : Core B) (rob ifetch : List Instruction)
      → IsSized c
      → SameIds c.rob rob
      → SameIds c.ifetch_buffer ifetch
      → IsSized (record c { rob = rob; ifetch_buffer = ifetch })
  resized c rob ifetch (a, b, d, e, f) s t = (
    omega (arith, a, same_length c.rob rob s),
    b,
    d,
    e,
    omega (arith, f, same_length c.ifetch_buffer ifetch t),
  )

  schedule_instruction-IsSized : (c : Core B) → IsSized c → OnOk Fits (schedule_instruction c)
  unfolding schedule_instruction
  schedule_instruction-IsSized c h =
      OnOk-bind (λ (q : RegisterAllocator × List Instruction × ℕ). SameIds c.rob q.1) Fits
        (schedule_each c.current_time c.scheduler_size c.reg_allocator c.rob) _
        (schedule_each-ids c.current_time c.scheduler_size c.reg_allocator c.rob)
        (λ q e. resized c q.1 c.ifetch_buffer h e refl)

  execute_instruction-IsSized : (c : Core B) → IsSized c → OnOk Fits (execute_instruction c)
  unfolding execute_instruction
  execute_instruction-IsSized c h =
      let time = after_latency c c.exec_latency in
      OnOk-bind
        (λ (q : List Instruction × List (Option LsqEntry) × List LsqEntry × ℕ). SameIds c.rob q.0)
        Fits (execute_each c.current_time time c.exec_width c.reg_allocator c.rob c.lq c.sq) _
        (execute_each-ids c.current_time time c.exec_width c.reg_allocator c.rob c.lq c.sq)
        (λ q e. resized c q.0 c.ifetch_buffer h e refl)

  complete_inflight_instruction-IsSized :
      (c : Core B) → IsSized c → OnOk Fits (complete_inflight_instruction c)
  unfolding complete_inflight_instruction
  complete_inflight_instruction-IsSized c h =
      OnOk-bind (λ (q : RegisterAllocator × List Instruction × Bool × ℕ). SameIds c.rob q.1) Fits
        (complete_each c.current_time c.exec_width c.reg_allocator c.rob) _
        (complete_each-ids c.current_time c.exec_width c.reg_allocator c.rob)
        (λ q e. resized c q.1 c.ifetch_buffer h e refl)

  handle_memory_return-IsSized : (c : Core B) → IsSized c → OnOk Fits (handle_memory_return c)
  unfolding handle_memory_return
  handle_memory_return-IsSized c h =
      let fetches =
        return_fetches c.l1i_bandwidth c.fetch_width c.l1i_bus.returned c.ifetch_buffer in
      OnOk-bind
        (λ (q : List Response × List Instruction × List (Option LsqEntry) × ℕ). SameIds c.rob q.1)
        Fits (return_data c.l1d_bandwidth c.l1d_bus.returned c.rob c.lq) _
        (return_data-ids c.l1d_bandwidth c.l1d_bus.returned c.rob c.lq)
        (λ q e.
          resized c q.1 fetches.1 h e
            (return_fetches-ids c.l1i_bandwidth c.fetch_width c.l1i_bus.returned c.ifetch_buffer))

  operate_lsq-IsSized : (c : Core B) → IsSized c → OnOk Fits (operate_lsq c)
  unfolding operate_lsq
  operate_lsq-IsSized c h =
      let fetched =
        (span_while (λ (x : LsqEntry). not x.fetch_issued && is_ready c.current_time x) c.sq_width
          (issued_stores c.sq).1).0 in
      OnOk-bind (λ (r : List Instruction × List (Option LsqEntry)). SameIds c.rob r.0) Fits
        (finish_stores fetched c.rob c.lq) _ (finish_stores-ids fetched c.rob c.lq)
        (λ r e. resized c r.0 c.ifetch_buffer h e refl)

  dispatch_one-IsSized :
      (c : Core B) (i : Instruction) (rest : List Instruction)
      → IsSized c
      → c.dispatch_buffer ≡ i ∷ rest
      → can_dispatch c i ≡ true
      → OnOk IsSized (dispatch_one c i rest)
  unfolding dispatch_one can_dispatch
  dispatch_one-IsSized c i rest (a, b, d, e, f) front can =
      let shorter : length c.dispatch_buffer ≡ suc (length rest) = ap length front in
      let room : suc (length c.rob) ≤ c.rob_size = ground (arith, can, a) in
      OnOk-any IsSized (do_memory_scheduling (record { instr = i; lq = c.lq; sq = c.sq })) _
        (λ (s : Scheduled).
          let pushed : Instruction = record (s.instr) {
            ready_time = after_latency c c.scheduling_latency;
          } in
          (
            omega (arith, room, length-append c.rob (pushed ∷ [])),
            omega (arith, b, shorter),
            d,
            e,
            f,
          ))

  dispatch_each-IsSized : (n : ℕ) (c : Core B) → IsSized c → OnOk Fits (dispatch_each n c)
  unfolding dispatch_each
  dispatch_each-IsSized zero c h = h
  dispatch_each-IsSized (suc n) c h =
      let P = OnOk {E = CoreFault} Fits in
      list_cases P c.dispatch_buffer _ _ (λ _. h)
        (λ i rest front.
          if_cases P (can_dispatch c i)
            (λ can.
              OnOk-bind IsSized Fits (dispatch_one c i rest) _
                (dispatch_one-IsSized c i rest h front can)
                (λ c' k.
                  OnOk-bind Fits Fits (dispatch_each n c') _ (dispatch_each-IsSized n c' k)
                    (λ r g. g)))
            (λ _. h))

  retire_rob-IsSized : (c : Core B) → IsSized c → OnOk Fits (retire_rob c)
  unfolding retire_rob
  retire_rob-IsSized c (a, b, d, e, f) =
      let few = length-span_left (λ (x : Instruction). x.completed) c.retire_width c.rob in
      OnOk-any Fits
        (retire_all c.reg_allocator
          (span_while (λ (x : Instruction). x.completed) c.retire_width c.rob).0)
        _ (λ ra. (omega (arith, a, few), b, d, e, f))

  pub operate_back-IsSized : (c : Core B) → IsSized c → OnOk Fits (operate_back c)
  unfolding operate_back dispatch_instruction
  operate_back-IsSized c h = OnOk-bind Fits Fits (retire_rob c) _ (retire_rob-IsSized c h) (λ r₁ h₁.
      OnOk-bind Fits Fits (complete_inflight_instruction (r₁.0)) _
        (complete_inflight_instruction-IsSized (r₁.0) h₁)
        (λ r₂ h₂.
          OnOk-bind Fits Fits (execute_instruction (r₂.0)) _ (execute_instruction-IsSized (r₂.0) h₂)
            (λ r₃ h₃.
              OnOk-bind Fits Fits (schedule_instruction (r₃.0)) _
                (schedule_instruction-IsSized (r₃.0) h₃)
                (λ r₄ h₄.
                  OnOk-bind Fits Fits (handle_memory_return (r₄.0)) _
                    (handle_memory_return-IsSized (r₄.0) h₄)
                    (λ r₅ h₅.
                      OnOk-bind Fits Fits (operate_lsq (r₅.0)) _ (operate_lsq-IsSized (r₅.0) h₅)
                        (λ r₆ h₆.
                          OnOk-bind Fits Fits (dispatch_instruction (r₆.0)) _
                            (dispatch_each-IsSized (r₆.0).dispatch_width (r₆.0) h₆)
                            (λ r₇ h₇. h₇)))))))
