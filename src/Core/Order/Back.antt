-- ===== src/Core/Order/Back.antt =====
-- src/ooo_cpu.cc, the steps behind the decoding: only the retirement takes instructions out.
use cscore_sstelem.Prelude.{
  ℕ, zero, suc, ◌+◌, ◌≤◌, ◌≡◌, refl, ap, subst, sym, ◌∙◌, List, [], ◌∷◌, ◌++◌, append-nil,
  append_assoc, Bool, not, ◌&&◌, length, Option, if◌then◌else◌, if_cases, arith, length-map,
  list_cases,
}
use cscore_sstelem.Prelude.Result.{Result, ◌>>=◌, OnOk, OnOk-bind, OnOk-any, OnOk-imp}
use cscore_sstelem.Channel.{Response}
use cscore_sstelem.Span.{span_while, span_while-append, length-span_while}
use cscore_sstelem.RegisterAllocator.{RegisterAllocator}
use cscore_sstelem.Core.{Instruction, LsqEntry, Core, CoreFault, after_latency}
use cscore_sstelem.Core.Ascending.{merge_ids}
use cscore_sstelem.Core.Reorder.{ids, ids-append}
use cscore_sstelem.Core.Ids.{
  SameIds, schedule_each-ids, execute_each-ids, complete_each-ids, do_memory_scheduling-id,
}
use cscore_sstelem.Core.Ids.Memory.{finish_stores-ids, return_data-ids, return_fetches-ids}
use cscore_sstelem.Core.Dispatch.{
  Scheduled, do_memory_scheduling, can_dispatch, dispatch_one, dispatch_each, dispatch_instruction,
}
use cscore_sstelem.Core.Execute.{
  schedule_each, schedule_instruction, execute_each, execute_instruction, complete_each,
  complete_inflight_instruction, retire_all, retire_rob,
}
use cscore_sstelem.Core.Memory.{finish_stores, is_ready, issued_stores, operate_lsq}
use cscore_sstelem.Core.Returns.{return_data, return_fetches, handle_memory_return}
use cscore_sstelem.Core.Cycle.{operate_back}
use cscore_sstelem.Core.Order.{Flows, Flows-trans, same_rob, Flows-none}

module _ {B : Type 0} where
  schedule_instruction-Flows :
      (c : Core B) → OnOk (λ (r : Core B × ℕ). Flows c [] r.0) (schedule_instruction c)
  unfolding schedule_instruction
  schedule_instruction-Flows c =
      OnOk-bind (λ (q : RegisterAllocator × List Instruction × ℕ). SameIds c.rob q.1) _
        (schedule_each c.current_time c.scheduler_size c.reg_allocator c.rob) _
        (schedule_each-ids c.current_time c.scheduler_size c.reg_allocator c.rob)
        (λ q e. record {
          flow =
              same_rob c (record c { reg_allocator = q.0; rob = q.1 }) e refl refl refl refl refl;
          counted = omega arith;
          room = λ h. h;
          width = refl;
        })

  execute_instruction-Flows :
      (c : Core B) → OnOk (λ (r : Core B × ℕ). Flows c [] r.0) (execute_instruction c)
  unfolding execute_instruction
  execute_instruction-Flows c =
      let time = c.current_time + (if c.warmup then 0 else c.exec_latency) in
      OnOk-bind
        (λ (q : List Instruction × List (Option LsqEntry) × List LsqEntry × ℕ). SameIds c.rob q.0) _
        (execute_each c.current_time time c.exec_width c.reg_allocator c.rob c.lq c.sq) _
        (execute_each-ids c.current_time time c.exec_width c.reg_allocator c.rob c.lq c.sq)
        (λ q e. record {
          flow = same_rob c (record c { rob = q.0; lq = q.1; sq = q.2 }) e refl refl refl refl refl;
          counted = omega arith;
          room = λ h. h;
          width = refl;
        })

  complete_inflight_instruction-Flows :
      (c : Core B) → OnOk (λ (r : Core B × ℕ). Flows c [] r.0) (complete_inflight_instruction c)
  unfolding complete_inflight_instruction
  complete_inflight_instruction-Flows c =
      OnOk-bind (λ (q : RegisterAllocator × List Instruction × Bool × ℕ). SameIds c.rob q.1) _
        (complete_each c.current_time c.exec_width c.reg_allocator c.rob) _
        (complete_each-ids c.current_time c.exec_width c.reg_allocator c.rob)
        (λ q e. record {
          flow = same_rob c (record c { rob = q.1 }) e refl refl refl refl refl;
          counted = omega arith;
          room = λ h. h;
          width = refl;
        })

  handle_memory_return-Flows :
      (c : Core B) → OnOk (λ (r : Core B × ℕ). Flows c [] r.0) (handle_memory_return c)
  unfolding handle_memory_return
  handle_memory_return-Flows c =
      let fetches =
        return_fetches c.l1i_bandwidth c.fetch_width c.l1i_bus.returned c.ifetch_buffer in
      OnOk-bind
        (λ (q : List Response × List Instruction × List (Option LsqEntry) × ℕ). SameIds c.rob q.1) _
        (return_data c.l1d_bandwidth c.l1d_bus.returned c.rob c.lq) _
        (return_data-ids c.l1d_bandwidth c.l1d_bus.returned c.rob c.lq)
        (λ q e. record {
          flow =
              same_rob c (record c { rob = q.1; lq = q.2; ifetch_buffer = fetches.1 }) e refl refl
                refl
                (return_fetches-ids c.l1i_bandwidth c.fetch_width c.l1i_bus.returned
                  c.ifetch_buffer)
                refl;
          counted = omega arith;
          room = λ h. h;
          width = refl;
        })

  operate_lsq-Flows : (c : Core B) → OnOk (λ (r : Core B × ℕ). Flows c [] r.0) (operate_lsq c)
  unfolding operate_lsq
  operate_lsq-Flows c =
      OnOk-bind (λ (r : List Instruction × List (Option LsqEntry)). SameIds c.rob r.0) _
        (finish_stores
          (span_while (λ (x : LsqEntry). not x.fetch_issued && is_ready c.current_time x) c.sq_width
            (issued_stores c.sq).1).0
          c.rob c.lq)
        _
        (finish_stores-ids
          (span_while (λ (x : LsqEntry). not x.fetch_issued && is_ready c.current_time x) c.sq_width
            (issued_stores c.sq).1).0
          c.rob c.lq)
        (λ r e. record {
          flow = same_rob c (record c { rob = r.0 }) e refl refl refl refl refl;
          counted = omega arith;
          room = λ h. h;
          width = refl;
        })

  dispatch_one-Flows :
      (c : Core B) (i : Instruction) (rest : List Instruction)
      → c.dispatch_buffer ≡ i ∷ rest
      → OnOk (Flows c []) (dispatch_one c i rest)
  unfolding dispatch_one
  dispatch_one-Flows c i rest front =
      let before : Scheduled = record { instr = i; lq = c.lq; sq = c.sq } in
      let pushed : Scheduled → Instruction =
        λ s. record (s.instr) { ready_time = after_latency c c.scheduling_latency } in
      let behind =
        merge_ids (ids c.dib_hit_buffer) (ids c.decode_buffer)
        ++ (ids c.ifetch_buffer ++ ids c.input_queue) in
      OnOk-bind (λ (s : Scheduled). s.instr.instr_id ≡ i.instr_id) (Flows c [])
        (do_memory_scheduling before) _ (do_memory_scheduling-id before)
        (λ s e. record {
          flow =
              ap (λ (l : List Instruction). ids c.rob ++ (ids l ++ behind)) front
              ∙ ap (λ (id : ℕ). ids c.rob ++ (id ∷ (ids rest ++ behind))) (sym e)
              ∙ sym (append_assoc (ids c.rob) (s.instr.instr_id ∷ []) (ids rest ++ behind))
              ∙ ap (λ l. l ++ (ids rest ++ behind)) (sym (ids-append c.rob (pushed s ∷ [])));
          counted = omega arith;
          room = λ h. h;
          width = refl;
        })

  dispatch_each-Flows :
      (n : ℕ) (c : Core B) → OnOk (λ (r : Core B × ℕ). Flows c [] r.0) (dispatch_each n c)
  unfolding dispatch_each
  dispatch_each-Flows zero c = Flows-none c
  dispatch_each-Flows (suc n) c =
      let P = OnOk {E = CoreFault} (λ (r : Core B × ℕ). Flows c [] r.0) in
      list_cases P c.dispatch_buffer _ _ (λ _. Flows-none c)
        (λ i rest front.
          if_cases P (can_dispatch c i)
            (λ _.
              OnOk-bind (Flows c []) (λ (r : Core B × ℕ). Flows c [] r.0) (dispatch_one c i rest) _
                (dispatch_one-Flows c i rest front)
                (λ c' f.
                  OnOk-bind (λ (r : Core B × ℕ). Flows c' [] r.0)
                    (λ (r : Core B × ℕ). Flows c [] r.0) (dispatch_each n c') _
                    (dispatch_each-Flows n c') (λ r g. Flows-trans c c' (r.0) [] [] f g)))
            (λ _. Flows-none c))

  retire_rob-Flows :
      (c : Core B)
      → OnOk
          (λ (r : Core B × ℕ). (gone : List ℕ) × (length gone ≤ c.retire_width) × Flows c gone r.0)
          (retire_rob c)
  unfolding retire_rob
  retire_rob-Flows c =
      let spans = span_while (λ (x : Instruction). x.completed) c.retire_width c.rob in
      let whole =
        ap ids (sym (span_while-append (λ (x : Instruction). x.completed) c.retire_width c.rob))
        ∙ ids-append spans.0 spans.1 in
      let few = length-span_while (λ (x : Instruction). x.completed) c.retire_width c.rob in
      let size = length-map spans.0 (λ (i : Instruction). i.instr_id) in
      let behind =
        ids c.dispatch_buffer
        ++ (merge_ids (ids c.dib_hit_buffer) (ids c.decode_buffer)
            ++ (ids c.ifetch_buffer ++ ids c.input_queue)) in
      OnOk-any _ (retire_all c.reg_allocator spans.0) _ (λ ra. (
        ids spans.0,
        omega (arith, few, size),
        record {
          flow = ap (λ l. l ++ behind) whole ∙ append_assoc (ids spans.0) (ids spans.1) behind;
          counted = omega (arith, size);
          room = λ h. h;
          width = refl;
        },
      ))

  abbrev Gone : Core B → Core B × ℕ → Type 0
  Gone c r = (gone : List ℕ) × (length gone ≤ c.retire_width) × Flows c gone r.0

  abbrev Still : Core B → Core B × ℕ → Type 0
  Still c r = Flows c [] r.0

  -- A step behind which others keep what it reached.
  step_then :
      (c' : Core B) (m : Result CoreFault (Core B × ℕ))
      (f : Core B × ℕ → Result CoreFault (Core B × ℕ))
      → OnOk (Still c') m
      → ((r : Core B × ℕ) → OnOk (Still (r.0)) (f r))
      → OnOk (Still c') (m >>= f)
  step_then c' m f h k = OnOk-bind (Still c') (Still c') m f h (λ r g.
      OnOk-imp (Still (r.0)) (Still c') (f r) (k r) (λ q g'. Flows-trans c' (r.0) (q.0) [] [] g g'))

  -- The steps at the back take instructions out at the front only, and no more of them than the width
  -- of the retirement.
  pub operate_back-Flows :
      (c : Core B)
      → OnOk
          (λ (r : Core B × ℕ). (gone : List ℕ) × (length gone ≤ c.retire_width) × Flows c gone r.0)
          (operate_back c)
  unfolding operate_back dispatch_instruction
  operate_back-Flows c =
      OnOk-bind (Gone c) (Gone c) (retire_rob c) _ (retire_rob-Flows c) (λ r (gone, few, f).
        OnOk-imp (Still (r.0)) (Gone c) _
          (step_then (r.0) (complete_inflight_instruction (r.0)) _
            (complete_inflight_instruction-Flows (r.0))
            (λ r₂.
              step_then (r₂.0) (execute_instruction (r₂.0)) _ (execute_instruction-Flows (r₂.0))
                (λ r₃.
                  step_then (r₃.0) (schedule_instruction (r₃.0)) _
                    (schedule_instruction-Flows (r₃.0))
                    (λ r₄.
                      step_then (r₄.0) (handle_memory_return (r₄.0)) _
                        (handle_memory_return-Flows (r₄.0))
                        (λ r₅.
                          step_then (r₅.0) (operate_lsq (r₅.0)) _ (operate_lsq-Flows (r₅.0)) (λ r₆.
                            step_then (r₆.0) (dispatch_instruction (r₆.0)) _
                              (dispatch_each-Flows (r₆.0).dispatch_width (r₆.0))
                              (λ r₇. Flows-none (r₇.0))))))))
          (λ q g. (
            gone ++ [],
            subst (λ l. length l ≤ c.retire_width) (sym (append-nil gone)) few,
            Flows-trans c (r.0) (q.0) gone [] f g,
          )))
