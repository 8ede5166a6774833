-- ===== src/Core/Pipeline.antt =====
-- src/ooo_cpu.cc, `operate`: a cycle takes instructions out of the core at the front only.
use cscore_sstelem.Prelude.{
  ℕ, zero, suc, ◌+◌, ◌-◌, ◌≤◌, ◌≡◌, refl, ap, subst, sym, ◌∙◌, List, [], ◌∷◌, ◌++◌, append-nil,
  append_assoc, Bool, true, false, not, length, min, Option, if◌then◌else◌, if_cases, arith,
  list_cases,
}
use cscore_sstelem.Prelude.Result.{ok, OnOk-bind, OnOk-elim}
use cscore_sstelem.Core.{Instruction, Core, CpuStats, Predictors}
use cscore_sstelem.Core.Ascending.{Ascending, Ascending-split, merge_ids}
use cscore_sstelem.Core.Reorder.{ids, ids-append}
use cscore_sstelem.Core.Ids.Fetch.{check_window-ids, split_at_first-append, fetch_each-ids}
use cscore_sstelem.Core.Fetch.{
  do_stack_pointer_folding, do_predict_branch, do_init_instruction, initialize_each,
  initialize_instruction, check_dib, fetch_instruction, split_at_first, check_window, is_fetch_time,
}
use cscore_sstelem.Core.Decode.{decode_instruction, promote_to_decode}
use cscore_sstelem.Core.Cycle.{operate_back, operate_front, operate}
use cscore_sstelem.Core.Order.{in_flight, IsPiped, Flows, Flows-none, Flows-trans, same_rob}
use cscore_sstelem.Core.Order.Back.{operate_back-Flows}
use cscore_sstelem.Core.Order.Promotion.{promote_to_decode-Flows}
use cscore_sstelem.Core.Order.Decoding.{decode_instruction-Flows}

module _ {B : Type 0} where
  -- What has left at the front was in order with what stays.
  Flows-IsPiped :
      (c : Core B) (gone : List ℕ) (c' : Core B) → IsPiped c → Flows c gone c' → IsPiped c'
  Flows-IsPiped c gone c' h f = record {
    ordered = (Ascending-split gone (in_flight c') (subst Ascending f.flow h.ordered)).1;
    within = f.room h.within;
  }

  fetch_instruction-Flows : (c : Core B) → Flows c [] (fetch_instruction c).0
  unfolding fetch_instruction
  fetch_instruction-Flows c = record {
    flow =
        same_rob c (fetch_instruction c).0 refl refl refl refl
          (fetch_each-ids c.l1i_bandwidth c.cpu c.l1i_bus c.ifetch_buffer) refl;
    counted = omega arith;
    room = λ w. w;
    width = refl;
  }

  check_dib-Flows : (c : Core B) → Flows c [] (check_dib c).0
  unfolding check_dib
  check_dib-Flows c =
      let test : Instruction → Bool = λ x. not x.dib_checked in
      let (before, from) = split_at_first test c.ifetch_buffer in
      let window = check_window c.fetch_width c.current_time c.dib_shamt c.dib from in
      record {
        flow =
            same_rob c (check_dib c).0 refl refl refl refl
              (ids-append before window.1
                ∙ ap (λ l. ids before ++ l)
                    (check_window-ids c.fetch_width c.current_time c.dib_shamt c.dib from)
                ∙ sym (ids-append before from)
                ∙ ap ids (split_at_first-append test c.ifetch_buffer))
              refl;
        counted = omega arith;
        room = λ w. w;
        width = refl;
      }

  -- From one core to the next, instructions leave at the front only, no more than the width of the
  -- retirement, all of which are counted, and the others stay in program order.
  abbrev pub Cycles : Core B → Core B → Type 0
  Cycles c c' =
      (gone : List ℕ) × (length gone ≤ c.retire_width)
      × (in_flight c ≡ gone ++ in_flight c')
      × (c'.num_retired ≡ c.num_retired + length gone)
      × IsPiped c'

module _ {B : Type 0} (p : Predictors B) where
  -- Initialising changes the statistics, the predictors and the time at which the fetch resumes.
  unfoldable pub Inits : Core B → Instruction → Core B × Instruction × Bool → Type 0
  Inits c i r =
      (s : CpuStats) × (b : B) × (t : Option ℕ) × (r.0
        ≡ record c { sim_stats = s; predictors = b; fetch_resume_time = t })
      × ((r.1).instr_id ≡ i.instr_id)

  Inits-by :
      (c : Core B) (i : Instruction) (s : CpuStats) (b : B) (t : Option ℕ) (j : Instruction)
      (stop : Bool)
      → j.instr_id ≡ i.instr_id
      → Inits c i (record c { sim_stats = s; predictors = b; fetch_resume_time = t }, j, stop)
  unfolding Inits
  Inits-by c i s b t j stop same = (s, b, t, refl, same)

  if-Inits :
      (c : Core B) (i : Instruction) (b : Bool) (r r' : Core B × Instruction × Bool)
      → Inits c i r
      → Inits c i r'
      → Inits c i (if b then r else r')
  if-Inits c i true r r' h k = h
  if-Inits c i false r r' h k = k

  do_predict_branch-Inits : (c : Core B) (i : Instruction) → Inits c i (do_predict_branch p c i)
  unfolding do_predict_branch
  do_predict_branch-Inits c i = search (if-Inits, Inits-by)

  folded-id : (i : Instruction) → (do_stack_pointer_folding i).instr_id ≡ i.instr_id
  unfolding do_stack_pointer_folding
  folded-id i = ground arith

  pub do_init_instruction-Inits :
      (c : Core B) (i : Instruction) → Inits c i (do_init_instruction p c i)
  unfolding do_init_instruction Inits
  do_init_instruction-Inits c i =
      let plain : Instruction =
        if c.warmup then record i { source_registers = []; destination_registers = [] } else i in
      let (s, b, t, e, f) = do_predict_branch-Inits c (do_stack_pointer_folding plain) in
      (
        s,
        b,
        t,
        e,
        f
            ∙ folded-id plain
            ∙ if_cases (λ (j : Instruction). j.instr_id ≡ i.instr_id) c.warmup (λ _. refl)
                (λ _. refl),
      )

  initialize_each-Flows : (n : ℕ) (c : Core B) → Flows c [] (initialize_each p n c)
  unfolding initialize_each Inits
  initialize_each-Flows zero c = Flows-none c
  initialize_each-Flows (suc n) c =
      list_cases (Flows c []) c.input_queue _ _ (λ _. Flows-none c)
        (λ i rest front.
          let (c₁, i', stop) = do_init_instruction p c i in
          let ready : Instruction = record i' { ready_time = c.current_time } in
          let pushed : Core B → Core B =
            λ k. record k { ifetch_buffer = c.ifetch_buffer ++ (ready ∷ []); input_queue = rest } in
          let (s, b, t, e, same) = do_init_instruction-Inits c i in
          let first : Flows c [] (pushed c₁) =
            subst (λ (k : Core B). Flows c [] (pushed k)) (sym e)
              (record {
                flow =
                    ap
                      (λ l.
                        ids c.rob
                        ++ (ids c.dispatch_buffer
                            ++ (merge_ids (ids c.dib_hit_buffer) (ids c.decode_buffer) ++ l)))
                      (ap (λ (l : List Instruction). ids c.ifetch_buffer ++ ids l) front
                        ∙ ap (λ (id : ℕ). ids c.ifetch_buffer ++ (id ∷ ids rest)) (sym same)
                        ∙ sym (append_assoc (ids c.ifetch_buffer) (i'.instr_id ∷ []) (ids rest))
                        ∙ ap (λ l. l ++ ids rest) (sym (ids-append c.ifetch_buffer (ready ∷ []))));
                counted = omega arith;
                room = λ w. w;
                width = refl;
              }) in
          let more =
            Flows-trans c (pushed c₁) _ [] [] first (initialize_each-Flows n (pushed c₁)) in
          if_cases (Flows c []) (not (is_fetch_time c.current_time c.fetch_resume_time))
            (λ _. Flows-none c) (λ _. if_cases (Flows c []) stop (λ _. first) (λ _. more)))

  operate_front-Flows : (c : Core B) → IsPiped c → Flows c [] (operate_front p c).0
  unfolding operate_front initialize_instruction
  operate_front-Flows c h =
      let c₁ = (decode_instruction c).0 in
      let c₂ = (promote_to_decode c₁).0 in
      let c₃ = (fetch_instruction c₂).0 in
      let c₄ = (check_dib c₃).0 in
      let decoded = decode_instruction-Flows c h in
      let promoted = promote_to_decode-Flows c₁ (Flows-IsPiped c [] c₁ h decoded) in
      let room = min c₄.fetch_width (c₄.ifetch_buffer_size - length c₄.ifetch_buffer) in
      let c₅ = initialize_each p room c₄ in
      Flows-trans c c₁ c₅ [] [] decoded (
        Flows-trans c₁ c₂ c₅ [] [] promoted (
          Flows-trans c₂ c₃ c₅ [] [] (fetch_instruction-Flows c₂)
            (Flows-trans c₃ c₄ c₅ [] [] (check_dib-Flows c₃) (initialize_each-Flows room c₄))))

  -- A cycle of the core that stops with no error, from a core whose instructions are in program order
  -- from the front of the reorder buffer to the end of the input queue and whose buffer of DIB hits has
  -- no more than it has room for: it takes some instructions out at the front, no more than the width of
  -- the retirement, and counts them as retired; it loses, duplicates and reorders none of the others,
  -- which are in program order again, and the buffer of DIB hits has no more than it has room for.
  pub operate-Cycles :
      (c c' : Core B) (progress : ℕ) → IsPiped c → operate p c ≡ ok (c', progress) → Cycles c c'
  unfolding operate
  operate-Cycles c c' progress h e =
      OnOk-elim (λ (r : Core B × ℕ). Cycles c r.0) (operate p c) (c', progress) e
        (OnOk-bind
          (λ (r : Core B × ℕ). (gone : List ℕ) × (length gone ≤ c.retire_width) × Flows c gone r.0)
          (λ (r : Core B × ℕ). Cycles c r.0) (operate_back c) _ (operate_back-Flows c)
          (λ r (gone, few, f).
            let front = (operate_front p (r.0)).0 in
            let g = operate_front-Flows (r.0) (Flows-IsPiped c gone (r.0) h f) in
            let whole = Flows-trans c (r.0) front gone [] f g in
            let kept = append-nil gone in
            (
              gone,
              few,
              whole.flow ∙ ap (λ l. l ++ in_flight front) kept,
              whole.counted ∙ ap (λ (l : List ℕ). c.num_retired + length l) kept,
              Flows-IsPiped c (gone ++ []) front h whole,
            )))
