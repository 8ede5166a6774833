-- ===== src/Core/Order.antt =====
-- src/ooo_cpu.cc, `operate`: instructions go through the core in program order.
pub mod Back
pub mod Decoding
pub mod Promotion
use cscore_sstelem.Prelude.{
  ℕ, zero, suc, ◌+◌, ◌≤◌, ◌≡◌, refl, ap, ap₂, subst, sym, ◌∙◌, List, [], ◌∷◌, ◌++◌, append-nil,
  append_assoc, Bool, not, ◌&&◌, length, Option, if◌then◌else◌, if_cases, arith, length-append,
  length-map, list_cases,
}
use cscore_sstelem.Prelude.Result.{Result, ◌>>=◌, OnOk, OnOk-bind, OnOk-any, OnOk-imp}
use cscore_sstelem.Channel.{Response}
use cscore_sstelem.Span.{span_while, span_while-append, length-span_while}
use cscore_sstelem.RegisterAllocator.{RegisterAllocator}
use cscore_sstelem.Core.{Instruction, LsqEntry, Core, CoreFault, after_latency}
use cscore_sstelem.Core.Ascending.{Ascending, merge_ids}
use cscore_sstelem.Core.Reorder.{ids, ids-append}
use cscore_sstelem.Core.Ids.{
  SameIds, schedule_each-ids, execute_each-ids, complete_each-ids, do_memory_scheduling-id,
}
use cscore_sstelem.Core.Ids.Memory.{finish_stores-ids, return_data-ids, return_fetches-ids}
use cscore_sstelem.Core.Dispatch.{
  Scheduled, do_memory_scheduling, can_dispatch, dispatch_one, dispatch_each, dispatch_instruction,
}
use cscore_sstelem.Core.Execute.{
  schedule_each, schedule_instruction, execute_each, execute_instruction, complete_each,
  complete_inflight_instruction, retire_all, retire_rob,
}
use cscore_sstelem.Core.Memory.{finish_stores, is_ready, issued_stores, operate_lsq}
use cscore_sstelem.Core.Returns.{return_data, return_fetches, handle_memory_return}
use cscore_sstelem.Core.Cycle.{operate_back}
use cscore_sstelem.Prelude.{
  ℕ, suc, ◌+◌, ◌-◌, ◌≤◌, ◌≡◌, refl, ap, ap₂, subst, sym, ◌∙◌, List, [], ◌∷◌, ◌++◌, append_assoc,
  map, Bool, false, ◌&&◌, length, min, leb, ◌==◌, Option, if◌then◌else◌, if_cases, arith,
  length-append, length-map,
}
use cscore_sstelem.LruTable.{LruTable}
use cscore_sstelem.Span.{span_while, span_while-append, length-span_while}
use cscore_sstelem.Core.{Instruction, Core}
use cscore_sstelem.Core.Ascending.{
  Ascending, AllBelow, Ascending-split, AllBelow-split, merge_ids, merge_ids-later, merge-AllBelow,
}
use cscore_sstelem.Core.Reorder.{ids, ids-append, ids-map, ids-merge, parts-merge}
use cscore_sstelem.Core.Ascending.{AllBelow-merge}
use cscore_sstelem.Core.Reorder.Decoding.{pick-Picks}
use cscore_sstelem.Core.Decode.{
  decoded_part, undecoded_part, merge, pick, do_decode, decode_each, decode_in_order,
  decode_merging, decode_instruction, promote_to_decode, promote_width, mark_for_decode,
  mark_for_dib, do_dib_hit, resumes_at_decode,
}

pub no_more : (xs : List Instruction) (n : ℕ) → length xs ≤ n → n ≡ 0 → xs ≡ []
no_more [] n h e = refl
no_more (x ∷ xs) n h e = absurd (omega (arith, h, e))

pub no_hits : (xs : List Instruction) → xs ≡ [] → (ys : List ℕ) → merge_ids (ids xs) ys ≡ ys
unfolding merge_ids
no_hits xs e ys = ap (λ (l : List Instruction). merge_ids (ids l) ys) e

module _ {B : Type 0} where
  -- The ids of the instructions of a core, from the front of the reorder buffer to the end of the input
  -- queue.
  abbrev pub in_flight : Core B → List ℕ
  in_flight c =
      ids c.rob
      ++ (ids c.dispatch_buffer
          ++ (merge_ids (ids c.dib_hit_buffer) (ids c.decode_buffer)
              ++ (ids c.ifetch_buffer ++ ids c.input_queue)))

  abbrev pub IsWithin : Core B → Type 0
  IsWithin c = length c.dib_hit_buffer ≤ c.dib_hit_buffer_size

  -- The instructions are in program order, and the buffer of DIB hits has no more than it has room for.
  pub record IsPiped (c : Core B) : Type 0 where
    pub ordered : Ascending (in_flight c)
    pub within : IsWithin c

  -- From one core to another, the instructions `gone` have left at the front.
  pub record Flows (c : Core B) (gone : List ℕ) (c' : Core B) : Type 0 where
    pub flow : in_flight c ≡ gone ++ in_flight c'
    pub counted : c'.num_retired ≡ c.num_retired + length gone
    pub room : IsWithin c → IsWithin c'
    pub width : c'.retire_width ≡ c.retire_width

  pub Flows-trans :
      (c c' c'' : Core B) (gone more : List ℕ)
      → Flows c gone c'
      → Flows c' more c''
      → Flows c (gone ++ more) c''
  Flows-trans c c' c'' gone more f g = record {
    flow = f.flow ∙ ap (λ l. gone ++ l) g.flow ∙ sym (append_assoc gone more (in_flight c''));
    counted = omega (arith, f.counted, g.counted, length-append gone more);
    room = λ h. g.room (f.room h);
    width = g.width ∙ f.width;
  }

  -- A step that changes the reorder buffer, but not the ids in it.
  pub same_rob :
      (c c' : Core B)
      → SameIds c.rob c'.rob
      → c'.dispatch_buffer ≡ c.dispatch_buffer
      → c'.dib_hit_buffer ≡ c.dib_hit_buffer
      → c'.decode_buffer ≡ c.decode_buffer
      → SameIds c.ifetch_buffer c'.ifetch_buffer
      → c'.input_queue ≡ c.input_queue
      → in_flight c ≡ in_flight c'
  same_rob c c' a b d e f g = sym (
      ap₂ ◌++◌ a (
        ap₂ ◌++◌ (ap ids b)
          (ap₂ ◌++◌ (ap₂ merge_ids (ap ids d) (ap ids e)) (ap₂ ◌++◌ f (ap ids g)))))

  pub Flows-none : (c : Core B) → Flows c [] c
  Flows-none c = record { flow = refl; counted = omega arith; room = λ h. h; width = refl }

  -- What the order of all says of the two buffers, and of the buffer behind them.
  pub buffers_order :
      (c : Core B)
      → IsPiped c
      → let buffers = merge_ids (ids c.dib_hit_buffer) (ids c.decode_buffer) in
        Ascending buffers × Ascending (ids c.ifetch_buffer) × AllBelow buffers (ids c.ifetch_buffer)
  buffers_order c h =
      let buffers = merge_ids (ids c.dib_hit_buffer) (ids c.decode_buffer) in
      let behind = ids c.ifetch_buffer ++ ids c.input_queue in
      let (_, undone, _) =
        Ascending-split (ids c.rob) (ids c.dispatch_buffer ++ (buffers ++ behind)) h.ordered in
      let (_, waiting, _) = Ascending-split (ids c.dispatch_buffer) (buffers ++ behind) undone in
      let (a, b, below) = Ascending-split buffers behind waiting in
      (
        a,
        (Ascending-split (ids c.ifetch_buffer) (ids c.input_queue) b).0,
        (AllBelow-split buffers (ids c.ifetch_buffer) (ids c.input_queue) below).0,
      )
