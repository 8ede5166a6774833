-- ===== src/Core/Sizes/Cycle.antt =====
-- src/ooo_cpu.cc, `operate`: a cycle puts no more instructions in a buffer than it has room for.
use cscore_sstelem.Prelude.{
  ℕ, zero, suc, ◌+◌, ◌-◌, ◌≤◌, ◌≡◌, refl, ap, subst, sym, ◌∙◌, List, [], ◌∷◌, ◌++◌, map, Bool, not,
  ◌&&◌, length, min, leb, ◌==◌, if◌then◌else◌, if_cases, list_cases, arith, length-append,
  length-map,
}
use cscore_sstelem.Prelude.Result.{ok, OnOk-bind, OnOk-elim}
use cscore_sstelem.Span.{span_while, length-span_while, length-span_left}
use cscore_sstelem.Core.{Instruction, Core, Predictors}
use cscore_sstelem.Core.Reorder.{ids, ids-append}
use cscore_sstelem.Core.Ids.Fetch.{check_window-ids, split_at_first-append, fetch_each-ids}
use cscore_sstelem.Core.Fetch.{
  do_init_instruction, initialize_each, initialize_instruction, check_dib, fetch_instruction,
  split_at_first, check_window, is_fetch_time,
}
use cscore_sstelem.Core.Decode.{
  decoded_part, undecoded_part, merge, pick, decode_each, decode_in_order, decode_merging,
  decode_instruction, promote_to_decode, promote_width, mark_for_decode, mark_for_dib, do_dib_hit,
}
use cscore_sstelem.Core.Cycle.{operate_back, operate_front, operate}
use cscore_sstelem.Core.Order.Decoding.{decode_each-Decodes}
use cscore_sstelem.Core.Order.Promotion.{length-decoded_part}
use cscore_sstelem.Core.Pipeline.{Inits, do_init_instruction-Inits}
use cscore_sstelem.Core.Sizes.{IsSized, same_length, resized, operate_back-IsSized}
use cscore_sstelem.Core.Sizes.Picked.{pick-Counts, length-merge}

length-undecoded_part : (is : List Instruction) → length (undecoded_part is) ≤ length is
unfolding undecoded_part
length-undecoded_part [] = omega arith
length-undecoded_part (i ∷ is) =
    if_cases (λ (l : List Instruction). length l ≤ suc (length is)) i.decoded
      (λ _. omega (arith, length-undecoded_part is)) (λ _. omega (arith, length-undecoded_part is))

module _ {B : Type 0} where
  decode_in_order-IsSized : (c : Core B) → IsSized c → IsSized (decode_in_order c).0
  unfolding decode_in_order
  decode_in_order-IsSized c (a, b, d, e, f) =
      let test : Instruction → Bool = λ x. leb x.ready_time c.current_time in
      let room = c.dispatch_buffer_size - length c.dispatch_buffer in
      let n = min c.decode_width (min c.decode_width room) in
      let (taken, left) = span_while test n c.decode_buffer in
      let decoded = (decode_each c taken).1 in
      let (dib, t, core, same) = decode_each-Decodes c taken in
      let few = length-span_while test n c.decode_buffer in
      let fewer = length-span_left test n c.decode_buffer in
      subst
        (λ (k : Core B).
          IsSized
            (record k { dispatch_buffer = c.dispatch_buffer ++ decoded; decode_buffer = left }))
        (sym core)
        (
          a,
          omega (
            arith,
            b,
            few,
            same_length taken decoded same,
            length-append c.dispatch_buffer decoded,
          ),
          omega (arith, d, fewer),
          e,
          f,
        )

  decode_merging-IsSized : (c : Core B) → IsSized c → IsSized (decode_merging c).0
  unfolding decode_merging
  decode_merging-IsSized c (a, b, d, e, f) =
      let n = min c.dib_inorder_width (c.dispatch_buffer_size - length c.dispatch_buffer) in
      let p = pick c.current_time n c.decode_width c.dib_hit_buffer c.decode_buffer in
      let hits = map (do_dib_hit c) p.dib_taken in
      let decoded = (decode_each c p.decode_taken).1 in
      let (dib, t, core, same) = decode_each-Decodes c p.decode_taken in
      let (few, hit_left, left) =
        pick-Counts c.current_time n c.decode_width c.dib_hit_buffer c.decode_buffer in
      subst
        (λ (k : Core B). IsSized (record k {
          dispatch_buffer = c.dispatch_buffer ++ merge hits decoded;
          decode_buffer = p.decode_left;
          dib_hit_buffer = p.dib_left;
        }))
        (sym core)
        (
          a,
          omega (
            arith,
            b,
            few,
            same_length p.decode_taken decoded same,
            length-append c.dispatch_buffer (merge hits decoded),
            length-merge hits decoded,
            length-map p.dib_taken (do_dib_hit c),
          ),
          omega (arith, d, left),
          omega (arith, e, hit_left),
          f,
        )

  decode_instruction-IsSized : (c : Core B) → IsSized c → IsSized (decode_instruction c).0
  unfolding decode_instruction
  decode_instruction-IsSized c h =
      if_cases (λ (r : Core B × ℕ). IsSized (r.0)) (c.dib_hit_buffer_size == 0)
        (λ _. decode_in_order-IsSized c h) (λ _. decode_merging-IsSized c h)

  promote_to_decode-IsSized : (c : Core B) → IsSized c → IsSized (promote_to_decode c).0
  unfolding promote_to_decode
  promote_to_decode-IsSized c (a, b, d, e, f) =
      let test : Instruction → Bool = λ x. x.fetch_completed && leb x.ready_time c.current_time in
      let (window, left) = span_while test (promote_width c) c.ifetch_buffer in
      let few = length-span_while test (promote_width c) c.ifetch_buffer in
      let fewer = length-span_left test (promote_width c) c.ifetch_buffer in
      let mark : Instruction → Instruction =
        λ i. if i.decoded then mark_for_dib c i else mark_for_decode c i in
      let hits = map (mark_for_dib c) (decoded_part window) in
      let missed = map (mark_for_decode c) (undecoded_part window) in
      if_cases IsSized (c.dib_hit_buffer_size == 0)
        (λ none_hit.
          let room : promote_width c ≤ c.decode_buffer_size - length c.decode_buffer =
            ground (arith, none_hit) in
          (
            a,
            b,
            omega (
              arith,
              d,
              few,
              room,
              length-append c.decode_buffer (map mark window),
              length-map window mark,
            ),
            e,
            omega (arith, f, fewer),
          ))
        (λ some_hit.
          let room : promote_width c ≤ c.decode_buffer_size - length c.decode_buffer =
            ground (arith, some_hit) in
          let hit_room : promote_width c ≤ c.dib_hit_buffer_size - length c.dib_hit_buffer =
            ground (arith, some_hit) in
          (
            a,
            b,
            omega (
              arith,
              d,
              few,
              room,
              length-append c.decode_buffer missed,
              length-map (undecoded_part window) (mark_for_decode c),
              length-undecoded_part window,
            ),
            omega (
              arith,
              e,
              few,
              hit_room,
              length-append c.dib_hit_buffer hits,
              length-map (decoded_part window) (mark_for_dib c),
              length-decoded_part window,
            ),
            omega (arith, f, fewer),
          ))

  fetch_instruction-IsSized : (c : Core B) → IsSized c → IsSized (fetch_instruction c).0
  unfolding fetch_instruction
  fetch_instruction-IsSized c h =
      resized c c.rob (fetch_instruction c).0.ifetch_buffer h refl
        (fetch_each-ids c.l1i_bandwidth c.cpu c.l1i_bus c.ifetch_buffer)

  check_dib-IsSized : (c : Core B) → IsSized c → IsSized (check_dib c).0
  unfolding check_dib
  check_dib-IsSized c h =
      let test : Instruction → Bool = λ x. not x.dib_checked in
      let (before, from) = split_at_first test c.ifetch_buffer in
      let window = check_window c.fetch_width c.current_time c.dib_shamt c.dib from in
      resized c c.rob (before ++ window.1) h refl (
        ids-append before window.1
        ∙ ap (λ l. ids before ++ l)
            (check_window-ids c.fetch_width c.current_time c.dib_shamt c.dib from)
        ∙ sym (ids-append before from)
        ∙ ap ids (split_at_first-append test c.ifetch_buffer))

-- A core whose buffers have no more than their sizes, of which the buffer of fetches has room for `n`.
record HasRoom {B : Type 0} (n : ℕ) (c : Core B) : Type 0 where
  sizes : IsSized c
  room : length c.ifetch_buffer + n ≤ c.ifetch_buffer_size

module _ {B : Type 0} (p : Predictors B) where
  less_room : (n : ℕ) (c : Core B) → HasRoom n c → HasRoom 0 c
  less_room n c h = record { sizes = h.sizes; room = omega (arith, h.room) }

  initialize_each-HasRoom : (n : ℕ) (c : Core B) → HasRoom n c → HasRoom 0 (initialize_each p n c)
  unfolding initialize_each Inits
  initialize_each-HasRoom zero c h = h
  initialize_each-HasRoom (suc n) c h =
      list_cases (HasRoom 0) c.input_queue _ _ (λ _. less_room (suc n) c h)
        (λ i rest front.
          let (c₁, i', stop) = do_init_instruction p c i in
          let ready : Instruction = record i' { ready_time = c.current_time } in
          let pushed : Core B → Core B =
            λ k. record k { ifetch_buffer = c.ifetch_buffer ++ (ready ∷ []); input_queue = rest } in
          let size = length-append c.ifetch_buffer (ready ∷ []) in
          let (s, q, t, core, same) = do_init_instruction-Inits p c i in
          let (a, b, d, e, f) = h.sizes in
          let next : HasRoom n (pushed c₁) =
            subst (λ (k : Core B). HasRoom n (pushed k)) (sym core)
              (record {
                sizes = (a, b, d, e, omega (arith, h.room, size));
                room = omega (arith, h.room, size);
              }) in
          if_cases (HasRoom 0) (not (is_fetch_time c.current_time c.fetch_resume_time))
            (λ _. less_room (suc n) c h)
            (λ _.
              if_cases (HasRoom 0) stop (λ _. less_room n (pushed c₁) next)
                (λ _. initialize_each-HasRoom n (pushed c₁) next)))

  operate_front-IsSized : (c : Core B) → IsSized c → IsSized (operate_front p c).0
  unfolding operate_front initialize_instruction
  operate_front-IsSized c h =
      let c₁ = (decode_instruction c).0 in
      let c₂ = (promote_to_decode c₁).0 in
      let c₃ = (fetch_instruction c₂).0 in
      let c₄ = (check_dib c₃).0 in
      let h₄ = check_dib-IsSized c₃ (
        fetch_instruction-IsSized c₂
          (promote_to_decode-IsSized c₁ (decode_instruction-IsSized c h))) in
      let room = min c₄.fetch_width (c₄.ifetch_buffer_size - length c₄.ifetch_buffer) in
      (initialize_each-HasRoom room c₄ (record { sizes = h₄; room = omega (arith, h₄.4) })).sizes

  -- A cycle of the core that stops with no error, from a core in which the reorder buffer and the buffers
  -- of the fetch, the decoding, the DIB hits and the dispatch have no more instructions than their sizes:
  -- they have no more than their sizes after it, so that the room that the next cycle computes in them is
  -- never negative.
  pub operate-IsSized :
      (c c' : Core B) (progress : ℕ) → IsSized c → operate p c ≡ ok (c', progress) → IsSized c'
  unfolding operate
  operate-IsSized c c' progress h e =
      let Fits : Core B × ℕ → Type 0 = λ r. IsSized (r.0) in
      OnOk-elim Fits (operate p c) (c', progress) e
        (OnOk-bind Fits Fits (operate_back c) _ (operate_back-IsSized c h)
          (λ r k. operate_front-IsSized (r.0) k))
