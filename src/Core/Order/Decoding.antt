-- ===== src/Core/Order/Decoding.antt =====
-- src/ooo_cpu.cc, `decode_instruction`: the instructions go on to the dispatch in their order.
use cscore_sstelem.Prelude.{
  ℕ, ◌+◌, ◌-◌, ◌≤◌, ◌≡◌, refl, ap, ap₂, subst, sym, ◌∙◌, List, [], ◌∷◌, ◌++◌, append_assoc, map,
  Bool, length, min, leb, ◌==◌, Option, if_cases, arith, length-append, length-map,
}
use cscore_sstelem.LruTable.{LruTable}
use cscore_sstelem.Span.{span_while, span_while-append}
use cscore_sstelem.Core.{Instruction, Core}
use cscore_sstelem.Core.Ascending.{merge_ids}
use cscore_sstelem.Core.Reorder.{ids, ids-append, ids-map, ids-merge}
use cscore_sstelem.Core.Reorder.Decoding.{pick-Picks}
use cscore_sstelem.Core.Decode.{
  merge, pick, do_decode, decode_each, decode_in_order, decode_merging, decode_instruction,
  do_dib_hit, resumes_at_decode,
}
use cscore_sstelem.Core.Order.{in_flight, IsPiped, Flows, no_more, no_hits, buffers_order}

left-length :
    (taken left all : List Instruction) → ids all ≡ ids taken ++ ids left → length left ≤ length all
left-length taken left all e =
    let sizes : length (ids all) ≡ length (ids taken) + length (ids left) =
      ap length e ∙ length-append (ids taken) (ids left) in
    omega (
      arith,
      sizes,
      length-map all (λ (i : Instruction). i.instr_id),
      length-map left (λ (i : Instruction). i.instr_id),
    )

module _ {B : Type 0} where
  -- Decoding changes the DIB and the time at which the fetch resumes, and no ids.
  abbrev pub Decodes : Core B → List Instruction → Core B × List Instruction → Type 0
  Decodes c is r =
      (d : LruTable ℕ) × (t : Option ℕ) × (r.0 ≡ record c { dib = d; fetch_resume_time = t })
      × (ids r.1 ≡ ids is)

  do_decode-Decodes :
      (c : Core B) (i : Instruction)
      → (d : LruTable ℕ) × (t : Option ℕ) × ((do_decode c i).0
          ≡ record c { dib = d; fetch_resume_time = t })
        × ((do_decode c i).1.instr_id ≡ i.instr_id)
  unfolding do_decode
  do_decode-Decodes c i =
      if_cases
        (λ (r : Core B × Instruction).
          (d : LruTable ℕ) × (t : Option ℕ) × (r.0 ≡ record c { dib = d; fetch_resume_time = t })
          × ((r.1).instr_id ≡ i.instr_id))
        (resumes_at_decode i) (λ _. (_, _, refl, refl)) (λ _. (_, _, refl, refl))

  pub decode_each-Decodes : (c : Core B) (is : List Instruction) → Decodes c is (decode_each c is)
  unfolding decode_each do_decode
  decode_each-Decodes c [] = (c.dib, c.fetch_resume_time, refl, refl)
  decode_each-Decodes c (i ∷ is) =
      let (d, t, e, f) = do_decode-Decodes c i in
      let c₁ = (do_decode c i).0 in
      let (d', t', e', f') = decode_each-Decodes c₁ is in
      (
        d',
        t',
        e' ∙ ap (λ (k : Core B). record k { dib = d'; fetch_resume_time = t' }) e,
        ap₂ ◌∷◌ f f',
      )

  decoded_flow :
      (c : Core B) (moved xs ys : List Instruction)
      → merge_ids (ids c.dib_hit_buffer) (ids c.decode_buffer)
        ≡ ids moved ++ merge_ids (ids xs) (ids ys)
      → in_flight c
        ≡ in_flight (record c {
          dispatch_buffer = c.dispatch_buffer ++ moved;
          decode_buffer = ys;
          dib_hit_buffer = xs;
        })
  decoded_flow c moved xs ys e =
      let behind = ids c.ifetch_buffer ++ ids c.input_queue in
      let left = merge_ids (ids xs) (ids ys) in
      let queued = ids c.dispatch_buffer in
      ap (λ l. ids c.rob ++ l)
        (ap (λ l. queued ++ (l ++ behind)) e
          ∙ ap (λ l. queued ++ l) (append_assoc (ids moved) left behind)
          ∙ sym (append_assoc queued (ids moved) (left ++ behind))
          ∙ ap (λ l. l ++ (left ++ behind)) (sym (ids-append c.dispatch_buffer moved)))

  decode_in_order-Flows :
      (c : Core B) → IsPiped c → c.dib_hit_buffer_size ≡ 0 → Flows c [] (decode_in_order c).0
  unfolding decode_in_order
  decode_in_order-Flows c h e =
      let test : Instruction → Bool = λ x. leb x.ready_time c.current_time in
      let n =
        min c.decode_width
          (min c.decode_width (c.dispatch_buffer_size - length c.dispatch_buffer)) in
      let (taken, left) = span_while test n c.decode_buffer in
      let decoded = (decode_each c taken).1 in
      let (d, t, core, same) = decode_each-Decodes c taken in
      let merged =
        no_hits c.dib_hit_buffer (no_more c.dib_hit_buffer c.dib_hit_buffer_size h.within e) in
      let moves =
        merged (ids c.decode_buffer)
        ∙ ap ids (sym (span_while-append test n c.decode_buffer))
        ∙ ids-append taken left
        ∙ ap₂ ◌++◌ (sym same) (sym (merged (ids left))) in
      subst
        (λ (k : Core B).
          Flows c []
            (record k { dispatch_buffer = c.dispatch_buffer ++ decoded; decode_buffer = left }))
        (sym core)
        (record {
          flow = decoded_flow c decoded c.dib_hit_buffer left moves;
          counted = omega arith;
          room = λ w. w;
          width = refl;
        })

  decode_merging-Flows : (c : Core B) → IsPiped c → Flows c [] (decode_merging c).0
  unfolding decode_merging
  decode_merging-Flows c h =
      let n = min c.dib_inorder_width (c.dispatch_buffer_size - length c.dispatch_buffer) in
      let p = pick c.current_time n c.decode_width c.dib_hit_buffer c.decode_buffer in
      let hits = map (do_dib_hit c) p.dib_taken in
      let decoded = (decode_each c p.decode_taken).1 in
      let (d, t, core, same) = decode_each-Decodes c p.decode_taken in
      let (dib, _, whole) =
        pick-Picks c.current_time n c.decode_width c.dib_hit_buffer c.decode_buffer
          (buffers_order c h).0 in
      let moved =
        ids-merge hits decoded
        ∙ ap₂ merge_ids (ids-map (do_dib_hit c) p.dib_taken (λ i. refl)) same in
      let few = left-length p.dib_taken p.dib_left c.dib_hit_buffer dib in
      subst
        (λ (k : Core B). Flows c [] (record k {
          dispatch_buffer = c.dispatch_buffer ++ merge hits decoded;
          decode_buffer = p.decode_left;
          dib_hit_buffer = p.dib_left;
        }))
        (sym core)
        (record {
          flow =
              decoded_flow c (merge hits decoded) p.dib_left p.decode_left
                (whole ∙ ap (λ l. l ++ merge_ids (ids p.dib_left) (ids p.decode_left)) (sym moved));
          counted = omega arith;
          room = λ w. omega (arith, few, w);
          width = refl;
        })

  pub decode_instruction-Flows : (c : Core B) → IsPiped c → Flows c [] (decode_instruction c).0
  unfolding decode_instruction
  decode_instruction-Flows c h =
      if_cases (λ (r : Core B × ℕ). Flows c [] r.0) (c.dib_hit_buffer_size == 0)
        (λ e. decode_in_order-Flows c h (ground (arith, e))) (λ _. decode_merging-Flows c h)
