-- ===== src/Core/Order/Promotion.antt =====
-- src/ooo_cpu.cc, `promote_to_decode`: fetched instructions go on in their order, through one buffer or
-- through two.
use cscore_sstelem.Prelude.{
  ℕ, suc, ◌-◌, ◌≤◌, ◌≡◌, refl, ap, ap₂, subst, sym, ◌∙◌, List, [], ◌∷◌, ◌++◌, append_assoc, map,
  Bool, false, ◌&&◌, length, leb, ◌==◌, if◌then◌else◌, if_cases, arith, length-append, length-map,
}
use cscore_sstelem.Span.{span_while, span_while-append, length-span_while}
use cscore_sstelem.Core.{Instruction, Core}
use cscore_sstelem.Core.Ascending.{
  Ascending, AllBelow, Ascending-split, AllBelow-split, merge_ids, merge_ids-later, merge-AllBelow,
}
use cscore_sstelem.Core.Reorder.{ids, ids-append, ids-map, parts-merge}
use cscore_sstelem.Core.Ascending.{AllBelow-merge}
use cscore_sstelem.Core.Decode.{
  decoded_part, undecoded_part, promote_to_decode, promote_width, mark_for_decode, mark_for_dib,
}
use cscore_sstelem.Core.Order.{in_flight, IsPiped, Flows, no_more, no_hits, buffers_order}

pub length-decoded_part : (is : List Instruction) → length (decoded_part is) ≤ length is
unfolding decoded_part
length-decoded_part [] = omega arith
length-decoded_part (i ∷ is) =
    if_cases (λ (l : List Instruction). length l ≤ suc (length is)) i.decoded
      (λ _. omega (arith, length-decoded_part is)) (λ _. omega (arith, length-decoded_part is))

module _ {B : Type 0} where
  promote_flow :
      (c : Core B) (xs ys left : List Instruction) (window : List ℕ)
      → merge_ids (ids xs) (ids ys)
        ≡ merge_ids (ids c.dib_hit_buffer) (ids c.decode_buffer) ++ window
      → ids c.ifetch_buffer ≡ window ++ ids left
      → in_flight c
        ≡ in_flight (record c { dib_hit_buffer = xs; decode_buffer = ys; ifetch_buffer = left })
  promote_flow c xs ys left window e f =
      let buffers = merge_ids (ids c.dib_hit_buffer) (ids c.decode_buffer) in
      let queue = ids c.input_queue in
      ap (λ l. ids c.rob ++ (ids c.dispatch_buffer ++ l))
        (ap (λ l. buffers ++ (l ++ queue)) f
          ∙ ap (λ l. buffers ++ l) (append_assoc window (ids left) queue)
          ∙ sym (append_assoc buffers window (ids left ++ queue))
          ∙ ap (λ l. l ++ (ids left ++ queue)) (sym e))

  -- Instructions in order, below which both buffers are, go to the two by whether they are decoded.
  both_merge :
      (c : Core B) (window : List Instruction)
      → Ascending (ids window)
      → AllBelow (merge_ids (ids c.dib_hit_buffer) (ids c.decode_buffer)) (ids window)
      → merge_ids
          (ids (c.dib_hit_buffer ++ map (mark_for_dib c) (decoded_part window)))
          (ids (c.decode_buffer ++ map (mark_for_decode c) (undecoded_part window)))
        ≡ merge_ids (ids c.dib_hit_buffer) (ids c.decode_buffer) ++ ids window
  both_merge c window h below =
      let hit = ids c.dib_hit_buffer in
      let missed = ids c.decode_buffer in
      let us = ids (decoded_part window) in
      let vs = ids (undecoded_part window) in
      let parts = parts-merge window h in
      let (hb, mb) = merge-AllBelow hit missed (ids window) below in
      let (hu, hv) = AllBelow-merge hit us vs (subst (AllBelow hit) (sym parts) hb) in
      let (mu, mv) = AllBelow-merge missed us vs (subst (AllBelow missed) (sym parts) mb) in
      ap₂ merge_ids
        (ids-append c.dib_hit_buffer _
          ∙ ap (λ l. hit ++ l) (ids-map (mark_for_dib c) (decoded_part window) (λ i. refl)))
        (ids-append c.decode_buffer _
          ∙ ap (λ l. missed ++ l) (ids-map (mark_for_decode c) (undecoded_part window) (λ i. refl)))
      ∙ merge_ids-later hit missed us vs hu hv mu mv
      ∙ ap (λ l. merge_ids hit missed ++ l) parts

  one_merge :
      (c : Core B) (mark : Instruction → Instruction) (window : List Instruction)
      → c.dib_hit_buffer ≡ []
      → ((i : Instruction) → (mark i).instr_id ≡ i.instr_id)
      → merge_ids (ids c.dib_hit_buffer) (ids (c.decode_buffer ++ map mark window))
        ≡ merge_ids (ids c.dib_hit_buffer) (ids c.decode_buffer) ++ ids window
  one_merge c mark window e same =
      let merged = no_hits c.dib_hit_buffer e in
      merged (ids (c.decode_buffer ++ map mark window))
      ∙ ids-append c.decode_buffer (map mark window)
      ∙ ap₂ ◌++◌ (sym (merged (ids c.decode_buffer))) (ids-map mark window same)

  promote_width-le :
      (c : Core B)
      → c.dib_hit_buffer_size == 0 ≡ false
      → promote_width c ≤ c.dib_hit_buffer_size - length c.dib_hit_buffer
  promote_width-le c e = ground arith

  pub promote_to_decode-Flows : (c : Core B) → IsPiped c → Flows c [] (promote_to_decode c).0
  unfolding promote_to_decode
  promote_to_decode-Flows c h =
      let test : Instruction → Bool = λ x. x.fetch_completed && leb x.ready_time c.current_time in
      let (window, left) = span_while test (promote_width c) c.ifetch_buffer in
      let few = length-span_while test (promote_width c) c.ifetch_buffer in
      let whole : ids c.ifetch_buffer ≡ ids window ++ ids left =
        ap ids (sym (span_while-append test (promote_width c) c.ifetch_buffer))
        ∙ ids-append window left in
      let (_, order, below) = buffers_order c h in
      let buffers = merge_ids (ids c.dib_hit_buffer) (ids c.decode_buffer) in
      let windowed = (Ascending-split (ids window) (ids left) (subst Ascending whole order)).0 in
      let apart =
        (AllBelow-split buffers (ids window) (ids left) (subst (AllBelow buffers) whole below)).0 in
      let mark : Instruction → Instruction =
        λ i. if i.decoded then mark_for_dib c i else mark_for_decode c i in
      if_cases (Flows c []) (c.dib_hit_buffer_size == 0)
        (λ e. record {
          flow =
              promote_flow c c.dib_hit_buffer (c.decode_buffer ++ map mark window) left (ids window)
                (one_merge c mark window
                  (no_more c.dib_hit_buffer c.dib_hit_buffer_size h.within (ground (arith, e)))
                  (λ i.
                    if_cases (λ (j : Instruction). j.instr_id ≡ i.instr_id) i.decoded (λ _. refl)
                      (λ _. refl)))
                whole;
          counted = omega arith;
          room = λ w. w;
          width = refl;
        })
        (λ e. record {
          flow =
              promote_flow c (c.dib_hit_buffer ++ map (mark_for_dib c) (decoded_part window))
                (c.decode_buffer ++ map (mark_for_decode c) (undecoded_part window)) left
                (ids window) (both_merge c window windowed apart) whole;
          counted = omega arith;
          room = λ w. omega (
            arith,
            w,
            few,
            promote_width-le c e,
            length-decoded_part window,
            length-append c.dib_hit_buffer (map (mark_for_dib c) (decoded_part window)),
            length-map (decoded_part window) (mark_for_dib c),
          );
          width = refl;
        })
