-- ===== src/Node/Phases.antt =====
-- cscore.cc, `champsim_tick`: the filling of the input queue, and the ends of the phases of a run.
use cscore_sstelem.Prelude.{
  ℕ, zero, suc, ◌+◌, ◌%◌, ◌^◌, min, ◌≡◌, refl, ap, ◌∙◌, List, [], ◌∷◌, ◌++◌, append_assoc, Bool,
  true, false, ◌&&◌, not, length, length-append, ltb, leb, if◌then◌else◌, if_cases, arith,
}
use cscore_sstelem.Double.{Double}
use cscore_sstelem.Packet.{CsEvent, SstRequest}
use cscore_sstelem.Packet.Control.{
  is_reset_event, make_control_event, control_broadcast, control_reset_util,
}
use cscore_sstelem.Packet.Convert.{convert_request_to_event}
use cscore_sstelem.Node.{
  Node, CoreView, Call, begin_phase, reset_dram_utilization, end_phase, print_stats, ok_to_end_sim,
  is_empty, drained, fill_input_queue, fetch, advance_remote_requests, end_warmup, end_run,
  print_final_stats, finish_tick, champsim_tick,
}
use cscore_sstelem.Node.Requests.{events_of, advance_lem}

-- The input queue takes the instructions that the trace gives, in their order, as many as it has room
-- for or the trace has, and each is counted as fetched.
pub fill_input_queue_lem :
    {I : Type 0} (pkt_count : ℕ) (trace queue : List I) (fetched : ℕ)
    → let (trace', queue', fetched') = fill_input_queue pkt_count trace queue fetched in
      (queue' ++ trace' ≡ queue ++ trace)
      × (length queue' ≡ length queue + min pkt_count (length trace))
      × (fetched' + length queue ≡ fetched + length queue')
unfolding fill_input_queue
fill_input_queue_lem zero trace queue fetched = (refl, omega arith, refl)
fill_input_queue_lem (suc pkt_count) [] queue fetched = (refl, omega arith, refl)
fill_input_queue_lem (suc pkt_count) (i ∷ trace) queue fetched =
    let (kept, size, count) =
      fill_input_queue_lem pkt_count trace (queue ++ (i ∷ [])) (fetched + 1) in
    let one = length-append queue (i ∷ []) in
    (kept ∙ append_assoc queue (i ∷ []) trace, omega (arith, size, one), omega (arith, count, one))

-- The events that tell the fabric to start its statistics again.
abbrev pub resets : List CsEvent → ℕ
resets [] = 0
resets (ev ∷ evs) = (if is_reset_event ev then 1 else 0) + resets evs

-- The calls of a run so far, and the resets sent: the warm-up has ended at most once, with one reset of
-- the fabric, and then the run at most once.
pub record IsPhased {D I : Type 0} (node : Node D I) : Type 0 where
  pub calls :
      node.calls
      ≡ (if node.warmup_done then begin_phase ∷ reset_dram_utilization ∷ [] else [])
        ++ (if node.final_stats_printed then end_phase ∷ print_stats ∷ ok_to_end_sim ∷ [] else [])
  pub one_reset : resets node.sent ≡ (if node.warmup_done && node.has_link then 1 else 0)

ended :
    (calls : List Call)
    → (((calls ++ []) ++ (end_phase ∷ [])) ++ (print_stats ∷ [])) ++ (ok_to_end_sim ∷ [])
      ≡ calls ++ (end_phase ∷ print_stats ∷ ok_to_end_sim ∷ [])
ended [] = refl
ended (c ∷ calls) = ap (◌∷◌ c) (ended calls)

resets-append : (xs ys : List CsEvent) → resets (xs ++ ys) ≡ resets xs + resets ys
resets-append [] ys = omega arith
resets-append (x ∷ xs) ys = omega (arith, resets-append xs ys)

pub request_no_reset : (req : SstRequest) → is_reset_event (convert_request_to_event req) ≡ false
unfolding is_reset_event convert_request_to_event
request_no_reset req = refl

resets-events_of : (reqs : List SstRequest) → resets (events_of reqs) ≡ 0
resets-events_of [] = refl
resets-events_of (req ∷ reqs) = rw (request_no_reset req) (omega (arith, resets-events_of reqs))

pub broadcast_is_reset :
    (id : ℕ) → is_reset_event (make_control_event id control_broadcast control_reset_util) ≡ true
unfolding is_reset_event make_control_event
broadcast_is_reset id = refl

module _ {D I : Type 0} ⦃d : Double D⦄ where
  advance_keeps :
      (node : Node D I)
      → let node' = advance_remote_requests node in
        (node'.calls ≡ node.calls)
        × (node'.warmup_done ≡ node.warmup_done)
        × (node'.final_stats_printed ≡ node.final_stats_printed)
        × (node'.has_link ≡ node.has_link)
  unfolding advance_remote_requests
  advance_keeps node = ground arith

  resets-advance : (node : Node D I) → resets (advance_remote_requests node).sent ≡ resets node.sent
  resets-advance node =
      let went = advance_lem node in
      ap resets went.out_sent
      ∙ omega (arith, resets-append node.sent (events_of went.out), resets-events_of went.out)

  advance-IsPhased : (node : Node D I) → IsPhased node → IsPhased (advance_remote_requests node)
  advance-IsPhased node h =
      let (calls, done, printed, link) = advance_keeps node in
      record {
        calls = rw (calls, done, printed) (h.calls);
        one_reset = rw (resets-advance node, done, link) (h.one_reset);
      }

  end_warmup-IsPhased :
      (node : Node D I) (retired : ℕ)
      → node.final_stats_printed ≡ false
      → IsPhased node
      → IsPhased (end_warmup node retired) × ((end_warmup node retired).final_stats_printed ≡ false)
  unfolding end_warmup
  end_warmup-IsPhased node retired f h =
      if_cases (λ (n : Node D I). IsPhased n × (n.final_stats_printed ≡ false))
        (not node.warmup_done && ltb 0 node.warmup_insts && leb node.warmup_insts retired)
        (λ e.
          let not_yet : node.warmup_done ≡ false = ground arith in
          (
            record {
              calls = rw (h.calls, not_yet, f) refl;
              one_reset = ground (
                arith,
                h.one_reset,
                broadcast_is_reset node.node_id,
                resets-append node.sent
                    (make_control_event node.node_id control_broadcast control_reset_util ∷ []),
              );
            },
            f,
          ))
        (λ _. (h, f))

  end_run-IsPhased :
      (node : Node D I)
      → node.final_stats_printed ≡ false
      → IsPhased node
      → IsPhased (end_run node) × ((end_run node).final_stats_printed ≡ true)
  unfolding end_run print_final_stats
  end_run-IsPhased node f h = rw f (
    record {
      calls = rw (h.calls, f) (ended (if node.warmup_done then _ else _));
      one_reset = h.one_reset;
    },
    refl,
  )

  finish_tick-IsPhased :
      (node : Node D I) (cpu : CoreView I)
      → node.final_stats_printed ≡ false
      → IsPhased node
      → let (node', over) = finish_tick node cpu in
        IsPhased node' × (node'.final_stats_printed ≡ over)
  unfolding finish_tick
  finish_tick-IsPhased node cpu f h =
      let P = λ (r : Node D I × Bool). IsPhased r.0 × (r.0.final_stats_printed ≡ r.1) in
      let warm = end_warmup-IsPhased node cpu.num_retired f h in
      if_cases P (ltb 0 node.sim_insts)
        (λ _.
          if_cases P (leb ((node.warmup_insts + node.sim_insts) % 2 ^ 64) cpu.num_retired)
            (λ _. end_run-IsPhased (end_warmup node cpu.num_retired) warm.1 warm.0) (λ _. warm))
        (λ _.
          if_cases P (is_empty node.trace && drained cpu) (λ _. end_run-IsPhased node f h)
            (λ _. (h, f)))

  -- Every tick of a run that is not over keeps it in its phases, and the run is over exactly when the
  -- tick says so: the warm-up ends at most once, with one reset of the fabric's statistics, and before
  -- the run does, whose end prints the statistics once.
  pub champsim_tick-IsPhased :
      (node : Node D I) (cpu : CoreView I)
      → node.final_stats_printed ≡ false
      → IsPhased node
      → let (node', cpu', over) = champsim_tick node cpu in
        IsPhased node' × (node'.final_stats_printed ≡ over)
  unfolding champsim_tick fetch
  champsim_tick-IsPhased node cpu f h =
      let moved = advance-IsPhased node h in
      let (_, _, printed, _) = advance_keeps node in
      let (fed, cpu') = fetch (advance_remote_requests node) cpu in
      finish_tick-IsPhased fed cpu' (printed ∙ f)
        (record { calls = moved.calls; one_reset = moved.one_reset })
