-- ===== src/Node/Runs.antt =====
-- cscore.cc: the requests of a node over any sequence of calls of `enqueue_remote_request` and of ticks,
-- each the part of `champsim_tick` from `advance_remote_requests` on.
use mathlib.Core.List.Perm
use mathlib.Core.List.{map-append}
use cscore_sstelem.Prelude.{
  ℕ, ◌+◌, ◌%◌, ◌^◌, ◌≡◌, refl, sym, ap, subst, ◌∙◌, List, [], ◌∷◌, ◌++◌, append-nil, append_assoc,
  Perm, Bool, true, false, ◌&&◌, not, Option, none, some, if◌then◌else◌, if_cases, ltb, leb,
}
use cscore_sstelem.Double.{Double}
use cscore_sstelem.LatBwQueue
use cscore_sstelem.LatBwQueue.{LatBwQueue}
use cscore_sstelem.Packet.{CsEvent, SstRequest}
use cscore_sstelem.Packet.Control.{
  is_reset_event, make_control_event, control_broadcast, control_reset_util,
}
use cscore_sstelem.Packet.Convert.{convert_request_to_event}
use cscore_sstelem.Node.{
  Node, CoreView, enqueue_remote_request, advance_remote_requests, is_empty, drained, fetch,
  end_warmup, end_run, print_final_stats, finish_tick, champsim_tick,
}
use cscore_sstelem.Node.Requests.{unsent, unsent_of, events_of, enqueue_lem, advance_lem}
use cscore_sstelem.Node.Phases.{request_no_reset, broadcast_is_reset}

-- The events that are not resets of the fabric's statistics.
unfoldable pub without_resets : List CsEvent → List CsEvent
without_resets [] = []
without_resets (ev ∷ evs) =
    let rest = without_resets evs in if is_reset_event ev then rest else ev ∷ rest

keep_or_drop :
    (b : Bool) (ev : CsEvent) (xs ys : List CsEvent)
    → (if b then xs ++ ys else ev ∷ (xs ++ ys)) ≡ (if b then xs else ev ∷ xs) ++ ys
keep_or_drop true ev xs ys = refl
keep_or_drop false ev xs ys = refl

without_resets-append :
    (xs ys : List CsEvent) → without_resets (xs ++ ys) ≡ without_resets xs ++ without_resets ys
unfolding without_resets
without_resets-append [] ys = refl
without_resets-append (x ∷ xs) ys =
    rw (without_resets-append xs ys)
      (keep_or_drop (is_reset_event x) x (without_resets xs) (without_resets ys))

without_resets-events_of :
    (reqs : List SstRequest) → without_resets (events_of reqs) ≡ events_of reqs
unfolding without_resets
without_resets-events_of [] = refl
without_resets-events_of (req ∷ reqs) =
    rw (request_no_reset req, without_resets-events_of reqs) refl

-- What became of the requests: but for resets, the events sent since are those of `out`, in this order,
-- and the requests that are not sent are the others of `before`.
pub record Carried {D I : Type 0} (before : List SstRequest) (sent : List CsEvent) (node : Node D I)
    : Type 0 where
  pub out : List SstRequest
  pub out_sent : without_resets node.sent ≡ without_resets sent ++ events_of out
  pub kept : Perm (out ++ unsent node) before

-- What the last-level cache and the clock do to the node's requests. `CoreView` is the core after its
-- own step of the tick.
pub data Operation (I : Type 0) : Type 0 where
  enqueue : SstRequest → Operation I
  tick : CoreView I → Operation I

reset_queue-unsent_of :
    {D : Type 0} ⦃d : Double D⦄ (box : List SstRequest) (queue : Option (LatBwQueue D SstRequest))
    → unsent_of box (elim queue [ none ↦ none | some q ↦ some (LatBwQueue.reset_utilization q) ])
      ≡ unsent_of box queue
unfolding unsent_of LatBwQueue.reset_utilization
reset_queue-unsent_of box none = refl
reset_queue-unsent_of box (some q) = refl

module _ {D I : Type 0} ⦃d : Double D⦄ where
  -- A sequence of operations: the node after it, and the requests that it accepted, in order.
  unfoldable pub run : Node D I → List (Operation I) → Node D I × List SstRequest
  run node [] = (node, [])
  run node (enqueue req ∷ ops) =
      let (node', accepted) = enqueue_remote_request node req in
      let (last, reqs) = run node' ops in (last, if accepted then req ∷ reqs else reqs)
  run node (tick cpu ∷ ops) = run (champsim_tick node cpu).0 ops

  -- The requests that wait, and the events sent but for resets, are the same.
  abbrev Same : Node D I → Node D I → Type 0
  Same node node' =
      (unsent node' ≡ unsent node) × (without_resets node'.sent ≡ without_resets node.sent)

  reset_sent :
      (node : Node D I)
      → without_resets (
          if node.has_link
          then node.sent
            ++ (make_control_event node.node_id control_broadcast control_reset_util ∷ [])
          else node.sent)
        ≡ without_resets node.sent
  unfolding without_resets
  reset_sent node =
      let ctrl = make_control_event node.node_id control_broadcast control_reset_util in
      if_cases (λ (evs : List CsEvent). without_resets evs ≡ without_resets node.sent) node.has_link
        (λ _.
          without_resets-append node.sent (ctrl ∷ [])
          ∙ rw (broadcast_is_reset node.node_id) (append-nil (without_resets node.sent)))
        (λ _. refl)

  end_warmup-Same : (node : Node D I) (retired : ℕ) → Same node (end_warmup node retired)
  unfolding end_warmup
  end_warmup-Same node retired =
      if_cases (λ (n : Node D I). Same node n)
        (not node.warmup_done && ltb 0 node.warmup_insts && leb node.warmup_insts retired)
        (λ _. (reset_queue-unsent_of node.remote_outbox node.remote_link_queue, reset_sent node))
        (λ _. (refl, refl))

  end_run-Same : (node : Node D I) → Same node (end_run node)
  unfolding end_run print_final_stats
  end_run-Same node =
      if_cases (λ (n : Node D I). Same node n) node.final_stats_printed (λ _. (refl, refl))
        (λ _. (refl, refl))

  finish_tick-Same : (node : Node D I) (cpu : CoreView I) → Same node (finish_tick node cpu).0
  unfolding finish_tick
  finish_tick-Same node cpu =
      let warm = end_warmup-Same node cpu.num_retired in
      let over = end_run-Same (end_warmup node cpu.num_retired) in
      if_cases (λ (r : Node D I × Bool). Same node r.0) (ltb 0 node.sim_insts)
        (λ _.
          if_cases (λ (r : Node D I × Bool). Same node r.0)
            (leb ((node.warmup_insts + node.sim_insts) % 2 ^ 64) cpu.num_retired)
            (λ _. (over.0 ∙ warm.0, over.1 ∙ warm.1)) (λ _. warm))
        (λ _.
          if_cases (λ (r : Node D I × Bool). Same node r.0) (is_empty node.trace && drained cpu)
            (λ _. end_run-Same node) (λ _. (refl, refl)))

  champsim_tick-Carried :
      (node : Node D I) (cpu : CoreView I)
      → Carried (unsent node) node.sent (champsim_tick node cpu).0
  unfolding champsim_tick fetch
  champsim_tick-Carried node cpu =
      let went = advance_lem node in
      let (fed, cpu') = fetch (advance_remote_requests node) cpu in
      let (still, evs) = finish_tick-Same fed cpu' in
      record {
        out = went.out;
        out_sent =
            evs
            ∙ ap without_resets went.out_sent
            ∙ without_resets-append node.sent (events_of went.out)
            ∙ ap (λ l. without_resets node.sent ++ l) (without_resets-events_of went.out);
        kept = subst (λ l. Perm (went.out ++ l) (unsent node)) (sym still) went.kept;
      }

accepted_front :
    (before later : List SstRequest) (req : SstRequest) (accepted : Bool)
    → (before ++ (if accepted then req ∷ [] else [])) ++ later
      ≡ before ++ (if accepted then req ∷ later else later)
accepted_front before later req true = append_assoc before (req ∷ []) later
accepted_front before later req false = append_assoc before [] later

module _ {D I : Type 0} ⦃d : Double D⦄ where
  -- Whatever requests come and whenever the clock ticks, through the end of the warm-up and of the run:
  -- but for the resets of the fabric's statistics, the events that the node has sent are those of some
  -- requests, and these with the ones it still holds are exactly those it held at first and those it
  -- accepted. None is lost, made up or sent twice, with a link queue and without.
  pub run-Carried :
      (node : Node D I) (ops : List (Operation I))
      → let (last, accepted) = run node ops in Carried (unsent node ++ accepted) node.sent last
  unfolding run
  run-Carried node [] = record {
    out = [];
    out_sent = sym (append-nil (without_resets node.sent));
    kept = rw (append-nil (unsent node)) Perm.rfl;
  }
  run-Carried node (enqueue req ∷ ops) =
      let (node', accepted) = enqueue_remote_request node req in
      let (same, waiting) = enqueue_lem node req in
      let later = run-Carried node' ops in
      record {
        out = later.out;
        out_sent =
            later.out_sent
            ∙ ap (λ (sent : List CsEvent). without_resets sent ++ events_of later.out) same;
        kept =
            subst (Perm (later.out ++ unsent (run node' ops).0))
              (ap (λ (reqs : List SstRequest). reqs ++ (run node' ops).1) waiting
                ∙ accepted_front (unsent node) (run node' ops).1 req accepted)
              later.kept;
      }
  run-Carried node (tick cpu ∷ ops) =
      let node' = (champsim_tick node cpu).0 in
      let first = champsim_tick-Carried node cpu in
      let later = run-Carried node' ops in
      let (last, accepted) = run node' ops in
      record {
        out = first.out ++ later.out;
        out_sent =
            later.out_sent
            ∙ ap (λ (evs : List CsEvent). evs ++ events_of later.out) first.out_sent
            ∙ append_assoc (without_resets node.sent) (events_of first.out) (events_of later.out)
            ∙ ap (λ (evs : List CsEvent). without_resets node.sent ++ evs)
                (sym (map-append convert_request_to_event first.out later.out));
        kept = rw (append_assoc first.out later.out (unsent last)) (
            Perm.trans (Perm.append_left first.out later.kept) (
              rw (← append_assoc first.out (unsent node') accepted)
                (Perm.append_right accepted first.kept)));
      }
