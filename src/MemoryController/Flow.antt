-- ===== src/MemoryController/Flow.antt =====
-- src/my_memory_controller.cc, `operate`: no request is lost, made up or changed between the channel,
-- the queue and the responses.
use mathlib.Core.List
use mathlib.Core.List.Perm
use mathlib.Core.List.{reverse-cons}
use cscore_sstelem.Prelude.{
  ◌+◌, ◌≡◌, refl, ap, sym, ◌∙◌, List, [], ◌∷◌, ◌++◌, false, length, map, Perm, if◌then◌else◌,
  append_assoc, append-nil, Bool-cases, inl, inr, subst,
}
use cscore_sstelem.Prelude.Int.{pos}
use cscore_sstelem.Double.{Double}
use cscore_sstelem.LatBwQueue
use cscore_sstelem.LatBwQueue.{LatBwQueue}
use cscore_sstelem.LatBwQueue.Capacity.{max_pending-on_tick, max_pending-add_packet}
use cscore_sstelem.LatBwQueue.Conservation.{pending, in_flight, on_tick-Moved, add_packet_accepted}
use cscore_sstelem.Channel.{Channel, Request, response_of}
use cscore_sstelem.MemoryController.{drain_into_queue, operate_channel, responses}

-- The requests that want a response, in order.
unfoldable pub wanting : List Request → List Request
wanting [] = []
wanting (req ∷ reqs) =
    let rest = wanting reqs in if req.response_requested then req ∷ rest else rest

responses-wanting :
    (reqs : List Request) → responses reqs ≡ List.reverse (map response_of (wanting reqs))
unfolding responses wanting
responses-wanting [] = refl
responses-wanting (req ∷ reqs) = elim (Bool-cases req.response_requested) [
  | inl wants ↦
      rw (wants, responses-wanting reqs)
        (sym (reverse-cons (response_of req) (map response_of (wanting reqs))))
  | inr silent ↦ rw (silent, responses-wanting reqs) (append-nil _)
]

module _ {D : Type 0} ⦃d : Double D⦄ where
  is_full-unlimited :
      (q : LatBwQueue D Request) → q.max_pending ≡ pos 0 → LatBwQueue.is_full q ≡ false
  unfolding LatBwQueue.is_full
  is_full-unlimited q h = rw h refl

  -- Requests enter a queue with no limit behind those that wait in it, and the packets in flight stay.
  drain_into_queue-pending :
      (q : LatBwQueue D Request) (reqs : List Request)
      → q.max_pending ≡ pos 0
      → let q' = drain_into_queue q reqs in
        (pending q' ≡ pending q ++ reqs) × (in_flight q' ≡ in_flight q) × (q'.max_pending ≡ pos 0)
  unfolding drain_into_queue
  drain_into_queue-pending q [] h = (sym (append-nil (pending q)), refl, h)
  drain_into_queue-pending q (req ∷ reqs) h =
      let (_, waits, stays) = add_packet_accepted q req (is_full-unlimited q h) in
      let (waits', stays', m) =
        drain_into_queue-pending (LatBwQueue.add_packet q req).0 reqs
          (max_pending-add_packet q req ∙ h) in
      (
        waits' ∙ ap (λ l. l ++ reqs) waits ∙ append_assoc (pending q) (req ∷ []) reqs,
        stays' ∙ stays,
        m,
      )

  -- In one call every request that waits in the three queues of the channel enters the latency and
  -- bandwidth queue, which has no limit, as it is, behind those that wait there: the reads, then the
  -- prefetches, then the writes. Before that the call takes some requests off the front of those that
  -- wait; with those in flight before the call they are the completed ones and those in flight after
  -- it. The responses of the completed requests that want one join the channel's, the last one first.
  -- The three queues are empty afterwards, and the progress counts the completed and the new requests.
  pub operate_channel_lem :
      (ch : Channel) (q : LatBwQueue D Request)
      → q.max_pending ≡ pos 0
      → let (ch', q', progress) = operate_channel ch q in
        let completed = (LatBwQueue.on_tick q).1 in
        ((taken waiting : List Request) × (pending q ≡ taken ++ waiting)
          × (pending q' ≡ waiting ++ (ch.rq ++ (ch.pq ++ ch.wq)))
          × Perm (completed ++ in_flight q') (taken ++ in_flight q))
        × (ch'.returned ≡ ch.returned ++ List.reverse (map response_of (wanting completed)))
        × (ch'.rq ≡ [])
        × (ch'.pq ≡ [])
        × (ch'.wq ≡ [])
        × (progress ≡ length completed + length ch.rq + length ch.pq + length ch.wq)
        × (q'.max_pending ≡ pos 0)
  unfolding operate_channel
  operate_channel_lem ch q h =
      let (ticked, completed) = LatBwQueue.on_tick q in
      let moved = on_tick-Moved q in
      let (r, r_stays, r_max) = drain_into_queue-pending ticked ch.rq (max_pending-on_tick q ∙ h) in
      let (p, p_stays, p_max) =
        drain_into_queue-pending (drain_into_queue ticked ch.rq) ch.pq r_max in
      let (w, w_stays, w_max) =
        drain_into_queue-pending (drain_into_queue (drain_into_queue ticked ch.rq) ch.pq) ch.wq
          p_max in
      (
        (
          moved.taken,
          pending ticked,
          moved.from_front,
          w
              ∙ ap (λ l. l ++ ch.wq) (p ∙ ap (λ l. l ++ ch.pq) r)
              ∙ append_assoc (pending ticked ++ ch.rq) ch.pq ch.wq
              ∙ append_assoc (pending ticked) ch.rq (ch.pq ++ ch.wq),
          subst (λ l. Perm (completed ++ l) (moved.taken ++ in_flight q))
              (sym (w_stays ∙ p_stays ∙ r_stays)) moved.kept,
        ),
        ap (λ l. ch.returned ++ l) (responses-wanting completed),
        refl,
        refl,
        refl,
        refl,
        w_max,
      )
