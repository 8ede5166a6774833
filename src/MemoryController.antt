-- ===== src/MemoryController.antt =====
-- src/my_memory_controller.cc and inc/my_memory_controller.h: a memory controller puts the requests of
-- each channel through a latency and bandwidth queue. Its pointers to channels are not null.
pub mod Flow
mod Tests
use cscore_sstelem.Prelude.{
  ℕ, zero, suc, ◌+◌, List, [], ◌∷◌, ◌++◌, Bool, true, false, none, some, length, map, ltb, leb,
  ◌==◌, if◌then◌else◌,
}
use cscore_sstelem.Prelude.Int.{ℤ, pos, ltb_ℤ, pos_part}
use cscore_sstelem.Double.{Double, nought}
use cscore_sstelem.LatBwQueue
use cscore_sstelem.LatBwQueue.{LatBwQueue}
use cscore_sstelem.Channel.{Channel, Request, Response, response_of}

-- The responses of completed requests, the last one first.
unfoldable pub responses : List Request → List Response
unfolding response_of
responses [] = []
responses (req ∷ reqs) =
    responses reqs ++ (if req.response_requested then response_of req ∷ [] else [])

module _ {D : Type 0} ⦃d : Double D⦄ where
  unfoldable pub estimate_latency_utilization_based : D → ℤ
  estimate_latency_utilization_based util =
      let at_least = λ (tenths : ℕ). d.le (d.div (d.of_nat tenths) (d.of_nat 10)) util in
      if at_least 7
      then pos 480
      else if at_least 6
      then pos 360
      else if at_least 5
      then pos 240
      else if at_least 3
      then pos 120
      else pos 72

  -- The queue that the constructor makes for each channel.
  unfoldable pub make_controller_queue : ℤ → (D → ℤ) → LatBwQueue D Request
  unfolding LatBwQueue.make_queue
  make_controller_queue bw_cycles_per_req latency =
      LatBwQueue.make_queue
        (if ltb_ℤ (pos 0) bw_cycles_per_req
          then d.div (d.of_nat 64) (d.of_nat (pos_part bw_cycles_per_req))
          else nought)
        latency (some (λ _. d.of_nat 64)) (pos 0)

  -- `drain_into_queue`, over the requests of one queue of the channel.
  unfoldable pub drain_into_queue : LatBwQueue D Request → List Request → LatBwQueue D Request
  drain_into_queue q [] = q
  drain_into_queue q (req ∷ reqs) = drain_into_queue (LatBwQueue.add_packet q req).0 reqs

  -- `operate`, for one channel: the channel, its queue, and the progress made.
  unfoldable pub operate_channel :
      Channel → LatBwQueue D Request → Channel × LatBwQueue D Request × ℕ
  unfolding responses drain_into_queue
  operate_channel ch q =
      let (ticked, completed) = LatBwQueue.on_tick q in
      (
        record ch { rq = []; pq = []; wq = []; returned = ch.returned ++ responses completed },
        drain_into_queue (drain_into_queue (drain_into_queue ticked ch.rq) ch.pq) ch.wq,
        length completed + length ch.rq + length ch.pq + length ch.wq,
      )

  unfoldable pub operate :
      List (Channel × LatBwQueue D Request) → List (Channel × LatBwQueue D Request) × ℕ
  unfolding operate_channel
  operate [] = ([], 0)
  operate ((ch, q) ∷ rest) =
      let (ch', q', progress) = operate_channel ch q in
      let (rest', more) = operate rest in ((ch', q') ∷ rest', progress + more)

  unfoldable pub reset_controller : List (LatBwQueue D Request) → List (LatBwQueue D Request)
  reset_controller qs = map (λ (q : LatBwQueue D Request). LatBwQueue.reset_utilization q) qs
