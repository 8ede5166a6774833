-- ===== src/MemoryController/Tests.antt =====
-- A channel with one read and one write, and the queue of a controller of whole bytes.
use mathlib.Core.List
use cscore_sstelem.Prelude.{ℕ, ◌+◌, ◌≡◌, refl, List, [], ◌∷◌, ◌++◌, map, Perm, false, true, length}
use cscore_sstelem.Prelude.Int.{pos}
use cscore_sstelem.Double.{nat_double}
use cscore_sstelem.LatBwQueue
use cscore_sstelem.LatBwQueue.{LatBwQueue}
use cscore_sstelem.LatBwQueue.Conservation.{pending, in_flight}
use cscore_sstelem.Channel.{Channel, Request, make_channel, response_of}
use cscore_sstelem.MemoryController.{make_controller_queue, operate_channel}
use cscore_sstelem.MemoryController.Flow.{wanting, operate_channel_lem}

abbrev a_read : Request
a_read = record {
  forward_checked = false;
  is_translated = true;
  response_requested = true;
  asid0 = 255;
  asid1 = 255;
  type = 0;
  pf_metadata = 0;
  cpu = 0;
  address = 4096;
  v_address = 4096;
  data_word = 0;
  instr_id = 1;
  ip = 0;
  instr_depend_on_me = 1 ∷ [];
}

unfoldable channel : Channel
unfolding make_channel
channel = record (make_channel 4 4 4 6 false) {
  rq = a_read ∷ [];
  wq = record a_read { type = 3; response_requested = false } ∷ [];
}

unfoldable queue : LatBwQueue ℕ Request
unfolding make_controller_queue
queue = make_controller_queue (pos 1) (λ _. pos 2)

operate_channel_lem_example :
    let (ch', q', progress) = operate_channel channel queue in
    let completed = (LatBwQueue.on_tick queue).1 in
    ((taken waiting : List Request) × (pending queue ≡ taken ++ waiting)
      × (pending q' ≡ waiting ++ (channel.rq ++ (channel.pq ++ channel.wq)))
      × Perm (completed ++ in_flight q') (taken ++ in_flight queue))
    × (ch'.returned ≡ channel.returned ++ List.reverse (map response_of (wanting completed)))
    × (ch'.rq ≡ [])
    × (ch'.pq ≡ [])
    × (ch'.wq ≡ [])
    × (progress ≡ length completed + length channel.rq + length channel.pq + length channel.wq)
    × (q'.max_pending ≡ pos 0)
unfolding queue
operate_channel_lem_example = operate_channel_lem channel queue refl
