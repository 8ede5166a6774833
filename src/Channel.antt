-- ===== src/Channel.antt =====
-- src/channel.cc and inc/channel.h: the three queues between two levels of the memory hierarchy, and the
-- merging of requests to one block.
-- An address is a number of 64 bits, and `slice_upper` of `shamt` bits is a division. The counts do not
-- overflow. `std::set_union` is written out.
pub mod Collision
pub mod Bounds
pub mod Checks
mod Tests
use cscore_sstelem.Prelude.{
  ℕ, zero, suc, ◌+◌, ◌/◌, ◌^◌, List, [], ◌∷◌, ◌++◌, Bool, true, false, ◌||◌, Option, none, some,
  length, ltb, leb, ◌==◌, if◌then◌else◌,
}

pub record Request : Type 0 where
  pub forward_checked : Bool
  pub is_translated : Bool
  pub response_requested : Bool
  pub asid0 : ℕ
  pub asid1 : ℕ
  pub type : ℕ
  pub pf_metadata : ℕ
  pub cpu : ℕ
  pub address : ℕ
  pub v_address : ℕ
  pub data_word : ℕ
  pub instr_id : ℕ
  pub ip : ℕ
  pub instr_depend_on_me : List ℕ

pub record Response : Type 0 where
  pub address : ℕ
  pub v_address : ℕ
  pub data_word : ℕ
  pub pf_metadata : ℕ
  pub instr_depend_on_me : List ℕ

-- `response(request req)`
unfoldable pub response_of : Request → Response
response_of req = record {
  address = req.address;
  v_address = req.v_address;
  data_word = req.data_word;
  pf_metadata = req.pf_metadata;
  instr_depend_on_me = req.instr_depend_on_me;
}

-- `cache_queue_stats`
pub record CacheQueueStats : Type 0 where
  pub rq_access : ℕ
  pub rq_merged : ℕ
  pub rq_full : ℕ
  pub rq_to_cache : ℕ
  pub pq_access : ℕ
  pub pq_merged : ℕ
  pub pq_full : ℕ
  pub pq_to_cache : ℕ
  pub wq_access : ℕ
  pub wq_merged : ℕ
  pub wq_full : ℕ
  pub wq_to_cache : ℕ
  pub wq_forward : ℕ

abbrev pub no_queue_stats : CacheQueueStats
no_queue_stats = record {
  rq_access = 0;
  rq_merged = 0;
  rq_full = 0;
  rq_to_cache = 0;
  pq_access = 0;
  pq_merged = 0;
  pq_full = 0;
  pq_to_cache = 0;
  wq_access = 0;
  wq_merged = 0;
  wq_full = 0;
  wq_to_cache = 0;
  wq_forward = 0;
}

pub record Channel : Type 0 where
  pub rq_size : ℕ
  pub pq_size : ℕ
  pub wq_size : ℕ
  pub offset_bits : ℕ
  pub match_offset_bits : Bool
  pub rq : List Request
  pub pq : List Request
  pub wq : List Request
  pub returned : List Response
  pub sim_stats : CacheQueueStats
  pub roi_stats : CacheQueueStats

unfoldable pub make_channel : ℕ → ℕ → ℕ → ℕ → Bool → Channel
make_channel rq_size pq_size wq_size offset_bits match_offset = record {
  rq_size = rq_size;
  pq_size = pq_size;
  wq_size = wq_size;
  offset_bits = offset_bits;
  match_offset_bits = match_offset;
  rq = [];
  pq = [];
  wq = [];
  returned = [];
  sim_stats = no_queue_stats;
  roi_stats = no_queue_stats;
}

-- `do_add_queue`: the queue after it, and whether there was room.
unfoldable pub do_add_queue : List Request → ℕ → Request → List Request × Bool
do_add_queue queue queue_size packet =
    if leb queue_size (length queue)
    then (queue, false)
    else (queue ++ (record packet { forward_checked = false } ∷ []), true)

unfoldable pub add_rq : Channel → Request → Channel × Bool
unfolding do_add_queue
add_rq ch packet =
    let (queue, result) = do_add_queue ch.rq ch.rq_size packet in
    let stats = record (ch.sim_stats) { rq_access = ch.sim_stats.rq_access + 1 } in
    (
      record ch {
        rq = queue;
        sim_stats =
            (if result
              then record stats { rq_to_cache = ch.sim_stats.rq_to_cache + 1 }
              else record stats { rq_full = ch.sim_stats.rq_full + 1 });
      },
      result,
    )

unfoldable pub add_wq : Channel → Request → Channel × Bool
unfolding do_add_queue
add_wq ch packet =
    let (queue, result) = do_add_queue ch.wq ch.wq_size packet in
    let stats = record (ch.sim_stats) { wq_access = ch.sim_stats.wq_access + 1 } in
    (
      record ch {
        wq = queue;
        sim_stats =
            (if result
              then record stats { wq_to_cache = ch.sim_stats.wq_to_cache + 1 }
              else record stats { wq_full = ch.sim_stats.wq_full + 1 });
      },
      result,
    )

unfoldable pub add_pq : Channel → Request → Channel × Bool
unfolding do_add_queue
add_pq ch packet =
    let (queue, result) = do_add_queue ch.pq ch.pq_size packet in
    let stats = record (ch.sim_stats) { pq_access = ch.sim_stats.pq_access + 1 } in
    (
      record ch {
        pq = queue;
        sim_stats =
            (if result
              then record stats { pq_to_cache = ch.sim_stats.pq_to_cache + 1 }
              else record stats { pq_full = ch.sim_stats.pq_full + 1 });
      },
      result,
    )
